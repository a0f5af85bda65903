-- ===== src/LoopBuffer/Write.antt =====
-- `write` never faults on a valid buffer, appends all of the bytes or nothing, and keeps it valid.
use g_max_linked.Base.{
  ℕ, ◌+◌, ◌-◌, ◌≤◌, ◌<◌, ◌≡◌, Bool, true, false, not, ◌&&◌, ◌||◌, some, List, arith, ltb, leb,
  if◌then◌else◌, length, take, drop, length-take, length-drop,
}
use g_max_linked.Base.Bytes.{length-splice, splice}
use g_max_linked.LoopBuffer.{LoopBuffer, write, write_linear, write_wrapped}
use g_max_linked.LoopBuffer.Invariant.{IsValid, IsLinear, IsWrapped}

-- What the bytes need: room on the right, or on the left if padding is allowed, or in all.
abbrev pub fits : LoopBuffer → ℕ → Bool
fits b n =
    leb n b.free_size
    && (not b.is_padding
        || ltb b.write_pos b.read_pos
        || leb n (b.total_size - b.write_pos)
        || leb n b.read_pos)

-- The buffer after a write that is accepted, without the tests and the wrapping of the code.
unfoldable pub added : LoopBuffer → ℕ → LoopBuffer
added b n = record b { used_size = b.used_size + n; free_size = b.free_size - n }

unfoldable pub wrote_right : LoopBuffer → List ℕ → LoopBuffer
unfolding added
wrote_right b bytes =
    added
      (record b {
        buffer = splice b.buffer b.write_pos bytes;
        write_pos = b.write_pos + length bytes;
      })
      (length bytes)

unfoldable pub wrote_padded : LoopBuffer → List ℕ → LoopBuffer
unfolding added
wrote_padded b bytes =
    added
      (record b {
        buffer = splice b.buffer 0 bytes;
        padding = b.total_size - b.write_pos;
        actual_size = b.write_pos;
        free_size = b.read_pos;
        write_pos = length bytes;
      })
      (length bytes)

unfoldable pub wrote_split : LoopBuffer → List ℕ → LoopBuffer
unfolding added
wrote_split b bytes =
    let right = b.total_size - b.write_pos in
    added
      (record b {
        buffer = splice (splice b.buffer b.write_pos (take right bytes)) 0 (drop right bytes);
        write_pos = length bytes - right;
      })
      (length bytes)

unfoldable pub wrote : LoopBuffer → List ℕ → LoopBuffer
unfolding wrote_right wrote_padded wrote_split
wrote b bytes =
    if ltb b.write_pos b.read_pos || leb (length bytes) (b.total_size - b.write_pos)
    then wrote_right b bytes
    else if b.is_padding
    then wrote_padded b bytes
    else wrote_split b bytes

-- Which case of the layout the code's first test takes.
pub IsLinear-of_test :
    {b : LoopBuffer} → IsValid b → 0 < b.free_size → b.read_pos ≤ b.write_pos → IsLinear b
IsLinear-of_test v f h = ground arith

pub IsWrapped-of_test : {b : LoopBuffer} → IsValid b → b.write_pos < b.read_pos → IsWrapped b
IsWrapped-of_test v h = ground arith

module _ (b : LoopBuffer) (bytes : List ℕ) (v : IsValid b) (some_byte : 0 < length bytes)
    (room : length bytes ≤ b.free_size) where
  write_wrapped_lem :
      IsWrapped b
      → b.write_pos < b.read_pos
      → write_wrapped b bytes ≡ some (true, wrote_right b bytes)
  unfolding write_wrapped wrote_right
  write_wrapped_lem w h = ground arith

  write_right_lem :
      IsLinear b
      → length bytes ≤ b.total_size - b.write_pos
      → write_linear b bytes ≡ some (true, wrote_right b bytes)
  unfolding write_linear wrote_right
  write_right_lem w h = ground arith

  write_padded_lem :
      IsLinear b
      → b.total_size - b.write_pos < length bytes
      → b.is_padding ≡ true
      → write_linear b bytes
        ≡ some (if leb (length bytes) b.read_pos then (true, wrote_padded b bytes) else (false, b))
  unfolding write_linear wrote_padded
  write_padded_lem w h p = ground arith

  write_split_lem :
      IsLinear b
      → b.total_size - b.write_pos < length bytes
      → b.is_padding ≡ false
      → write_linear b bytes ≡ some (true, wrote_split b bytes)
  unfolding write_linear wrote_split
  write_split_lem w h p = ground (
    arith,
    length-splice b.buffer b.write_pos (take (b.total_size - b.write_pos) bytes),
    length-take (b.total_size - b.write_pos) bytes,
    length-drop (b.total_size - b.write_pos) bytes,
  )

pub write-eq-wrote :
    (b : LoopBuffer) (bytes : List ℕ)
    → IsValid b
    → 0 < length bytes
    → write b bytes
      ≡ some (fits b (length bytes), (if fits b (length bytes) then wrote b bytes else b))
unfolding wrote write
write-eq-wrote b bytes v h = ground (
  arith,
  write_wrapped_lem b bytes v h,
  write_right_lem b bytes v h,
  write_padded_lem b bytes v h,
  write_split_lem b bytes v h,
  IsLinear-of_test v,
  IsWrapped-of_test v,
)

pub wrote-IsValid :
    (b : LoopBuffer) (bytes : List ℕ)
    → IsValid b
    → 0 < length bytes
    → fits b (length bytes) ≡ true
    → IsValid (wrote b bytes)
unfolding wrote
wrote-IsValid b bytes v h f = ground (
  arith,
  length-splice b.buffer b.write_pos (take (b.total_size - b.write_pos) bytes),
  length-splice b.buffer b.write_pos bytes,
  length-splice b.buffer 0 bytes,
  length-splice (splice b.buffer b.write_pos (take (b.total_size - b.write_pos) bytes)) 0
      (drop (b.total_size - b.write_pos) bytes),
)
