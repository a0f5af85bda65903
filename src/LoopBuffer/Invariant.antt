-- ===== src/LoopBuffer/Invariant.antt =====
-- The representation invariant of `CLoopBuffer`, the bytes that it holds, and what a fresh one is.
use g_max_linked.Base.{
  ℕ, ◌+◌, ◌-◌, ◌^◌, ◌≤◌, ◌<◌, ◌≡◌, ◌⊎◌, Bool, false, some, List, [], ◌++◌, arith, ltb, ◌==◌,
  if◌then◌else◌, length, length-append,
}
use g_max_linked.Base.Bytes.{slice, length-slice}
use g_max_linked.LoopBuffer.{LoopBuffer, create, reset}

-- The data in one piece, from the reader to the writer.
pub record IsLinear (b : LoopBuffer) : Type 0 where
  pub no_gap : b.padding ≡ 0
  pub ordered : b.read_pos + b.used_size ≡ b.write_pos
  pub inside : b.write_pos ≤ b.total_size

-- The data in two pieces, the writer behind the reader or level with it.
pub record IsWrapped (b : LoopBuffer) : Type 0 where
  pub started : 0 < b.write_pos
  pub behind : b.write_pos ≤ b.read_pos
  pub inside : b.read_pos ≤ b.actual_size
  pub counted : b.used_size + b.read_pos ≡ b.actual_size + b.write_pos

pub record IsValid (b : LoopBuffer) : Type 0 where
  pub nonempty : 0 < b.total_size
  pub small : b.total_size < 2 ^ 31
  pub stored : length b.buffer ≡ b.total_size
  pub sizes : b.used_size + b.free_size ≡ b.actual_size
  pub gap : b.actual_size + b.padding ≡ b.total_size
  pub unpadded : b.is_padding ≡ false → b.padding ≡ 0
  pub layout : IsLinear b ⊎ IsWrapped b

-- The bytes that the buffer holds, oldest first.
unfoldable pub contents : LoopBuffer → List ℕ
contents b =
    if b.used_size == 0
    then []
    else if ltb b.read_pos b.write_pos
    then slice b.buffer b.read_pos b.used_size
    else slice b.buffer b.read_pos (b.actual_size - b.read_pos) ++ slice b.buffer 0 b.write_pos

-- What no operation changes.
abbrev pub SameShape : LoopBuffer → LoopBuffer → Type 0
SameShape b b' = (b'.total_size ≡ b.total_size) × (b'.is_padding ≡ b.is_padding)

-- The constructor makes a valid, empty buffer of a size below 2^31.
pub create-IsValid :
    (memory : List ℕ) (size : ℕ) (p : Bool) {b : LoopBuffer}
    → length memory ≡ size
    → size < 2 ^ 31
    → create memory size p ≡ some b
    → IsValid b × (contents b ≡ []) × (b.free_size ≡ size)
unfolding create contents
create-IsValid memory size p l h e = ground arith

-- So does `reset`, of any valid buffer.
pub reset-IsValid : {b : LoopBuffer} → IsValid b → IsValid (reset b) × (contents (reset b) ≡ [])
unfolding reset contents
reset-IsValid v = ground arith

pub contents-linear :
    (b : LoopBuffer) → IsLinear b → contents b ≡ slice b.buffer b.read_pos b.used_size
unfolding contents
contents-linear b l = ground arith

pub contents-wrapped :
    (b : LoopBuffer)
    → IsWrapped b
    → contents b
      ≡ slice b.buffer b.read_pos (b.actual_size - b.read_pos) ++ slice b.buffer 0 b.write_pos
unfolding contents
contents-wrapped b w = ground arith

pub length-contents : (b : LoopBuffer) → IsValid b → length (contents b) ≡ b.used_size
unfolding contents
length-contents b v = ground (
  arith,
  length-slice b.buffer b.read_pos b.used_size,
  length-slice b.buffer b.read_pos (b.actual_size - b.read_pos),
  length-slice b.buffer 0 b.write_pos,
  length-append (slice b.buffer b.read_pos (b.actual_size - b.read_pos))
      (slice b.buffer 0 b.write_pos),
)
