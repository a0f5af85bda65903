-- ===== src/LoopBuffer.antt =====
-- `CLoopBuffer` (src/common/CLoopBuffer.cpp): a ring of bytes with an optional gap at its end.
-- `_writePos` and `_readPos` are offsets from `__buffer`. The mutex makes each call one step.
pub mod Invariant
pub mod Write
pub mod Appends
pub mod Read
pub mod Took
pub mod Takes
pub mod Fifo
mod Tests
use g_max_linked.Base.{
  ℕ, ◌+◌, ◌-◌, ◌^◌, Bool, true, false, not, ◌&&◌, Option, none, some, List, [], ◌++◌, ltb, leb,
  ◌==◌, if◌then◌else◌, ◌>>=◌, ◌>>◌, assert_that, length, take, drop, add32, sub32, eq_b4,
}
use g_max_linked.Base.Bytes.{slice, copy_out, copy_in}

pub record LoopBuffer : Type 0 where
  pub buffer : List ℕ
  pub total_size : ℕ
  pub actual_size : ℕ
  pub used_size : ℕ
  pub free_size : ℕ
  pub is_padding : Bool
  pub padding : ℕ
  pub write_pos : ℕ
  pub read_pos : ℕ

-- The constructor, over the array that `new` returns.
unfoldable pub create : List ℕ → ℕ → Bool → Option LoopBuffer
create memory size is_padding = do
  assert_that (ltb 0 size)
  some (record {
    buffer = memory;
    total_size = size;
    actual_size = size;
    used_size = 0;
    free_size = size;
    is_padding = is_padding;
    padding = 0;
    write_pos = 0;
    read_pos = 0;
  })

-- `_usedSize += size; _freeSize -= size; return true_v;`
abbrev accept : LoopBuffer → ℕ → Option (Bool × LoopBuffer)
accept b size =
    some (true, record b { used_size = add32 b.used_size size; free_size = sub32 b.free_size size })

-- The data at the writing position, with the bytes left for them.
write_right : LoopBuffer → List ℕ → Option (Bool × LoopBuffer)
write_right b bytes = do
  memory ← copy_in b.buffer b.write_pos bytes
  accept (record b { buffer = memory; write_pos = b.write_pos + length bytes }) (length bytes)

-- The data at the start, and what is left on the right given up as padding.
write_padded : LoopBuffer → List ℕ → ℕ → ℕ → Option (Bool × LoopBuffer)
write_padded b bytes right left = if ltb left (length bytes) then some (false, b) else do
  assert_that (sub32 b.free_size right == left)
  memory ← copy_in b.buffer 0 bytes
  accept
      (record b {
        buffer = memory;
        padding = right;
        actual_size = sub32 b.actual_size right;
        free_size = sub32 b.free_size right;
        write_pos = length bytes;
      })
      (length bytes)

-- The data in two parts.
write_split : LoopBuffer → List ℕ → ℕ → Option (Bool × LoopBuffer)
write_split b bytes right = do
  memory ← copy_in b.buffer b.write_pos (take right bytes)
  memory' ← copy_in memory 0 (drop right bytes)
  accept (record b { buffer = memory'; write_pos = length bytes - right }) (length bytes)

unfoldable pub write_linear : LoopBuffer → List ℕ → Option (Bool × LoopBuffer)
unfolding write_right write_padded write_split
write_linear b bytes = do
  let right = sub32 b.total_size b.write_pos
  let left = b.read_pos
  assert_that (b.padding == 0)
  assert_that (b.actual_size == b.total_size)
  assert_that (leb b.free_size b.total_size)
  assert_that (eq_b4 (b.write_pos - b.read_pos) b.used_size)
  assert_that (add32 right left == b.free_size)
  if leb (length bytes) right
      then write_right b bytes
      else if b.is_padding
      then write_padded b bytes right left
      else write_split b bytes right

unfoldable pub write_wrapped : LoopBuffer → List ℕ → Option (Bool × LoopBuffer)
write_wrapped b bytes = do
  assert_that (eq_b4 (b.read_pos - b.write_pos) b.free_size)
  memory ← copy_in b.buffer b.write_pos bytes
  assert_that (leb (b.write_pos + length bytes) b.read_pos)
  accept (record b { buffer = memory; write_pos = b.write_pos + length bytes }) (length bytes)

unfoldable pub write : LoopBuffer → List ℕ → Option (Bool × LoopBuffer)
write b bytes = do
  assert_that (ltb 0 (length bytes))
  if ltb b.free_size (length bytes)
      then some (false, b)
      else if leb b.read_pos b.write_pos
      then write_linear b bytes
      else write_wrapped b bytes

-- What a read hands over: the count that it returns, the bytes, and the buffer after it.
pub record Taken : Type 0 where
  pub count : ℕ
  pub bytes : List ℕ
  pub after : LoopBuffer

-- `_usedSize -= size; _freeSize += size; return size;`
abbrev release : LoopBuffer → ℕ → List ℕ → Option Taken
release b size bytes = some (record {
  count = size;
  bytes = bytes;
  after = record b { used_size = sub32 b.used_size size; free_size = add32 b.free_size size };
})

-- The padding comes back when the reader passes it.
drop_padding : LoopBuffer → LoopBuffer
drop_padding b = record b {
  actual_size = add32 b.actual_size b.padding;
  free_size = add32 b.free_size b.padding;
  padding = 0;
}

unfoldable pub read_linear : LoopBuffer → ℕ → Option Taken
read_linear b wanted = do
  assert_that (b.padding == 0)
  assert_that (eq_b4 (b.write_pos - b.read_pos) b.used_size)
  let size = if ltb b.used_size wanted then b.used_size else wanted
  bytes ← copy_out b.buffer b.read_pos size
  release (record b { read_pos = b.read_pos + size }) size bytes

-- The right part holds all that is wanted.
read_right : LoopBuffer → ℕ → ℕ → Option Taken
unfolding drop_padding
read_right b size right = do
  bytes ← copy_out b.buffer b.read_pos size
  if right == size && not (b.padding == 0)
      then release (record (drop_padding b) { read_pos = 0 }) size bytes
      else release (record b { read_pos = b.read_pos + size }) size bytes

-- The right part, then the left one.
read_both : LoopBuffer → ℕ → ℕ → Option Taken
unfolding drop_padding
read_both b wanted right = do
  let size = if ltb b.used_size wanted then b.used_size else wanted
  bytes ← copy_out b.buffer b.read_pos right
  bytes' ← copy_out b.buffer 0 (size - right)
  let moved = record b { read_pos = size - right }
  release (if not (b.padding == 0) then drop_padding moved else moved) size (bytes ++ bytes')

unfoldable pub read_wrapped : LoopBuffer → ℕ → Option Taken
unfolding read_right read_both
read_wrapped b wanted = do
  assert_that (eq_b4 (b.read_pos - b.write_pos) b.free_size)
  let right = sub32 b.actual_size b.read_pos
  let left = b.write_pos
  assert_that (b.actual_size == sub32 b.total_size b.padding)
  assert_that (add32 right left == b.used_size)
  if leb wanted right then read_right b wanted right else read_both b wanted right

unfoldable pub read : LoopBuffer → ℕ → Option Taken
read b wanted = do
  assert_that (ltb 0 wanted)
  if b.used_size == 0
      then some (record { count = 0; bytes = []; after = b })
      else if ltb b.read_pos b.write_pos
      then read_linear b wanted
      else read_wrapped b wanted

unfoldable pub reset : LoopBuffer → LoopBuffer
reset b = record b {
  actual_size = b.total_size;
  used_size = 0;
  free_size = b.total_size;
  padding = 0;
  write_pos = 0;
  read_pos = 0;
}
