-- ===== src/MessageQueue.antt =====
-- The queue of messages of a `CNodeGroup` (src/traffic/CNodeGroup.cpp): `putMessage`, called by the
-- traffic manager's and the timer's thread, and the first half of `_rollingQueue`, which takes one
-- message out. The loop buffer's mutex makes each write and each read one step, and one thread reads.
pub mod Order
pub mod History
mod Tests
use g_max_linked.Base.{
  ℕ, ◌+◌, ◌-◌, ◌^◌, ◌%◌, Bool, true, false, Option, none, some, List, [], ◌++◌, leb, ltb, ◌==◌,
  if◌then◌else◌, ◌>>=◌, ◌>>◌, assert_that, length, take, drop,
}
use g_max_linked.Base.Bytes.{copy_out, copy_in, splice}
use g_max_linked.Message.{size_of}
use g_max_linked.LoopBuffer.{LoopBuffer, Taken, write, read}

-- `_queue.write((const ub1_ *)msg, msg->size)`: `msg` points at bytes, of which it takes `size`.
unfoldable pub put_message : LoopBuffer → List ℕ → Option (Bool × LoopBuffer)
put_message queue msg = do bytes ← copy_out msg 0 (size_of msg); write queue bytes

-- What `_rollingQueue` finds.
pub data Fetched : Type 0 where
  nothing : Fetched
  mismatch : Fetched
  message : Fetched

-- The queue and `_buffer` after it.
pub record Fetch : Type 0 where
  pub found : Fetched
  pub queue : LoopBuffer
  pub buffer : List ℕ

-- The body is wanted by `size - sizeof(ub2_)`, in the width of `size_t`, cut to `ub4_` by the call.
unfoldable pub fetch : LoopBuffer → List ℕ → Option Fetch
fetch queue buffer =
    if queue.used_size == 0
    then some (record { found = nothing; queue = queue; buffer = buffer })
    else do
      head ← read queue 2
      buffer' ← copy_in buffer 0 head.bytes
      assert_that (head.count == 2)
      let size = size_of buffer'
      body ← read head.after ((size + 2 ^ 64 - 2) % 2 ^ 32)
      buffer'' ← copy_in buffer' 2 body.bytes
      some (record {
        found = if body.count + 2 == size then message else mismatch;
        queue = body.after;
        buffer = buffer'';
      })
