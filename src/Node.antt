-- ===== src/Node.antt =====
-- `CNode` (src/traffic/CNode.cpp): one connection. `recv` cuts the bytes of the socket into
-- messages and puts them into the queue of the node's group.
pub mod Packets
pub mod Deliver
pub mod Ready
pub mod HeaderBytes
pub mod Rounds
pub mod Recv
pub mod Send
pub mod Overrun
pub mod Attach
mod Tests
use g_max_linked.Base.{
  ℕ, zero, suc, ◌+◌, ◌-◌, ◌^◌, ◌%◌, Bool, true, false, Option, none, some, List, [], ◌++◌, leb, ltb,
  ◌==◌, if◌then◌else◌, ◌>>=◌, ◌>>◌, assert_that, length, take, drop, u16, add32, sub32,
}
use g_max_linked.Base.Bytes.{copy_in, copy_out}
use g_max_linked.Message.{header_size, size_of, set_ext}
use g_max_linked.LoopBuffer.{LoopBuffer}
use g_max_linked.MessageQueue.{put_message}
use g_max_linked.Socket.{
  Errno, other, ReadResult, data_read, closed, again, failed, Reader, WriteResult, wrote, shut,
  full, refused, Writer,
}

-- The fields that carry the connection. `transaction` is the address of `_transaction`, and
-- `group` that of the group, 0 for null.
pub record Node : Type 0 where
  pub ip : List ℕ
  pub port : ℕ
  pub fd : ℕ
  pub transaction : ℕ
  pub group : ℕ
  pub recv_offset : ℕ
  pub recv_due_size : ℕ
  pub recv_buffer : List ℕ

-- `_handleRecvErrors` asserts that it knows the error.
unfoldable pub handle_recv_errors : Errno → Option (Unit {0})
handle_recv_errors Errno.ebadf = some tt
handle_recv_errors Errno.efault = some tt
handle_recv_errors Errno.eintr = some tt
handle_recv_errors Errno.einval = some tt
handle_recv_errors Errno.eio = some tt
handle_recv_errors Errno.eisdir = some tt
handle_recv_errors _ = none

-- One round of the loop of `recv`: it goes on, or returns.
pub data Round (S : Type 0) : Type 0 where
  goes_on : Node → LoopBuffer → S → Round S
  returns : Bool → Node → LoopBuffer → S → Round S
  out_of_fuel : Round S

-- The message in the buffer goes to the group, with the transaction's address in its `ext`.
unfoldable pub deliver : {S : Type 0} → Node → LoopBuffer → S → Option (Round S)
deliver node queue s = do
  let msg = set_ext node.recv_buffer node.transaction
  let stamped = record node { recv_buffer = msg }
  (done, queue') ← put_message queue msg
  some (
      if done
      then goes_on (record stamped { recv_offset = 0; recv_due_size = 0 }) queue' s
      else returns false stamped queue' s)

-- The bytes of one `read`, behind those that are there.
unfoldable pub append_bytes : Node → List ℕ → Option Node
append_bytes node bytes = do
  buffer ← copy_in node.recv_buffer node.recv_offset bytes
  some (record node { recv_buffer = buffer; recv_offset = u16 (node.recv_offset + length bytes) })

unfoldable pub on_header_bytes : {S : Type 0} → Node → LoopBuffer → S → List ℕ → Option (Round S)
on_header_bytes node queue s bytes = do
  node' ← append_bytes node bytes
  let sized = record node' { recv_due_size = size_of node'.recv_buffer }
  if header_size == node'.recv_offset
      then (if header_size == sized.recv_due_size
          then deliver sized queue s
          else some (goes_on sized queue s))
      else some (goes_on node' queue s)

unfoldable pub on_body_bytes : {S : Type 0} → Node → LoopBuffer → S → List ℕ → Option (Round S)
on_body_bytes node queue s bytes = do
  node' ← append_bytes node bytes
  if node'.recv_due_size == node'.recv_offset
      then deliver node' queue s
      else some (goes_on node' queue s)

-- The number of bytes that a round asks for, an unsigned difference of 64 bits.
unfoldable pub wanted : Node → ℕ
wanted node =
    let due = if node.recv_due_size == 0 then header_size else node.recv_due_size in
    (due + 2 ^ 64 - node.recv_offset) % 2 ^ 64

-- What the loop does with the result of its `read`.
unfoldable pub on_read : {S : Type 0} → Node → LoopBuffer → ReadResult → S → Option (Round S)
on_read node queue closed s = some (returns false node queue s)
on_read node queue again s = some (returns true node queue s)
on_read node queue (failed e) s = do handle_recv_errors e; some (returns false node queue s)
on_read node queue (data_read bytes) s =
    if node.recv_due_size == 0
    then on_header_bytes node queue s bytes
    else on_body_bytes node queue s bytes

module _ (k : Reader) where
  open k use {State, read}

  -- `for (;;)`, on fuel.
  unfoldable pub recv : ℕ → Node → LoopBuffer → State → Option (Round State)
  recv zero node queue s = some out_of_fuel
  recv (suc fuel) node queue s =
      let (result, s') = read s (wanted node) in
      on_read node queue result s' >>= λ r. elim r [
        | goes_on node' queue' s'' ↦ recv fuel node' queue' s''
        | returns b node' queue' s'' ↦ some (returns b node' queue' s'')
        | out_of_fuel ↦ some out_of_fuel
      ]

-- The errors that `send` knows; on any other one it asserts false.
unfoldable pub handle_send_errors : Errno → Option (Unit {0})
handle_send_errors Errno.eisdir = none
handle_send_errors other = none
handle_send_errors _ = some tt

-- `send` has returned, or its fuel has run out.
pub data Sending (S : Type 0) : Type 0 where
  ends : Bool → S → Sending S
  unfinished : Sending S

-- What the loop of `send` does with the result of its `write`; `next` is its next round.
unfoldable pub on_write :
    {S : Type 0} → (ℕ → S → Option (Sending S)) → List ℕ → ℕ → WriteResult → S → Option (Sending S)
on_write next msg offset (wrote n) s =
    let offset' = add32 offset n in
    if ltb offset' (size_of msg) then next offset' s else some (ends true s)
on_write next msg offset shut s = some (ends false s)
on_write next msg offset full s =
    if ltb offset (size_of msg) then next offset s else some (ends true s)
on_write next msg offset (refused e) s = do handle_send_errors e; some (ends false s)

module _ (w : Writer) where
  open w use {State, write}

  -- The loop of `send`, at an offset, on fuel.
  unfoldable pub send_from : ℕ → List ℕ → ℕ → State → Option (Sending State)
  send_from zero msg offset s = some unfinished
  send_from (suc fuel) msg offset s = copy_out msg offset (sub32 (size_of msg) offset) >>= λ bytes.
      on_write (send_from fuel msg) msg offset (write s bytes).0 (write s bytes).1

  -- `msg->ext = 0`, then the loop.
  unfoldable pub send : ℕ → List ℕ → State → Option (Sending State)
  send fuel msg s = send_from fuel (set_ext msg 0) 0 s
