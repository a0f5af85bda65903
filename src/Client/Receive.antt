-- ===== src/Client/Receive.antt =====
-- How the thread of the client receives (clients/c/connection.c): the loop over `recv`, which cuts the
-- bytes of the socket into messages and hands each to `on_received`.
pub mod Ready
pub mod Rounds
pub mod Loop
use g_max_linked.Base.{
  ℕ, zero, suc, ◌+◌, ◌-◌, ◌^◌, ◌%◌, Bool, true, false, Option, some, List, [], ◌∷◌, ◌++◌, ◌==◌,
  if◌then◌else◌, ◌>>=◌, length, take, add32, sub32,
}
use g_max_linked.Base.Bytes.{copy_in}
use g_max_linked.Message.{header_size, size_of}
use g_max_linked.Socket.{ReadResult, data_read, closed, again, failed, Reader}

-- The fields of `connection_info` that the loop keeps between two calls of `recv`.
pub record Link : Type 0 where
  pub msg_buf : List ℕ
  pub offset : ℕ
  pub pending_size : ℕ

-- A message starts with its header.
unfoldable pub sized : Link → Link
sized link = if link.pending_size == 0 then record link { pending_size = header_size } else link

-- A difference of `unsigned int`.
unfoldable pub wanted : Link → ℕ
wanted link = sub32 link.pending_size link.offset

-- `on_received` with the bytes up to `offset`, and the next message may come.
unfoldable pub hand_over : Link → List (List ℕ) × Link
hand_over link = (take link.offset link.msg_buf ∷ [], record link { offset = 0; pending_size = 0 })

-- The bytes of one `recv`: the messages that are handed over, at most one, and the link.
unfoldable pub on_bytes : Link → List ℕ → Option (List (List ℕ) × Link)
unfolding hand_over
on_bytes link bytes = do
  buffer ← copy_in link.msg_buf link.offset bytes
  let got = record link { msg_buf = buffer; offset = add32 link.offset (length bytes) }
  some (
      if header_size == got.offset
      then (if header_size == size_of buffer
          then hand_over got
          else ([], record got { pending_size = size_of buffer }))
      else if got.pending_size == got.offset
      then hand_over got
      else ([], got))

-- The loop has ended, and the connection is lost or not, with the messages that it has handed over; or
-- its fuel has run out.
pub data Receiving (S : Type 0) : Type 0 where
  ends : Bool → List (List ℕ) → Link → S → Receiving S
  out_of_fuel : Receiving S

unfoldable pub after : {S : Type 0} → List (List ℕ) → Receiving S → Receiving S
after msgs (ends lost more link s) = ends lost (msgs ++ more) link s
after msgs out_of_fuel = out_of_fuel

-- What the loop does with the result of `recv`; `next` is its next round. EWOULDBLOCK is EAGAIN.
unfoldable pub on_recv :
    {S : Type 0} → (Link → S → Option (Receiving S)) → Link → ReadResult → S → Option (Receiving S)
unfolding after
on_recv next link (data_read bytes) s = do
  (msgs, link') ← on_bytes link bytes
  r ← next link' s
  some (after msgs r)
on_recv next link closed s = some (ends true [] link s)
on_recv next link again s = some (ends false [] link s)
on_recv next link (failed e) s = some (ends true [] link s)

module _ (k : Reader) where
  open k use {State, read}

  -- `for (; ;)`, on fuel.
  unfoldable pub receive : ℕ → Link → State → Option (Receiving State)
  receive zero link s = some out_of_fuel
  receive (suc fuel) link s =
      let due = sized link in
      let (result, s') = read s (wanted due) in on_recv (receive fuel) due result s'
