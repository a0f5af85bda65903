-- ===== src/Node/Overrun.antt =====
-- `recv` and a message whose header gives a size above its buffer's.
use g_max_linked.Base.{ℕ, ◌+◌, ◌-◌, ◌^◌, ◌<◌, ◌≡◌, ◌∙◌, none, some, List, arith, length}
use g_max_linked.Base.Bytes.{splice, length-splice}
use g_max_linked.Message.{header_size, msg_max_length, size_of}
use g_max_linked.LoopBuffer.{LoopBuffer}
use g_max_linked.Socket.{data_read}
use g_max_linked.Node.{Node, goes_on, wanted, append_bytes, on_read, on_header_bytes, on_body_bytes}

-- Let the rest of a header arrive, and let its size field be above the size of the buffer, which no
-- check prevents. Then the round goes on, the next one asks for all of the bytes that the header
-- promises, more than there is room for, and a read that gives more than that room leaves the array.
pub overrun_lem :
    {S : Type 0} (n : Node) (q : LoopBuffer) (s : S) (bytes more : List ℕ)
    → length n.recv_buffer ≡ msg_max_length
    → n.recv_due_size ≡ 0
    → n.recv_offset + length bytes ≡ header_size
    → msg_max_length < size_of (splice n.recv_buffer n.recv_offset bytes)
    → size_of (splice n.recv_buffer n.recv_offset bytes) < 2 ^ 16
    → msg_max_length - header_size < length more
    → (m : Node) × (on_read n q (data_read bytes) s ≡ some (goes_on m q s))
      × (wanted m ≡ size_of (splice n.recv_buffer n.recv_offset bytes) - header_size)
      × (on_read m q (data_read more) s ≡ none)
unfolding on_read on_header_bytes wanted on_body_bytes append_bytes
overrun_lem n q s bytes more l d o big small long =
    let kept : length (splice n.recv_buffer n.recv_offset bytes) ≡ msg_max_length =
      length-splice n.recv_buffer n.recv_offset bytes ∙ l in
    (
      record n {
        recv_due_size = size_of (splice n.recv_buffer n.recv_offset bytes);
        recv_buffer = splice n.recv_buffer n.recv_offset bytes;
        recv_offset = header_size;
      },
      ground arith,
      ground arith,
      ground arith,
    )
