-- ===== src/Node/Deliver.antt =====
-- A whole message in the buffer goes to the queue, stamped.
use g_max_linked.Base.{
  ℕ, ◌+◌, ◌≡◌, sym, ap, ◌∙◌, false, some, List, ◌++◌, arith, if◌then◌else◌, length, take, drop,
  le→leb, take-append-drop,
}
use g_max_linked.Message.{msg_max_length, size_of, set_ext}
use g_max_linked.Message.Codec.{size_of-append, length-set_ext, size_of-set_ext, take-set_ext}
use g_max_linked.LoopBuffer.{LoopBuffer, write}
use g_max_linked.LoopBuffer.Invariant.{IsValid, SameShape, contents}
use g_max_linked.LoopBuffer.Write.{fits}
use g_max_linked.LoopBuffer.Appends.{write_lem}
use g_max_linked.MessageQueue.{put_message}
use g_max_linked.MessageQueue.Order.{put_message-frame}
use g_max_linked.Node.{Node, goes_on, returns, deliver}
use g_max_linked.Node.Packets.{IsPacket, IsFrame-stamp}

-- The bytes of the message that is coming in.
abbrev pub held : Node → List ℕ
held n = take n.recv_offset n.recv_buffer

put_message-stamp :
    (q : LoopBuffer) (buffer m : List ℕ) (self : ℕ)
    → length buffer ≡ msg_max_length
    → take (length m) buffer ≡ m
    → IsPacket m
    → put_message q (set_ext buffer self) ≡ write q (set_ext m self)
unfolding put_message
put_message-stamp q buffer m self l e p =
    rw
      (
        size,
        le→leb (0 + length m) (length (set_ext buffer self))
            (omega (arith, length-set_ext buffer self, p)),
      )
      (ap (write q) (take-set_ext buffer self (length m) p.headed ∙ ap (λ x. set_ext x self) e))
  where
    size : size_of (set_ext buffer self) ≡ length m
    size =
        size_of-set_ext buffer self
        ∙ ap size_of (sym (take-append-drop (length m) buffer))
        ∙ size_of-append (take (length m) buffer) (drop (length m) buffer)
            (omega (arith, ap length e, p))
        ∙ ap size_of e
        ∙ p.sized

-- The node after it.
abbrev pub emptied : Node → Node
emptied n = record n {
  recv_buffer = set_ext n.recv_buffer n.transaction;
  recv_offset = 0;
  recv_due_size = 0;
}

abbrev pub stuck_full : Node → Node
stuck_full n = record n { recv_buffer = set_ext n.recv_buffer n.transaction }

pub deliver_lem :
    {S : Type 0} (n : Node) (q : LoopBuffer) (s : S) (m : List ℕ)
    → length n.recv_buffer ≡ msg_max_length
    → take (length m) n.recv_buffer ≡ m
    → IsPacket m
    → IsValid q
    → (q' : LoopBuffer) × (deliver n q s
        ≡ some (
            if fits q (length m)
            then goes_on (emptied n) q' s
            else returns false (stuck_full n) q' s))
      × (put_message q (set_ext m n.transaction) ≡ some (fits q (length m), q'))
      × IsValid q'
      × SameShape q q'
      × (contents q'
          ≡ (if fits q (length m) then contents q ++ set_ext m n.transaction else contents q))
unfolding deliver
deliver_lem n q s m l e p v =
    let sent = put_message-stamp q n.recv_buffer m n.transaction l e p in
    let (q', w, v', sh, c) =
      write_lem q (set_ext m n.transaction) v (omega (arith, length-set_ext m n.transaction, p)) in
    (
      q',
      rw (sent ∙ w, length-set_ext m n.transaction),
      put_message-frame q (set_ext m n.transaction) (IsFrame-stamp m n.transaction p)
          ∙ w
          ∙ ap (λ k. some (fits q k, q')) (length-set_ext m n.transaction),
      v',
      sh,
      c ∙ rw (length-set_ext m n.transaction),
    )
