-- ===== src/Node/Rounds.antt =====
-- One round of `recv` on bytes that arrive in order.
use g_max_linked.Base.{
  ℕ, ◌+◌, ◌≤◌, ◌<◌, ◌≡◌, refl, sym, ap, subst, ◌∙◌, inl, inr, Bool-cases, some, List, [], ◌∷◌, ◌++◌,
  arith, length, ◌==◌, ne→not_==, ◌-◌, append-nil, append_assoc,
}
use g_max_linked.Base.Bytes.{length-splice}
use g_max_linked.Message.{header_size, msg_max_length, size_of}
use g_max_linked.Message.Codec.{size_of-append}
use g_max_linked.LoopBuffer.{LoopBuffer}
use g_max_linked.LoopBuffer.Invariant.{contents}
use g_max_linked.MessageQueue.History.{joined}
use g_max_linked.Socket.{data_read}
use g_max_linked.Node.{
  Node, Round, goes_on, append_bytes, on_header_bytes, on_body_bytes, on_read, wanted,
}
use g_max_linked.Node.Packets.{AllPackets, size_of-front, front_message}
use g_max_linked.Node.Deliver.{held}
use g_max_linked.Node.Ready.{
  InHeader, InBody, Ready, all_in, After, on, length-held, appended, append_bytes_lem, finish,
}
use g_max_linked.Node.HeaderBytes.{header_round, body_value}

-- The bytes that complete or extend the rest of the message.
body_round :
    {S : Type 0} (n : Node) (q : LoopBuffer) (s : S) (bytes pend future : List ℕ)
    (ms : List (List ℕ))
    → Ready n q (bytes ++ pend) ms future
    → InBody n
    → 0 < length bytes
    → n.recv_offset + length bytes ≤ n.recv_due_size
    → (r : Round S) × (on_body_bytes n q s bytes ≡ some r)
      × After n.transaction q s pend ms future r
unfolding appended
body_round {S} n q s bytes pend future ms rd i some_byte fits_in =
    elim (Bool-cases (n.recv_due_size == n.recv_offset + length bytes)) [
      | inr short ↦ (
        goes_on n' q s,
        body_value n n' q s bytes a ∙ rw short,
        on [] ms refl
            (record {
              sized = sized';
              phase = inr (record {
                headed = omega (arith, i);
                short = ground arith;
                bounded = i.bounded;
                size =
                    ap size_of grown
                    ∙ size_of-append (held n) bytes
                        (omega (arith, i, length-held n rd.sized (omega (arith, i))))
                    ∙ i.size;
              });
              valid = rd.valid;
              packets = rd.packets;
              stream = stream';
            })
            refl all_in (sym (append-nil (contents q))),
      )
      | inl there ↦
          let (m, rest, e) =
            front_message (held n) ((bytes ++ pend) ++ future) ms
              (sym (append_assoc (held n) (bytes ++ pend) future) ∙ rd.stream)
              (omega (arith, i, length-held n rd.sized (omega (arith, i)))) in
          let packets : AllPackets (m ∷ rest) = subst AllPackets e rd.packets in
          let size : n.recv_due_size ≡ length m =
            sym i.size
            ∙ size_of-front (held n) ((bytes ++ pend) ++ future) m rest
                (sym (append_assoc (held n) (bytes ++ pend) future) ∙ rd.stream ∙ ap joined e)
                (omega (arith, i, length-held n rd.sized (omega (arith, i)))) packets.0 in
          let (r, d, after) =
            finish n' q s pend future m rest sized' (ground arith) (stream' ∙ ap joined e) packets
              rd.valid in
          (
            r,
            body_value n n' q s bytes a ∙ rw there d,
            subst (λ x. After n.transaction q s pend x future r) (sym e) after,
          )
    ]
  where
    n' : Node
    n' = appended n bytes

    a : append_bytes n bytes ≡ some n'
    a = (append_bytes_lem n bytes rd.sized (omega (arith, i))).0

    grown : held n' ≡ held n ++ bytes
    grown = (append_bytes_lem n bytes rd.sized (omega (arith, i))).1

    sized' : length n'.recv_buffer ≡ msg_max_length
    sized' = length-splice n.recv_buffer n.recv_offset bytes ∙ rd.sized

    stream' : (held n' ++ pend) ++ future ≡ joined ms
    stream' =
        ap (λ x. (x ++ pend) ++ future) grown
        ∙ ap (λ x. x ++ future) (append_assoc (held n) bytes pend)
        ∙ rd.stream

on_read-data :
    {S : Type 0} (n : Node) (q : LoopBuffer) (s : S) (bytes : List ℕ)
    → (InHeader n → on_read n q (data_read bytes) s ≡ on_header_bytes n q s bytes)
      × (InBody n → on_read n q (data_read bytes) s ≡ on_body_bytes n q s bytes)
unfolding on_read
on_read-data n q s bytes =
    (λ i. rw i.no_size, λ i. rw (ne→not_== n.recv_due_size 0 (omega (arith, i))))

wanted_most :
    (n : Node)
    → (InHeader n → wanted n ≤ header_size - n.recv_offset)
      × (InBody n → wanted n ≤ n.recv_due_size - n.recv_offset)
unfolding wanted
wanted_most n = (λ i. ground (arith, i), λ i. ground (arith, i))

-- A round that reads at most what it asked for ends well, and takes the bytes in order.
pub data_round :
    {S : Type 0} (n : Node) (q : LoopBuffer) (s : S) (bytes pend future : List ℕ)
    (ms : List (List ℕ))
    → Ready n q (bytes ++ pend) ms future
    → 0 < length bytes
    → length bytes ≤ wanted n
    → (r : Round S) × (on_read n q (data_read bytes) s ≡ some r)
      × After n.transaction q s pend ms future r
data_round n q s bytes pend future ms rd some_byte asked = elim rd.phase [
  | inl i ↦
      let (r, d, after) =
        header_round n q s bytes pend future ms rd i some_byte
          (omega (arith, i, (wanted_most n).0 i)) in
      (r, (on_read-data n q s bytes).0 i ∙ d, after)
  | inr i ↦
      let (r, d, after) =
        body_round n q s bytes pend future ms rd i some_byte
          (omega (arith, i, (wanted_most n).1 i)) in
      (r, (on_read-data n q s bytes).1 i ∙ d, after)
]
