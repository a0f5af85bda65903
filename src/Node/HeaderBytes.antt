-- ===== src/Node/HeaderBytes.antt =====
-- The bytes of a header, in a round of `recv`.
use g_max_linked.Base.{
  ℕ, ◌+◌, ◌≤◌, ◌<◌, ◌≡◌, refl, sym, ap, subst, ◌∙◌, inl, inr, Bool-cases, some, List, [], ◌∷◌, ◌++◌,
  arith, if◌then◌else◌, length, ltb, ◌==◌, append-nil, append_assoc,
}
use g_max_linked.Base.Bytes.{length-splice}
use g_max_linked.Message.{header_size, msg_max_length, size_of}
use g_max_linked.LoopBuffer.{LoopBuffer}
use g_max_linked.LoopBuffer.Invariant.{IsValid, contents}
use g_max_linked.MessageQueue.History.{joined}
use g_max_linked.Node.{Node, Round, goes_on, deliver, append_bytes, on_header_bytes, on_body_bytes}
use g_max_linked.Node.Packets.{AllPackets, size_of-front, front_message}
use g_max_linked.Node.Deliver.{held}
use g_max_linked.Node.Ready.{
  InHeader, Ready, all_in, After, on, length-held, appended, append_bytes_lem, finish, size_of-held,
}

module _ {S : Type 0} (n n' : Node) (q : LoopBuffer) (s : S) (bytes : List ℕ)
    (a : append_bytes n bytes ≡ some n') where
  header_short : n'.recv_offset < header_size → on_header_bytes n q s bytes ≡ some (goes_on n' q s)
  unfolding on_header_bytes
  header_short h = ground arith

  header_there :
      (k : ℕ)
      → n'.recv_offset ≡ header_size
      → size_of n'.recv_buffer ≡ k
      → on_header_bytes n q s bytes ≡ (
          if header_size == k
          then deliver (record n' { recv_due_size = k }) q s
          else some (goes_on (record n' { recv_due_size = k }) q s))
  unfolding on_header_bytes
  header_there k o e = rw (a, o, e)

  pub body_value :
      on_body_bytes n q s bytes
      ≡ (if n'.recv_due_size == n'.recv_offset then deliver n' q s else some (goes_on n' q s))
  unfolding on_body_bytes
  body_value = rw a

-- The header is complete: the message is, or its size is known.
header_complete :
    {S : Type 0} (n n' : Node) (q : LoopBuffer) (s : S) (bytes pend future m : List ℕ)
    (rest : List (List ℕ))
    → append_bytes n bytes ≡ some n'
    → length n'.recv_buffer ≡ msg_max_length
    → n'.recv_offset ≡ header_size
    → (held n' ++ pend) ++ future ≡ joined (m ∷ rest)
    → AllPackets (m ∷ rest)
    → IsValid q
    → (r : Round S) × (on_header_bytes n q s bytes ≡ some r)
      × After n'.transaction q s pend (m ∷ rest) future r
header_complete n n' q s bytes pend future m rest a l o e p v =
    elim (Bool-cases (header_size == length m)) [
      | inl whole ↦
          let (r, d, after) = finish due q s pend future m rest l (ground arith) e p v in
          (r, header_there n n' q s bytes a (length m) o known ∙ rw whole d, after)
      | inr more ↦ (
        goes_on due q s,
        header_there n n' q s bytes a (length m) o known ∙ rw more,
        on [] (m ∷ rest) refl
            (record {
              sized = l;
              phase = inr (record {
                headed = omega arith;
                short = ground (arith, p.0);
                bounded = p.0.shorter;
                size = size_held;
              });
              valid = v;
              packets = p;
              stream = e;
            })
            refl all_in (sym (append-nil (contents q))),
      )
    ]
  where
    due : Node
    due = record n' { recv_due_size = length m }

    size_held : size_of (held n') ≡ length m
    size_held =
        size_of-front (held n') (pend ++ future) m rest
          (sym (append_assoc (held n') pend future) ∙ e)
          (omega (arith, length-held n' l (omega arith))) p.0

    known : size_of n'.recv_buffer ≡ length m
    known = size_of-held n' l (omega arith) (omega arith) ∙ size_held

-- The bytes that complete or extend the header.
pub header_round :
    {S : Type 0} (n : Node) (q : LoopBuffer) (s : S) (bytes pend future : List ℕ)
    (ms : List (List ℕ))
    → Ready n q (bytes ++ pend) ms future
    → InHeader n
    → 0 < length bytes
    → n.recv_offset + length bytes ≤ header_size
    → (r : Round S) × (on_header_bytes n q s bytes ≡ some r)
      × After n.transaction q s pend ms future r
unfolding appended
header_round {S} n q s bytes pend future ms rd i some_byte fits_in =
    elim (Bool-cases (ltb (n.recv_offset + length bytes) header_size)) [
      | inl short ↦ (
        goes_on n' q s,
        header_short n n' q s bytes a (ground arith),
        on [] ms refl
            (record {
              sized = sized';
              phase = inl (record { no_size = i.no_size; short = ground arith });
              valid = rd.valid;
              packets = rd.packets;
              stream = stream';
            })
            refl all_in (sym (append-nil (contents q))),
      )
      | inr there ↦
          let o : n'.recv_offset ≡ header_size = ground arith in
          let (m, rest, e) =
            front_message (held n') (pend ++ future) ms
              (sym (append_assoc (held n') pend future) ∙ stream')
              (omega (arith, length-held n' sized' (omega arith))) in
          subst
            (λ x.
              (r : Round S) × (on_header_bytes n q s bytes ≡ some r)
              × After n.transaction q s pend x future r)
            (sym e)
            (header_complete n n' q s bytes pend future m rest a sized' o (stream' ∙ ap joined e)
              (subst AllPackets e rd.packets) rd.valid)
    ]
  where
    n' : Node
    n' = appended n bytes

    a : append_bytes n bytes ≡ some n'
    a = (append_bytes_lem n bytes rd.sized (omega arith)).0

    grown : held n' ≡ held n ++ bytes
    grown = (append_bytes_lem n bytes rd.sized (omega arith)).1

    sized' : length n'.recv_buffer ≡ msg_max_length
    sized' = length-splice n.recv_buffer n.recv_offset bytes ∙ rd.sized

    stream' : (held n' ++ pend) ++ future ≡ joined ms
    stream' =
        ap (λ x. (x ++ pend) ++ future) grown
        ∙ ap (λ x. x ++ future) (append_assoc (held n) bytes pend)
        ∙ rd.stream
