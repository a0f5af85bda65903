-- ===== src/Client/Receive/Rounds.antt =====
-- A round of the client's loop is ready for the next one, in the header of a message and in its body.
use g_max_linked.Base.{
  ℕ, ◌+◌, ◌≤◌, ◌<◌, ◌≡◌, refl, sym, ap, subst, ◌∙◌, ◌⊎◌, inl, inr, Bool-cases, some, List, [], ◌∷◌,
  ◌++◌, append_assoc, arith, length, ltb, ◌==◌, ==_iff,
}
use g_max_linked.Base.Bytes.{length-splice}
use g_max_linked.Message.{header_size, msg_max_length, size_of}
use g_max_linked.Message.Codec.{size_of-append}
use g_max_linked.MessageQueue.History.{joined}
use g_max_linked.Node.Packets.{AllPackets, size_of-front, front_message}
use g_max_linked.Client.Receive.{Link, sized, hand_over, on_bytes}
use g_max_linked.Client.Receive.Ready.{
  InHeader, InBody, Ready, Goes, held, grown, length-held, held-grown, size_of-held, complete,
  on_bytes-short, on_bytes-whole, on_bytes-headed,
}

-- The state after bytes that belong to a message.
module _ (link : Link) (bytes flow : List ℕ) (ms : List (List ℕ))
    (ready : Ready link (bytes ++ flow) ms) (some_byte : 0 < length bytes)
    (fits : link.offset + length bytes ≤ msg_max_length) where
  room : length (grown link bytes).msg_buf ≡ msg_max_length
  room = length-splice link.msg_buf link.offset bytes ∙ ready.room

  stream : held (grown link bytes) ++ flow ≡ joined ms
  stream =
      ap (λ x. x ++ flow) (held-grown link bytes ready.room fits)
      ∙ append_assoc (held link) bytes flow
      ∙ ready.stream

  goes_on :
      (link' : Link)
      → on_bytes link bytes ≡ some ([], link')
      → held link' ≡ held (grown link bytes)
      → length link'.msg_buf ≡ msg_max_length
      → InHeader (sized link') ⊎ InBody link'
      → Goes link bytes flow ms
  goes_on link' e h l phase = (
    [],
    link',
    e,
    record {
      rest = ms;
      split = refl;
      ready = record {
        room = l;
        phase = phase;
        packets = ready.packets;
        stream = ap (λ x. x ++ flow) h ∙ stream;
      };
    },
  )

  -- The message that has begun is the first of those to come.
  with_message :
      ((m : List ℕ) (rest : List (List ℕ))
        → AllPackets (m ∷ rest)
        → held (grown link bytes) ++ flow ≡ joined (m ∷ rest)
        → Goes link bytes flow (m ∷ rest))
      → Goes link bytes flow ms
  with_message step =
      let (m, rest, e) =
        front_message (held (grown link bytes)) flow ms stream
          (omega (arith, length-held (grown link bytes) room fits)) in
      subst (Goes link bytes flow) (sym e)
        (step m rest (subst AllPackets e ready.packets) (stream ∙ ap joined e))

  goes_over :
      (m : List ℕ) (rest : List (List ℕ))
      → AllPackets (m ∷ rest)
      → held (grown link bytes) ++ flow ≡ joined (m ∷ rest)
      → link.offset + length bytes ≡ length m
      → on_bytes link bytes ≡ some (hand_over (grown link bytes))
      → Goes link bytes flow (m ∷ rest)
  goes_over m rest p e o run = (
    (hand_over (grown link bytes)).0,
    (hand_over (grown link bytes)).1,
    run,
    complete (grown link bytes) flow m rest room o e p,
  )

  size_known :
      (m : List ℕ) (rest : List (List ℕ))
      → AllPackets (m ∷ rest)
      → held (grown link bytes) ++ flow ≡ joined (m ∷ rest)
      → header_size ≤ link.offset + length bytes
      → size_of (held (grown link bytes)) ≡ length m
  size_known m rest p e h =
      size_of-front (held (grown link bytes)) flow m rest e
        (omega (arith, length-held (grown link bytes) room fits)) p.0

  header_complete : link.offset + length bytes ≡ header_size → Goes link bytes flow ms
  unfolding sized
  header_complete o = with_message λ m rest p e.
      let size = size_known m rest p e (omega arith) in
      let known =
        on_bytes-headed link bytes flow ready.room fits (length m) o
          (size_of-held (grown link bytes) room (omega arith) fits ∙ size) in
      elim (Bool-cases (header_size == length m)) [
        | inl whole ↦ goes_over m rest p e (ground arith) (known ∙ rw whole refl)
        | inr more ↦ (
          [],
          record (grown link bytes) { pending_size = length m },
          known ∙ rw more refl,
          record {
            rest = m ∷ rest;
            split = refl;
            ready = record {
              room = room;
              phase = inr (record {
                headed = omega arith;
                short = ground (arith, p.0);
                bounded = p.0.shorter;
                size = size;
              });
              packets = p;
              stream = e;
            };
          },
        )
      ]

  pub header_round :
      InHeader link → link.offset + length bytes ≤ header_size → Goes link bytes flow ms
  unfolding sized
  header_round i h = elim (Bool-cases (ltb (link.offset + length bytes) header_size)) [
    | inl short ↦
        goes_on (grown link bytes)
          (on_bytes-short link bytes flow ready.room fits (ground arith) (ground (arith, i))) refl
          room (inl (ground (arith, i)))
    | inr there ↦ header_complete (ground arith)
  ]

  pub body_round :
      InBody link → link.offset + length bytes ≤ link.pending_size → Goes link bytes flow ms
  body_round i h = elim (Bool-cases (link.offset + length bytes == link.pending_size)) [
    | inl there ↦ with_message λ m rest p e.
        goes_over m rest p e
          ((==_iff _ _).0 there ∙ sym size' ∙ size_known m rest p e (omega (arith, i)))
          (on_bytes-whole link bytes flow ready.room fits (omega (arith, i)) (ground arith))
    | inr short ↦
        goes_on (grown link bytes)
          (on_bytes-short link bytes flow ready.room fits (omega (arith, i)) (ground arith)) refl
          room
          (inr (record {
            headed = omega (arith, i);
            short = ground arith;
            bounded = i.bounded;
            size = size';
          }))
  ]
    where
      size' : size_of (held (grown link bytes)) ≡ link.pending_size
      size' =
          ap size_of (held-grown link bytes ready.room fits)
          ∙ size_of-append (held link) bytes
              (omega (arith, i, length-held link ready.room (omega (arith, i))))
          ∙ i.size
