-- ===== src/Client/Receive/Ready.antt =====
-- One round of the client's loop, on bytes of well-formed messages that arrive in order.
use g_max_linked.Base.{
  ℕ, ◌+◌, ◌≤◌, ◌<◌, ◌≡◌, refl, sym, ap, ◌∙◌, ◌⊎◌, inl, some, List, [], ◌∷◌, ◌++◌, arith, length,
  take, drop, take-append-drop, length-take, ◌==◌, ◌≢◌, if◌then◌else◌,
}
use g_max_linked.Base.Bytes.{splice, slice-splice_end}
use g_max_linked.Message.{header_size, msg_max_length, size_of}
use g_max_linked.Message.Codec.{size_of-append}
use g_max_linked.MessageQueue.History.{joined}
use g_max_linked.Node.Packets.{AllPackets, front_eq}
use g_max_linked.Client.Receive.{Link, sized, hand_over, on_bytes}

-- The bytes of the message that has begun.
abbrev pub held : Link → List ℕ
held link = take link.offset link.msg_buf

pub record InHeader (link : Link) : Type 0 where
  pub due : link.pending_size ≡ header_size
  pub short : link.offset < header_size

pub record InBody (link : Link) : Type 0 where
  pub headed : header_size ≤ link.offset
  pub short : link.offset < link.pending_size
  pub bounded : link.pending_size ≤ msg_max_length
  pub size : size_of (held link) ≡ link.pending_size

-- What is held, and what is yet to come, are the messages `ms`.
pub record Ready (link : Link) (flow : List ℕ) (ms : List (List ℕ)) : Type 0 where
  pub room : length link.msg_buf ≡ msg_max_length
  pub phase : InHeader (sized link) ⊎ InBody link
  pub packets : AllPackets ms
  pub stream : held link ++ flow ≡ joined ms

-- A round hands over some of the messages, and is ready for the rest.
pub record Round (flow : List ℕ) (ms msgs : List (List ℕ)) (link : Link) : Type 0 where
  pub rest : List (List ℕ)
  pub split : ms ≡ msgs ++ rest
  pub ready : Ready link flow rest

abbrev pub grown : Link → List ℕ → Link
grown link bytes = record link {
  msg_buf = splice link.msg_buf link.offset bytes;
  offset = link.offset + length bytes;
}

pub length-held :
    (link : Link)
    → length link.msg_buf ≡ msg_max_length
    → link.offset ≤ msg_max_length
    → length (held link) ≡ link.offset
length-held link l h = omega (arith, length-take link.offset link.msg_buf)

pub held-grown :
    (link : Link) (bytes : List ℕ)
    → length link.msg_buf ≡ msg_max_length
    → link.offset + length bytes ≤ msg_max_length
    → held (grown link bytes) ≡ held link ++ bytes
held-grown link bytes l h =
    slice-splice_end link.msg_buf link.offset 0 link.offset _ bytes (omega arith) (omega arith) refl

pub size_of-held :
    (link : Link)
    → length link.msg_buf ≡ msg_max_length
    → 2 ≤ link.offset
    → link.offset ≤ msg_max_length
    → size_of link.msg_buf ≡ size_of (held link)
size_of-held link l h h' =
    ap size_of (sym (take-append-drop link.offset link.msg_buf))
    ∙ size_of-append (held link) (drop link.offset link.msg_buf)
        (omega (arith, length-held link l h'))

-- A message that is complete.
pub complete :
    (link : Link) (flow m : List ℕ) (rest : List (List ℕ))
    → length link.msg_buf ≡ msg_max_length
    → link.offset ≡ length m
    → held link ++ flow ≡ joined (m ∷ rest)
    → AllPackets (m ∷ rest)
    → Round flow (m ∷ rest) (hand_over link).0 (hand_over link).1
unfolding hand_over sized
complete link flow m rest l o e p =
    let (h, t) = front_eq (held link) flow m rest e (length-held link l (omega (arith, p.0)) ∙ o) in
    record {
      rest = rest;
      split = ap (λ x. x ∷ rest) (sym h);
      ready = record {
        room = l;
        phase = inl (record { due = refl; short = omega arith });
        packets = p.1;
        stream = t;
      };
    }

-- What follows a read, with the place for its bytes there.
abbrev pub Goes : Link → List ℕ → List ℕ → List (List ℕ) → Type 0
Goes link bytes flow ms =
    (msgs : List (List ℕ)) × (link' : Link) × (on_bytes link bytes ≡ some (msgs, link'))
    × Round flow ms msgs link'

module _ (link : Link) (bytes flow : List ℕ) (room : length link.msg_buf ≡ msg_max_length)
    (fits : link.offset + length bytes ≤ msg_max_length) where
  pub on_bytes-short :
      link.offset + length bytes ≢ header_size
      → link.offset + length bytes ≢ link.pending_size
      → on_bytes link bytes ≡ some ([], grown link bytes)
  unfolding on_bytes
  on_bytes-short h p = ground arith

  pub on_bytes-whole :
      link.offset + length bytes ≢ header_size
      → link.offset + length bytes ≡ link.pending_size
      → on_bytes link bytes ≡ some (hand_over (grown link bytes))
  unfolding on_bytes hand_over
  on_bytes-whole h p = ground arith

  pub on_bytes-headed :
      (n : ℕ)
      → link.offset + length bytes ≡ header_size
      → size_of (grown link bytes).msg_buf ≡ n
      → on_bytes link bytes
        ≡ some (
            if header_size == n
            then hand_over (grown link bytes)
            else ([], record (grown link bytes) { pending_size = n }))
  unfolding on_bytes hand_over
  on_bytes-headed n h e = ground arith
