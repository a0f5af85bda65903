-- ===== src/Node/Packets.antt =====
-- The bytes of a connection as a sequence of messages, and what a part of them tells.
use g_max_linked.Base.{
  ℕ, ◌≤◌, ◌<◌, ◌≡◌, refl, sym, ap, ◌∙◌, List, [], ◌∷◌, ◌++◌, arith, length, take, drop,
  length-append, take-append_eq, drop-append_eq,
}
use g_max_linked.Message.{header_size, msg_max_length, size_of, set_ext}
use g_max_linked.Message.Codec.{size_of-append, length-set_ext, size_of-set_ext}
use g_max_linked.MessageQueue.Order.{IsFrame}
use g_max_linked.MessageQueue.History.{joined}

-- A message with a whole header, that gives the message's length, and no longer than the buffer.
pub record IsPacket (msg : List ℕ) : Type 0 where
  pub sized : size_of msg ≡ length msg
  pub headed : header_size ≤ length msg
  pub shorter : length msg ≤ msg_max_length

abbrev pub AllPackets : List (List ℕ) → Type 0
AllPackets [] = Unit {0}
AllPackets (m ∷ ms) = IsPacket m × AllPackets ms

-- With the address of the transaction in it.
abbrev pub stamped : ℕ → List (List ℕ) → List (List ℕ)
stamped self [] = []
stamped self (m ∷ ms) = set_ext m self ∷ stamped self ms

pub IsFrame-stamp : (m : List ℕ) (self : ℕ) → IsPacket m → IsFrame (set_ext m self)
IsFrame-stamp m self p = omega (arith, size_of-set_ext m self, length-set_ext m self, p)

-- A header tells the length of its message.
pub size_of-front :
    (h tail m : List ℕ) (ms : List (List ℕ))
    → h ++ tail ≡ m ++ joined ms
    → header_size ≤ length h
    → IsPacket m
    → size_of h ≡ length m
size_of-front h tail m ms e l p =
    sym (size_of-append h tail (omega arith))
    ∙ ap size_of e
    ∙ size_of-append m (joined ms) (omega (arith, p))
    ∙ p.sized

pub front_eq :
    (h tail m : List ℕ) (ms : List (List ℕ))
    → h ++ tail ≡ m ++ joined ms
    → length h ≡ length m
    → (h ≡ m) × (tail ≡ joined ms)
front_eq h tail m ms e l = (
  sym (take-append_eq (length m) h tail l)
      ∙ ap (take (length m)) e
      ∙ take-append_eq (length m) m (joined ms) refl,
  sym (drop-append_eq (length m) h tail l)
      ∙ ap (drop (length m)) e
      ∙ drop-append_eq (length m) m (joined ms) refl,
)

-- Bytes of which some have come belong to some message.
pub front_message :
    (h tail : List ℕ) (ms : List (List ℕ))
    → h ++ tail ≡ joined ms
    → 0 < length h
    → (m : List ℕ) × (rest : List (List ℕ)) × (ms ≡ m ∷ rest)
front_message h tail [] e l = absurd (omega (arith, ap length e, length-append h tail))
front_message h tail (m ∷ rest) e l = (m, rest, refl)
