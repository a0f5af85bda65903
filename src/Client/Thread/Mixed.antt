-- ===== src/Client/Thread/Mixed.antt =====
-- What is left of a message when the client's connection is lost.
use g_max_linked.Base.{
  ℕ, suc, ◌+◌, ◌≤◌, ◌<◌, ◌≡◌, refl, ap, ◌∙◌, true, false, some, List, [], ◌∷◌, ◌++◌, append-nil,
  append_assoc, length, ◌>>=◌, arith,
}
use g_max_linked.Message.{header_size, msg_max_length}
use g_max_linked.Socket.{Reader, data_read, closed, again}
use g_max_linked.Client.Receive.{
  Link, sized, wanted, hand_over, on_bytes, Receiving, ends, after, on_recv, receive,
}
use g_max_linked.Client.Receive.Ready.{held, grown, held-grown, on_bytes-whole}
use g_max_linked.Client.Receive.Loop.{receive-data}
use g_max_linked.Client.Thread.{
  Act, connected, received, given, selecting, Thread, ConnectResult, at_once, Found, found,
  SelectResult, Turn, turned, says, renew, loses, on_connect, on_writable, on_received, on_readable,
  on_select, turn_at, turn, go_on, turns,
}
use g_max_linked.Client.Thread.Greeting.{runs}

-- The socket can be read.
abbrev pub readable : Found
readable = record { in_error_set = false; is_writable = false; is_readable = true; so_error = 0 }

-- A message of which the header has come, and more is due.
pub record IsHalf (link : Link) : Type 0 where
  pub room : length link.msg_buf ≡ msg_max_length
  pub headed : header_size ≤ link.offset
  pub short : link.offset < link.pending_size
  pub bounded : link.pending_size ≤ msg_max_length

module _ (k : Reader) (link : Link) (half : IsHalf link) where
  sized_half : sized link ≡ link
  unfolding sized
  sized_half = ground (arith, half)

  -- The peer hangs up in the middle of the message.
  lost_half :
      (fuel : ℕ) (s : k.State)
      → (k.read s (wanted link)).0 ≡ closed
      → receive k (suc fuel) link s ≡ some (ends true [] link (k.read s (wanted link)).1)
  unfolding receive on_recv
  lost_half fuel s e =
      rw sized_half (ap (λ y. on_recv (receive k fuel) link y (k.read s (wanted link)).1) e)

  -- The place for the next message.
  next_link : List ℕ → Link
  next_link bytes = record (grown link bytes) { offset = 0; pending_size = 0 }

  dry :
      (fuel : ℕ) (bytes : List ℕ) (s : k.State)
      → (k.read s header_size).0 ≡ again
      → receive k (suc fuel) (next_link bytes) s
        ≡ some (ends false [] (sized (next_link bytes)) (k.read s header_size).1)
  unfolding receive on_recv sized wanted next_link
  dry fuel bytes s e =
      ap (λ y. on_recv (receive k fuel) (sized (next_link bytes)) y (k.read s header_size).1) e

  whole :
      (bytes : List ℕ)
      → link.offset + length bytes ≡ link.pending_size
      → on_bytes link bytes ≡ some ((held link ++ bytes) ∷ [], next_link bytes)
  unfolding hand_over next_link
  whole bytes o =
      on_bytes-whole link bytes [] half.room (omega (arith, half)) (ground (arith, half)) o
      ∙ ap (λ x. some (x ∷ [], record (grown link bytes) { offset = 0; pending_size = 0 }))
          (held-grown link bytes half.room (omega (arith, half)))

  -- The bytes that were due come.
  rest_comes :
      (fuel : ℕ) (s : k.State) (bytes : List ℕ)
      → (k.read s (wanted link)).0 ≡ data_read bytes
      → link.offset + length bytes ≡ link.pending_size
      → (k.read (k.read s (wanted link)).1 header_size).0 ≡ again
      → receive k (suc (suc fuel)) link s
        ≡ some (
            ends false
              ((held link ++ bytes) ∷ [])
              (sized (next_link bytes))
              (k.read (k.read s (wanted link)).1 header_size).1)
  unfolding after
  rest_comes fuel s bytes e o d =
      receive-data k (suc fuel) link (next_link bytes) s bytes ((held link ++ bytes) ∷ [])
        (ends false [] (sized (next_link bytes)) (k.read (k.read s (wanted link)).1 header_size).1)
        (rw sized_half e) (rw sized_half (whole bytes o))
        (rw sized_half (dry fuel bytes (k.read s (wanted link)).1 d))

module _ (k : Reader) (fuel : ℕ) (t : Thread) (s : k.State) where
  turns-next :
      (u : Turn k.State) (us : List (Turn k.State)) (t' : Thread) (s' : k.State)
      → turn k fuel u t s ≡ some (turned t' s')
      → turns k fuel (u ∷ us) t s ≡ turns k fuel us t' s'
  unfolding turns go_on
  turns-next u us t' s' e = ap (λ o. o >>= go_on k (turns k fuel us)) e

  turn-readable :
      (x : ConnectResult k.State) (r : Receiving k.State)
      → t.position ≡ selecting
      → receive k fuel t.link s ≡ some r
      → turn k fuel (runs x (found readable)) t s ≡ some (on_received r t)
  unfolding turn turn_at on_select on_writable on_readable
  turn-readable x r p e =
      ap (λ z. turn_at k z fuel (runs x (found readable)) t s) p
      ∙ ap (λ z. on_readable k fuel z readable t s) p
      ∙ ap (λ o. o >>= λ r. some (on_received r t)) e

-- The bytes of two connections make one message. Let the peer hang up when a message of the client has
-- its header but is not whole. The thread closes the socket and connects again, but keeps what it has of the
-- message. When the new connection brings as many bytes as were due, the client takes them for its rest,
-- and hands over the old bytes and the new ones as one message.
pub mixed_lem :
    (k : Reader) (fuel : ℕ) (t : Thread) (s s' : k.State) (x : ConnectResult k.State)
    (y : SelectResult) (bytes : List ℕ)
    → IsHalf t.link
    → t.position ≡ selecting
    → (k.read s (wanted t.link)).0 ≡ closed
    → (k.read s' (wanted t.link)).0 ≡ data_read bytes
    → t.link.offset + length bytes ≡ t.link.pending_size
    → (k.read (k.read s' (wanted t.link)).1 header_size).0 ≡ again
    → (t' : Thread) × (turns k
          (suc (suc fuel))
          (runs x (found readable) ∷ runs (at_once s') y ∷ runs x (found readable) ∷ [])
          t
          s
        ≡ some (turned t' (k.read (k.read s' (wanted t.link)).1 header_size).1))
      × (t'.log
          ≡ t.log
            ++ Act.closed
              ∷ (renew t ++ connected given false ∷ received (held t.link ++ bytes) ∷ []))
unfolding turn on_connect on_received turns
mixed_lem k fuel t s s' x y bytes half p lost more o d = (
  third,
  turns-next k n t s (runs x (found readable)) (runs (at_once s') y ∷ runs x (found readable) ∷ [])
        first s1
        (turn-readable k n t s x _ p (lost_half k t.link half (suc fuel) s lost)
          ∙ ap (λ l. some (turned (loses Act.closed (record t { log = l })) s1)) (append-nil t.log))
      ∙ turns-next k n first s1 (runs (at_once s') y) (runs x (found readable) ∷ []) second s' refl
      ∙ turns-next k n second s' (runs x (found readable)) [] third _
          (turn-readable k n second s' x _ refl (rest_comes k t.link half fuel s' bytes more o d)),
  ap (λ z. z ++ received (held t.link ++ bytes) ∷ [])
        (append_assoc t.log (Act.closed ∷ renew t) (connected given false ∷ []))
      ∙ append_assoc t.log _ (received (held t.link ++ bytes) ∷ []),
)
  where
    n : ℕ
    n = suc (suc fuel)

    s1 : k.State
    s1 = (k.read s (wanted t.link)).1

    first : Thread
    first = loses Act.closed t

    second : Thread
    second = record (says first (connected given false ∷ [])) {
      position = selecting;
      is_connected = true;
      needs_reconnect = false;
    }

    third : Thread
    third =
        says (record second { link = sized (next_link k t.link half bytes) })
          (received (held t.link ++ bytes) ∷ [])
