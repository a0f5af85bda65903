-- ===== src/MessageQueue/History.antt =====
-- Any history of puts and takes, against a queue of whole messages.
use g_max_linked.Base.{
  ℕ, ◌+◌, ◌≡◌, refl, sym, ap, ◌∙◌, inl, inr, Bool-cases, Bool, true, false, Option, some, List, [],
  ◌∷◌, ◌++◌, arith, leb, ◌==◌, if◌then◌else◌, length, take, ◌>>=◌, append-nil, append_assoc,
}
use g_max_linked.Message.{size_of, msg_max_length}
use g_max_linked.LoopBuffer.{LoopBuffer}
use g_max_linked.LoopBuffer.Invariant.{IsValid, contents, length-contents}
use g_max_linked.LoopBuffer.Write.{fits}
use g_max_linked.LoopBuffer.Appends.{write_lem}
use g_max_linked.LoopBuffer.Fifo.{fits-unpadded}
use g_max_linked.MessageQueue.{Fetch, Fetched, nothing, mismatch, message, put_message, fetch}
use g_max_linked.MessageQueue.Order.{IsFrame, put_message-frame, fetch_lem}

-- One call on the group's queue, and what its caller sees of it.
pub data Call : Type 0 where
  put : List ℕ → Call
  roll : Call

pub data Reply : Type 0 where
  stored : Bool → Reply
  idle : Reply
  broken : Reply
  got : List ℕ → Reply

abbrev pub found_reply : Fetched → List ℕ → Reply
found_reply nothing buffer = idle
found_reply mismatch buffer = broken
found_reply message buffer = got (take (size_of buffer) buffer)

unfoldable pub run : LoopBuffer → List ℕ → List Call → Option (List Reply)
run q buffer [] = some []
run q buffer (put msg ∷ calls) = do
  (done, q') ← put_message q msg
  replies ← run q' buffer calls
  some (stored done ∷ replies)
run q buffer (roll ∷ calls) = do
  r ← fetch q buffer
  replies ← run r.queue r.buffer calls
  some (found_reply r.found r.buffer ∷ replies)

abbrev pub joined : List (List ℕ) → List ℕ
joined [] = []
joined (m ∷ ms) = m ++ joined ms

unfoldable pub queue_run : ℕ → List (List ℕ) → List Call → List Reply
queue_run cap ms [] = []
queue_run cap ms (put msg ∷ calls) =
    let full = stored false ∷ queue_run cap ms calls in
    let more = stored true ∷ queue_run cap (ms ++ msg ∷ []) calls in
    if leb (length (joined ms) + length msg) cap then more else full
queue_run cap [] (roll ∷ calls) = idle ∷ queue_run cap [] calls
queue_run cap (m ∷ ms) (roll ∷ calls) = got m ∷ queue_run cap ms calls

abbrev pub AllFrames : List (List ℕ) → Type 0
AllFrames [] = Unit {0}
AllFrames (m ∷ ms) = IsFrame m × AllFrames ms

abbrev pub PutsFrames : List Call → Type 0
PutsFrames [] = Unit {0}
PutsFrames (put msg ∷ calls) = IsFrame msg × PutsFrames calls
PutsFrames (roll ∷ calls) = PutsFrames calls

joined-append : (ms : List (List ℕ)) (m : List ℕ) → joined (ms ++ m ∷ []) ≡ joined ms ++ m
joined-append [] m = append-nil m
joined-append (x ∷ ms) m = ap (◌++◌ x) (joined-append ms m) ∙ sym (append_assoc x (joined ms) m)

AllFrames-append :
    (ms : List (List ℕ)) (m : List ℕ) → AllFrames ms → IsFrame m → AllFrames (ms ++ m ∷ [])
AllFrames-append [] m a f = (f, tt)
AllFrames-append (x ∷ ms) m a f = (a.0, AllFrames-append ms m a.1 f)

fetch-empty :
    (q : LoopBuffer) (buffer : List ℕ)
    → IsValid q
    → contents q ≡ []
    → fetch q buffer ≡ some (record { found = nothing; queue = q; buffer = buffer })
unfolding fetch
fetch-empty q buffer v c =
    let held : (q.used_size == 0) ≡ true = ground (arith, length-contents q v, ap length c) in
    rw held

run-put :
    (q q' : LoopBuffer) (buffer msg : List ℕ) (calls : List Call) (done : Bool) (rs : List Reply)
    → put_message q msg ≡ some (done, q')
    → run q' buffer calls ≡ some rs
    → run q buffer (put msg ∷ calls) ≡ some (stored done ∷ rs)
unfolding run
run-put q q' buffer msg calls done rs e r = rw (e, r)

run-roll :
    (q : LoopBuffer) (buffer : List ℕ) (calls : List Call) (f : Fetch) (rs : List Reply)
    → fetch q buffer ≡ some f
    → run f.queue f.buffer calls ≡ some rs
    → run q buffer (roll ∷ calls) ≡ some (found_reply f.found f.buffer ∷ rs)
unfolding run
run-roll q buffer calls f rs e r = rw (e, r)

-- Start with a valid queue without padding that holds some whole messages, and put only whole
-- messages. Then no history of puts and takes faults, and its replies are those of a queue of
-- messages: a message is accepted exactly when its bytes and those of the waiting ones do not exceed
-- the size, and the accepted ones come out unchanged, each once, in the order in which they were put.
pub history_refines :
    (q : LoopBuffer) (buffer : List ℕ) (ms : List (List ℕ)) (calls : List Call)
    → IsValid q
    → q.is_padding ≡ false
    → length buffer ≡ msg_max_length
    → contents q ≡ joined ms
    → AllFrames ms
    → PutsFrames calls
    → run q buffer calls ≡ some (queue_run q.total_size ms calls)
unfolding run queue_run
history_refines q buffer ms [] v p l c a w = refl
history_refines q buffer ms (put msg ∷ calls) v p l c a w =
    let (q', e, v', s, c') = write_lem q msg v (omega (arith, w.0)) in
    let sent = put_message-frame q msg w.0 ∙ e in
    elim (Bool-cases (leb (length (joined ms) + length msg) q.total_size)) [
      | inl fit ↦
          let took : fits q (length msg) ≡ true = fits_joined ∙ fit in
          let held : contents q' ≡ joined (ms ++ msg ∷ []) =
            c'
            ∙ ap (λ t. if t then contents q ++ msg else contents q) took
            ∙ ap (λ x. x ++ msg) c
            ∙ sym (joined-append ms msg) in
          run-put q q' buffer msg calls (fits q (length msg)) _ sent (
            history_refines q' buffer (ms ++ msg ∷ []) calls v' (s.1 ∙ p) l held
              (AllFrames-append ms msg a w.0) w.1)
          ∙ rw (s.0, took, fit)
      | inr no_room ↦
          let left : fits q (length msg) ≡ false = fits_joined ∙ no_room in
          let held : contents q' ≡ joined ms =
            c' ∙ ap (λ t. if t then contents q ++ msg else contents q) left ∙ c in
          run-put q q' buffer msg calls (fits q (length msg)) _ sent
            (history_refines q' buffer ms calls v' (s.1 ∙ p) l held a w.1)
          ∙ rw (s.0, left, no_room)
    ]
  where
    fits_joined : fits q (length msg) ≡ leb (length (joined ms) + length msg) q.total_size
    fits_joined =
        fits-unpadded q (length msg) v p ∙ ap (λ x. leb (length x + length msg) q.total_size) c
history_refines q buffer [] (roll ∷ calls) v p l c a w =
    run-roll q buffer calls _ _ (fetch-empty q buffer v c)
      (history_refines q buffer [] calls v p l c a w)
history_refines q buffer (m ∷ ms) (roll ∷ calls) v p l c a w =
    let (r, e, found, v', s, c', l', front) = fetch_lem q buffer m (joined ms) v l a.0 c in
    run-roll q buffer calls r _ e
      (history_refines r.queue r.buffer ms calls v' (s.1 ∙ p) l' c' a.1 w)
    ∙ rw (found, s.0) (ap (λ x. some (got x ∷ queue_run q.total_size ms calls)) front)
