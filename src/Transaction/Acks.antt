-- ===== src/Transaction/Acks.antt =====
-- Messages that are pushed to a client, the timers that wait for its answers, and the answers.
use g_max_linked.Base.{
  ℕ, ◌^◌, ◌≡◌, ◌≢◌, refl, ap, ◌∙◌, true, none, some, List, [], ◌∷◌, arith, ◌<◌, ==_refl,
}
use g_max_linked.Message.{decode, set_ext}
use g_max_linked.Transaction.Act.{
  ready, Transaction, Answers, Settings, Call, kill_timer, node_send, set_timer, now, find, erase,
}
use g_max_linked.Transaction.Pdu.{Push, push_message, set_seq, set_stmp}
use g_max_linked.Transaction.Handlers.{next_seq, insert_timer, send, over, on_stop}
use g_max_linked.Transaction.Messages.{handle_push_message, on_push_msg}

-- The sequence numbers that `__send` gives are never 0, also when the counter wraps round.
pub next_seq_bounds : (counter : ℕ) → (0 < next_seq counter) × (next_seq counter < 2 ^ 32)
unfolding next_seq
next_seq_bounds counter = ground arith

find-insert : (k v : ℕ) (m : List (ℕ × ℕ)) → find k (insert_timer k v m) ≡ some v
unfolding find insert_timer
find-insert k v [] = rw (==_refl k) refl
find-insert k v ((j, w) ∷ m) = ground (arith, find-insert k v m)

erase-insert : (k v : ℕ) (m : List (ℕ × ℕ)) → find k m ≡ none → erase k (insert_timer k v m) ≡ m
unfolding find insert_timer erase
erase-insert k v [] h = rw (==_refl k) refl
erase-insert k v ((j, w) ∷ m) h = ground (arith, erase-insert k v m)

acked :
    (env : Answers) (cfg : Settings) (ack : List ℕ) (t : Transaction) (timer : ℕ)
    (rest : List (ℕ × ℕ))
    → t.status ≡ ready
    → (decode ack).seq ≢ 0
    → find (decode ack).seq t.timers ≡ some timer
    → erase (decode ack).seq t.timers ≡ rest
    → on_push_msg env cfg ack t
      ≡ some (true, record t { timers = rest; calls = kill_timer timer ∷ t.calls })
unfolding on_push_msg
acked env cfg ack t timer rest r s f g = ground arith

module _ (env : Answers) (cfg : Settings) (t t' : Transaction) (p : Push) (size stamp : ℕ) where
  -- The message as it goes out, and the timer that the manager gives for it.
  abbrev outgoing : List ℕ
  outgoing =
      set_seq
        (set_ext
          (set_stmp (push_message cfg.protocol_version (env t.calls now) p)
            (env (now ∷ t.calls) now))
          0)
        (next_seq t.seq_counter)

  abbrev given_timer : ℕ
  given_timer =
      env (node_send outgoing ∷ now ∷ now ∷ t.calls)
        (set_timer cfg.heartbeat_interval (next_seq t.seq_counter) 1)

  -- What a push that answers true has left.
  pub record Pushed (timer : ℕ) : Type 0 where
    pub waits : t'.timers ≡ insert_timer (next_seq t.seq_counter) timer t.timers
    pub real_timer : timer ≢ 0
    pub counted : t'.seq_counter ≡ next_seq t.seq_counter
    pub stamped : t'.last_update ≡ stamp
    pub same_status : t'.status ≡ t.status
    pub same_session : t'.session_id ≡ t.session_id

  -- A push that answers true has a timer of the manager that waits for its answer under the next
  -- sequence number, keeps the status and the session, and notes the time of the message.
  pub push_lem :
      handle_push_message env cfg p size stamp t ≡ some (true, t') → (timer : ℕ) × Pushed timer
  unfolding handle_push_message send over on_stop
  push_lem e = (
    given_timer,
    record {
      waits = ground arith;
      real_timer = ground arith;
      counted = ground arith;
      stamped = ground arith;
      same_status = ground arith;
      same_session = ground arith;
    },
  )

  -- The answer to a push, by its sequence number, kills the timer that waits for it, and leaves the
  -- timers as they were before the push, if none of them had that number.
  pub push-ack_lem :
      (ack : List ℕ)
      → handle_push_message env cfg p size stamp t ≡ some (true, t')
      → t.status ≡ ready
      → find (next_seq t.seq_counter) t.timers ≡ none
      → (decode ack).seq ≡ next_seq t.seq_counter
      → (timer : ℕ) × (find (next_seq t.seq_counter) t'.timers ≡ some timer)
        × (on_push_msg env cfg ack t'
            ≡ some (true, record t' { timers = t.timers; calls = kill_timer timer ∷ t'.calls }))
  push-ack_lem ack e r fresh s =
      let (timer, pushed) = push_lem e in
      let found : find (next_seq t.seq_counter) t'.timers ≡ some timer =
        ap (find (next_seq t.seq_counter)) pushed.waits
        ∙ find-insert (next_seq t.seq_counter) timer t.timers in
      let gone : erase (next_seq t.seq_counter) t'.timers ≡ t.timers =
        ap (erase (next_seq t.seq_counter)) pushed.waits
        ∙ erase-insert (next_seq t.seq_counter) timer t.timers fresh in
      (
        timer,
        found,
        acked env cfg ack t' timer t.timers (pushed.same_status ∙ r)
            (omega (arith, next_seq_bounds t.seq_counter)) (ap (λ k. find k t'.timers) s ∙ found)
            (ap (λ k. erase k t'.timers) s ∙ gone),
      )

-- A push whose message goes out but that gets no timer faults: the reason that it gives to the end of
-- the transaction is not one of its switch.
pub push-faults :
    (env : Answers) (cfg : Settings) (t : Transaction) (p : Push) (size stamp : ℕ)
    → ((calls : List Call) (msg : List ℕ) → env calls (node_send msg) ≢ 0)
    → ((calls : List Call) (seq : ℕ) → env calls (set_timer cfg.heartbeat_interval seq 1) ≡ 0)
    → handle_push_message env cfg p size stamp t ≡ none
unfolding handle_push_message send over on_stop
push-faults env cfg t p size stamp out no_timer =
    let stmp = env (now ∷ t.calls) now in
    let msg =
      set_seq (set_ext (set_stmp (push_message cfg.protocol_version (env t.calls now) p) stmp) 0)
        (next_seq t.seq_counter) in
    let asked = now ∷ now ∷ t.calls in
    ground (arith, out asked msg, no_timer (node_send msg ∷ asked) (next_seq t.seq_counter))
