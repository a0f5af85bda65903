-- ===== src/Transaction/Ends.antt =====
-- What the end of a transaction gives back.
use g_max_linked.Base.{
  ℕ, ◌≡◌, ◌≢◌, refl, ap, inl, inr, Bool-cases, ne→not_==, true, false, some, List, [], ◌∷◌, arith,
  if◌then◌else◌, ◌==◌, ◌≤◌, ◌<◌,
}
use mathlib.Core.List.{Memᴰ}
use g_max_linked.Transaction.Act.{
  over_status, Transaction, Answers, Settings, Call, kill_timer, unregister, first, c_string,
  reason_code, cannot_recv_data,
}
use g_max_linked.Transaction.Handlers.{kill_timers, on_stop, stop_reason, no_session}
use g_max_linked.Transaction.Lifecycle.{IsClear}

kill_timers-keeps :
    (m : List (ℕ × ℕ)) (calls : List Call) (c : Call) → Memᴰ c calls → Memᴰ c (kill_timers m calls)
unfolding kill_timers
kill_timers-keeps [] calls c h = h
kill_timers-keeps ((seq, timer) ∷ m) calls c h =
    kill_timers-keeps m (kill_timer timer ∷ calls) c (Memᴰ.tail h)

kill_timers-all :
    (m : List (ℕ × ℕ)) (calls : List Call) (seq timer : ℕ)
    → Memᴰ (seq, timer) m
    → Memᴰ (kill_timer timer) (kill_timers m calls)
unfolding kill_timers
kill_timers-all [] calls seq timer h = elim h [ ]
kill_timers-all ((j, w) ∷ m) calls seq timer (Memᴰ.head e) =
    kill_timers-keeps m (kill_timer w ∷ calls) (kill_timer timer)
      (Memᴰ.head (ap (λ p. kill_timer p.1) e))
kill_timers-all ((j, w) ∷ m) calls seq timer (Memᴰ.tail h) =
    kill_timers-all m (kill_timer w ∷ calls) seq timer h

-- What has been given back when a transaction has ended.
pub record Ended (t t' : Transaction) : Type 0 where
  pub is_over : t'.status ≡ over_status
  pub clear : IsClear t'
  pub no_keep_live : t'.keep_live_timer_id ≡ 0
  pub keep_live_killed : t.keep_live_timer_id ≢ 0 → Memᴰ (kill_timer t.keep_live_timer_id) t'.calls
  pub timers_killed :
      (seq timer : ℕ) → Memᴰ (seq, timer) t.timers → Memᴰ (kill_timer timer) t'.calls
  pub unregistered : first t.session_id ≢ 0 → Memᴰ (unregister (c_string t.session_id)) t'.calls

-- The calls of `on_stop`, the last first.
abbrev last_calls : Transaction → List Call
last_calls t =
    let live =
      if t.keep_live_timer_id == 0 then t.calls else kill_timer t.keep_live_timer_id ∷ t.calls in
    let killed = kill_timers t.timers live in
    if first t.session_id == 0 then killed else unregister (c_string t.session_id) ∷ killed

abbrev ended : Transaction → Transaction
ended t = record t {
  status = over_status;
  build = 0;
  last_update = 0;
  session_id = if first t.session_id == 0 then t.session_id else no_session;
  id = 0;
  keep_live_timer_id = 0;
  heartbeat = false;
  seq_counter = 0;
  timers = [];
  calls = last_calls t;
}

on_stop-eq :
    (env : Answers) (cfg : Settings) (reason : ℕ) (t : Transaction)
    → stop_reason reason ≡ true
    → on_stop env cfg reason t ≡ some (false, ended t)
unfolding on_stop
on_stop-eq env cfg reason t h = ground arith

last_calls-more :
    (t : Transaction) (c : Call)
    → Memᴰ c (
        kill_timers t.timers (
          if t.keep_live_timer_id == 0 then t.calls else kill_timer t.keep_live_timer_id ∷ t.calls))
    → Memᴰ c (last_calls t)
last_calls-more t c h = elim (Bool-cases (first t.session_id == 0)) [
  | inl e ↦ rw e h
  | inr e ↦ rw e (Memᴰ.tail h)
]

-- With a reason of its switch, `__onStop` does not fault and answers false. The transaction is over
-- and keeps nothing, and it has asked to kill its keep-live timer and the timer of every message that
-- waits for an answer, and to unregister its session, if it had them.
pub on_stop_lem :
    (env : Answers) (cfg : Settings) (reason : ℕ) (t : Transaction)
    → 0 < reason
    → reason ≤ reason_code cannot_recv_data
    → (t' : Transaction) × (on_stop env cfg reason t ≡ some (false, t')) × Ended t t'
on_stop_lem env cfg reason t p q = (
  ended t,
  on_stop-eq env cfg reason t (ground arith),
  record {
    is_over = refl;
    clear = ground arith;
    no_keep_live = refl;
    keep_live_killed = λ h.
        last_calls-more t _ (
          kill_timers-keeps t.timers _ _
            (rw (ne→not_== t.keep_live_timer_id 0 h) (Memᴰ.head refl)));
    timers_killed = λ seq timer m. last_calls-more t _ (kill_timers-all t.timers _ seq timer m);
    unregistered = λ h. rw (ne→not_== (first t.session_id) 0 h) (Memᴰ.head refl);
  },
)
