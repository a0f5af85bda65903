-- ===== src/Worker/Stuck.antt =====
-- Whether the two threads can block each other.
use g_max_linked.Base.{
  ℕ, ◌^◌, ◌<◌, ◌≡◌, refl, Bool, true, false, Bool-cases, ◌⊎◌, inl, inr, List, [], ◌∷◌, add32,
}
use g_max_linked.Worker.{
  Starter, begins, owns, created, joins, joining, returned, Run, unborn, counts, locks, ended,
  Holder, nobody, of_starter, State, Mode, moved, create_thread, starter_step, run_step, Move,
  starter_moves, run_moves, wakes_up, moves, idle,
}
use g_max_linked.Worker.Together.{
  IsPast, loops_past, uncounts_past, clears_past, ended_past, counts_new, locks_new, Together,
  idle_there, owned, made, waiting, informing, informed, waking, to_join, in_join, unmade, done,
}
use g_max_linked.Worker.Started.{IsSignalled, moves-IsValid}

-- Both threads are at their end, or there is none.
abbrev pub IsDone : Starter → Run → Type 0
IsDone st r = (st ≡ returned) × ((r ≡ unborn) ⊎ (r ≡ ended))

-- One of the threads can make a step, which is neither blocked nor a fault.
abbrev pub Goes : Mode → Starter → Run → State → Type 0
Goes mode st r s =
    ((k : Bool) → (s' : State) × (starter_step mode k st s ≡ moved s'))
    ⊎ ((g : Bool) → (s' : State) × (run_step g r s ≡ moved s'))

-- The worker has ended and cleared its handle, and `work` is about to join it.
abbrev pub IsLate : Mode → Starter → Run → Bool → Type 0
IsLate mode st r has_handle = (st ≡ joins) × (r ≡ ended) × (mode.sync ≡ true) × (has_handle ≡ false)

module _ (mode : Mode) (n : ℕ) (b : Bool) where
  abbrev at_state : Starter → Run → Bool → Holder → State
  at_state st r i h = record {
    starter = st;
    run = r;
    informed = i;
    lock = h;
    has_handle = b;
    worker_num = n;
  }

  abbrev IsIn : {r : Run} → IsPast r → Type 0
  IsIn ended_past = ⊥
  IsIn _ = Unit {0}

  -- A worker that has informed and has not ended.
  run_goes :
      {r : Run} (st : Starter) (i : Bool) (h : Holder) (p : IsPast r)
      → IsIn p
      → (g : Bool) → (s' : State) × (run_step g r (at_state st r i h) ≡ moved s')
  unfolding run_step
  run_goes st i h loops_past o g = (_, refl)
  run_goes st i h uncounts_past o g = (_, refl)
  run_goes st i h clears_past o g = (_, refl)
  run_goes st i h ended_past o g = elim o [ ]

  -- `work` before it joins a worker that has ended.
  joins_goes :
      (sync : Bool)
      → mode.sync ≡ sync
      → ((mode.sync ≡ true) × (b ≡ false))
        ⊎ ((k : Bool)
            → (s' : State) × (starter_step mode k joins (at_state joins ended false of_starter)
                ≡ moved s'))
  unfolding starter_step
  joins_goes false e = inr (λ k. (at_state returned ended false nobody, rw e refl))
  joins_goes true e = elim (Bool-cases b) [
    | inl there ↦ inr (λ k. (at_state joining ended false of_starter, rw (e, there) refl))
    | inr gone ↦ inl (e, gone)
  ]

  -- `work` while the worker is in its loop, or past it.
  to_join_goes :
      {r : Run}
      → IsPast r
      → Goes mode joins r (at_state joins r false of_starter) ⊎ IsLate mode joins r b
  to_join_goes ended_past = elim (joins_goes mode.sync refl) [
    | inl (sync, gone) ↦ inr (refl, refl, sync, gone)
    | inr step ↦ inl (inl step)
  ]
  to_join_goes loops_past = inl (inr (run_goes joins false of_starter loops_past tt))
  to_join_goes uncounts_past = inl (inr (run_goes joins false of_starter uncounts_past tt))
  to_join_goes clears_past = inl (inr (run_goes joins false of_starter clears_past tt))

  join_goes : {r : Run} → IsPast r → Goes mode joining r (at_state joining r false of_starter)
  unfolding starter_step
  join_goes ended_past = inl (λ k. (_, refl))
  join_goes loops_past = inr (run_goes joining false of_starter loops_past tt)
  join_goes uncounts_past = inr (run_goes joining false of_starter uncounts_past tt)
  join_goes clears_past = inr (run_goes joining false of_starter clears_past tt)

  last_goes :
      {r : Run}
      → IsPast r
      → IsDone returned r ⊎ Goes mode returned r (at_state returned r false nobody)
  last_goes ended_past = inl (refl, inr refl)
  last_goes loops_past = inr (inr (run_goes returned false nobody loops_past tt))
  last_goes uncounts_past = inr (inr (run_goes returned false nobody uncounts_past tt))
  last_goes clears_past = inr (inr (run_goes returned false nobody clears_past tt))

  create_goes :
      (next : Starter) (k : Bool) (s : State) → (s' : State) × (create_thread k next s ≡ moved s')
  unfolding create_thread
  create_goes next true s = (_, refl)
  create_goes next false s = (_, refl)

  begins_goes :
      (k has_handle informs : Bool)
      → b ≡ has_handle
      → mode.informed ≡ informs
      → (s' : State) × (starter_step mode k begins (at_state begins unborn false nobody) ≡ moved s')
  unfolding starter_step create_thread
  begins_goes k true i e m = (at_state returned unborn false nobody, rw e refl)
  begins_goes k false true e m = (at_state owns unborn false of_starter, rw (e, m) refl)
  begins_goes true false false e m =
      (record (at_state returned counts false nobody) { has_handle = true }, rw (e, m) refl)
  begins_goes false false false e m = (at_state returned unborn false nobody, rw (e, m) refl)

  goes :
      {st : Starter} {r : Run} {i : Bool} {h : Holder}
      → Together st r i h
      → IsDone st r ⊎ Goes mode st r (at_state st r i h) ⊎ IsLate mode st r b
  unfolding starter_step run_step
  goes idle_there = inr (inl (inl (λ k. begins_goes k b mode.informed refl refl)))
  goes owned = inr (inl (inl (λ k. create_goes created k (at_state owns unborn true of_starter))))
  goes (made p) = inr (inl (inl (λ k. (_, refl))))
  goes (waiting counts_new) = inr (inl (inr (λ g. (_, refl))))
  goes (waiting locks_new) = inr (inl (inr (λ g. (_, refl))))
  goes informing = inr (inl (inr (λ g. (_, refl))))
  goes informed = inr (inl (inr (λ g. (_, refl))))
  goes (waking p) = inr (inl (inl (λ k. (_, refl))))
  goes (to_join p) = inr (to_join_goes p)
  goes (in_join p) = inr (inl (join_goes p))
  goes unmade = inl (refl, inl refl)
  goes (done p) = elim (last_goes p) [ inl d ↦ inl d | inr g ↦ inr (inl g) ]

-- While no wait ends without a signal, the two threads never block each other: in any order of their
-- steps, `work` is at its end, and so is the worker, if there is one; or one of them can make a step,
-- which is no fault; or the worker has ended and cleared its handle before `work`, which is to wait for it, has come to join it.
pub never_stuck :
    (others : ℕ) (mode : Mode) (ms : List Move) (s : State)
    → others < 2 ^ 32
    → mode.informed ≡ true
    → IsSignalled ms
    → moves mode ms (idle others) ≡ moved s
    → IsDone s.starter s.run
      ⊎ Goes mode s.starter s.run s
      ⊎ IsLate mode s.starter s.run s.has_handle
never_stuck others mode ms s l m q e =
    goes mode s.worker_num s.has_handle (moves-IsValid others mode m ms s q l e).together

-- The wait of `work` ends without a signal, before the worker has come to inform.
abbrev pub early : List Move
early =
    starter_moves true
    ∷ starter_moves true
    ∷ starter_moves true
    ∷ wakes_up
    ∷ starter_moves true
    ∷ run_moves true
    ∷ starter_moves true
    ∷ []

-- The traffic manager's way to start its worker can hang. When `work` is to wait and to join, and its wait
-- ends without a signal, which POSIX allows, before the worker has come to `_mutexInformed`, then `work`
-- joins the worker with that mutex in its hands: the worker never comes to its loop, and no step of
-- either thread changes anything any more.
pub stuck_lem :
    (others : ℕ) (mode : Mode)
    → mode.informed ≡ true
    → mode.sync ≡ true
    → (s : State) × (moves mode early (idle others) ≡ moved s)
      × (s.starter ≡ joining)
      × (s.run ≡ locks)
      × ((ms : List Move) → moves mode ms s ≡ moved s)
unfolding moves create_thread
stuck_lem others mode m j = (stuck, rw (m, j) refl, refl, refl, stays)
  where
    stuck : State
    stuck = record {
      starter = joining;
      run = locks;
      informed = true;
      lock = of_starter;
      has_handle = true;
      worker_num = add32 others 1;
    }

    stays : (ms : List Move) → moves mode ms stuck ≡ moved stuck
    stays [] = refl
    stays (starter_moves k ∷ ms) = stays ms
    stays (run_moves g ∷ ms) = stays ms
    stays (wakes_up ∷ ms) = stays ms
