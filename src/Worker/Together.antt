-- ===== src/Worker/Together.antt =====
-- The states that `work` and `_run` reach together, and that their steps keep them.
use g_max_linked.Base.{ℕ, ◌+◌, ◌≡◌, Bool, true, false, if◌then◌else◌, arith, u32}
use g_max_linked.Worker.{
  Starter, begins, owns, created, waits, woken, joins, joining, returned, Run, unborn, counts,
  locks, informs, unlocks, loops, uncounts, clears, ended, Holder, nobody, of_starter, of_run,
  State, Mode, Moved, blocked, fault, moved, create_thread, join, starter_step, run_step,
}

-- Before the worker has informed, and after it.
pub data IsNew : Run → Type 0 where
  counts_new : IsNew counts
  locks_new : IsNew locks

pub data IsPast : Run → Type 0 where
  loops_past : IsPast loops
  uncounts_past : IsPast uncounts
  clears_past : IsPast clears
  ended_past : IsPast ended

-- The states that the two threads reach together while no wait ends by itself.
pub data Together : Starter → Run → Bool → Holder → Type 0 where
  idle_there : Together begins unborn false nobody
  owned : Together owns unborn false of_starter
  made : {r : Run} → IsNew r → Together created r true of_starter
  waiting : {r : Run} → IsNew r → Together waits r true nobody
  informing : Together waits informs true of_run
  informed : Together woken unlocks false of_run
  waking : {r : Run} → IsPast r → Together woken r false nobody
  to_join : {r : Run} → IsPast r → Together joins r false of_starter
  in_join : {r : Run} → IsPast r → Together joining r false of_starter
  unmade : {i : Bool} → Together returned unborn i nobody
  done : {r : Run} → IsPast r → Together returned r false nobody

-- Whether a worker counts itself.
abbrev pub counted : Run → ℕ
counted unborn = 0
counted counts = 0
counted clears = 0
counted ended = 0
counted _ = 1

-- Whether the worker is not in its loop, nor on the way there.
abbrev pub is_out : Run → Bool
is_out unborn = true
is_out clears = true
is_out ended = true
is_out _ = false

pub record IsValid (others : ℕ) (s : State) : Type 0 where
  pub together : Together s.starter s.run s.informed s.lock
  pub num : s.worker_num ≡ u32 (others + counted s.run)

abbrev pub Keeps : ℕ → Moved → Type 0
Keeps others blocked = Unit {0}
Keeps others fault = Unit {0}
Keeps others (moved s) = IsValid others s

pub Keeps-if :
    (others : ℕ) (c : Bool) (x y : Moved)
    → Keeps others x
    → Keeps others y
    → Keeps others (if c then x else y)
Keeps-if others true x y p q = p
Keeps-if others false x y p q = q

module _ (others n : ℕ) (b : Bool) where
  abbrev pub at_state : Starter → Run → Bool → Holder → State
  at_state st r i h = record {
    starter = st;
    run = r;
    informed = i;
    lock = h;
    has_handle = b;
    worker_num = n;
  }

  pub past_step :
      {st : Starter} {r : Run} {h : Holder} (is_working : Bool)
      → ((q : Run) → IsPast q → Together st q false h)
      → IsPast r
      → n ≡ u32 (others + counted r)
      → Keeps others (run_step is_working r (at_state st r false h))
  unfolding run_step
  past_step true go loops_past e = record { together = go loops loops_past; num = e }
  past_step false go loops_past e = record { together = go uncounts uncounts_past; num = e }
  past_step g go uncounts_past e = record { together = go clears clears_past; num = omega arith }
  past_step g go clears_past e = record { together = go ended ended_past; num = e }
  past_step g go ended_past e = tt

  pub run_step-Keeps :
      {st : Starter} {r : Run} {i : Bool} {h : Holder} (is_working : Bool)
      → Together st r i h
      → n ≡ u32 (others + counted r)
      → Keeps others (run_step is_working r (at_state st r i h))
  unfolding run_step
  run_step-Keeps g idle_there e = tt
  run_step-Keeps g owned e = tt
  run_step-Keeps g (made counts_new) e = record { together = made locks_new; num = omega arith }
  run_step-Keeps g (made locks_new) e = tt
  run_step-Keeps g (waiting counts_new) e = record {
    together = waiting locks_new;
    num = omega arith;
  }
  run_step-Keeps g (waiting locks_new) e = record { together = informing; num = e }
  run_step-Keeps g informing e = record { together = informed; num = e }
  run_step-Keeps g informed e = record { together = waking loops_past; num = e }
  run_step-Keeps g (waking p) e = past_step g (λ _ q. waking q) p e
  run_step-Keeps g (to_join p) e = past_step g (λ _ q. to_join q) p e
  run_step-Keeps g (in_join p) e = past_step g (λ _ q. in_join q) p e
  run_step-Keeps g unmade e = tt
  run_step-Keeps g (done p) e = past_step g (λ _ q. done q) p e

  pub create_thread-Keeps :
      (is_made : Bool)
      → n ≡ u32 (others + 0)
      → Keeps others (create_thread is_made created (at_state owns unborn true of_starter))
  unfolding create_thread
  create_thread-Keeps true e = record { together = made counts_new; num = e }
  create_thread-Keeps false e = record { together = unmade; num = e }

  pub begins-Keeps :
      (mode : Mode) (is_made : Bool)
      → mode.informed ≡ true
      → n ≡ u32 (others + 0)
      → Keeps others (starter_step mode is_made begins (at_state begins unborn false nobody))
  unfolding starter_step
  begins-Keeps mode is_made m e =
      Keeps-if others b _ _ (record { together = unmade; num = e })
        (rw m (record { together = owned; num = e }))

  pub join-Keeps :
      {r : Run}
      → IsPast r
      → n ≡ u32 (others + counted r)
      → Keeps others (join r (at_state joining r false of_starter))
  unfolding join
  join-Keeps loops_past e = tt
  join-Keeps uncounts_past e = tt
  join-Keeps clears_past e = tt
  join-Keeps ended_past e = record { together = done ended_past; num = e }

  pub starter_step-Keeps :
      {st : Starter} {r : Run} {i : Bool} {h : Holder} (mode : Mode) (is_made : Bool)
      → mode.informed ≡ true
      → Together st r i h
      → n ≡ u32 (others + counted r)
      → Keeps others (starter_step mode is_made st (at_state st r i h))
  unfolding starter_step
  starter_step-Keeps mode k m idle_there e = begins-Keeps mode k m e
  starter_step-Keeps mode k m owned e = create_thread-Keeps k e
  starter_step-Keeps mode k m (made p) e = record { together = waiting p; num = e }
  starter_step-Keeps mode k m (waiting p) e = tt
  starter_step-Keeps mode k m informing e = tt
  starter_step-Keeps mode k m informed e = tt
  starter_step-Keeps mode k m (waking p) e = record { together = to_join p; num = e }
  starter_step-Keeps mode k m (to_join p) e =
      Keeps-if others mode.sync _ _
        (Keeps-if others b _ _ (record { together = in_join p; num = e }) tt)
        (record { together = done p; num = e })
  starter_step-Keeps mode k m (in_join p) e = join-Keeps p e
  starter_step-Keeps mode k m unmade e = tt
  starter_step-Keeps mode k m (done p) e = tt
