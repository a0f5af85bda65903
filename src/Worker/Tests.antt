-- ===== src/Worker/Tests.antt =====
-- A worker beside two others.
use g_max_linked.Base.{◌+◌, ◌≡◌, refl, true, false, ◌⊎◌, List, [], ◌∷◌, ◌++◌, if◌then◌else◌, arith}
use g_max_linked.Worker.{
  joins, joining, returned, locks, loops, nobody, of_starter, State, Mode, fault, moved,
  create_thread, Move, starter_moves, run_moves, moves, idle,
}
use g_max_linked.Worker.Together.{is_out}
use g_max_linked.Worker.Started.{work-counted}
use g_max_linked.Worker.Stuck.{IsDone, Goes, IsLate, never_stuck, early, stuck_lem}

abbrev informed : Mode
informed = record { informed = true; sync = false }

abbrev synced : Mode
synced = record { informed = true; sync = true }

-- The worker informs while `work` waits.
abbrev to_loop : List Move
to_loop =
    starter_moves true
    ∷ starter_moves true
    ∷ run_moves true
    ∷ starter_moves true
    ∷ run_moves true
    ∷ run_moves true
    ∷ run_moves true
    ∷ starter_moves true
    ∷ []

abbrev at_join : State
at_join = record {
  starter = joins;
  run = loops;
  informed = false;
  lock = of_starter;
  has_handle = true;
  worker_num = 3;
}

abbrev at_work : State
at_work = record at_join { starter = returned; lock = nobody }

to_loop_test : moves informed to_loop (idle 2) ≡ moved at_join
unfolding moves create_thread
to_loop_test = refl

work-counted_example : 3 ≡ 2 + (if is_out loops then 0 else 1)
unfolding moves create_thread
work-counted_example =
    work-counted 2 informed (to_loop ++ starter_moves true ∷ []) at_work (omega arith) refl tt refl
      refl

never_stuck_example :
    IsDone joins loops ⊎ Goes informed joins loops at_join ⊎ IsLate informed joins loops true
never_stuck_example = never_stuck 2 informed to_loop at_join (omega arith) refl tt to_loop_test

stuck_lem_example :
    (s : State) × (moves synced early (idle 2) ≡ moved s)
    × (s.starter ≡ joining)
    × (s.run ≡ locks)
    × ((ms : List Move) → moves synced ms s ≡ moved s)
stuck_lem_example = stuck_lem 2 synced refl refl

-- A worker whose `working()` answers false at once has cleared its handle when `work` comes to join it.
join_too_late :
    moves synced
      (to_loop ++ run_moves false ∷ run_moves false ∷ run_moves false ∷ starter_moves true ∷ [])
      (idle 0)
    ≡ fault
unfolding moves create_thread
join_too_late = refl
