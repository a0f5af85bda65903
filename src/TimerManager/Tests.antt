-- ===== src/TimerManager/Tests.antt =====
-- A chain of two timers, and a third one.
use g_max_linked.Base.{ℕ, ◌≡◌, ◌≢◌, refl, some, [], ◌∷◌, arith, ◌==◌, if◌then◌else◌}
use g_max_linked.TimerManager.{Timer, TimerStatus, to_be_add, added, Manager, del_timer}
use g_max_linked.TimerManager.Links.{Fresh}
use g_max_linked.TimerManager.Chain.{IsChain}
use g_max_linked.TimerManager.Unlink.{del_timer_lem}

abbrev timer : ℕ → ℕ → TimerStatus → Timer
timer previous following status = record {
  period = 20;
  parameter1 = 100;
  parameter2 = 2;
  times = 1;
  base_s = 1000;
  base_us = 0;
  previous = previous;
  following = following;
  status = status;
}

abbrev store : ℕ → Timer
store x =
    if x == 16 then timer 0 32 added else if x == 32 then timer 16 0 added else timer 0 0 to_be_add

abbrev manager : Manager
manager = record {
  store = store;
  resource = record { units = 16 ∷ 32 ∷ 48 ∷ []; free_units = [] };
  timer_list = 16;
  last_timer = 32;
  add_queue = 48 ∷ [];
  del_queue = [];
  cur_timer = 16;
}

abbrev third : ℕ
third = 48

third_nonzero : third ≢ 0
third_nonzero = omega arith

third-Fresh : Fresh third (16 ∷ 32 ∷ [])
third-Fresh = (omega arith, (omega arith, tt))

manager-IsChain : IsChain manager (16 ∷ 32 ∷ [])
manager-IsChain = record {
  first = refl;
  last = refl;
  links = (omega arith, refl, refl, (omega arith, refl, refl, tt));
  distinct = ((omega arith, tt), (tt, tt));
}

del_timer_lem_example : (m' : Manager) × (del_timer 32 manager ≡ some m') × IsChain m' (16 ∷ [])
del_timer_lem_example = del_timer_lem manager (16 ∷ []) 32 [] manager-IsChain
