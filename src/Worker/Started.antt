-- ===== src/Worker/Started.antt =====
-- What `work` has achieved when it returns.
use g_max_linked.Base.{
  ℕ, suc, ◌+◌, ◌^◌, ◌<◌, ◌≡◌, subst, Bool, true, List, [], ◌∷◌, if◌then◌else◌, arith, u32,
}
use g_max_linked.Worker.{
  returned, Run, Holder, State, Mode, Moved, blocked, fault, moved, Move, starter_moves, run_moves,
  wakes_up, follow, moves, idle,
}
use g_max_linked.Worker.Together.{
  loops_past, uncounts_past, clears_past, ended_past, Together, idle_there, unmade, done, counted,
  is_out, IsValid, Keeps, run_step-Keeps, starter_step-Keeps,
}

-- No wait ends by itself.
abbrev pub IsSignalled : List Move → Type 0
IsSignalled [] = Unit {0}
IsSignalled (wakes_up ∷ ms) = ⊥
IsSignalled (starter_moves b ∷ ms) = IsSignalled ms
IsSignalled (run_moves b ∷ ms) = IsSignalled ms

module _ (others : ℕ) (mode : Mode) (is_informed : mode.informed ≡ true) where
  Keeps-follow :
      (next : State → Moved) (s : State) (m : Moved)
      → ((t : State) → IsValid others t → Keeps others (next t))
      → IsValid others s
      → Keeps others m
      → Keeps others (follow next s m)
  unfolding follow
  Keeps-follow next s blocked h v k = h s v
  Keeps-follow next s fault h v k = tt
  Keeps-follow next s (moved t) h v k = h t k

  moves-Keeps :
      (ms : List Move) (s : State)
      → IsSignalled ms
      → IsValid others s
      → Keeps others (moves mode ms s)
  unfolding moves
  moves-Keeps [] s q v = v
  moves-Keeps (starter_moves k ∷ ms) s q v =
      Keeps-follow (moves mode ms) s _ (λ t w. moves-Keeps ms t q w) v
        (starter_step-Keeps others s.worker_num s.has_handle mode k is_informed v.together v.num)
  moves-Keeps (run_moves g ∷ ms) s q v =
      Keeps-follow (moves mode ms) s _ (λ t w. moves-Keeps ms t q w) v
        (run_step-Keeps others s.worker_num s.has_handle g v.together v.num)
  moves-Keeps (wakes_up ∷ ms) s q v = absurd q

idle-IsValid : (others : ℕ) → others < 2 ^ 32 → IsValid others (idle others)
idle-IsValid others l = record { together = idle_there; num = omega arith }

-- The two threads, from the start on.
pub moves-IsValid :
    (others : ℕ) (mode : Mode)
    → mode.informed ≡ true
    → (ms : List Move) (s : State) → IsSignalled ms
    → others < 2 ^ 32
    → moves mode ms (idle others) ≡ moved s
    → IsValid others s
moves-IsValid others mode m ms s q l e =
    subst (Keeps others) e (moves-Keeps others mode m ms (idle others) q (idle-IsValid others l))

number_of :
    (others n : ℕ) {r : Run} {i : Bool} {h : Holder}
    → Together returned r i h
    → suc others < 2 ^ 32
    → n ≡ u32 (others + counted r)
    → n ≡ others + (if is_out r then 0 else 1)
number_of others n unmade l e = omega arith
number_of others n (done loops_past) l e = omega arith
number_of others n (done uncounts_past) l e = omega arith
number_of others n (done clears_past) l e = omega arith
number_of others n (done ended_past) l e = omega arith

-- The end of the program waits for its workers. When `work`, asked to wait until the worker informs it,
-- has returned, in any order of the steps of the two threads and however often `working()` was called, and no
-- wait has ended without a signal, then the number of workers counts this worker exactly as long as it is
-- in its loop or not yet past it: `getTotalNum()` cannot be 0 before the worker is out.
pub work-counted :
    (others : ℕ) (mode : Mode) (ms : List Move) (s : State)
    → suc others < 2 ^ 32
    → mode.informed ≡ true
    → IsSignalled ms
    → moves mode ms (idle others) ≡ moved s
    → s.starter ≡ returned
    → s.worker_num ≡ others + (if is_out s.run then 0 else 1)
work-counted others mode ms s l m q e r =
    let v : IsValid others s = moves-IsValid others mode m ms s q (omega arith) e in
    number_of others s.worker_num (subst (λ x. Together x s.run s.informed s.lock) r v.together) l
      v.num
