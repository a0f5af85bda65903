-- ===== src/Worker.antt =====
-- `CWorker` (src/common/CWorker.cpp): the thread that starts a worker, in `work`, and the worker's own, in
-- `_run`, one step at a time. A step is what a thread does between two points at which the other can
-- notice it; a mutex or a condition that makes a thread wait blocks it.
pub mod Together
pub mod Started
pub mod Stuck
mod Tests
use g_max_linked.Base.{
  ℕ, ◌+◌, ◌-◌, ◌^◌, ◌%◌, Bool, true, false, List, [], ◌∷◌, if◌then◌else◌, add32, sub32,
}

-- Where `work` stands. It holds `_mutexInformed` from `owns` to `joining`, but not where it waits.
pub data Starter : Type 0 where
  begins owns created waits woken joins joining returned : Starter

-- Where `_run` stands. It holds `_mutexInformed` in `informs` and `unlocks`.
pub data Run : Type 0 where
  unborn counts locks informs unlocks loops uncounts clears ended : Run

pub data Holder : Type 0 where
  nobody of_starter of_run : Holder

-- `lock` is who holds `_mutexInformed`, `has_handle` whether `_handle` is set; `worker_num` is shared by all
-- workers.
pub record State : Type 0 where
  pub starter : Starter
  pub run : Run
  pub informed : Bool
  pub lock : Holder
  pub has_handle : Bool
  pub worker_num : ℕ

-- The arguments of `work`.
pub record Mode : Type 0 where
  pub informed : Bool
  pub sync : Bool

-- A thread is blocked, or ends the program, or has made its step.
pub data Moved : Type 0 where
  blocked : Moved
  fault : Moved
  moved : State → Moved

unfoldable pub acquire : Holder → Moved → Moved
acquire nobody m = m
acquire of_starter m = blocked
acquire of_run m = blocked

-- `createThread`, which may fail.
unfoldable pub create_thread : Bool → Starter → State → Moved
create_thread is_made next s =
    if is_made
    then moved (record s { starter = next; run = counts; has_handle = true })
    else moved (record s { starter = returned; lock = nobody })

-- `pthread_join` returns when the thread has ended.
unfoldable pub join : Run → State → Moved
join ended s = moved (record s { starter = returned; lock = nobody })
join _ s = blocked

-- A step of `work`. `pthread_join` of a handle that has been cleared is a fault.
unfoldable pub starter_step : Mode → Bool → Starter → State → Moved
unfolding acquire create_thread join
starter_step mode is_made begins s =
    if s.has_handle
    then moved (record s { starter = returned })
    else if mode.informed
    then acquire s.lock (moved (record s { starter = owns; lock = of_starter }))
    else create_thread is_made returned s
starter_step mode is_made owns s = create_thread is_made created (record s { informed = true })
starter_step mode is_made created s =
    if s.informed
    then moved (record s { starter = waits; lock = nobody })
    else moved (record s { starter = joins })
starter_step mode is_made waits s = blocked
starter_step mode is_made woken s =
    acquire s.lock (moved (record s { starter = joins; lock = of_starter }))
starter_step mode is_made joins s =
    if mode.sync
    then (if s.has_handle then moved (record s { starter = joining }) else fault)
    else moved (record s { starter = returned; lock = nobody })
starter_step mode is_made joining s = join s.run s
starter_step mode is_made returned s = blocked

-- `pthread_cond_signal` wakes who waits.
unfoldable pub signal : Bool → Starter → Starter
signal true waits = woken
signal _ starter = starter

-- A step of `_run`; `is_working` is `_workingCondition` and what `working()` answers.
unfoldable pub run_step : Bool → Run → State → Moved
unfolding acquire signal
run_step is_working unborn s = blocked
run_step is_working counts s = moved (record s { run = locks; worker_num = add32 s.worker_num 1 })
run_step is_working locks s = acquire s.lock (moved (record s { run = informs; lock = of_run }))
run_step is_working informs s =
    moved (record s { run = unlocks; informed = false; starter = signal s.informed s.starter })
run_step is_working unlocks s = moved (record s { run = loops; lock = nobody })
run_step is_working loops s = moved (record s { run = if is_working then loops else uncounts })
run_step is_working uncounts s =
    moved (record s { run = clears; worker_num = sub32 s.worker_num 1 })
run_step is_working clears s = moved (record s { run = ended; has_handle = false })
run_step is_working ended s = blocked

-- POSIX lets `pthread_cond_wait` return with no signal.
unfoldable pub wake : Starter → State → Moved
wake waits s = moved (record s { starter = woken })
wake _ s = blocked

-- Which thread makes a step, or that the wait ends by itself.
pub data Move : Type 0 where
  starter_moves : Bool → Move
  run_moves : Bool → Move
  wakes_up : Move

unfoldable pub move : Mode → Move → State → Moved
unfolding starter_step run_step wake
move mode (starter_moves is_made) s = starter_step mode is_made s.starter s
move mode (run_moves is_working) s = run_step is_working s.run s
move mode wakes_up s = wake s.starter s

-- The state in which the next step starts: a blocked thread leaves it as it is.
unfoldable pub follow : (State → Moved) → State → Moved → Moved
follow next s blocked = next s
follow next s fault = fault
follow next s (moved s') = next s'

-- Both threads, in the order that a schedule gives.
unfoldable pub moves : Mode → List Move → State → Moved
unfolding move follow
moves mode [] s = moved s
moves mode (m ∷ ms) s = follow (moves mode ms) s (move mode m s)

-- A worker that has not been started, beside `others`.
abbrev pub idle : ℕ → State
idle others = record {
  starter = begins;
  run = unborn;
  informed = false;
  lock = nobody;
  has_handle = false;
  worker_num = others;
}
