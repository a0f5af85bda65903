-- ===== src/TimerManager.antt =====
-- `CTimerManager` (src/common/CTimerManager.cpp): the timers, a doubly linked list in a store. A
-- timer is its address, and 0 is null. The worker's thread runs `working` again and again.
pub mod Chain
pub mod Links
pub mod Unlink
mod Tests
use g_max_linked.Base.{
  ℕ, zero, suc, ◌+◌, ◌-◌, Bool, true, false, not, ◌&&◌, ◌||◌, Option, none, some, List, [], ◌∷◌,
  ◌++◌, ltb, leb, ◌==◌, if◌then◌else◌, ◌>>=◌, ◌>>◌, assert_that, length, ◌^◌, u32,
}
use g_max_linked.Resource.{Resource, allocate, reclaim}

-- `ETimerStatus`.
pub data TimerStatus : Type 0 where
  nothing to_be_add added to_be_del deleted : TimerStatus

-- `TTimer`.
pub record Timer : Type 0 where
  pub period : ℕ
  pub parameter1 : ℕ
  pub parameter2 : ℕ
  pub times : ℕ
  pub base_s : ℕ
  pub base_us : ℕ
  pub previous : ℕ
  pub following : ℕ
  pub status : TimerStatus

abbrev pub Store : Type 0
Store = ℕ → Timer

-- The store with one timer changed.
abbrev pub set_at : Store → ℕ → Timer → Store
set_at store a timer x = if x == a then timer else store x

pub record Manager : Type 0 where
  pub store : Store
  pub resource : Resource
  pub timer_list : ℕ
  pub last_timer : ℕ
  pub add_queue : List ℕ
  pub del_queue : List ℕ
  pub cur_timer : ℕ

abbrev pub is_to_be_add : TimerStatus → Bool
is_to_be_add to_be_add = true
is_to_be_add _ = false

abbrev pub is_added : TimerStatus → Bool
is_added added = true
is_added _ = false

abbrev pub is_to_be_del : TimerStatus → Bool
is_to_be_del to_be_del = true
is_to_be_del _ = false

abbrev pub is_nothing : TimerStatus → Bool
is_nothing nothing = true
is_nothing _ = false

-- `NOTHING` or `DELETED`.
abbrev pub is_free : TimerStatus → Bool
is_free nothing = true
is_free deleted = true
is_free _ = false

-- `setTimer`, at the time that `gettimeofday` gives.
unfoldable pub set_timer : ℕ × ℕ → ℕ → ℕ → ℕ → ℕ → Manager → Option (ℕ × Manager)
set_timer now period parameter1 parameter2 times m =
    let (timer, resource) = allocate m.resource in
    if timer == 0 then some (0, m) else do
      assert_that (is_free (m.store timer).status)
      some (
        timer,
        record m {
          resource = resource;
          store = set_at m.store timer (record {
            period = period;
            parameter1 = parameter1;
            parameter2 = parameter2;
            times = times;
            base_s = now.0;
            base_us = now.1;
            previous = 0;
            following = 0;
            status = to_be_add;
          });
          add_queue = m.add_queue ++ timer ∷ [];
        },
      )

-- A change of status.
abbrev set_status : Manager → ℕ → TimerStatus → Manager
set_status m timer status = record m {
  store = set_at m.store timer (record (m.store timer) { status = status });
}

-- `killTimer`.
unfoldable pub kill_timer : ℕ → Manager → Option Manager
kill_timer timer m = do
  assert_that (ltb 0 timer)
  assert_that (not (is_nothing (m.store timer).status))
  if is_to_be_add (m.store timer).status
      then some (record (set_status m timer deleted) { resource = (reclaim timer m.resource).1 })
      else if not (is_added (m.store timer).status)
      then some m
      else some (record (set_status m timer to_be_del) { del_queue = m.del_queue ++ timer ∷ [] })

-- `_addTimer`.
unfoldable pub add_timer : ℕ → Manager → Option Manager
add_timer timer m = do
  assert_that (not (timer == 0))
  let first = record m { last_timer = timer; timer_list = timer }
  let before = set_at m.store timer (record (m.store timer) { previous = m.last_timer })
  let linked = set_at before m.last_timer (record (before m.last_timer) { following = timer })
  if m.timer_list == 0
      then (do assert_that (m.last_timer == 0); some (set_status first timer added))
      else some (set_status (record m { store = linked; last_timer = timer }) timer added)

-- The links of `_delTimer`.
unfoldable pub unlink : ℕ → Manager → Option Manager
unlink timer m =
    let previous = (m.store timer).previous in
    let following = (m.store timer).following in
    let store₁ = set_at m.store previous (record (m.store previous) { following = following }) in
    if previous == 0
    then (do
      assert_that (timer == m.timer_list)
      if following == 0
          then (do
            assert_that (timer == m.last_timer)
            some (record m { last_timer = 0; timer_list = 0 }))
          else some (record m {
            timer_list = following;
            store = set_at m.store following (record (m.store following) { previous = 0 });
          }))
    else if following == 0
    then (do
      assert_that (timer == m.last_timer)
      some (record m {
        last_timer = previous;
        store = set_at m.store previous (record (m.store previous) { following = 0 });
      }))
    else some (record m {
      store = set_at store₁ following (record (store₁ following) { previous = previous });
    })

-- `_delTimer`.
unfoldable pub del_timer : ℕ → Manager → Option Manager
del_timer timer m = do
  assert_that (not (timer == 0))
  m' ← unlink timer m
  some (record (set_status m' timer deleted) { resource = (reclaim timer m'.resource).1 })

-- The first loop of `working`, which empties the queue of new timers.
unfoldable pub add_pending : List ℕ → Manager → Option Manager
add_pending [] m = some (record m { add_queue = [] })
add_pending (timer ∷ queue) m = elim (is_to_be_add (m.store timer).status) [
  | true ↦ (add_timer timer m >>= λ m'. add_pending queue m')
  | false ↦ add_pending queue m
]

-- The current timer steps aside when it is the one that goes.
unfoldable pub step_aside : ℕ → Manager → Manager
step_aside timer m =
    if timer == m.cur_timer then record m { cur_timer = (m.store m.cur_timer).following } else m

-- The second loop of `working`.
unfoldable pub del_pending : List ℕ → Manager → Option Manager
del_pending [] m = some (record m { del_queue = [] })
del_pending (timer ∷ queue) m = elim (is_to_be_del (m.store timer).status) [
  | true ↦ (del_timer timer (step_aside timer m) >>= λ m'. del_pending queue m')
  | false ↦ del_pending queue m
]

-- Whether a timer has run out. The sum is a `b4_`: from 2^31 on it is negative.
unfoldable pub is_due : ℕ × ℕ → Timer → Bool
is_due now timer =
    let i = u32 (timer.period + timer.base_s) in
    leb (2 ^ 31) i || (ltb i now.0 || (i == now.0 && leb timer.base_us now.1))

-- `_curTimer = _curTimer->next`.
unfoldable pub step : Manager → Manager
step m = record m { cur_timer = (m.store m.cur_timer).following }

unfoldable pub drop_current : Manager → Option Manager
unfolding step
drop_current m = del_timer m.cur_timer (step m)

-- What a timer that has run out does: `answer` is the answer of `__onTimer`.
unfoldable pub fire : ℕ × ℕ → Bool → Manager → Option Manager
fire now answer m =
    let timer = m.store m.cur_timer in
    let again = record timer { base_s = now.0; base_us = now.1; times = timer.times - 1 } in
    let m' = record m { store = set_at m.store m.cur_timer again } in
    if not answer
    then drop_current m
    else if timer.times == 0
    then some (step m')
    else if timer.times - 1 == 0
    then drop_current m'
    else some (step m')

-- The rest of `working`, for a current timer: the timer that fired, if one did.
unfoldable pub check_current : ℕ × ℕ → Bool → Manager → Option (ℕ × Manager)
check_current now answer m =
    if is_due now (m.store m.cur_timer)
    then (fire now answer m >>= λ m'. some (m.cur_timer, m'))
    else some (0, step m)

-- `working`. Each round looks at one timer.
unfoldable pub working : ℕ × ℕ → Bool → Manager → Option (ℕ × Manager)
working now answer m = do
  added_all ← add_pending m.add_queue m
  ready ← del_pending added_all.del_queue added_all
  if ready.cur_timer == 0
      then (if ready.timer_list == 0
          then some (0, ready)
          else check_current now answer (record ready { cur_timer = ready.timer_list }))
      else check_current now answer ready
