-- ===== src/Runtime/Timer.antt =====
-- `Timer` of include/timer.h and src/timer.cc: a heap of times with the coroutines to wake, and a
-- timerfd. `std::priority_queue` with `std::greater` is a list in ascending order here. A time stands
-- for milliseconds; pairs compare by the time and then by the coroutine. The descriptor's setting is
-- kept, and the clock's readings are arguments, one for each call of `Time::now`.
pub mod Order
pub mod Armed
use lib_net_co_rpc.Prelude.{
  ℕ, zero, suc, ◌+◌, Bool, true, false, Option, none, some, List, [], ◌∷◌, ◌++◌, ltb, leb, ◌==◌,
  ◌||◌, ◌&&◌, if◌then◌else◌,
}
use lib_net_co_rpc.Prelude.Int.{ℤ, pos, negsuc, ◌+ℤ◌, leb_ℤ, ltb_ℤ, eqb_ℤ}
use lib_net_co_rpc.Clock.{Time, Timespec, time_interval_from_now}

-- an entry of the heap: the time, and the coroutine by its address
pub record Entry : Type 0 where
  pub time : Time
  pub coroutine : ℕ

pub record Timer : Type 0 where
  pub time_fd : ℤ
  pub timer_co_heap : List Entry
  pub setting : Option Timespec  -- the last that `timerfd_settime` took

-- `Timer()`
abbrev pub init : Timer
init = record { time_fd = negsuc 0; timer_co_heap = []; setting = none }

abbrev pub is_time_fd_useful : Timer → Bool
is_time_fd_useful t = if ltb_ℤ t.time_fd (pos 0) then false else true

-- `Timer::init`: `fd` is what `timerfd_create` returns, and `add_ev` what `addEv` returns for it.
unfoldable pub start : ℤ → Bool → Timer → Bool × Timer
start fd add_ev t =
    let t_1 = record t { time_fd = fd } in (if is_time_fd_useful t_1 then add_ev else false, t_1)

-- the order of `std::pair<Time, Coroutine*>`
abbrev pub entry_le : Entry → Entry → Bool
entry_le a b = ltb_ℤ a.time b.time || (leb_ℤ a.time b.time && leb a.coroutine b.coroutine)

-- `timerCoHeap_.push`
unfoldable pub push : Entry → List Entry → List Entry
push e [] = e ∷ []
push e (x ∷ heap) = if entry_le e x then e ∷ x ∷ heap else x ∷ push e heap

-- `resetTimeOfTimefd`
unfoldable pub reset_time_of_timefd : Time → Time → Timer → Timer
reset_time_of_timefd now time t = record t { setting = some (time_interval_from_now time now) }

-- `if (!timerCoHeap_.empty()) resetTimeOfTimefd(timerCoHeap_.top().first)`
abbrev pub reset_to_top : Time → List Entry → Timer → Timer
reset_to_top now [] t = t
reset_to_top now (x ∷ heap) t = reset_time_of_timefd now x.time t

-- The loop of `getExpiredCoroutines`: the coroutines taken, and what stays in the heap.
unfoldable pub pop_expired : Time → List Entry → List Entry × List Entry
pop_expired now [] = ([], [])
pop_expired now (x ∷ heap) =
    let (expired, rest) = pop_expired now heap in
    if leb_ℤ x.time now then (x ∷ expired, rest) else ([], x ∷ heap)

-- `getExpiredCoroutines`; the second reading of the clock is that of the reset.
unfoldable pub get_expired_coroutines : Time → Time → Timer → List Entry × Timer
get_expired_coroutines now later t =
    let (expired, rest) = pop_expired now t.timer_co_heap in
    (expired, reset_to_top later rest (record t { timer_co_heap = rest }))

abbrev pub top_is : Time → List Entry → Bool
top_is time [] = false
top_is time (x ∷ heap) = eqb_ℤ x.time time

-- `runAt`
unfoldable pub run_at : Time → Time → ℕ → Timer → Timer
run_at now time co t =
    let heap = push (record { time = time; coroutine = co }) t.timer_co_heap in
    let t_1 = record t { timer_co_heap = heap } in
    if top_is time heap then reset_time_of_timefd now time t_1 else t_1

-- `runAfter`; the first reading of the clock gives the time.
unfoldable pub run_after : Time → Time → Time → ℕ → Timer → Timer
run_after now later time co t = run_at later (now +ℤ time) co t

-- `wakeUp`
unfoldable pub wake_up : Time → Time → Timer → Timer
wake_up now later t = reset_time_of_timefd later now t
