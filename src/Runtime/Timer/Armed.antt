-- ===== src/Runtime/Timer/Armed.antt =====
-- Calls of the timer in any order lose no coroutine, and leave the timerfd set for the first time of
-- the heap.
use mathlib.Core.List.{Perm}
use mathlib.Core.List.Perm
use lib_net_co_rpc.Prelude.{ℕ, ◌≡◌, Option, some, List, [], ◌∷◌, ◌++◌}
use lib_net_co_rpc.Clock.{Time, Timespec, time_interval_from_now}
use lib_net_co_rpc.Runtime.Timer.{Entry, Timer, get_expired_coroutines, run_at}
use lib_net_co_rpc.Runtime.Timer.Order.{Ascending}

-- The setting was made, at some reading of the clock, for the first time of the heap.
abbrev pub ArmedFor : List Entry → Option Timespec → Type 0
ArmedFor [] setting = Unit
ArmedFor (x ∷ heap) setting = (now : Time) × (setting ≡ some (time_interval_from_now x.time now))

abbrev pub Armed : Timer → Type 0
Armed t = ArmedFor t.timer_co_heap t.setting

-- A call of `runAt` and one of `getExpiredCoroutines`, with the readings of the clock.
pub data TimerCall : Type 0 where
  run_at_call : Time → Time → ℕ → TimerCall
  expire_call : Time → Time → TimerCall

-- The entries that a sequence of calls takes off, and the timer after it.
abbrev pub run_calls : List TimerCall → Timer → List Entry × Timer
run_calls [] t = ([], t)
run_calls (run_at_call now time co ∷ calls) t = run_calls calls (run_at now time co t)
run_calls (expire_call now later ∷ calls) t =
    let (expired, t') = get_expired_coroutines now later t in
    let (more, last) = run_calls calls t' in (expired ++ more, last)

-- the entries that they put in
abbrev pub put : List TimerCall → List Entry
put [] = []
put (run_at_call now time co ∷ calls) = record { time = time; coroutine = co } ∷ put calls
put (expire_call now later ∷ calls) = put calls

-- What was in the heap and what is put in are what is taken off and what stays; the heap is in order,
-- and the timerfd is set for its first time.
abbrev pub Keeps : List TimerCall → Timer → Type 0
Keeps calls t =
    let (expired, t') = run_calls calls t in
    Perm (expired ++ t'.timer_co_heap) (t.timer_co_heap ++ put calls)
    × Ascending t'.timer_co_heap
    × Armed t'
