-- ===== src/Runtime/Tests.antt =====
-- The runtime at three processors, and at heaps of two times.
use lib_net_co_rpc.Prelude.{
  ℕ, ◌<◌, ◌≤◌, ◌≡◌, List, [], ◌∷◌, ◌++◌, none, some, arith, All, get_elem?, refl, get_or,
}
use lib_net_co_rpc.Prelude.Int.{pos, ◌+ℤ◌, ◌≤ℤ◌, ◌<ℤ◌}
use lib_net_co_rpc.Runtime.Selector.{ProcessorSelector, min_event_first, round_robin, next}
use lib_net_co_rpc.Runtime.Selector.Fair.{picks, round_robin_fair}
use lib_net_co_rpc.Runtime.Selector.Laws.{next_least}
use lib_net_co_rpc.Runtime.Timer.{Entry, Timer, get_expired_coroutines}
use lib_net_co_rpc.Runtime.Timer.Order.{Ascending, get_expired_coroutines-splits}
use lib_net_co_rpc.Runtime.Timer.Armed.{TimerCall, run_at_call, expire_call}
use lib_net_co_rpc.Runtime.Timer

next_least_example :
    let s : ProcessorSelector = record { cur_pro = pos 0; strategy = min_event_first } in
    (k : ℕ) × ((next (5 ∷ 2 ∷ 7 ∷ []) s).0 ≡ some (pos k))
    × (k < 3)
    × ((j : ℕ) → j < 3 → get_or (5 ∷ 2 ∷ 7 ∷ []) k 0 ≤ get_or (5 ∷ 2 ∷ 7 ∷ []) j 0)
next_least_example = next_least 5 (2 ∷ 7 ∷ []) (pos 0)

-- three calls, while coroutines come and go
abbrev three_calls : List (List ℕ)
three_calls = (5 ∷ 2 ∷ 7 ∷ []) ∷ (5 ∷ 2 ∷ 8 ∷ []) ∷ (0 ∷ 2 ∷ 8 ∷ []) ∷ []

round_robin_fair_example :
    let s : ProcessorSelector = record { cur_pro = pos 1; strategy = round_robin } in
    (i : ℕ) × (i < 3) × (get_elem? (picks three_calls s) i ≡ some (some (pos 0)))
unfolding ◌+ℤ◌
round_robin_fair_example =
    round_robin_fair 3 2 0 three_calls (record { cur_pro = pos 1; strategy = round_robin }) refl
      refl (omega arith) (refl, (refl, (refl, tt))) refl (omega arith)

abbrev two_entries : List Entry
two_entries = record { time = pos 10; coroutine = 1 } ∷ record { time = pos 30; coroutine = 2 } ∷ []

abbrev two_times : Timer
two_times = record { time_fd = pos 4; timer_co_heap = two_entries; setting = none }

two_times-Ascending : Ascending two_entries
two_times-Ascending = ((omega arith, tt), (tt, tt))

get_expired_coroutines-splits_example :
    let (expired, t') = get_expired_coroutines (pos 20) (pos 21) two_times in
    (expired ++ t'.timer_co_heap ≡ two_entries)
    × All (λ x. x.time ≤ℤ pos 20) expired
    × All (λ x. pos 20 <ℤ x.time) t'.timer_co_heap
    × Ascending t'.timer_co_heap
get_expired_coroutines-splits_example =
    get_expired_coroutines-splits (pos 20) (pos 21) two_times two_times-Ascending

-- a coroutine for 7, the times up to 20, and a coroutine for 25
abbrev calls : List TimerCall
calls =
    run_at_call (pos 5) (pos 7) 3
    ∷ expire_call (pos 20) (pos 21)
    ∷ run_at_call (pos 22) (pos 25) 4
    ∷ []
