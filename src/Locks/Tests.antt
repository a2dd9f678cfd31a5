-- ===== src/Locks/Tests.antt =====
-- A spinlock and a `CoMutex` that one thread holds while another waits.
use lib_net_co_rpc.Prelude.{ℕ, ◌≡◌, refl}
use lib_net_co_rpc.Locks.{spinlock}
use lib_net_co_rpc.Locks.Protocol.{
  outside, waiting, inside, State, put, enter, attempt, Reachable, here, next,
}
use lib_net_co_rpc.Locks.Exclusion.{Leads, mutual_exclusion, waiting_gets_in}

-- thread 0 enters and gets in; then thread 1 enters
abbrev first_waits : State ℕ
first_waits = record { memory = 1; place = put 0 waiting (λ i. outside) }

abbrev first_in : State ℕ
first_in = record { memory = 0; place = put 0 inside first_waits.place }

abbrev second_waits : State ℕ
second_waits = record { memory = 0; place = put 1 waiting first_in.place }

second_waits-Reachable : Reachable spinlock second_waits
second_waits-Reachable =
    next (next (next here (enter 0 refl)) (attempt {s = first_waits} 0 refl))
      (enter {s = first_in} 1 refl)

mutual_exclusion_example : ◌≡◌ {A = ℕ} 0 0
mutual_exclusion_example =
    mutual_exclusion spinlock second_waits second_waits-Reachable 0 0 refl refl

waiting_gets_in_example : (t : State ℕ) × Leads spinlock second_waits t × (t.place 1 ≡ inside)
waiting_gets_in_example = waiting_gets_in spinlock second_waits 1 second_waits-Reachable refl
