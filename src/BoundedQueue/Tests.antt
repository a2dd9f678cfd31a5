-- ===== src/BoundedQueue/Tests.antt =====
-- Runs of the queue, and the theorems at concrete queues.
use lib_net_co_rpc.Prelude.{ℕ, ◌≡◌, refl, List, [], ◌∷◌, none, some, true, false, arith}
use lib_net_co_rpc.BoundedQueue.{
  BoundedQueue, mod_cap, init_capacity, push, elim_push, push_top, pop_item, pop_bottom_item,
  top_at, bottom_at,
}
use lib_net_co_rpc.BoundedQueue.Represents.{Represents}
use lib_net_co_rpc.BoundedQueue.Refine.{
  Op, apply, push_op, elim_push_op, push_top_op, pop_op, pop_bottom_op, run, run_deque, PointsTo,
  run_refines, access_refines, init_capacity-Represents,
}

abbrev fresh : BoundedQueue ℕ
unfolding init_capacity
fresh = init_capacity 3 true

fresh-Represents : Represents fresh []
unfolding init_capacity
fresh-Represents = (init_capacity-Represents 3 true (omega arith) (omega arith)).0

abbrev script : List (Op ℕ)
script =
    push_op 1
    ∷ push_op 2
    ∷ push_top_op 0
    ∷ push_op 9
    ∷ elim_push_op 3
    ∷ pop_op
    ∷ pop_bottom_op
    ∷ push_top_op 7
    ∷ []

-- 1, 2, then 0 on top; the fourth push is refused, the overwriting one drops 0.
script_replies :
    (run_deque 3 script []).0
    ≡ (true, none)
      ∷ (true, none)
      ∷ (true, none)
      ∷ (false, none)
      ∷ (true, none)
      ∷ (true, some 1)
      ∷ (true, some 3)
      ∷ (true, none)
      ∷ []
script_replies = refl

run_runs : (run script fresh).0 ≡ (run_deque 3 script []).0
unfolding run apply push push_top pop_item pop_bottom_item fresh elim_push mod_cap
run_runs = refl

run_refines_example :
    ((run script fresh).0 ≡ (run_deque 3 script []).0)
    × Represents (run script fresh).1 (7 ∷ 2 ∷ [])
unfolding init_capacity
run_refines_example = run_refines script fresh [] fresh-Represents

abbrev two : BoundedQueue ℕ
unfolding run init_capacity
two = (run (push_op 1 ∷ push_top_op 0 ∷ []) fresh).1

two-Represents : Represents two (0 ∷ 1 ∷ [])
unfolding run init_capacity
two-Represents = (run_refines (push_op 1 ∷ push_top_op 0 ∷ []) fresh [] fresh-Represents).1

access_refines_example :
    PointsTo two (some 1) (top_at 1 two) × PointsTo two (some 0) (bottom_at 1 two)
unfolding run init_capacity
access_refines_example = access_refines two (0 ∷ 1 ∷ []) 1 two-Represents

init_capacity-Represents_example :
    Represents (init_capacity {A = ℕ} 128 false) [] × ((init_capacity {A = ℕ} 128 false).cap ≡ 128)
init_capacity-Represents_example = init_capacity-Represents 128 false (omega arith) (omega arith)
