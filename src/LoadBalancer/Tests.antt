-- ===== src/LoadBalancer/Tests.antt =====
-- The load balancers at two servers of weights 5 and 7, and at none.
use Prim.Native.String.{String}
use text.Mathlib.Text.{◌==◌ as str_eq}
use lib_net_co_rpc.Prelude.{
  ℕ, zero, suc, ◌≤◌, ◌≡◌, ◌≢◌, refl, sym, ap, ◌∙◌, true, false, List, [], ◌∷◌, Option, none, some,
  arith, ◌==◌, if◌then◌else◌, ◌||◌, ◌⊎◌, inl, inr, Bool-cases, get_elem?,
}
use lib_net_co_rpc.Prelude.Int.{ℤ, pos, ◌-ℤ◌, ◌≤ℤ◌, leb_ℤ, eqb_ℤ, int_laws}
use lib_net_co_rpc.BoundedQueue.{init_mem}
use lib_net_co_rpc.BoundedQueue.Represents.{Represents}
use lib_net_co_rpc.LoadBalancer.Weight
use lib_net_co_rpc.LoadBalancer.Weight.Faults.{fault_of, update-faults}
use lib_net_co_rpc.LoadBalancer.Weight.Sampling.{Completes, sampled, update-Completes}
use lib_net_co_rpc.LoadBalancer.Weight.{
  Weight, min_weight, reset_weight, add_inflight, update, disabled, fault, null_pointer,
}
use lib_net_co_rpc.LoadBalancer.Weight.Bounds.{reset_weight_bounds}
use lib_net_co_rpc.LoadBalancer.Tree.{ServerInfo, update_parent_weight}
use lib_net_co_rpc.LoadBalancer.Tree.Totals.{
  change_weight, weight_under-split, weight_under-outside, sum_below,
}
use lib_net_co_rpc.LoadBalancer.Tree.Inorder.{LeftSums, Finds, inorder, scan}
use lib_net_co_rpc.LoadBalancer.Tree.Parents.{Distinct, left_of, update_parent_weight-LeftSums}
use lib_net_co_rpc.LoadBalancer.LocalityAware
use lib_net_co_rpc.LoadBalancer.LocalityAware.{
  Store, Balancer, left_at, weight_at, chosen, undefined, begin_walk, add_server, remove_server,
}
use lib_net_co_rpc.LoadBalancer.LocalityAware.Nodes.{DistinctWeights, Allocated, left_at-left_of}
use lib_net_co_rpc.LoadBalancer.LocalityAware.Consistent.{Consistent}
use lib_net_co_rpc.LoadBalancer.LocalityAware.Add.{Settled, add_server-Settled}
use lib_net_co_rpc.LoadBalancer.LocalityAware.Remove.{Agreed, remove_server-Agreed}
use lib_net_co_rpc.LoadBalancer.LocalityAware.Select.{
  select_server-Consistent, FeedbackConsistent, feedback-Consistent,
}
use lib_net_co_rpc.LoadBalancer.LocalityAware.Finish.{
  Nonnegative, begin_walk-scan, select_server-defined,
}
use lib_net_co_rpc.LoadBalancer.WeightedRandom
use lib_net_co_rpc.LoadBalancer.WeightedRandom.Select.{
  select_server-scan, StoreUntouched, feedback-Untouched,
}

abbrev node_a : ServerInfo
node_a = record { server_name = "a"; left = 0; weight = 0 }

abbrev node_b : ServerInfo
node_b = record { server_name = "b"; left = 1; weight = 1 }

abbrev two_nodes : List ServerInfo
two_nodes = node_a ∷ node_b ∷ []

abbrev two_store : Store
two_store = record {
  lefts = λ c. if c == 0 then pos 7 else pos 0;
  weights = λ c. if c == 0 then Weight.init (pos 5) else Weight.init (pos 7);
  next = 2;
  total_weight = pos 12;
}

two_nodes-Distinct : Distinct two_nodes
two_nodes-Distinct zero zero c e f = refl
two_nodes-Distinct zero (suc zero) c e f = ground arith
two_nodes-Distinct zero (suc (suc j)) c e f = cc
two_nodes-Distinct (suc zero) zero c e f = ground arith
two_nodes-Distinct (suc zero) (suc zero) c e f = refl
two_nodes-Distinct (suc zero) (suc (suc j)) c e f = cc
two_nodes-Distinct (suc (suc i)) j c e f = cc

some_inj : (x y : ServerInfo) → some x ≡ some y → x ≡ y
some_inj x y p = cc

two_nodes-DistinctWeights : DistinctWeights two_nodes
two_nodes-DistinctWeights zero zero a b e f s = refl
two_nodes-DistinctWeights zero (suc zero) a b e f s =
    let p : 0 ≡ a.weight = ap (λ x. x.weight) (some_inj node_a a e) in
    let q : 1 ≡ b.weight = ap (λ x. x.weight) (some_inj node_b b f) in absurd (omega arith)
two_nodes-DistinctWeights zero (suc (suc j)) a b e f s = cc
two_nodes-DistinctWeights (suc zero) zero a b e f s =
    let p : 1 ≡ a.weight = ap (λ x. x.weight) (some_inj node_b a e) in
    let q : 0 ≡ b.weight = ap (λ x. x.weight) (some_inj node_a b f) in absurd (omega arith)
two_nodes-DistinctWeights (suc zero) (suc zero) a b e f s = refl
two_nodes-DistinctWeights (suc zero) (suc (suc j)) a b e f s = cc
two_nodes-DistinctWeights (suc (suc i)) j a b e f s = cc

two_nodes-Allocated : Allocated two_nodes 2
two_nodes-Allocated zero a e =
    let p : 0 ≡ a.left = ap (λ x. x.left) (some_inj node_a a e) in
    let q : 0 ≡ a.weight = ap (λ x. x.weight) (some_inj node_a a e) in (omega arith, omega arith)
two_nodes-Allocated (suc zero) a e =
    let p : 1 ≡ a.left = ap (λ x. x.left) (some_inj node_b a e) in
    let q : 1 ≡ a.weight = ap (λ x. x.weight) (some_inj node_b a e) in (omega arith, omega arith)
two_nodes-Allocated (suc (suc i)) a e = cc

two_nodes-sums : LeftSums 2 (left_at two_nodes two_store) (weight_at two_nodes two_store)
unfolding Weight.init
two_nodes-sums zero l =
    let w = weight_at two_nodes two_store in
    rw
      (
        weight_under-split 2 w 1 (omega arith),
        weight_under-outside 2 w 3 (omega arith),
        weight_under-outside 2 w 4 (omega arith),
      )
      (omega int_laws)
two_nodes-sums (suc zero) l =
    sym (weight_under-outside 2 (weight_at two_nodes two_store) 3 (omega arith))
two_nodes-sums (suc (suc k)) l = absurd (omega arith)

two_nodes-Consistent : Consistent two_nodes two_store
unfolding sum_below Weight.init
two_nodes-Consistent = record {
  lefts_distinct = two_nodes-Distinct;
  weights_distinct = two_nodes-DistinctWeights;
  allocated = two_nodes-Allocated;
  sums = two_nodes-sums;
  total = omega int_laws;
}

two_store-Nonnegative : Nonnegative two_store
unfolding Weight.init
two_store-Nonnegative c = elim (Bool-cases (c == 0)) [
  | inl e ↦ rw e (omega arith)
  | inr e ↦ rw e (omega arith)
]

abbrev two_names : String → Option ℕ
two_names name = if str_eq "a" name then some 0 else if str_eq "b" name then some 1 else none

abbrev two_counts : String → Option ℕ
two_counts name = if str_eq "a" name then some 1 else if str_eq "b" name then some 1 else none

abbrev two_servers : Balancer
two_servers = record {
  servers_dbd = record {
    data_0 = record { weight_tree = two_nodes; server_map = two_names };
    data_1 = record { weight_tree = two_nodes; server_map = two_names };
    index = false;
  };
  server_map = two_counts;
  store = two_store;
}

two_servers-known : (name : String) → two_counts name ≡ none → two_names name ≡ none
two_servers-known name = elim (Bool-cases (str_eq "a" name)) [
  | inl a ↦ rw a (λ e. cc)
  | inr not_a ↦ elim (Bool-cases (str_eq "b" name)) [
    | inl b ↦ rw (not_a, b) (λ e. cc)
    | inr not_b ↦ rw (not_a, not_b) (λ e. e)
  ]
]

two_servers-counted : (name : String) (n : ℕ) → two_counts name ≡ some n → 1 ≤ n
two_servers-counted name n = elim (Bool-cases (str_eq "a" name)) [
  | inl a ↦ rw a (λ e. ground arith)
  | inr not_a ↦ elim (Bool-cases (str_eq "b" name)) [
    | inl b ↦ rw (not_a, b) (λ e. ground arith)
    | inr not_b ↦ rw (not_a, not_b) (λ e. cc)
  ]
]

two_servers-Settled : Settled two_servers
two_servers-Settled = record {
  same = refl;
  consistent = two_nodes-Consistent;
  known = two_servers-known;
  counted = two_servers-counted;
}

add_server-Settled_example : Settled (add_server "c" two_servers)
add_server-Settled_example = add_server-Settled "c" two_servers two_servers-Settled

remove_server-Agreed_example :
    Agreed (remove_server "a" two_servers) × ((remove_server "a" two_servers).server_map "a" ≡ none)
unfolding Weight.init
remove_server-Agreed_example =
    remove_server-Agreed "a" two_servers 1 node_a two_servers-Settled refl refl
      (λ e. let f : false ≡ true = ap (λ x. eqb_ℤ x (pos 0)) e in cc)

select_server-Consistent_example :
    Consistent two_nodes (LocalityAware.select_server (pos 50) (λ k. pos 3) two_servers).1
select_server-Consistent_example =
    select_server-Consistent (pos 50) (λ k. pos 3) two_servers two_nodes-Consistent

select_server-defined_example :
    (LocalityAware.select_server (pos 50) (λ k. pos 3) two_servers).0 ≢ undefined
select_server-defined_example =
    select_server-defined (pos 50) (λ k. pos 3) two_servers two_nodes-Consistent
      two_store-Nonnegative (λ k. omega arith)

feedback-Consistent_example :
    FeedbackConsistent two_nodes (LocalityAware.feedback (pos 90) (pos 50) "b" (pos 0) two_servers)
feedback-Consistent_example =
    feedback-Consistent (pos 90) (pos 50) "b" (pos 0) two_servers two_nodes-Consistent

begin_walk-scan_example :
    Finds
      (begin_walk two_nodes two_store (pos 3))
      (scan (weight_at two_nodes two_store) (inorder 3 2 0) (pos 3))
      2
      (left_at two_nodes two_store)
begin_walk-scan_example =
    begin_walk-scan two_nodes two_store (pos 3) two_nodes-Consistent two_store-Nonnegative
      (omega arith) (omega arith) (omega arith)

select_server-scan_example :
    (j : ℕ) × (rest : ℤ) × (node : ServerInfo) × (scan
        (weight_at two_nodes two_store)
        (inorder 3 2 0)
        (pos 3)
      ≡ some (j, rest))
    × (get_elem? two_nodes j ≡ some node)
    × (WeightedRandom.select_server (λ k. pos 3) two_servers ≡ (chosen node.server_name, two_store))
select_server-scan_example =
    select_server-scan (λ k. pos 3) two_servers two_nodes-Consistent two_store-Nonnegative
      (omega arith) (omega arith) (omega arith)

feedback-Untouched_example :
    StoreUntouched two_store (WeightedRandom.feedback (pos 90) (pos 50) "b" (pos 0) two_servers)
feedback-Untouched_example = feedback-Untouched (pos 90) (pos 50) "b" (pos 0) two_servers

update_parent_weight-LeftSums_example :
    LeftSums 2
      (left_of two_nodes (update_parent_weight two_nodes (pos 4) 1 two_store.lefts))
      (change_weight (weight_at two_nodes two_store) 1 (pos 4))
update_parent_weight-LeftSums_example =
    update_parent_weight-LeftSums two_nodes two_store.lefts (weight_at two_nodes two_store) (pos 4)
      1 two_nodes-Distinct (omega arith)
      (λ k l. sym (left_at-left_of two_nodes two_store k) ∙ two_nodes-sums k l)

reset_weight_bounds_example :
    let w' = (reset_weight 1 (pos 50) (Weight.init (pos 5000))).1 in
    (min_weight ≤ℤ w'.weight) × ((w'.weight ≤ℤ pos 5000) ⊎ (w'.weight ≡ min_weight))
unfolding Weight.init
reset_weight_bounds_example = reset_weight_bounds 1 5000 (pos 50) (Weight.init (pos 5000)) refl

-- the sample queue that a weight starts with
new_queue-Represents : Represents (Weight.init (pos 7)).time_q []
unfolding Weight.init init_mem
new_queue-Represents = record {
  small = omega arith;
  start_in = omega arith;
  counts = refl;
  fits = omega arith;
  slots = λ i l. refl;
}

update-Completes_example :
    Completes
      (if disabled (Weight.init (pos 7)) || leb_ℤ (pos 90 -ℤ pos 50) (pos 0)
        then []
        else sampled (Weight.init (pos 7)).time_q.cap (pos 90 -ℤ pos 50) (pos 90) [])
      (update (pos 90) (pos 50) (pos 0) 1 (Weight.init (pos 7)))
update-Completes_example =
    update-Completes (pos 90) (pos 50) 1 (Weight.init (pos 7)) [] new_queue-Represents

update-faults_example :
    fault_of (update (pos 90) (pos 50) (pos 1) 1 (Weight.init (pos 7))) ≡ some null_pointer
unfolding Weight.init disabled ◌-ℤ◌
update-faults_example =
    update-faults (pos 90) (pos 50) (pos 1) 1 (Weight.init (pos 7)) [] new_queue-Represents
