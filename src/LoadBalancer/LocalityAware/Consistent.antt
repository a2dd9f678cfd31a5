-- ===== src/LoadBalancer/LocalityAware/Consistent.antt =====
-- The sums that the balancer keeps: every `left` is the sum of the weights under its left child, and
-- `total_weight_` is the sum of all weights.
use mathlib.Core.Path.{subst}
use lib_net_co_rpc.Prelude.{
  ℕ, ◌+◌, ◌*◌, ◌<◌, ◌≡◌, refl, sym, ap, ◌∙◌, true, List, some, arith, ◌==◌, inl, inr, Bool-cases,
  length, get_elem?,
}
use lib_net_co_rpc.Prelude.Int.{ℤ, pos, ◌+ℤ◌, eqb_ℤ, int_laws, eq_of_parts}
use lib_net_co_rpc.LoadBalancer.Weight.{Weight}
use lib_net_co_rpc.LoadBalancer.Tree.{ServerInfo}
use lib_net_co_rpc.LoadBalancer.Tree.Sums.{under, under-root}
use lib_net_co_rpc.LoadBalancer.Tree.Totals.{
  sum_below, sum_below-cong, share, change_weight, weight_under-root, weight_under-change,
}
use lib_net_co_rpc.LoadBalancer.Tree.Inorder.{LeftSums}
use lib_net_co_rpc.LoadBalancer.Tree.Parents.{Distinct, left_of, update_parent_weight-LeftSums}
use lib_net_co_rpc.LoadBalancer.LocalityAware.{
  Store, left_at, weight_at, set_weight, apply_diff, add_total, update_parents,
}
use lib_net_co_rpc.LoadBalancer.LocalityAware.Nodes.{
  DistinctWeights, Allocated, get-inside, left_at-left_of, weight_at-set,
}

pub record Consistent (tree : List ServerInfo) (s : Store) : Type 0 where
  pub lefts_distinct : Distinct tree
  pub weights_distinct : DistinctWeights tree
  pub allocated : Allocated tree s.next
  pub sums : LeftSums (length tree) (left_at tree s) (weight_at tree s)
  pub total : s.total_weight ≡ sum_below (length tree) (weight_at tree s)

-- Sums over weights that agree on the tree agree.
pub LeftSums-cong :
    (n : ℕ) (left weight weight' : ℕ → ℤ)
    → ((i : ℕ) → i < n → weight i ≡ weight' i)
    → LeftSums n left weight
    → LeftSums n left weight'
LeftSums-cong n left weight weight' same sums k l =
    sums k l ∙ sum_below-cong n _ _ (λ i h. ap (share (under (2 * k + 1) i)) (same i h))

sum_below-change :
    (n : ℕ) (weight : ℕ → ℤ) (index : ℕ) (diff : ℤ)
    → index < n
    → sum_below n (change_weight weight index diff) ≡ sum_below n weight +ℤ diff
sum_below-change n weight index diff h =
    sym (weight_under-root n (change_weight weight index diff))
    ∙ weight_under-change n weight index diff 0 h
    ∙ rw (under-root index, weight_under-root n weight)

zero_of_eqb : (d : ℤ) → eqb_ℤ d (pos 0) ≡ true → d ≡ pos 0
zero_of_eqb d h = eq_of_parts d (pos 0) (ground arith)

add_nothing : (x : ℤ) → x ≡ x +ℤ pos 0
add_nothing x = omega int_laws

change_nothing : (weight : ℕ → ℤ) (index k : ℕ) → weight k ≡ change_weight weight index (pos 0) k
change_nothing weight index k = elim (Bool-cases (index == k)) [
  | inl e ↦ rw e (add_nothing (weight k))
  | inr e ↦ rw e
]

-- what `apply_diff` establishes
pub record Restored (tree : List ServerInfo) (s : Store) (weight : ℕ → ℤ) : Type 0 where
  pub sums : LeftSums (length tree) (left_at tree s) weight
  pub total : s.total_weight ≡ sum_below (length tree) weight

-- The change of one weight by `diff`, once passed on, leaves all sums right.
pub apply_diff-Restored :
    (tree : List ServerInfo) (diff : ℤ) (index : ℕ) (s : Store) (weight : ℕ → ℤ)
    → Distinct tree
    → index < length tree
    → LeftSums (length tree) (left_of tree s.lefts) weight
    → s.total_weight ≡ sum_below (length tree) weight
    → Restored tree (apply_diff tree diff index s) (change_weight weight index diff)
unfolding apply_diff
apply_diff-Restored tree diff index s weight distinct inside sums total =
    elim (Bool-cases (eqb_ℤ diff (pos 0))) [
      | inl nothing ↦
          let e : diff ≡ pos 0 = zero_of_eqb diff nothing in
          rw nothing (
            subst (λ d. Restored tree s (change_weight weight index d)) (sym e)
              (record {
                sums =
                    LeftSums-cong (length tree) (left_at tree s) weight _
                      (λ i h. change_nothing weight index i)
                      (λ k l. left_at-left_of tree s k ∙ sums k l);
                total =
                    total ∙ sum_below-cong (length tree) _ _ (λ i h. change_nothing weight index i);
              }))
      | inr something ↦ rw something (record {
        sums = λ k l.
            left_at-left_of tree (add_total diff (update_parents tree diff index s)) k
            ∙ update_parent_weight-LeftSums tree s.lefts weight diff index distinct inside sums k l;
        total =
            ap (λ x. x +ℤ diff) total
            ∙ sym (sum_below-change (length tree) weight index diff inside);
      })
    ]

pub apply_diff-keeps :
    (tree : List ServerInfo) (diff : ℤ) (index : ℕ) (s : Store)
    → ((apply_diff tree diff index s).next ≡ s.next)
      × ((apply_diff tree diff index s).weights ≡ s.weights)
unfolding apply_diff
apply_diff-keeps tree diff index s = elim (Bool-cases (eqb_ℤ diff (pos 0))) [
  | inl e ↦ rw e (refl, refl)
  | inr e ↦ rw e (refl, refl)
]

-- From what `apply_diff` restores to the invariant: the weights are those of the store.
pub Consistent-Restored :
    (tree : List ServerInfo) (diff : ℤ) (index : ℕ) (s : Store) (weight : ℕ → ℤ)
    → Distinct tree
    → DistinctWeights tree
    → Allocated tree s.next
    → ((k : ℕ) → k < length tree → change_weight weight index diff k ≡ weight_at tree s k)
    → Restored tree (apply_diff tree diff index s) (change_weight weight index diff)
    → Consistent tree (apply_diff tree diff index s)
Consistent-Restored tree diff index s weight lefts weights cells same r =
    let (n, w) = apply_diff-keeps tree diff index s in
    let agree = λ (k : ℕ) (l : k < length tree).
      same k l ∙ ap (λ ws. weight_at tree (record s { weights = ws }) k) (sym w) in
    record {
      lefts_distinct = lefts;
      weights_distinct = weights;
      allocated = subst (Allocated tree) (sym n) cells;
      sums = LeftSums-cong (length tree) _ _ _ agree r.sums;
      total = r.total ∙ sum_below-cong (length tree) _ _ agree;
    }

-- What `AddInflight` and `Update` do to a node, with the difference passed on, keeps the sums right.
pub set_weight-Consistent :
    (tree : List ServerInfo) (s : Store) (index : ℕ) (node : ServerInfo) (w : Weight) (diff : ℤ)
    → Consistent tree s
    → get_elem? tree index ≡ some node
    → w.weight ≡ (s.weights node.weight).weight +ℤ diff
    → Consistent tree (apply_diff tree diff index (set_weight node.weight w s))
set_weight-Consistent tree s index node w diff c e change =
    let inside = get-inside tree index node e in
    let t = set_weight node.weight w s in
    Consistent-Restored tree diff index t (weight_at tree s) c.lefts_distinct c.weights_distinct
      c.allocated
      (λ k l. sym (weight_at-set tree s index node w diff c.weights_distinct e change k l))
      (apply_diff-Restored tree diff index t (weight_at tree s) c.lefts_distinct inside
        (λ k l. sym (left_at-left_of tree s k) ∙ c.sums k l) c.total)
