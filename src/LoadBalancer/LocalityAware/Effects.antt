-- ===== src/LoadBalancer/LocalityAware/Effects.antt =====
-- What passing a difference on does to the store, whether or not the difference is 0.
use lib_net_co_rpc.Prelude.{
  ℕ, ◌+◌, ◌*◌, ◌≤◌, ◌<◌, ◌≡◌, refl, Bool, true, false, List, arith, if◌then◌else◌, inl, inr,
  Bool-cases, length,
}
use lib_net_co_rpc.Prelude.Int.{ℤ, pos, ◌+ℤ◌, eqb_ℤ, eq_of_parts, int_laws}
use lib_net_co_rpc.LoadBalancer.Tree.{ServerInfo}
use lib_net_co_rpc.LoadBalancer.Tree.Sums.{under}
use lib_net_co_rpc.LoadBalancer.Tree.Totals.{share}
use lib_net_co_rpc.LoadBalancer.Tree.Parents.{Distinct, left_of, update_parent_weight-left_of}
use lib_net_co_rpc.LoadBalancer.LocalityAware.{Store, apply_diff, update_parents}

-- The `left` of every node above `index` has grown by `diff`, and the total by `total`; nothing else
-- has changed.
pub record Shifted (tree : List ServerInfo) (index : ℕ) (diff total : ℤ) (s t : Store)
    : Type 0 where
  pub lefts :
      (k : ℕ)
      → k < length tree
      → left_of tree t.lefts k ≡ left_of tree s.lefts k +ℤ share (under (2 * k + 1) index) diff
  pub weights : t.weights ≡ s.weights
  pub next : t.next ≡ s.next
  pub total_weight : t.total_weight ≡ s.total_weight +ℤ total

share_nothing : (b : Bool) (x d : ℤ) → d ≡ pos 0 → x ≡ x +ℤ share b d
share_nothing true x d e = rw e (omega int_laws)
share_nothing false x d e = omega int_laws

add_nothing : (x d : ℤ) → d ≡ pos 0 → x ≡ x +ℤ d
add_nothing x d e = rw e (omega int_laws)

pub zero_of_eqb : (d : ℤ) → eqb_ℤ d (pos 0) ≡ true → d ≡ pos 0
zero_of_eqb d h = eq_of_parts d (pos 0) (ground arith)

module _ (tree : List ServerInfo) (index : ℕ) (diff : ℤ) (s : Store) (distinct : Distinct tree)
    (inside : index ≤ length tree) where
  pub apply_diff-Shifted : Shifted tree index diff diff s (apply_diff tree diff index s)
  unfolding apply_diff
  apply_diff-Shifted = elim (Bool-cases (eqb_ℤ diff (pos 0))) [
    | inl nothing ↦
        let e = zero_of_eqb diff nothing in
        rw nothing (record {
          lefts = λ k l. share_nothing (under (2 * k + 1) index) (left_of tree s.lefts k) diff e;
          weights = refl;
          next = refl;
          total_weight = add_nothing s.total_weight diff e;
        })
    | inr something ↦ rw something (record {
      lefts = update_parent_weight-left_of tree diff index s.lefts distinct inside;
      weights = refl;
      next = refl;
      total_weight = refl;
    })
  ]

  pub update_parents-Shifted :
      Shifted tree index diff
        (pos 0)
        s
        (if eqb_ℤ diff (pos 0) then s else update_parents tree diff index s)
  update_parents-Shifted = elim (Bool-cases (eqb_ℤ diff (pos 0))) [
    | inl nothing ↦
        let e = zero_of_eqb diff nothing in
        rw nothing (record {
          lefts = λ k l. share_nothing (under (2 * k + 1) index) (left_of tree s.lefts k) diff e;
          weights = refl;
          next = refl;
          total_weight = add_nothing s.total_weight (pos 0) refl;
        })
    | inr something ↦ rw something (record {
      lefts = update_parent_weight-left_of tree diff index s.lefts distinct inside;
      weights = refl;
      next = refl;
      total_weight = add_nothing s.total_weight (pos 0) refl;
    })
  ]
