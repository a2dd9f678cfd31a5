-- ===== src/LoadBalancer/LocalityAware/Replace.antt =====
-- The two calls of `Remove` for a node that is not the last: the sums are right after both.
use mathlib.Core.Path.{ap₂}
use lib_net_co_rpc.Prelude.{
  ℕ, suc, ◌+◌, ◌*◌, ◌<◌, ◌≡◌, ◌≢◌, refl, sym, ap, ◌∙◌, List, some, arith, ℕ_discrete, length,
  get_elem?,
}
use lib_net_co_rpc.Prelude.Int.{ℤ, pos, neg, ◌+ℤ◌, ◌-ℤ◌, int_laws}
use lib_net_co_rpc.LoadBalancer.Weight.{Weight, disable, mark_old, clear_old}
use lib_net_co_rpc.LoadBalancer.Tree.{ServerInfo}
use lib_net_co_rpc.LoadBalancer.Tree.Sums.{under}
use lib_net_co_rpc.LoadBalancer.Tree.Totals.{share}
use lib_net_co_rpc.LoadBalancer.Tree.Parents.{Distinct, left_of, cell_value}
use lib_net_co_rpc.LoadBalancer.LocalityAware.{
  Store, set_weight, apply_diff, replace_first, replace_second,
}
use lib_net_co_rpc.LoadBalancer.LocalityAware.Nodes.{read_node-get, write-same, write-other}
use lib_net_co_rpc.LoadBalancer.LocalityAware.Consistent.{Consistent, apply_diff-keeps}
use lib_net_co_rpc.LoadBalancer.LocalityAware.Effects.{Shifted, apply_diff-Shifted}
use lib_net_co_rpc.LoadBalancer.LocalityAware.Shrunk.{
  swapped, Distinct-sub, length-swapped, left_cell-swapped,
}
use lib_net_co_rpc.LoadBalancer.LocalityAware.Moved.{Moved, Moved-Consistent}
use lib_net_co_rpc.LoadBalancer.LocalityAware.Calls.{replace_second-Shifted}

sub_zero : (x : ℤ) → neg x -ℤ pos 0 ≡ neg x
unfolding neg ◌-ℤ◌ ◌+ℤ◌
sub_zero x = omega int_laws

add_difference : (t a b : ℤ) → t +ℤ (a -ℤ b) +ℤ neg a ≡ t -ℤ b
unfolding neg ◌-ℤ◌ ◌+ℤ◌
add_difference t a b = omega int_laws

module _ (tree : List ServerInfo) (s : Store) (c : Consistent tree s) (m index : ℕ)
    (node last : ServerInfo) (size : length tree ≡ suc m) (at : get_elem? tree index ≡ some node)
    (at_last : get_elem? tree m ≡ some last) (before : index < m) where
  abbrev pub tree_2 : List ServerInfo
  tree_2 = swapped tree index node last

  abbrev pub w_rm : ℤ
  w_rm = (s.weights node.weight).weight

  abbrev pub w_last : ℤ
  w_last = (s.weights last.weight).weight

  -- the store after `Disable`, `MarkOld`, and the whole first call
  abbrev pub after_disable : Store
  after_disable = set_weight node.weight (disable (s.weights node.weight)).1 s

  abbrev pub marked : Weight
  marked = (mark_old (length tree_2) (s.weights last.weight)).1

  abbrev pub after_mark : Store
  after_mark = set_weight last.weight marked after_disable

  pub after_first : Store
  after_first = apply_diff tree_2 (w_last -ℤ w_rm) index after_mark

  -- the store after the second call's `Disable`, its `ClearOld`, and the call
  abbrev pub disabled_again : Store
  disabled_again = set_weight node.weight (disable (after_first.weights node.weight)).1 after_first

  pub after_second : Store
  after_second = replace_second tree_2 index last.weight disabled_again

  other_cells : last.weight ≢ node.weight
  other_cells e = let k = c.weights_distinct m index last node at_last at e in absurd (omega arith)

  pub first_call : replace_first tree_2 index last.weight w_rm after_disable ≡ after_first
  unfolding replace_first mark_old after_first
  first_call = rw (
      write-other s.weights node.weight last.weight (disable (s.weights node.weight)).1
        (λ e. other_cells (sym e)))

  pub second_call : replace_second tree_2 index last.weight disabled_again ≡ after_second
  unfolding after_second
  second_call = refl

  weights_first : after_first.weights ≡ after_mark.weights
  unfolding after_first
  weights_first = (apply_diff-keeps tree_2 (w_last -ℤ w_rm) index after_mark).1

  pub removed_first : (after_first.weights node.weight).weight ≡ pos 0
  unfolding disable
  removed_first =
      ap (λ f. (f node.weight).weight) weights_first
      ∙ ap (λ w. w.weight)
          (write-other after_disable.weights last.weight node.weight marked other_cells
            ∙ write-same s.weights node.weight node.weight _ refl)

  pub marked_last : disabled_again.weights last.weight ≡ marked
  marked_last =
      write-other after_first.weights node.weight last.weight _ (λ e. other_cells (sym e))
      ∙ ap (λ f. f last.weight) weights_first
      ∙ write-same after_disable.weights last.weight last.weight marked refl

  tree_2-Distinct : Distinct tree_2
  tree_2-Distinct =
      let l = length-swapped tree index node last at (omega arith) in
      Distinct-sub tree tree_2 (omega (arith, l))
        (λ k h. left_cell-swapped tree index node last at (omega arith) k (omega (arith, l)))
        c.lefts_distinct

  size_2 : length tree_2 ≡ m
  size_2 = let l = length-swapped tree index node last at (omega arith) in omega (arith, l)

  first-Shifted : Shifted tree_2 index (w_last -ℤ w_rm) (w_last -ℤ w_rm) after_mark after_first
  unfolding after_first
  first-Shifted =
      apply_diff-Shifted tree_2 index (w_last -ℤ w_rm) after_mark tree_2-Distinct
        (omega (arith, size_2))

  second-Shifted :
      Shifted tree_2
        (length tree_2)
        (neg w_last -ℤ pos 0)
        (neg w_last)
        (set_weight last.weight (clear_old (disabled_again.weights last.weight)).1 disabled_again)
        after_second
  unfolding mark_old after_second
  second-Shifted =
      replace_second-Shifted tree_2 index last.weight disabled_again tree_2-Distinct w_last
        (ap (λ w. w.old_weight) marked_last) (ap (λ w. w.old_diff_sum) marked_last)

  weights_second :
      (d : ℕ) → d ≢ node.weight → (after_second.weights d).weight ≡ (s.weights d).weight
  unfolding clear_old mark_old
  weights_second d ne =
      ap (λ f. (f d).weight) second-Shifted.weights ∙ elim (ℕ_discrete last.weight d) [
        | yes e ↦
            ap (λ w. w.weight) (write-same disabled_again.weights last.weight d _ e)
            ∙ ap (λ w. w.weight) marked_last
            ∙ ap (λ x. (s.weights x).weight) e
        | no other ↦
            ap (λ w. w.weight)
              (write-other disabled_again.weights last.weight d _ other
                ∙ write-other after_first.weights node.weight d _ (λ e. ne (sym e))
                ∙ ap (λ f. f d) weights_first
                ∙ write-other after_disable.weights last.weight d marked other
                ∙ write-other s.weights node.weight d _ (λ e. ne (sym e)))
      ]

  both-Moved : Moved tree tree_2 index m node.weight w_rm w_last s after_second
  both-Moved = record {
    lefts = λ k l.
        second-Shifted.lefts k (omega (arith, size_2))
        ∙ ap₂ (λ n d. left_of tree_2 after_first.lefts k +ℤ share (under (2 * k + 1) n) d) size_2
            (sub_zero w_last)
        ∙ ap (λ x. x +ℤ share (under (2 * k + 1) m) (neg w_last))
            (first-Shifted.lefts k (omega (arith, size_2))
              ∙ ap (λ o. cell_value s.lefts o +ℤ share (under (2 * k + 1) index) (w_last -ℤ w_rm))
                  (left_cell-swapped tree index node last at (omega arith) k (omega arith)));
    total =
        second-Shifted.total_weight
        ∙ ap (λ x. x +ℤ neg w_last) first-Shifted.total_weight
        ∙ add_difference s.total_weight w_last w_rm;
    weights = weights_second;
    next = second-Shifted.next ∙ first-Shifted.next;
  }

  pub both_calls-Consistent : Consistent tree_2 after_second
  both_calls-Consistent =
      Moved-Consistent tree s c m index node last size at at_last before after_second w_rm w_last
        both-Moved (read_node-get (λ x. (s.weights x.weight).weight) tree index node at)
        (read_node-get (λ x. (s.weights x.weight).weight) tree m last at_last)
