-- ===== src/LoadBalancer/LocalityAware/Drop.antt =====
-- The two calls of `Remove` for the last node: the sums are right after both.
use mathlib.Core.Path.{subst}
use lib_net_co_rpc.Prelude.{
  ℕ, suc, ◌+◌, ◌*◌, ◌<◌, ◌≡◌, ◌≢◌, refl, sym, ap, ◌∙◌, List, some, arith, length, get_elem?,
}
use lib_net_co_rpc.Prelude.Int.{ℤ, pos, neg, ◌+ℤ◌, ◌-ℤ◌, int_laws}
use lib_net_co_rpc.LoadBalancer.Weight.{disable}
use lib_net_co_rpc.LoadBalancer.Tree.{ServerInfo}
use lib_net_co_rpc.LoadBalancer.Tree.Sums.{under}
use lib_net_co_rpc.LoadBalancer.Tree.Totals.{share, sum_below-cong, weight_under, sum_below}
use lib_net_co_rpc.LoadBalancer.Tree.Parents.{left_of, left_cell, cell_value}
use lib_net_co_rpc.LoadBalancer.LocalityAware.{Store, weight_at, pop_back, set_weight, apply_diff}
use lib_net_co_rpc.LoadBalancer.LocalityAware.Nodes.{
  get-inside, get-lt, read_node-get, left_at-left_of, write-same, write-other,
}
use lib_net_co_rpc.LoadBalancer.LocalityAware.Consistent.{Consistent, apply_diff-keeps}
use lib_net_co_rpc.LoadBalancer.LocalityAware.Effects.{Shifted, apply_diff-Shifted}
use lib_net_co_rpc.LoadBalancer.LocalityAware.Shrunk.{
  Distinct-sub, get-pop_back, length-popped, left_cell-get_or,
}
use lib_net_co_rpc.LoadBalancer.LocalityAware.Moved.{cancel_last, sums_apart, total_apart}

drop_last : (t w : ℤ) → t +ℤ w +ℤ neg w ≡ t
unfolding neg ◌+ℤ◌
drop_last t w = omega int_laws

module _ (tree : List ServerInfo) (s : Store) (c : Consistent tree s) (m : ℕ) (node : ServerInfo)
    (size : length tree ≡ suc m) (at : get_elem? tree m ≡ some node) where
  abbrev pub w_rm : ℤ
  w_rm = (s.weights node.weight).weight

  abbrev pub popped : List ServerInfo
  popped = pop_back tree

  size_popped : length popped ≡ m
  size_popped = let l = length-popped tree (omega arith) in omega (arith, l)

  get_popped : (k : ℕ) → k < m → get_elem? popped k ≡ get_elem? tree k
  get_popped k l = get-pop_back tree k (omega arith)

  -- what the calls do to the store, when the last node is removed
  record Dropped (t : Store) : Type 0 where
    pub shift : Shifted popped m (neg w_rm) (neg w_rm) s (record t { weights = s.weights })
    pub weights : (d : ℕ) → d ≢ node.weight → (t.weights d).weight ≡ (s.weights d).weight

  get_whole : (k : ℕ) (a : ServerInfo) → get_elem? popped k ≡ some a → get_elem? tree k ≡ some a
  get_whole k a e =
      let l = get-inside popped k a e in sym (get_popped k (omega (arith, size_popped))) ∙ e

  popped_weights :
      (t : Store) → Dropped t → (k : ℕ) → k < m → weight_at tree s k ≡ weight_at popped t k
  popped_weights t dr k l =
      let (a, f) = get-lt tree k (omega arith) in
      let other : a.weight ≢ node.weight =
        λ e. (let i = c.weights_distinct k m a node f at e in absurd (omega arith)) in
      read_node-get (λ x. (s.weights x.weight).weight) tree k a f
      ∙ sym (dr.weights a.weight other)
      ∙ sym (read_node-get (λ x. (t.weights x.weight).weight) popped k a (get_popped k l ∙ f))

  left_cell-popped : (k : ℕ) → k < m → left_cell popped k ≡ left_cell tree k
  left_cell-popped k l = left_cell-get_or popped tree k (get_popped k l)

  popped_lefts :
      (t : Store)
      → Dropped t
      → (k : ℕ) → k < m
      → left_of popped t.lefts k ≡ weight_under m (weight_at tree s) (2 * k + 1)
  popped_lefts t dr k l =
      let u = under (2 * k + 1) m in
      dr.shift.lefts k (omega (arith, size_popped))
      ∙ ap (λ o. cell_value s.lefts o +ℤ share u (neg w_rm)) (left_cell-popped k l)
      ∙ ap (λ x. x +ℤ share u (neg w_rm)) (sums_apart tree s c m size k (omega arith))
      ∙ ap (λ x. weight_under m (weight_at tree s) (2 * k + 1) +ℤ share u x +ℤ share u (neg w_rm))
          (read_node-get (λ x. (s.weights x.weight).weight) tree m node at)
      ∙ cancel_last u (weight_under m (weight_at tree s) (2 * k + 1)) w_rm

  Dropped-Consistent : (t : Store) → Dropped t → Consistent popped t
  Dropped-Consistent t dr = record {
    lefts_distinct =
        Distinct-sub tree popped (omega (arith, size_popped))
          (λ k l. left_cell-popped k (omega (arith, size_popped))) c.lefts_distinct;
    weights_distinct =
        λ i j a b e f same. c.weights_distinct i j a b (get_whole i a e) (get_whole j b f) same;
    allocated = λ k a e.
        subst (λ n. (a.left < n) × (a.weight < n)) (sym dr.shift.next)
          (c.allocated k a (get_whole k a e));
    sums = λ k l.
        left_at-left_of popped t k
        ∙ popped_lefts t dr k (omega (arith, size_popped))
        ∙ sum_below-cong m _ _ (λ i h. ap (share (under (2 * k + 1) i)) (popped_weights t dr i h))
        ∙ ap (λ n. weight_under n (weight_at popped t) (2 * k + 1)) (sym size_popped);
    total =
        dr.shift.total_weight
        ∙ ap (λ x. x +ℤ neg w_rm) (total_apart tree s c m size)
        ∙ ap (λ x. sum_below m (weight_at tree s) +ℤ x +ℤ neg w_rm)
            (read_node-get (λ x. (s.weights x.weight).weight) tree m node at)
        ∙ drop_last (sum_below m (weight_at tree s)) w_rm
        ∙ sum_below-cong m _ _ (popped_weights t dr)
        ∙ ap (λ n. sum_below n (weight_at popped t)) (sym size_popped);
  }

  -- the store after the first call, and after the second
  abbrev pub drop_first : Store
  drop_first =
      apply_diff popped (neg w_rm) m (set_weight node.weight (disable (s.weights node.weight)).1 s)

  abbrev pub drop_second : Store
  drop_second = set_weight node.weight (disable (drop_first.weights node.weight)).1 drop_first

  weights_drop :
      drop_first.weights ≡ (set_weight node.weight (disable (s.weights node.weight)).1 s).weights
  weights_drop = (apply_diff-keeps popped (neg w_rm) m _).1

  dropped_zero : (drop_first.weights node.weight).weight ≡ pos 0
  unfolding disable
  dropped_zero =
      ap (λ f. (f node.weight).weight) weights_drop
      ∙ ap (λ w. w.weight) (write-same s.weights node.weight node.weight _ refl)

  pub second_nothing :
      apply_diff popped (neg (drop_first.weights node.weight).weight) m drop_second ≡ drop_second
  unfolding neg apply_diff ◌-ℤ◌
  second_nothing = rw dropped_zero

  both-Dropped : Dropped drop_second
  both-Dropped =
      let sh =
        apply_diff-Shifted popped m (neg w_rm)
          (set_weight node.weight (disable (s.weights node.weight)).1 s)
          (Distinct-sub tree popped (omega (arith, size_popped))
            (λ k l. left_cell-popped k (omega (arith, size_popped))) c.lefts_distinct)
          (omega (arith, size_popped)) in
      record {
        shift = record {
          lefts = sh.lefts;
          weights = refl;
          next = sh.next;
          total_weight = sh.total_weight;
        };
        weights = λ d ne.
            ap (λ w. w.weight)
              (write-other drop_first.weights node.weight d _ (λ e. ne (sym e))
                ∙ ap (λ f. f d) weights_drop
                ∙ write-other s.weights node.weight d _ (λ e. ne (sym e)));
      }

  pub dropped_calls-Consistent : Consistent popped drop_second
  dropped_calls-Consistent = Dropped-Consistent drop_second both-Dropped
