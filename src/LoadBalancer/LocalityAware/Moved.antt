-- ===== src/LoadBalancer/LocalityAware/Moved.antt =====
-- The sums after a removal, from what the two calls of `Remove` have done to the store.
use mathlib.Core.Path.{subst}
use lib_net_co_rpc.Prelude.{
  ℕ, suc, ◌+◌, ◌-◌, ◌*◌, ◌<◌, ◌≡◌, ◌≢◌, refl, sym, ap, ◌∙◌, Bool, true, false, List, some, arith,
  ◌==◌, ℕ_discrete, length, get_elem?,
}
use lib_net_co_rpc.Prelude.Int.{ℤ, neg, ◌+ℤ◌, ◌-ℤ◌, int_laws}
use lib_net_co_rpc.LoadBalancer.Tree.{ServerInfo}
use lib_net_co_rpc.LoadBalancer.Tree.Sums.{under, under-root}
use lib_net_co_rpc.LoadBalancer.Tree.Totals.{
  sum_below, sum_below-cong, share, change_weight, weight_under, weight_under-change,
  weight_under-root,
}
use lib_net_co_rpc.LoadBalancer.Tree.Parents.{left_of}
use lib_net_co_rpc.LoadBalancer.LocalityAware.{Store, weight_at}
use lib_net_co_rpc.LoadBalancer.LocalityAware.Nodes.{
  get-lt, get-inside, read_node-get, left_at-left_of,
}
use lib_net_co_rpc.LoadBalancer.LocalityAware.Consistent.{Consistent}
use lib_net_co_rpc.LoadBalancer.LocalityAware.Shrunk.{
  get-some, replaced, swapped, Distinct-sub, length-swapped, get-swapped_other, get-swapped_index,
  left_cell-swapped, swapped-DistinctWeights,
}

pub cancel_last : (b : Bool) (x w : ℤ) → x +ℤ share b w +ℤ share b (neg w) ≡ x
unfolding ◌+ℤ◌ neg
cancel_last true x w = omega int_laws
cancel_last false x w = omega int_laws

swap_shares :
    (a b : Bool) (x d w : ℤ) → x +ℤ share b w +ℤ share a d +ℤ share b (neg w) ≡ x +ℤ share a d
unfolding ◌+ℤ◌ neg
swap_shares true true x d w = omega int_laws
swap_shares true false x d w = omega int_laws
swap_shares false true x d w = omega int_laws
swap_shares false false x d w = omega int_laws

sum_last : (m : ℕ) (f : ℕ → ℤ) → sum_below (suc m) f ≡ sum_below m f +ℤ f m
unfolding sum_below
sum_last m f = refl

module _ (tree : List ServerInfo) (s : Store) (c : Consistent tree s) (m : ℕ)
    (size : length tree ≡ suc m) where
  -- the sum under a left child, with the last node set apart
  pub sums_apart :
      (k : ℕ)
      → k < suc m
      → left_of tree s.lefts k
        ≡ weight_under m (weight_at tree s) (2 * k + 1)
          +ℤ share (under (2 * k + 1) m) (weight_at tree s m)
  sums_apart k l =
      sym (left_at-left_of tree s k)
      ∙ c.sums k (omega arith)
      ∙ ap (λ n. weight_under n (weight_at tree s) (2 * k + 1)) size
      ∙ sum_last m (λ i. share (under (2 * k + 1) i) (weight_at tree s i))

  pub total_apart : s.total_weight ≡ sum_below m (weight_at tree s) +ℤ weight_at tree s m
  total_apart =
      c.total ∙ ap (λ n. sum_below n (weight_at tree s)) size ∙ sum_last m (weight_at tree s)

-- what the calls have done to the store, when the removed node stood before the last
pub record Moved (tree tree' : List ServerInfo) (index m cell : ℕ) (w_rm w_last : ℤ) (s t : Store)
    : Type 0 where
  pub lefts :
      (k : ℕ)
      → k < m
      → left_of tree' t.lefts k
        ≡ left_of tree s.lefts k
          +ℤ share (under (2 * k + 1) index) (w_last -ℤ w_rm)
          +ℤ share (under (2 * k + 1) m) (neg w_last)
  pub total : t.total_weight ≡ s.total_weight -ℤ w_rm
  pub weights : (d : ℕ) → d ≢ cell → (t.weights d).weight ≡ (s.weights d).weight
  pub next : t.next ≡ s.next

change_total : (x y a b : ℤ) → y ≡ x +ℤ (b -ℤ a) → x +ℤ b -ℤ a ≡ y
change_total x y a b e = rw e (omega int_laws)

module _ (tree : List ServerInfo) (s : Store) (c : Consistent tree s) (m index : ℕ)
    (node last : ServerInfo) (size : length tree ≡ suc m) (at : get_elem? tree index ≡ some node)
    (at_last : get_elem? tree m ≡ some last) (before : index < m) where
  abbrev after_tree : List ServerInfo
  after_tree = swapped tree index node last

  size_after : length after_tree ≡ m
  size_after = let l = length-swapped tree index node last at (omega arith) in omega (arith, l)

  at_last' : get_elem? tree (length tree - 1) ≡ some last
  at_last' = ap (get_elem? tree) (omega arith) ∙ at_last

  cells_differ : node.weight ≢ last.weight
  cells_differ e = let k = c.weights_distinct index m node last at at_last e in absurd (omega arith)

  weights_after :
      (t : Store) (w_rm w_last : ℤ)
      → Moved tree after_tree index m node.weight w_rm w_last s t
      → weight_at tree s index ≡ w_rm
      → weight_at tree s m ≡ w_last
      → (k : ℕ) → k < m
      → change_weight (weight_at tree s) index (w_last -ℤ w_rm) k ≡ weight_at after_tree t k
  weights_after t w_rm w_last mv e_rm e_last k l = elim (ℕ_discrete index k) [
    | yes here ↦
        let hit : (index == k) ≡ true = ground arith in
        let there =
          read_node-get (λ x. (t.weights x.weight).weight) after_tree index (replaced node last)
            (get-swapped_index tree index node last at (omega arith)) in
        rw hit (
          ap (λ j. weight_at tree s j +ℤ (w_last -ℤ w_rm)) (sym here)
          ∙ ap (λ x. x +ℤ (w_last -ℤ w_rm)) e_rm
          ∙ undo w_rm w_last
          ∙ sym e_last
          ∙ read_node-get (λ x. (s.weights x.weight).weight) tree m last at_last
          ∙ sym (mv.weights last.weight (λ e. cells_differ (sym e)))
          ∙ sym there
          ∙ ap (weight_at after_tree t) here)
    | no ne ↦
        let miss : (index == k) ≡ false = ground arith in
        let (a, f) = get-lt tree k (omega arith) in
        let g = get-swapped_other tree index node last at (omega arith) k (omega arith) ne ∙ f in
        rw miss (
          read_node-get (λ x. (s.weights x.weight).weight) tree k a f
          ∙ sym (mv.weights a.weight (λ e. ne (sym (c.weights_distinct k index a node f at e))))
          ∙ sym (read_node-get (λ x. (t.weights x.weight).weight) after_tree k a g))
  ]
    where
      undo : (a b : ℤ) → a +ℤ (b -ℤ a) ≡ b
      undo a b = omega int_laws

  allocated_after :
      (k : ℕ) (a : ServerInfo)
      → get_elem? after_tree k ≡ some a
      → (a.left < s.next) × (a.weight < s.next)
  allocated_after k a e = elim (ℕ_discrete index k) [
    | yes here ↦
        let same : a ≡ replaced node last = get-some a (replaced node last) (
          sym e
          ∙ ap (get_elem? after_tree) (sym here)
          ∙ get-swapped_index tree index node last at (omega arith)) in
        subst (λ x. (x.left < s.next) × (x.weight < s.next)) (sym same)
          ((c.allocated index node at).0, (c.allocated m last at_last).1)
    | no ne ↦
        let l = get-inside after_tree k a e in
        c.allocated k a (
          sym (
            get-swapped_other tree index node last at (omega arith) k (omega (arith, size_after))
              ne)
          ∙ e)
  ]

  -- The removal leaves a tree whose sums are right.
  pub Moved-Consistent :
      (t : Store) (w_rm w_last : ℤ)
      → Moved tree after_tree index m node.weight w_rm w_last s t
      → weight_at tree s index ≡ w_rm
      → weight_at tree s m ≡ w_last
      → Consistent after_tree t
  Moved-Consistent t w_rm w_last mv e_rm e_last =
      let w = weight_at tree s in
      let agree = weights_after t w_rm w_last mv e_rm e_last in
      let diff = w_last -ℤ w_rm in
      record {
        lefts_distinct =
            Distinct-sub tree after_tree (omega (arith, size_after))
              (λ k l.
                left_cell-swapped tree index node last at (omega arith) k
                  (omega (arith, size_after)))
              c.lefts_distinct;
        weights_distinct =
            swapped-DistinctWeights tree index node last at (omega arith) c.weights_distinct
              at_last';
        allocated = λ k a e.
            subst (λ n. (a.left < n) × (a.weight < n)) (sym mv.next) (allocated_after k a e);
        sums = λ k l.
            let l' : k < m = omega (arith, size_after) in
            left_at-left_of after_tree t k
            ∙ mv.lefts k l'
            ∙ ap
                (λ x.
                  x
                  +ℤ share (under (2 * k + 1) index) diff
                  +ℤ share (under (2 * k + 1) m) (neg w_last))
                (sums_apart tree s c m size k (omega arith))
            ∙ ap
                (λ x.
                  weight_under m w (2 * k + 1)
                  +ℤ share (under (2 * k + 1) m) x
                  +ℤ share (under (2 * k + 1) index) diff
                  +ℤ share (under (2 * k + 1) m) (neg w_last))
                e_last
            ∙ swap_shares (under (2 * k + 1) index) (under (2 * k + 1) m)
                (weight_under m w (2 * k + 1)) diff w_last
            ∙ sym (weight_under-change m w index diff (2 * k + 1) before)
            ∙ sum_below-cong m _ _ (λ i h. ap (share (under (2 * k + 1) i)) (agree i h))
            ∙ ap (λ n. weight_under n (weight_at after_tree t) (2 * k + 1)) (sym size_after);
        total =
            mv.total
            ∙ ap (λ x. x -ℤ w_rm) (total_apart tree s c m size)
            ∙ ap (λ x. sum_below m w +ℤ x -ℤ w_rm) e_last
            ∙ change_total (sum_below m w) (sum_below m (change_weight w index diff)) w_rm w_last (
                sym (weight_under-root m (change_weight w index diff))
                ∙ weight_under-change m w index diff 0 before
                ∙ rw (under-root index, weight_under-root m w))
            ∙ sum_below-cong m _ _ agree
            ∙ ap (λ n. sum_below n (weight_at after_tree t)) (sym size_after);
      }
