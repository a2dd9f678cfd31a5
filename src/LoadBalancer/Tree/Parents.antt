-- ===== src/LoadBalancer/Tree/Parents.antt =====
-- `UpdateParentWeight` keeps every node's `left` the sum of the weights under its left child.
use lib_net_co_rpc.Prelude.{
  ℕ, zero, suc, ◌+◌, ◌*◌, ◌≤◌, ◌<◌, ◌≡◌, refl, sym, ap, ◌∙◌, Bool, true, false, ◌||◌, List, [], ◌∷◌,
  Option, none, some, arith, ◌==◌, inl, inr, Bool-cases, ℕ_discrete, length, get_elem?,
}
use lib_net_co_rpc.Prelude.Int.{ℤ, pos, ◌+ℤ◌, int_laws}
use lib_net_co_rpc.LoadBalancer.Tree.{
  ServerInfo, parent, write, add_left, parents_loop, update_parent_weight,
}
use lib_net_co_rpc.LoadBalancer.Tree.Sums.{under, under-step, under_of_lt, under-zero}
use lib_net_co_rpc.LoadBalancer.Tree.Totals.{share, change_weight, weight_under-change}
use lib_net_co_rpc.LoadBalancer.Tree.Inorder.{LeftSums}

-- the cell of the `left` of node `k`
abbrev pub left_cell : List ServerInfo → ℕ → Option ℕ
left_cell [] k = none
left_cell (node ∷ tree) zero = some node.left
left_cell (node ∷ tree) (suc k) = left_cell tree k

-- No two nodes share the cell of their `left`.
abbrev pub Distinct : List ServerInfo → Type 0
Distinct tree = (i j c : ℕ) → left_cell tree i ≡ some c → left_cell tree j ≡ some c → i ≡ j

-- what the `left` of node `k` holds
abbrev pub cell_value : (ℕ → ℤ) → Option ℕ → ℤ
cell_value lefts none = pos 0
cell_value lefts (some c) = lefts c

abbrev pub left_of : List ServerInfo → (ℕ → ℤ) → ℕ → ℤ
left_of tree lefts k = cell_value lefts (left_cell tree k)

left_cell-get :
    (tree : List ServerInfo) (k : ℕ)
    → left_cell tree k ≡ elim (get_elem? tree k) [ none ↦ none | some node ↦ some node.left ]
left_cell-get [] k = refl
left_cell-get (node ∷ tree) zero = refl
left_cell-get (node ∷ tree) (suc k) = left_cell-get tree k

left_cell-lt :
    (tree : List ServerInfo) (k : ℕ) → k < length tree → (c : ℕ) × (left_cell tree k ≡ some c)
left_cell-lt [] k h = absurd (omega arith)
left_cell-lt (node ∷ tree) zero h = (node.left, refl)
left_cell-lt (node ∷ tree) (suc k) h = left_cell-lt tree k (omega arith)

add_left-cell :
    (tree : List ServerInfo) (at : ℕ) (diff : ℤ) (lefts : ℕ → ℤ) (c : ℕ)
    → left_cell tree at ≡ some c
    → add_left tree at diff lefts ≡ write lefts c (lefts c +ℤ diff)
unfolding add_left
add_left-cell [] at diff lefts c e = cc
add_left-cell (node ∷ tree) zero diff lefts c e = let same : node.left ≡ c = ground arith in rw same
add_left-cell (node ∷ tree) (suc at) diff lefts c e = add_left-cell tree at diff lefts c e

-- Adding to the `left` of one node leaves that of the others.
add_left-left_of :
    (tree : List ServerInfo) (at k : ℕ) (diff : ℤ) (lefts : ℕ → ℤ)
    → Distinct tree
    → at < length tree
    → k < length tree
    → left_of tree (add_left tree at diff lefts) k ≡ left_of tree lefts k +ℤ share (at == k) diff
add_left-left_of tree at k diff lefts distinct h l =
    let (c, e) = left_cell-lt tree at h in
    let (d, f) = left_cell-lt tree k l in
    rw (f, add_left-cell tree at diff lefts c e)
      (elim (ℕ_discrete c d) [
        | yes same ↦
            let eq : at ≡ k = distinct at k c e (f ∙ ap some (sym same)) in
            let hit : (at == k) ≡ true = ground arith in
            let hit' : (c == d) ≡ true = ground arith in rw (hit, hit', same)
        | no other ↦
            let off : (at == k) ≡ false = elim (Bool-cases (at == k)) [
              | inr o ↦ o
              | inl o ↦
                  let eq : at ≡ k = ground arith in
                  absurd (other (eq_of_some c d (sym e ∙ ap (left_cell tree) eq ∙ f)))
            ] in
            let off' : (c == d) ≡ false = ground arith in rw (off, off') (omega int_laws)
      ])
  where
    eq_of_some : (x y : ℕ) → some x ≡ some y → x ≡ y
    eq_of_some x y p = cc

share_or :
    (a b : Bool) (x d : ℤ)
    → (a ≡ true → b ≡ false)
    → x +ℤ share a d +ℤ share b d ≡ x +ℤ share (a || b) d
share_or true true x d h = cc (h refl)
share_or true false x d h = omega int_laws
share_or false b x d h = let e : x +ℤ pos 0 ≡ x = omega int_laws in rw e

add_nothing : (x d : ℤ) → x ≡ x +ℤ share false d
add_nothing x d = omega int_laws

-- The rounds add the difference to the nodes that have `index` under their left child.
parents_loop-left_of :
    (tree : List ServerInfo) (diff : ℤ) (k : ℕ)
    → Distinct tree
    → k < length tree
    → (fuel index : ℕ) (lefts : ℕ → ℤ) → index ≤ fuel
    → index ≤ length tree
    → left_of tree (parents_loop fuel tree diff index lefts) k
      ≡ left_of tree lefts k +ℤ share (under (2 * k + 1) index) diff
unfolding parents_loop
parents_loop-left_of tree diff k distinct l zero index lefts enough inside =
    let e : index ≡ 0 = omega arith in
    let off : (0 == 2 * k + 1) ≡ false = ground arith in
    rw (e, under-zero, off) (add_nothing (left_of tree lefts k) diff)
parents_loop-left_of tree diff k distinct l (suc fuel) index lefts enough inside =
    elim (ℕ_discrete index 0) [
      | yes e ↦
          let stop : (index == 0) ≡ true = ground arith in
          let off : (0 == 2 * k + 1) ≡ false = ground arith in
          rw stop (rw (e, under-zero, off) (add_nothing (left_of tree lefts k) diff))
      | no ne ↦
          let go : (index == 0) ≡ false = ground arith in
          let p = parent index in
          rw go (elim (Bool-cases (p * 2 + 1 == index)) [
            | inl is_left ↦
                let same : (index == 2 * k + 1) ≡ (p == k) = ground arith in
                rw is_left (
                  parents_loop-left_of tree diff k distinct l fuel p (add_left tree p diff lefts)
                    (omega arith) (omega arith)
                  ∙ ap (λ x. x +ℤ share (under (2 * k + 1) p) diff)
                      (add_left-left_of tree p k diff lefts distinct (omega arith) l)
                  ∙ share_or (p == k) (under (2 * k + 1) p) (left_of tree lefts k) diff
                      (λ e. under_of_lt (2 * k + 1) p (ground arith))
                  ∙ rw (under-step (2 * k + 1) index ne, same))
            | inr is_right ↦
                let other : (index == 2 * k + 1) ≡ false = ground arith in
                rw is_right (
                  parents_loop-left_of tree diff k distinct l fuel p lefts (omega arith)
                    (omega arith)
                  ∙ rw (under-step (2 * k + 1) index ne, other))
          ])
    ]

-- `UpdateParentWeight(diff, index)` adds `diff` to the `left` of exactly the nodes that have
-- `index` under their left child, for an index of the tree or just past its end.
pub update_parent_weight-left_of :
    (tree : List ServerInfo) (diff : ℤ) (index : ℕ) (lefts : ℕ → ℤ)
    → Distinct tree
    → index ≤ length tree
    → (k : ℕ) → k < length tree
    → left_of tree (update_parent_weight tree diff index lefts) k
      ≡ left_of tree lefts k +ℤ share (under (2 * k + 1) index) diff
unfolding update_parent_weight
update_parent_weight-left_of tree diff index lefts distinct inside k l =
    parents_loop-left_of tree diff k distinct l index index lefts (omega arith) inside

-- When the weight of a node changes by `diff`, `UpdateParentWeight(diff, index)` restores the sums.
pub update_parent_weight-LeftSums :
    (tree : List ServerInfo) (lefts weight : ℕ → ℤ) (diff : ℤ) (index : ℕ)
    → Distinct tree
    → index < length tree
    → LeftSums (length tree) (left_of tree lefts) weight
    → LeftSums
        (length tree)
        (left_of tree (update_parent_weight tree diff index lefts))
        (change_weight weight index diff)
update_parent_weight-LeftSums tree lefts weight diff index distinct inside sums k l =
    update_parent_weight-left_of tree diff index lefts distinct (omega arith) k l
    ∙ ap (λ x. x +ℤ share (under (2 * k + 1) index) diff) (sums k l)
    ∙ sym (weight_under-change (length tree) weight index diff (2 * k + 1) inside)
