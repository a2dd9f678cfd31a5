-- ===== src/LoadBalancer/Tree/Totals.antt =====
-- Sums of weights over the nodes of a tree of `n` nodes, and over those under one node.
use mathlib.Core.Path.{ap₂}
use lib_net_co_rpc.Prelude.{
  ℕ, zero, suc, ◌+◌, ◌*◌, ◌≤◌, ◌<◌, ◌≡◌, refl, ap, ◌∙◌, Bool, true, false, arith, ◌==◌,
  if◌then◌else◌, ℕ_discrete,
}
use lib_net_co_rpc.Prelude.Int.{ℤ, pos, ◌+ℤ◌, ◌≤ℤ◌, int_laws}
use lib_net_co_rpc.LoadBalancer.Tree.Sums.{ind, under, split_at, under_of_lt, under-root}

unfoldable pub sum_below : ℕ → (ℕ → ℤ) → ℤ
sum_below zero f = pos 0
sum_below (suc n) f = sum_below n f +ℤ f n

abbrev pub share : Bool → ℤ → ℤ
share true x = x
share false x = pos 0

-- the sum of the weights under `k`
abbrev pub weight_under : ℕ → (ℕ → ℤ) → ℕ → ℤ
weight_under n weight k = sum_below n (λ i. share (under k i) (weight i))

pub sum_below-cong :
    (n : ℕ) (f g : ℕ → ℤ) → ((i : ℕ) → i < n → f i ≡ g i) → sum_below n f ≡ sum_below n g
unfolding sum_below
sum_below-cong zero f g h = refl
sum_below-cong (suc n) f g h =
    ap₂ ◌+ℤ◌ (sum_below-cong n f g (λ i l. h i (omega arith))) (h n (omega arith))

pub sum_below-add :
    (n : ℕ) (f g : ℕ → ℤ) → sum_below n (λ i. f i +ℤ g i) ≡ sum_below n f +ℤ sum_below n g
unfolding sum_below
sum_below-add zero f g = omega int_laws
sum_below-add (suc n) f g = rw (sum_below-add n f g) (omega int_laws)

pub sum_below-zero : (n : ℕ) (f : ℕ → ℤ) → ((i : ℕ) → i < n → f i ≡ pos 0) → sum_below n f ≡ pos 0
unfolding sum_below
sum_below-zero zero f h = refl
sum_below-zero (suc n) f h =
    rw (sum_below-zero n f (λ i l. h i (omega arith)), h n (omega arith)) (omega int_laws)

pub sum_below-nonneg :
    (n : ℕ) (f : ℕ → ℤ) → ((i : ℕ) → i < n → pos 0 ≤ℤ f i) → pos 0 ≤ℤ sum_below n f
unfolding sum_below
sum_below-nonneg zero f h = omega arith
sum_below-nonneg (suc n) f h =
    omega (int_laws, sum_below-nonneg n f (λ i l. h i (omega arith)), h n (omega arith))

-- A last term of 0 adds nothing.
pub sum_below-pad : (n : ℕ) (f : ℕ → ℤ) → f n ≡ pos 0 → sum_below (suc n) f ≡ sum_below n f
unfolding sum_below
sum_below-pad n f e = rw e (omega int_laws)

-- a sum with one term
pub sum_below-point : (n k : ℕ) (f : ℕ → ℤ) → k < n → sum_below n (λ i. share (i == k) (f i)) ≡ f k
unfolding sum_below
sum_below-point zero k f h = absurd (omega arith)
sum_below-point (suc n) k f h = elim (ℕ_discrete n k) [
  | yes e ↦
      let hit : (n == k) ≡ true = ground arith in
      rw (hit, sum_below-zero n (λ i. share (i == k) (f i)) (λ i l. miss i (omega arith)))
        ((let z : pos 0 +ℤ f n ≡ f n = omega int_laws in z) ∙ ap f e)
  | no ne ↦
      let off : (n == k) ≡ false = ground arith in
      rw (off, sum_below-point n k f (omega arith)) (omega int_laws)
]
  where
    miss : (i : ℕ) → i < k → share (i == k) (f i) ≡ pos 0
    miss i l = let off : (i == k) ≡ false = ground arith in rw off

share_split :
    (a b c d : Bool) (x : ℤ)
    → ind a ≡ ind b + ind c + ind d
    → share a x ≡ share b x +ℤ (share c x +ℤ share d x)
share_split true true false false x h = omega int_laws
share_split true false true false x h = omega int_laws
share_split true false false true x h = omega int_laws
share_split false false false false x h = omega int_laws
share_split _ _ _ _ x h = absurd (omega arith)

-- The weight under a node is its own and that under its two children.
pub weight_under-split :
    (n : ℕ) (weight : ℕ → ℤ) (k : ℕ)
    → k < n
    → weight_under n weight k
      ≡ weight k +ℤ (weight_under n weight (2 * k + 1) +ℤ weight_under n weight (2 * k + 2))
weight_under-split n weight k h =
    sum_below-cong n _
      (λ i.
        share (i == k) (weight i)
        +ℤ (share (under (2 * k + 1) i) (weight i) +ℤ share (under (2 * k + 2) i) (weight i)))
      (λ i l. share_split (under k i) (i == k) _ _ (weight i) (split_at i k i (omega arith)))
    ∙ sum_below-add n (λ i. share (i == k) (weight i)) _
    ∙ ap₂ ◌+ℤ◌ (sum_below-point n k weight h) (sum_below-add n _ _)

-- Nothing lies under an index outside the tree.
pub weight_under-outside :
    (n : ℕ) (weight : ℕ → ℤ) (k : ℕ) → n ≤ k → weight_under n weight k ≡ pos 0
weight_under-outside n weight k h = sum_below-zero n _ (λ i l. rw (under_of_lt k i (omega arith)))

-- All weights lie under the root.
pub weight_under-root : (n : ℕ) (weight : ℕ → ℤ) → weight_under n weight 0 ≡ sum_below n weight
weight_under-root n weight = sum_below-cong n _ weight (λ i l. rw (under-root i))

-- the weights when that of one node changes by `diff`
abbrev pub change_weight : (ℕ → ℤ) → ℕ → ℤ → ℕ → ℤ
change_weight weight index diff i = if index == i then weight i +ℤ diff else weight i

-- A change of one weight changes the sums under its ancestors by as much, and no other sum.
pub weight_under-change :
    (n : ℕ) (weight : ℕ → ℤ) (index : ℕ) (diff : ℤ) (k : ℕ)
    → index < n
    → weight_under n (change_weight weight index diff) k
      ≡ weight_under n weight k +ℤ share (under k index) diff
weight_under-change n weight index diff k h =
    sum_below-cong n _
      (λ i. share (under k i) (weight i) +ℤ share (i == index) (share (under k i) diff))
      (λ i l. elim (ℕ_discrete index i) [
        | yes e ↦
            let hit : (index == i) ≡ true = ground arith in
            let hit' : (i == index) ≡ true = ground arith in
            rw (hit, hit') (share_add (under k i) (weight i))
        | no ne ↦
            let off : (index == i) ≡ false = ground arith in
            let off' : (i == index) ≡ false = ground arith in rw (off, off') (omega int_laws)
      ])
    ∙ sum_below-add n _ _
    ∙ ap (λ x. weight_under n weight k +ℤ x)
        (sum_below-point n index (λ i. share (under k i) diff) h)
  where
    share_add : (b : Bool) (x : ℤ) → share b (x +ℤ diff) ≡ share b x +ℤ share b diff
    share_add true x = refl
    share_add false x = omega int_laws
