-- ===== src/LoadBalancer/Tree/Inorder.antt =====
-- The walk of `select_server` finds the node that a scan of the weights in order would find.
use mathlib.Core.Path.{subst}
use lib_net_co_rpc.Prelude.{
  ℕ, zero, suc, ◌+◌, ◌*◌, ◌≤◌, ◌<◌, ◌≡◌, sym, ap, ◌∙◌, Bool, true, false, List, [], ◌∷◌, ◌++◌,
  Option, none, some, arith, ltb, if◌then◌else◌, inl, inr, Bool-cases, dec_lt,
}
use lib_net_co_rpc.Prelude.Int.{
  ℤ, pos, ◌+ℤ◌, ◌-ℤ◌, ◌≤ℤ◌, ◌<ℤ◌, ltb_ℤ, leb_ℤ, int_laws, lt_of_ltb_ℤ, le_of_ltb_ℤ, ltb_ℤ_of_lt,
  ltb_ℤ_of_le, le_of_leb_ℤ, lt_of_leb_ℤ, leb_ℤ_of_le, parts_of_eq,
}
use lib_net_co_rpc.LoadBalancer.Tree.{Landing, landed, passed, walk}
use lib_net_co_rpc.LoadBalancer.Tree.Sums.{under}
use lib_net_co_rpc.LoadBalancer.Tree.Totals.{
  weight_under, weight_under-split, weight_under-outside, share, sum_below-nonneg,
}

-- the nodes under `k` in order, of a tree of `n`: those of the left child, `k`, those of the right
unfoldable pub inorder : ℕ → ℕ → ℕ → List ℕ
inorder zero n k = []
inorder (suc fuel) n k =
    if ltb k n then inorder fuel n (2 * k + 1) ++ (k ∷ inorder fuel n (2 * k + 2)) else []

-- The reference: go through the nodes, taking each weight off the dice, up to the first node whose
-- weight exceeds what is left. `none` where the dice is not below the sum.
unfoldable pub scan : (ℕ → ℤ) → List ℕ → ℤ → Option (ℕ × ℤ)
scan weight [] dice = none
scan weight (i ∷ is) dice =
    if ltb_ℤ dice (weight i) then some (i, dice) else scan weight is (dice -ℤ weight i)

pub total : (ℕ → ℤ) → List ℕ → ℤ
total weight [] = pos 0
total weight (i ∷ is) = weight i +ℤ total weight is

total-append :
    (weight : ℕ → ℤ) (is js : List ℕ) → total weight (is ++ js) ≡ total weight is +ℤ total weight js
unfolding total
total-append weight [] js = omega int_laws
total-append weight (i ∷ is) js = rw (total-append weight is js) (omega int_laws)

-- The sum over the nodes in order is the weight under the top one.
pub total-inorder :
    (weight : ℕ → ℤ) (fuel n k : ℕ)
    → n ≤ k + fuel
    → total weight (inorder fuel n k) ≡ weight_under n weight k
unfolding inorder total
total-inorder weight zero n k h = sym (weight_under-outside n weight k (omega arith))
total-inorder weight (suc fuel) n k h = elim (dec_lt k n) [
  | no out ↦
      let e : ltb k n ≡ false = ground arith in
      rw e (sym (weight_under-outside n weight k (omega arith)))
  | yes lt ↦
      let e : ltb k n ≡ true = ground arith in
      rw e (
        rw
          (
            total-append weight (inorder fuel n (2 * k + 1)) (k ∷ inorder fuel n (2 * k + 2)),
            total-inorder weight fuel n (2 * k + 1) (omega arith),
            total-inorder weight fuel n (2 * k + 2) (omega arith),
            weight_under-split n weight k lt,
          )
          (omega int_laws))
]

-- A scan of two lists goes to the second if the dice is not below the sum of the first.
scan-append_lt :
    (weight : ℕ → ℤ) (is js : List ℕ) (dice : ℤ)
    → ltb_ℤ dice (total weight is) ≡ true
    → pos 0 ≤ℤ dice
    → scan weight (is ++ js) dice ≡ scan weight is dice
unfolding scan total
scan-append_lt weight [] js dice h p = ground arith
scan-append_lt weight (i ∷ is) js dice h p = elim (Bool-cases (ltb_ℤ dice (weight i))) [
  | inl here ↦ rw here
  | inr later ↦ rw later (
      scan-append_lt weight is js (dice -ℤ weight i)
        (ltb_ℤ_of_lt (dice -ℤ weight i) (total weight is)
          (omega (int_laws, lt_of_ltb_ℤ dice (weight i +ℤ total weight is) h)))
        (omega (int_laws, le_of_ltb_ℤ dice (weight i) later)))
]

total_nonneg :
    (weight : ℕ → ℤ) (is : List ℕ) → ((i : ℕ) → pos 0 ≤ℤ weight i) → pos 0 ≤ℤ total weight is
unfolding total
total_nonneg weight [] w = omega arith
total_nonneg weight (i ∷ is) w = omega (int_laws, w i, total_nonneg weight is w)

scan-append_ge :
    (weight : ℕ → ℤ) (is js : List ℕ) (dice : ℤ)
    → ((i : ℕ) → pos 0 ≤ℤ weight i)
    → total weight is ≤ℤ dice
    → scan weight (is ++ js) dice ≡ scan weight js (dice -ℤ total weight is)
unfolding scan total
scan-append_ge weight [] js dice w h = let e : dice -ℤ pos 0 ≡ dice = omega int_laws in rw e
scan-append_ge weight (i ∷ is) js dice w h =
    let later : ltb_ℤ dice (weight i) ≡ false =
      ltb_ℤ_of_le dice (weight i) (omega (int_laws, total_nonneg weight is w)) in
    let e : dice -ℤ weight i -ℤ total weight is ≡ dice -ℤ (weight i +ℤ total weight is) =
      omega int_laws in
    rw later
      (scan-append_ge weight is js (dice -ℤ weight i) w (omega int_laws) ∙ ap (scan weight js) e)

scan-hit :
    (weight : ℕ → ℤ) (i : ℕ) (is : List ℕ) (d : ℤ)
    → d <ℤ weight i
    → scan weight (i ∷ is) d ≡ some (i, d)
unfolding scan
scan-hit weight i is d l = rw (ltb_ℤ_of_lt d (weight i) l)

scan-skip :
    (weight : ℕ → ℤ) (i : ℕ) (is : List ℕ) (d r : ℤ)
    → weight i ≤ℤ d
    → d -ℤ weight i ≡ r
    → scan weight (i ∷ is) d ≡ scan weight is r
unfolding scan
scan-skip weight i is d r l e = rw (ltb_ℤ_of_le d (weight i) l, e)

-- `left` of every node is the weight under its left child.
abbrev pub LeftSums : ℕ → (left weight : ℕ → ℤ) → Type 0
LeftSums n left weight = (k : ℕ) → k < n → left k ≡ weight_under n weight (2 * k + 1)

-- the dice falls on node `j`, in the walk and in the scan
abbrev pub Finds : Landing → Option (ℕ × ℤ) → ℕ → (ℕ → ℤ) → Type 0
Finds walked scanned n left =
    (j : ℕ) × (d : ℤ) × (j < n) × (walked ≡ landed j d) × (scanned ≡ some (j, d -ℤ left j))

module _ (n : ℕ) (left weight : ℕ → ℤ) (sums : LeftSums n left weight)
    (nonneg : (i : ℕ) → pos 0 ≤ℤ weight i) where
  pub walk-scan :
      (fuel k : ℕ) (dice : ℤ)
      → n ≤ k + fuel
      → k < n
      → pos 0 ≤ℤ dice
      → dice <ℤ weight_under n weight k
      → Finds (walk fuel n left weight k dice) (scan weight (inorder fuel n k) dice) n left
  unfolding walk inorder
  walk-scan zero k dice enough lt p h = absurd (omega arith)
  walk-scan (suc fuel) k dice enough lt p h =
      let inside : ltb k n ≡ true = ground arith in
      let is = inorder fuel n (2 * k + 1) in
      let js = inorder fuel n (2 * k + 2) in
      let split = parts_of_eq _ _ (weight_under-split n weight k lt) in
      let lparts = parts_of_eq _ _ (sums k lt) in
      let lsum : total weight is ≡ left k =
        total-inorder weight fuel n (2 * k + 1) (omega arith) ∙ sym (sums k lt) in
      elim (Bool-cases (ltb_ℤ dice (left k))) [
        | inl go_left ↦
            let below : dice <ℤ weight_under n weight (2 * k + 1) =
              subst (λ x. dice <ℤ x) (sums k lt) (lt_of_ltb_ℤ dice (left k) go_left) in
            let child : 2 * k + 1 < n = child_exists (2 * k + 1) dice p below in
            let (j, d, jl, e, f) = walk-scan fuel (2 * k + 1) dice (omega arith) child p below in
            (
              j,
              d,
              jl,
              rw (inside, go_left) e,
              rw inside (scan-append_lt weight is (k ∷ js) dice (rw lsum go_left) p ∙ f),
            )
        | inr not_left ↦ elim (Bool-cases (leb_ℤ (left k +ℤ weight k) dice)) [
          | inl go_right ↦
              let rest = dice -ℤ (left k +ℤ weight k) in
              let p' : pos 0 ≤ℤ rest =
                omega (int_laws, le_of_leb_ℤ (left k +ℤ weight k) dice go_right) in
              let below : rest <ℤ weight_under n weight (2 * k + 2) =
                omega (int_laws, split.0, split.1, lparts.0, lparts.1) in
              let child : 2 * k + 2 < n = child_exists (2 * k + 2) rest p' below in
              let right_inside : ltb (2 * k + 2) n ≡ true = ground arith in
              let (j, d, jl, e, f) = walk-scan fuel (2 * k + 2) rest (omega arith) child p' below in
              (
                j,
                d,
                jl,
                rw (inside, not_left, go_right, right_inside) e,
                rw inside (
                    scan-append_ge weight is (k ∷ js) dice nonneg
                      (rw lsum (le_of_ltb_ℤ dice (left k) not_left))
                    ∙ scan-skip weight k js (dice -ℤ total weight is) rest
                        (rw lsum (omega (int_laws, le_of_leb_ℤ (left k +ℤ weight k) dice go_right)))
                        (rw lsum (omega int_laws))
                    ∙ f),
              )
          | inr here ↦ (
            k,
            dice,
            lt,
            rw (inside, not_left, here),
            rw inside (
                scan-append_ge weight is (k ∷ js) dice nonneg
                  (rw lsum (le_of_ltb_ℤ dice (left k) not_left))
                ∙ rw lsum (
                    scan-hit weight k js (dice -ℤ left k)
                      (omega (int_laws, lt_of_leb_ℤ (left k +ℤ weight k) dice here)))),
          )
        ]
      ]
    where
      child_exists : (c : ℕ) (d : ℤ) → pos 0 ≤ℤ d → d <ℤ weight_under n weight c → c < n
      child_exists c d low high = elim (dec_lt c n) [
        | yes inside ↦ inside
        | no out ↦
            let h' : d <ℤ pos 0 =
              subst (λ x. d <ℤ x) (weight_under-outside n weight c (omega arith)) high in
            absurd (omega arith)
      ]

  -- A dice that reaches the sum of all weights runs off the right end of the tree.
  pub walk-passed :
      (fuel k : ℕ) (dice : ℤ)
      → n ≤ k + fuel
      → k < n
      → weight_under n weight k ≤ℤ dice
      → walk fuel n left weight k dice ≡ passed
  unfolding walk
  walk-passed zero k dice enough lt h = absurd (omega arith)
  walk-passed (suc fuel) k dice enough lt h =
      let inside : ltb k n ≡ true = ground arith in
      let split = parts_of_eq _ _ (weight_under-split n weight k lt) in
      let lparts = parts_of_eq _ _ (sums k lt) in
      let lpos : pos 0 ≤ℤ weight_under n weight (2 * k + 1) =
        sum_below-nonneg n _ (λ i l. share_nonneg (under (2 * k + 1) i) (weight i) (nonneg i)) in
      let rpos : pos 0 ≤ℤ weight_under n weight (2 * k + 2) =
        sum_below-nonneg n _ (λ i l. share_nonneg (under (2 * k + 2) i) (weight i) (nonneg i)) in
      let facts : (left k +ℤ weight k +ℤ weight_under n weight (2 * k + 2)) ≤ℤ dice =
        omega (int_laws, split.0, split.1, lparts.0, lparts.1) in
      let not_left : ltb_ℤ dice (left k) ≡ false =
        ltb_ℤ_of_le dice (left k) (omega (int_laws, nonneg k)) in
      let go_right : leb_ℤ (left k +ℤ weight k) dice ≡ true =
        leb_ℤ_of_le (left k +ℤ weight k) dice (omega int_laws) in
      elim (dec_lt (2 * k + 2) n) [
        | no out ↦
            let e : ltb (2 * k + 2) n ≡ false = ground arith in rw (inside, not_left, go_right, e)
        | yes child ↦
            let e : ltb (2 * k + 2) n ≡ true = ground arith in
            rw (inside, not_left, go_right, e)
              (walk-passed fuel (2 * k + 2) (dice -ℤ (left k +ℤ weight k)) (omega arith) child
                (omega int_laws))
      ]
    where
      share_nonneg : (b : Bool) (x : ℤ) → pos 0 ≤ℤ x → pos 0 ≤ℤ share b x
      share_nonneg true x h = h
      share_nonneg false x h = omega arith
