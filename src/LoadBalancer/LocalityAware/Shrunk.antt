-- ===== src/LoadBalancer/LocalityAware/Shrunk.antt =====
-- The tree that `Remove` leaves: the last node gone, and its weight and name where the removed one
-- was.
use mathlib.Core.Path.{subst}
use lib_net_co_rpc.Prelude.{
  ℕ, zero, suc, ◌-◌, ◌≤◌, ◌<◌, ◌≡◌, ◌≢◌, refl, sym, ap, ◌∙◌, List, [], ◌∷◌, some, arith, ℕ_discrete,
  length, get_elem?, set, length-set, get_elem?-set_self, get_elem?-set_ne,
}
use lib_net_co_rpc.LoadBalancer.Tree.{ServerInfo}
use lib_net_co_rpc.LoadBalancer.Tree.Parents.{Distinct, left_cell}
use lib_net_co_rpc.LoadBalancer.LocalityAware.{pop_back}
use lib_net_co_rpc.LoadBalancer.LocalityAware.Nodes.{DistinctWeights, get-inside, left_cell-some}

module _ {ℓ} {A : Type ℓ} where
  pub length-pop_back : (x : A) (xs : List A) → length (pop_back (x ∷ xs)) ≡ length xs
  length-pop_back x [] = refl
  length-pop_back x (y ∷ ys) = ap suc (length-pop_back y ys)

  -- Every item but the last stays.
  pub get-pop_back :
      (xs : List A) (k : ℕ) → suc k < length xs → get_elem? (pop_back xs) k ≡ get_elem? xs k
  get-pop_back [] k h = absurd (omega arith)
  get-pop_back (x ∷ []) k h = absurd (omega arith)
  get-pop_back (x ∷ y ∷ ys) zero h = refl
  get-pop_back (x ∷ y ∷ ys) (suc k) h = get-pop_back (y ∷ ys) k (omega arith)

  pub length-popped : (xs : List A) → 0 < length xs → suc (length (pop_back xs)) ≡ length xs
  length-popped [] h = absurd (omega arith)
  length-popped (x ∷ xs) h = ap suc (length-pop_back x xs)

pub get-some : (x y : ServerInfo) → some x ≡ some y → x ≡ y
get-some x y p = cc

-- the node that takes the place of the removed one
abbrev pub replaced : ServerInfo → ServerInfo → ServerInfo
replaced node last = record node { weight = last.weight; server_name = last.server_name }

abbrev pub swapped : List ServerInfo → ℕ → ServerInfo → ServerInfo → List ServerInfo
swapped tree index node last = pop_back (set tree index (replaced node last))

pub left_cell-get_or :
    (tree tree' : List ServerInfo) (k : ℕ)
    → get_elem? tree k ≡ get_elem? tree' k
    → left_cell tree k ≡ left_cell tree' k
left_cell-get_or [] [] k e = refl
left_cell-get_or [] (y ∷ ys) zero e = cc
left_cell-get_or [] (y ∷ ys) (suc k) e = left_cell-get_or [] ys k e
left_cell-get_or (x ∷ xs) [] zero e = cc
left_cell-get_or (x ∷ xs) [] (suc k) e = left_cell-get_or xs [] k e
left_cell-get_or (x ∷ xs) (y ∷ ys) zero e = ap (λ z. some z.left) (get-some x y e)
left_cell-get_or (x ∷ xs) (y ∷ ys) (suc k) e = left_cell-get_or xs ys k e

-- A tree whose nodes have the cells of another's, as far as it goes.
pub Distinct-sub :
    (tree tree' : List ServerInfo)
    → length tree' ≤ length tree
    → ((k : ℕ) → k < length tree' → left_cell tree' k ≡ left_cell tree k)
    → Distinct tree
    → Distinct tree'
Distinct-sub tree tree' shorter same distinct i j c e f =
    distinct i j c (sym (same i (inside i c e)) ∙ e) (sym (same j (inside j c f)) ∙ f)
  where
    in_tree : (t : List ServerInfo) (k c : ℕ) → left_cell t k ≡ some c → k < length t
    in_tree [] k c e = cc
    in_tree (x ∷ t) zero c e = omega arith
    in_tree (x ∷ t) (suc k) c e = let h = in_tree t k c e in omega arith

    inside : (k c : ℕ) → left_cell tree' k ≡ some c → k < length tree'
    inside k c e = in_tree tree' k c e

module _ (tree : List ServerInfo) (index : ℕ) (node last : ServerInfo)
    (at : get_elem? tree index ≡ some node) (inside : suc index < length tree) where
  pub length-swapped : suc (length (swapped tree index node last)) ≡ length tree
  length-swapped =
      let l = length-set tree index (replaced node last) in
      length-popped (set tree index (replaced node last)) (omega (arith, l)) ∙ l

  pub get-swapped_other :
      (k : ℕ)
      → suc k < length tree
      → index ≢ k
      → get_elem? (swapped tree index node last) k ≡ get_elem? tree k
  get-swapped_other k h ne =
      let l = length-set tree index (replaced node last) in
      get-pop_back (set tree index (replaced node last)) k (omega (arith, l))
      ∙ get_elem?-set_ne tree (replaced node last) ne

  pub get-swapped_index : get_elem? (swapped tree index node last) index ≡ some (replaced node last)
  get-swapped_index =
      let l = length-set tree index (replaced node last) in
      get-pop_back (set tree index (replaced node last)) index (omega (arith, l))
      ∙ get_elem?-set_self tree index (replaced node last) (omega arith)

  pub left_cell-swapped :
      (k : ℕ) → suc k < length tree → left_cell (swapped tree index node last) k ≡ left_cell tree k
  left_cell-swapped k h = elim (ℕ_discrete index k) [
    | no ne ↦ left_cell-get_or (swapped tree index node last) tree k (get-swapped_other k h ne)
    | yes e ↦
        let here = left_cell-some (swapped tree index node last) index _ get-swapped_index in
        let there = left_cell-some tree index node at in
        subst (λ j. left_cell (swapped tree index node last) j ≡ left_cell tree j) e
          (here ∙ sym there)
  ]

  pub swapped-DistinctWeights :
      DistinctWeights tree
      → get_elem? tree (length tree - 1) ≡ some last
      → DistinctWeights (swapped tree index node last)
  swapped-DistinctWeights distinct at_last i j a b e f same =
      let n = length-swapped in
      let hi = get-inside (swapped tree index node last) i a e in
      let hj = get-inside (swapped tree index node last) j b f in
      elim (ℕ_discrete index i) [
        | yes ei ↦ elim (ℕ_discrete index j) [
          | yes ej ↦ sym ei ∙ ej
          | no nj ↦
              let w : a.weight ≡ last.weight = weight_here i a ei e in
              let k =
                distinct (length tree - 1) j last b at_last
                  (sym (get-swapped_other j (omega arith) nj) ∙ f) (sym w ∙ same) in
              absurd (omega arith)
        ]
        | no ni ↦ elim (ℕ_discrete index j) [
          | yes ej ↦
              let w : b.weight ≡ last.weight = weight_here j b ej f in
              let k =
                distinct i (length tree - 1) a last (sym (get-swapped_other i (omega arith) ni) ∙ e)
                  at_last (same ∙ w) in
              absurd (omega arith)
          | no nj ↦
              distinct i j a b (sym (get-swapped_other i (omega arith) ni) ∙ e)
                (sym (get-swapped_other j (omega arith) nj) ∙ f) same
        ]
      ]
    where
      weight_here :
          (k : ℕ) (c : ServerInfo)
          → index ≡ k
          → get_elem? (swapped tree index node last) k ≡ some c
          → c.weight ≡ last.weight
      weight_here k c e f =
          ap (λ x. x.weight)
            (get-some c (replaced node last)
              (sym f ∙ ap (get_elem? (swapped tree index node last)) (sym e) ∙ get-swapped_index))
