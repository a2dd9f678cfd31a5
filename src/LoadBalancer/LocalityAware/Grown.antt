-- ===== src/LoadBalancer/LocalityAware/Grown.antt =====
-- The tree that `Add` grows by a new node, and what its nodes read in the store.
use Prim.Native.String.{String}
use lib_net_co_rpc.Prelude.{
  ℕ, zero, suc, ◌+◌, ◌<◌, ◌≡◌, refl, sym, ap, ◌∙◌, true, List, [], ◌∷◌, ◌++◌, some, arith, ◌==◌,
  inl, inr, ◌⊎◌, length, get_elem?, length-append,
}
use lib_net_co_rpc.Prelude.Int.{ℤ, pos}
use lib_net_co_rpc.LoadBalancer.Weight
use lib_net_co_rpc.LoadBalancer.Weight.{Weight}
use lib_net_co_rpc.LoadBalancer.Tree.{ServerInfo}
use lib_net_co_rpc.LoadBalancer.Tree.Parents.{left_cell, Distinct}
use lib_net_co_rpc.LoadBalancer.LocalityAware.{
  Store, read_node, left_at, weight_at, allocate, new_node,
}
use lib_net_co_rpc.LoadBalancer.LocalityAware.Nodes.{
  DistinctWeights, Allocated, read_node-get, left_cell-some, write-other,
}
use lib_net_co_rpc.LoadBalancer.LocalityAware.Consistent.{Consistent}

module _ {ℓ} {A : Type ℓ} where
  get-append :
      (xs : List A) (x a : A) (k : ℕ)
      → get_elem? (xs ++ x ∷ []) k ≡ some a
      → (get_elem? xs k ≡ some a) ⊎ ((k ≡ length xs) × (x ≡ a))
  get-append [] x a zero e = inr (refl, cc)
  get-append [] x a (suc k) e = cc
  get-append (y ∷ xs) x a zero e = inl e
  get-append (y ∷ xs) x a (suc k) e = elim (get-append xs x a k e) [
    | inl f ↦ inl f
    | inr p ↦ inr (ap suc p.0, p.1)
  ]

  get-append_left :
      (xs : List A) (x : A) (k : ℕ) → k < length xs → get_elem? (xs ++ x ∷ []) k ≡ get_elem? xs k
  get-append_left [] x k h = absurd (omega arith)
  get-append_left (y ∷ xs) x zero h = refl
  get-append_left (y ∷ xs) x (suc k) h = get-append_left xs x k (omega arith)

  pub get-append_last : (xs : List A) (x : A) → get_elem? (xs ++ x ∷ []) (length xs) ≡ some x
  get-append_last [] x = refl
  get-append_last (y ∷ xs) x = get-append_last xs x

read_node-append :
    (f : ServerInfo → ℤ) (tree : List ServerInfo) (x : ServerInfo) (k : ℕ)
    → k < length tree
    → read_node f (tree ++ x ∷ []) k ≡ read_node f tree k
read_node-append f [] x k h = absurd (omega arith)
read_node-append f (y ∷ tree) x zero h = refl
read_node-append f (y ∷ tree) x (suc k) h = read_node-append f tree x k (omega arith)

read_node-cong :
    (f g : ServerInfo → ℤ) (tree : List ServerInfo) (k : ℕ)
    → ((a : ServerInfo) → get_elem? tree k ≡ some a → f a ≡ g a)
    → read_node f tree k ≡ read_node g tree k
read_node-cong f g [] k h = refl
read_node-cong f g (y ∷ tree) zero h = h y refl
read_node-cong f g (y ∷ tree) (suc k) h = read_node-cong f g tree k h

left_cell-get? :
    (tree : List ServerInfo) (k c : ℕ)
    → left_cell tree k ≡ some c
    → (a : ServerInfo) × (get_elem? tree k ≡ some a) × (a.left ≡ c)
left_cell-get? [] k c e = cc
left_cell-get? (y ∷ tree) zero c e = (y, refl, cc)
left_cell-get? (y ∷ tree) (suc k) c e = left_cell-get? tree k c e

abbrev pub grown : List ServerInfo → String → Store → List ServerInfo
grown tree name s = tree ++ new_node name s ∷ []

-- A node whose cell is not in use shares it with no other.
cells-append :
    (cell : ServerInfo → ℕ) (tree : List ServerInfo) (x : ServerInfo) (next : ℕ)
    → cell x ≡ next
    → ((i : ℕ) (a : ServerInfo) → get_elem? tree i ≡ some a → cell a < next)
    → ((i j : ℕ) (a b : ServerInfo)
        → get_elem? tree i ≡ some a
        → get_elem? tree j ≡ some b
        → cell a ≡ cell b
        → i ≡ j)
    → (i j : ℕ) (a b : ServerInfo) → get_elem? (tree ++ x ∷ []) i ≡ some a
    → get_elem? (tree ++ x ∷ []) j ≡ some b
    → cell a ≡ cell b
    → i ≡ j
cells-append cell tree x next new used distinct i j a b e f same = elim (get-append tree x a i e) [
  | inl old ↦ elim (get-append tree x b j f) [
    | inl old' ↦ distinct i j a b old old' same
    | inr (last', eq') ↦
        let h = used i a old in
        let g : cell b ≡ next = ap cell (sym eq') ∙ new in absurd (omega arith)
  ]
  | inr (last, eq) ↦ elim (get-append tree x b j f) [
    | inl old' ↦
        let h = used j b old' in
        let g : cell a ≡ next = ap cell (sym eq) ∙ new in absurd (omega arith)
    | inr (last', eq') ↦ last ∙ sym last'
  ]
]

module _ (tree : List ServerInfo) (name : String) (s : Store) (c : Consistent tree s) where
  pub grown-Distinct : Distinct (grown tree name s)
  grown-Distinct i j cell e f =
      let (a, ea, la) = left_cell-get? (grown tree name s) i cell e in
      let (b, eb, lb) = left_cell-get? (grown tree name s) j cell f in
      cells-append (λ x. x.left) tree (new_node name s) s.next refl (λ k x h. (c.allocated k x h).0)
        (λ k l x y h g same.
          c.lefts_distinct k l x.left (left_cell-some tree k x h)
            (left_cell-some tree l y g ∙ ap some (sym same)))
        i j a b ea eb (la ∙ sym lb)

  pub grown-DistinctWeights : DistinctWeights (grown tree name s)
  grown-DistinctWeights =
      cells-append (λ x. x.weight) tree (new_node name s) s.next refl
        (λ k x h. (c.allocated k x h).1) c.weights_distinct

  pub grown-Allocated : Allocated (grown tree name s) (s.next + 1)
  grown-Allocated i a e = elim (get-append tree (new_node name s) a i e) [
    | inl old ↦ let (l, w) = c.allocated i a old in (omega arith, omega arith)
    | inr (last, eq) ↦
        let l : s.next ≡ a.left = ap (λ x. x.left) eq in
        let w : s.next ≡ a.weight = ap (λ x. x.weight) eq in (omega arith, omega arith)
  ]

  pub length-grown : length (grown tree name s) ≡ suc (length tree)
  length-grown = length-append tree (new_node name s ∷ []) ∙ (omega arith)

  module _ (weight : ℤ) where
    pub grown-left_at :
        (k : ℕ)
        → k < length tree
        → left_at (grown tree name s) (allocate weight s) k ≡ left_at tree s k
    grown-left_at k l =
        read_node-append (λ x. (allocate weight s).lefts x.left) tree (new_node name s) k l
        ∙ read_node-cong _ (λ x. s.lefts x.left) tree k
            (λ a e.
              write-other s.lefts s.next a.left (pos 0)
                (λ same. let h = (c.allocated k a e).0 in absurd (omega arith)))

    pub grown-weight_at :
        (k : ℕ)
        → k < length tree
        → weight_at (grown tree name s) (allocate weight s) k ≡ weight_at tree s k
    grown-weight_at k l =
        read_node-append (λ x. ((allocate weight s).weights x.weight).weight) tree (new_node name s)
          k l
        ∙ read_node-cong _ (λ x. (s.weights x.weight).weight) tree k
            (λ a e.
              ap (λ v. v.weight)
                (write-other s.weights s.next a.weight (Weight.init weight)
                  (λ same. let h = (c.allocated k a e).1 in absurd (omega arith))))

    pub grown-left_at_last : left_at (grown tree name s) (allocate weight s) (length tree) ≡ pos 0
    grown-left_at_last =
        read_node-get (λ x. (allocate weight s).lefts x.left) (grown tree name s) (length tree)
          (new_node name s) (get-append_last tree (new_node name s))
        ∙ (let hit : (s.next == s.next) ≡ true = ground arith in rw hit)

    pub grown-weight_at_last :
        weight_at (grown tree name s) (allocate weight s) (length tree) ≡ weight
    unfolding Weight.init
    grown-weight_at_last =
        read_node-get (λ x. ((allocate weight s).weights x.weight).weight) (grown tree name s)
          (length tree) (new_node name s) (get-append_last tree (new_node name s))
        ∙ (let hit : (s.next == s.next) ≡ true = ground arith in rw hit)
