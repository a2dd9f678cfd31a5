-- ===== src/NameService/Counts.antt =====
-- How often a server stands in a list, and what sorting and changing the list does to that.
use lib_net_co_rpc.Prelude.{
  ℕ, ◌+◌, ◌≡◌, refl, sym, ap, ◌∙◌, Bool, true, false, List, [], ◌∷◌, ◌++◌, arith, if◌then◌else◌,
  inl, inr, Bool-cases, All, All-map,
}
use lib_net_co_rpc.NameService.{ServerNode, node_eq, node_less, insert_node, sort}
use lib_net_co_rpc.NameService.Order.{
  bytes_eq_refl, bytes_eq_correct, bytes_less_irrefl, bytes_less_trans, bytes_less_total,
}

abbrev pub hit : ServerNode → ServerNode → ℕ
hit a b = if node_eq a b then 1 else 0

-- how often `a` stands in the list
abbrev pub count : ServerNode → List ServerNode → ℕ
count a [] = 0
count a (b ∷ bs) = hit a b + count a bs

pub node_eq_refl : (a : ServerNode) → node_eq a a ≡ true
node_eq_refl a = bytes_eq_refl a.ip_port

pub node_eq_correct : (a b : ServerNode) → node_eq a b ≡ true → a ≡ b
node_eq_correct a b e = ap (λ s. record { ip_port = s }) (bytes_eq_correct a.ip_port b.ip_port e)

pub count-append :
    (a : ServerNode) (xs ys : List ServerNode) → count a (xs ++ ys) ≡ count a xs + count a ys
count-append a [] ys = omega arith
count-append a (x ∷ xs) ys = let h = count-append a xs ys in omega arith

pub count-insert_node :
    (a b : ServerNode) (bs : List ServerNode) → count a (insert_node b bs) ≡ hit a b + count a bs
unfolding insert_node
count-insert_node a b [] = refl
count-insert_node a b (c ∷ cs) = elim (Bool-cases (node_less c b)) [
  | inl e ↦ let h = count-insert_node a b cs in rw e (omega arith)
  | inr e ↦ rw e
]

pub count-sort : (a : ServerNode) (xs : List ServerNode) → count a (sort xs) ≡ count a xs
unfolding sort
count-sort a [] = refl
count-sort a (x ∷ xs) = count-insert_node a x (sort xs) ∙ ap (λ n. hit a x + n) (count-sort a xs)

-- no item of the list is less than `a`
abbrev pub Above : ServerNode → List ServerNode → Type 0
Above a = All (λ b. node_less b a ≡ false)

abbrev pub Sorted : List ServerNode → Type 0
Sorted [] = Unit
Sorted (a ∷ rest) = Above a rest × Sorted rest

pub less_asym : (a b : ServerNode) → node_less a b ≡ true → node_less b a ≡ false
less_asym a b e = elim (Bool-cases (node_less b a)) [
  | inr f ↦ f
  | inl f ↦
      let g = bytes_less_trans a.ip_port b.ip_port a.ip_port e f in
      let h = bytes_less_irrefl a.ip_port in cc
]

-- What is not less than `b` is not less than what is not greater than `b`.
not_less_trans :
    (a b c : ServerNode) → node_less b a ≡ false → node_less c b ≡ false → node_less c a ≡ false
not_less_trans a b c ba cb = elim (Bool-cases (node_less c a)) [
  | inr f ↦ f
  | inl ca ↦ elim (Bool-cases (node_less a b)) [
    | inl ab ↦ let g = bytes_less_trans c.ip_port a.ip_port b.ip_port ca ab in cc
    | inr ab ↦
        let same = bytes_less_total a.ip_port b.ip_port ab ba in
        let g : node_less c b ≡ true = ap (λ s. bytes_less_of c s) (sym same) ∙ ca in cc
  ]
]
  where
    bytes_less_of : ServerNode → List ℕ → Bool
    bytes_less_of c s = node_less c (record { ip_port = s })

Above-weaken :
    (a b : ServerNode) (rest : List ServerNode)
    → node_less b a ≡ false
    → Above b rest
    → Above a rest
Above-weaken a b rest ba above = All-map (λ c h. not_less_trans a b c ba h) rest above

Above-insert_node :
    (a b : ServerNode) (rest : List ServerNode)
    → node_less b a ≡ false
    → Above a rest
    → Above a (insert_node b rest)
unfolding insert_node
Above-insert_node a b [] ba above = (ba, tt)
Above-insert_node a b (c ∷ cs) ba (ca, above) = elim (Bool-cases (node_less c b)) [
  | inl e ↦ rw e (ca, Above-insert_node a b cs ba above)
  | inr e ↦ rw e (ba, (ca, above))
]

insert_node-Sorted : (a : ServerNode) (xs : List ServerNode) → Sorted xs → Sorted (insert_node a xs)
unfolding insert_node
insert_node-Sorted a [] s = (tt, tt)
insert_node-Sorted a (b ∷ bs) (above, s) = elim (Bool-cases (node_less b a)) [
  | inl e ↦ rw e (Above-insert_node b a bs (less_asym b a e) above, insert_node-Sorted a bs s)
  | inr e ↦ rw e ((e, Above-weaken a b bs e above), (above, s))
]

pub sort-Sorted : (xs : List ServerNode) → Sorted (sort xs)
unfolding sort
sort-Sorted [] = tt
sort-Sorted (x ∷ xs) = insert_node-Sorted x (sort xs) (sort-Sorted xs)

-- What is less than every item of a list is not in it.
pub count_below :
    (a b : ServerNode) (rest : List ServerNode)
    → node_less a b ≡ true
    → Above b rest
    → count a rest ≡ 0
count_below a b [] ab above = refl
count_below a b (c ∷ cs) ab (cb, above) =
    let h = count_below a b cs ab above in
    elim (Bool-cases (node_eq a c)) [
      | inr e ↦ rw (e, h)
      | inl e ↦
          let same = node_eq_correct a c e in
          let f : node_less a b ≡ false = ap (λ n. node_less n b) same ∙ cb in cc
    ]
