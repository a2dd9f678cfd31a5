-- ===== src/NameService/Difference.antt =====
-- `std::set_difference` of sorted lists, by how often a server stands in what it leaves.
use lib_net_co_rpc.Prelude.{
  ℕ, zero, suc, ◌+◌, ◌-◌, ◌≤◌, ◌≡◌, ap, ◌∙◌, true, false, List, [], ◌∷◌, arith, inl, inr,
  Bool-cases, length,
}
use lib_net_co_rpc.NameService.{ServerNode, node_eq, node_less, difference_steps, set_difference}
use lib_net_co_rpc.NameService.Order.{bytes_less_irrefl, bytes_less_total}
use lib_net_co_rpc.NameService.Counts.{hit, count, node_eq_correct, Sorted, count_below}

module _ (fuel : ℕ) (x y : ServerNode) (xs ys : List ServerNode) where
  difference_less :
      node_less x y ≡ true
      → difference_steps (suc fuel) (x ∷ xs) (y ∷ ys) ≡ x ∷ difference_steps fuel xs (y ∷ ys)
  unfolding difference_steps
  difference_less e = rw (e, difference_steps)

  difference_greater :
      node_less x y ≡ false
      → node_less y x ≡ true
      → difference_steps (suc fuel) (x ∷ xs) (y ∷ ys) ≡ difference_steps fuel (x ∷ xs) ys
  unfolding difference_steps
  difference_greater e f = rw (e, f, difference_steps)

  difference_equal :
      node_less x y ≡ false
      → node_less y x ≡ false
      → difference_steps (suc fuel) (x ∷ xs) (y ∷ ys) ≡ difference_steps fuel xs ys
  unfolding difference_steps
  difference_equal e f = rw (e, f, difference_steps)

-- Of two sorted lists, the difference has what the first has more of.
pub count-difference_steps :
    (fuel : ℕ) (xs ys : List ServerNode) (a : ServerNode)
    → length xs + length ys ≤ fuel
    → Sorted xs
    → Sorted ys
    → count a (difference_steps fuel xs ys) ≡ count a xs - count a ys
unfolding difference_steps
count-difference_steps zero [] ys a h sx sy = omega arith
count-difference_steps zero (x ∷ xs) ys a h sx sy = absurd (omega arith)
count-difference_steps (suc fuel) [] ys a h sx sy = omega arith
count-difference_steps (suc fuel) (x ∷ xs) [] a h sx sy = omega arith
count-difference_steps (suc fuel) (x ∷ xs) (y ∷ ys) a h (ax, sx) (ay, sy) =
    elim (Bool-cases (node_less x y)) [
      | inl less ↦
          let d = ap (count a) (difference_less fuel x y xs ys less) in
          let r = count-difference_steps fuel xs (y ∷ ys) a (omega arith) sx (ay, sy) in
          elim (Bool-cases (node_eq a x)) [
            | inr off ↦ let h : hit a x ≡ 0 = rw off in omega arith
            | inl e ↦
                let same = node_eq_correct a x e in
                let below : node_less a y ≡ true = ap (λ n. node_less n y) same ∙ less in
                let none_there = count_below a y (y ∷ ys) below (bytes_less_irrefl y.ip_port, ay) in
                omega arith
          ]
      | inr not_less ↦ elim (Bool-cases (node_less y x)) [
        | inl greater ↦
            let d = ap (count a) (difference_greater fuel x y xs ys not_less greater) in
            let r = count-difference_steps fuel (x ∷ xs) ys a (omega arith) (ax, sx) sy in
            elim (Bool-cases (node_eq a y)) [
              | inr off ↦ let h : hit a y ≡ 0 = rw off in omega arith
              | inl e ↦
                  let same = node_eq_correct a y e in
                  let below : node_less a x ≡ true = ap (λ n. node_less n x) same ∙ greater in
                  let none_there =
                    count_below a x (x ∷ xs) below (bytes_less_irrefl x.ip_port, ax) in
                  omega arith
            ]
        | inr not_greater ↦
            let d = ap (count a) (difference_equal fuel x y xs ys not_less not_greater) in
            let r = count-difference_steps fuel xs ys a (omega arith) sx sy in
            let same = bytes_less_total x.ip_port y.ip_port not_less not_greater in
            let hits : hit a x ≡ hit a y = ap (λ s. hit a (record { ip_port = s })) same in
            omega arith
      ]
    ]

pub count-set_difference :
    (xs ys : List ServerNode) (a : ServerNode)
    → Sorted xs
    → Sorted ys
    → count a (set_difference xs ys) ≡ count a xs - count a ys
count-set_difference xs ys a sx sy =
    count-difference_steps (length xs + length ys) xs ys a (omega arith) sx sy
