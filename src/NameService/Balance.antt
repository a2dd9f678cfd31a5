-- ===== src/NameService/Balance.antt =====
-- A load balancer that keeps a set of servers is told of every change.
use lib_net_co_rpc.Prelude.{
  ◌≡◌, refl, sym, ap, ◌∙◌, Bool, true, false, not, ◌||◌, ◌&&◌, List, [], ◌∷◌, arith, ltb, inl, inr,
  Bool-cases,
}
use lib_net_co_rpc.NameService.{ServerNode, node_eq, LoadBalancer, lb_add_all, lb_remove_all}
use lib_net_co_rpc.NameService.Counts.{count, node_eq_correct}

-- What a load balancer promises: it has the servers that were added and not removed since.
pub record Lawful {ℓ} {L : Type ℓ} (lb : LoadBalancer L) : Type ℓ where
  pub has : ServerNode → L → Bool
  pub has_added : (a : ServerNode) (l : L) → has a (lb.add_server a.ip_port l) ≡ true
  pub has_added_other :
      (a b : ServerNode) (l : L) → node_eq b a ≡ false → has b (lb.add_server a.ip_port l) ≡ has b l
  pub has_removed : (a : ServerNode) (l : L) → has a (lb.remove_server a.ip_port l) ≡ false
  pub has_removed_other :
      (a b : ServerNode) (l : L)
      → node_eq b a ≡ false
      → has b (lb.remove_server a.ip_port l) ≡ has b l

abbrev pub among : ServerNode → List ServerNode → Bool
among a servers = ltb 0 (count a servers)

among_cons :
    (a b : ServerNode) (rest : List ServerNode) → among b (a ∷ rest) ≡ node_eq b a || among b rest
among_cons a b rest = elim (Bool-cases (node_eq b a)) [
  | inl e ↦ rw e (ground arith)
  | inr e ↦ rw e (ap (ltb 0) (omega arith))
]

swap_or : (p q r : Bool) → q || (p || r) ≡ (p || q) || r
swap_or true true r = refl
swap_or true false r = refl
swap_or false true r = refl
swap_or false false r = refl

swap_and : (p q r : Bool) → not q && (not p && r) ≡ not (p || q) && r
swap_and true true r = refl
swap_and true false r = refl
swap_and false true r = refl
swap_and false false r = refl

module _ {ℓ} {L : Type ℓ} (lb : LoadBalancer L) (law : Lawful lb) where
  has_added_any :
      (a b : ServerNode) (l : L)
      → law.has b (lb.add_server a.ip_port l) ≡ node_eq b a || law.has b l
  has_added_any a b l = elim (Bool-cases (node_eq b a)) [
    | inr e ↦ rw e (law.has_added_other a b l e)
    | inl e ↦
        let same = node_eq_correct b a e in
        rw e (ap (λ c. law.has c (lb.add_server a.ip_port l)) same ∙ law.has_added a l)
  ]

  has_removed_any :
      (a b : ServerNode) (l : L)
      → law.has b (lb.remove_server a.ip_port l) ≡ not (node_eq b a) && law.has b l
  has_removed_any a b l = elim (Bool-cases (node_eq b a)) [
    | inr e ↦ rw e (law.has_removed_other a b l e)
    | inl e ↦
        let same = node_eq_correct b a e in
        rw e (ap (λ c. law.has c (lb.remove_server a.ip_port l)) same ∙ law.has_removed a l)
  ]

  pub has-lb_add_all :
      (servers : List ServerNode) (l : L) (b : ServerNode)
      → law.has b (lb_add_all lb servers l) ≡ among b servers || law.has b l
  unfolding lb_add_all
  has-lb_add_all [] l b = refl
  has-lb_add_all (a ∷ rest) l b =
      let r = has-lb_add_all rest (lb.add_server a.ip_port l) b in
      let h = has_added_any a b l in
      r
      ∙ ap (λ x. among b rest || x) h
      ∙ swap_or (node_eq b a) (among b rest) (law.has b l)
      ∙ ap (λ x. x || law.has b l) (sym (among_cons a b rest))

  pub has-lb_remove_all :
      (servers : List ServerNode) (l : L) (b : ServerNode)
      → law.has b (lb_remove_all lb servers l) ≡ not (among b servers) && law.has b l
  unfolding lb_remove_all
  has-lb_remove_all [] l b = refl
  has-lb_remove_all (a ∷ rest) l b =
      let r = has-lb_remove_all rest (lb.remove_server a.ip_port l) b in
      let h = has_removed_any a b l in
      r
      ∙ ap (λ x. not (among b rest) && x) h
      ∙ swap_and (node_eq b a) (among b rest) (law.has b l)
      ∙ ap (λ x. not x && law.has b l) (sym (among_cons a b rest))
