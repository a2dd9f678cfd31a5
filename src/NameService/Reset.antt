-- ===== src/NameService/Reset.antt =====
-- `ResetServers`: the two calls of `ResetFn` leave the new servers in both copies.
use mathlib.Core.Path.{subst}
use lib_net_co_rpc.Prelude.{
  ℕ, ◌-◌, ◌≡◌, refl, sym, ap, ◌∙◌, true, false, not, ◌||◌, List, [], ◌∷◌, Option, arith, ◌==◌, inl,
  inr, Bool-cases,
}
use lib_net_co_rpc.NameService.{
  ServerNode, LoadBalancer, Pending, sort, set_difference, push_all, remove_each, is_empty,
  is_pending, balanced, reset_first, reset_second, reset_fn,
}
use lib_net_co_rpc.NameService.Counts.{hit, node_eq_refl, count, count-sort, sort-Sorted}
use lib_net_co_rpc.NameService.Difference.{count-set_difference}
use lib_net_co_rpc.NameService.Edits.{count-push_all, count-remove_each}

-- The two lists have every server equally often.
abbrev pub Same : List ServerNode → List ServerNode → Type 0
Same xs ys = (a : ServerNode) → count a xs ≡ count a ys

-- Nothing is left to be done for the second copy.
pub record Idle {ℓ} {L : Type ℓ} (p : Pending L) : Type ℓ where
  pub to_add : p.servers_to_add ≡ []
  pub to_remove : p.servers_to_remove ≡ []
  pub unchanged : p.servers_list_changed ≡ 0

is_empty_correct : (xs : List ServerNode) → is_empty xs ≡ true → xs ≡ []
unfolding is_empty
is_empty_correct [] e = refl
is_empty_correct (x ∷ xs) e = cc

-- What one list has more of than the other, and what it lacks.
abbrev pub missing : List ServerNode → List ServerNode → List ServerNode
missing last new = set_difference (sort new) (sort last)

abbrev pub surplus : List ServerNode → List ServerNode → List ServerNode
surplus last new = set_difference (sort last) (sort new)

pub count-missing :
    (a : ServerNode) (last new : List ServerNode)
    → count a (missing last new) ≡ count a new - count a last
count-missing a last new =
    let d = count-set_difference (sort new) (sort last) a (sort-Sorted new) (sort-Sorted last) in
    let l = count-sort a last in let n = count-sort a new in omega arith

-- Adding what is missing and removing the surplus leaves the new servers.
pub edited-Same :
    (last new servers : List ServerNode)
    → Same servers last
    → Same (remove_each (surplus last new) (push_all (missing last new) servers)) new
edited-Same last new servers same a =
    let m = count-missing a last new in
    let s = count-missing a new last in
    let p = count-push_all a (missing last new) servers in
    let r = count-remove_each a (surplus last new) (push_all (missing last new) servers) in
    let e = same a in omega arith

-- Nothing is missing and nothing is too much only if the lists are the same.
pub unchanged-Same :
    (last new : List ServerNode) → missing last new ≡ [] → surplus last new ≡ [] → Same last new
unchanged-Same last new e f a =
    let m = count-missing a last new in
    let s = count-missing a new last in
    let m_0 : count a (missing last new) ≡ 0 = ap (count a) e in
    let s_0 : count a (surplus last new) ≡ 0 = ap (count a) f in omega arith

nothing_counted : (xs : List ServerNode) → ((a : ServerNode) → count a xs ≡ 0) → xs ≡ []
nothing_counted [] h = refl
nothing_counted (x ∷ xs) h =
    let one : hit x x ≡ 1 = rw (node_eq_refl x) in let z = h x in absurd (omega arith)

Same-missing : (last new : List ServerNode) → Same last new → missing last new ≡ []
Same-missing last new same =
    nothing_counted (missing last new)
      (λ a. let m = count-missing a last new in let e = same a in omega arith)

module _ {ℓ} {L : Type ℓ} (lb : LoadBalancer L) where
  -- what the first call leaves for the second one
  pub data Left (last new : List ServerNode) (p : Pending L) : Type ℓ where
    nothing : Idle p → Same last new → Left last new p
    changes :
        p.servers_to_add ≡ missing last new
        → p.servers_to_remove ≡ surplus last new
        → p.servers_list_changed ≡ 1
        → Left last new p

  idle_not_pending : (p : Pending L) → Idle p → is_pending lb p ≡ false
  unfolding is_empty
  idle_not_pending p i = rw (i.to_add, i.to_remove, i.unchanged)

  -- what the load balancer was told
  pub data Told (last new : List ServerNode) (o o' : Option L) : Type ℓ where
    told : o' ≡ balanced lb (missing last new) (surplus last new) o → Told last new o o'
    untold : o' ≡ o → Same last new → Told last new o o'

  pub record FirstDone (last new : List ServerNode) (o : Option L)
      (r : ℕ × List ServerNode × (List ServerNode × Pending L)) : Type ℓ where
    pub ret : r.0 ≡ 0
    pub servers : Same r.1 new
    pub sorted : r.2.0 ≡ sort new
    pub left : Left last new r.2.1
    pub balancer : Told last new o r.2.1.load_balancer

  -- the state in which nothing is left to be done
  abbrev idle : Option L → Pending L
  idle balancer = record {
    servers_to_remove = [];
    servers_to_add = [];
    servers_list_changed = 0;
    load_balancer = balancer;
  }

  Idle-idle : (p : Pending L) → Idle p → p ≡ idle p.load_balancer
  Idle-idle p i j = record {
    servers_to_remove = i.to_remove j;
    servers_to_add = i.to_add j;
    servers_list_changed = i.unchanged j;
    load_balancer = p.load_balancer;
  }

  changed_first :
      (last new : List ServerNode) (o : Option L)
      → not (is_empty (missing last new)) || not (is_empty (surplus last new)) ≡ true
      → FirstDone last new o (reset_first lb last new (idle o))
  unfolding reset_first
  changed_first last new o e = rw e (record {
    ret = refl;
    servers = edited-Same last new (sort last) (λ a. count-sort a last);
    sorted = refl;
    left = changes refl refl refl;
    balancer = told refl;
  })

  unchanged_first :
      (last new : List ServerNode) (o : Option L)
      → missing last new ≡ []
      → surplus last new ≡ []
      → FirstDone last new o (reset_first lb last new (idle o))
  unfolding reset_first is_empty
  unchanged_first last new o e f =
      let same = unchanged-Same last new e f in
      rw (e, f)
        (record {
          ret = refl;
          servers = λ a. count-sort a last ∙ same a;
          sorted = refl;
          left = nothing (record { to_add = refl; to_remove = refl; unchanged = refl }) same;
          balancer = untold refl same;
        })

  pub reset_first-FirstDone :
      (last new : List ServerNode) (p : Pending L)
      → Idle p
      → FirstDone last new p.load_balancer (reset_fn lb last (new, p))
  unfolding reset_fn
  reset_first-FirstDone last new p i = rw (idle_not_pending p i) (
      subst (λ q. FirstDone last new p.load_balancer (reset_first lb last new q))
        (sym (Idle-idle p i))
        (elim (Bool-cases (is_empty (missing last new))) [
          | inr some_missing ↦ changed_first last new p.load_balancer (rw some_missing)
          | inl no_missing ↦ elim (Bool-cases (is_empty (surplus last new))) [
            | inr some_surplus ↦
                changed_first last new p.load_balancer (rw (no_missing, some_surplus))
            | inl no_surplus ↦
                unchanged_first last new p.load_balancer
                  (is_empty_correct (missing last new) no_missing)
                  (is_empty_correct (surplus last new) no_surplus)
          ]
        ]))

  pub record SecondDone (new : List ServerNode) (o : Option L)
      (r : ℕ × List ServerNode × (List ServerNode × Pending L)) : Type ℓ where
    pub ret : r.0 ≡ 0
    pub servers : Same r.1 new
    pub idle : Idle r.2.1
    pub balancer : r.2.1.load_balancer ≡ o

  changed_pending : (p : Pending L) → p.servers_list_changed ≡ 1 → is_pending lb p ≡ true
  changed_pending p e = let h : (p.servers_list_changed == 0) ≡ false = ground arith in ground arith

  sorted_new : (last new : List ServerNode) → Same last new → Same last (sort new)
  sorted_new last new same a = same a ∙ sym (count-sort a new)

  quiet :
      (second new : List ServerNode) (o : Option L)
      → Same second new
      → SecondDone new o (reset_first lb second (sort new) (idle o))
  unfolding reset_first is_empty
  quiet second new o same =
      let equal = sorted_new second new same in
      rw (Same-missing second (sort new) equal, Same-missing (sort new) second (λ a. sym (equal a)))
        (record {
          ret = refl;
          servers = λ a. count-sort a second ∙ same a;
          idle = record { to_add = refl; to_remove = refl; unchanged = refl };
          balancer = refl;
        })

  -- The second call, on a copy with the same servers as the first one had.
  pub reset_second-SecondDone :
      (last second new : List ServerNode) (p : Pending L)
      → Same second last
      → Left last new p
      → SecondDone new p.load_balancer (reset_fn lb second (sort new, p))
  unfolding reset_fn reset_second
  reset_second-SecondDone last second new p same (changes to_add to_remove changed) =
      rw (changed_pending p changed) (record {
        ret = refl;
        servers =
            subst (λ xs. Same (remove_each xs (push_all p.servers_to_add second)) new)
              (sym to_remove)
              (subst (λ xs. Same (remove_each (surplus last new) (push_all xs second)) new)
                (sym to_add) (edited-Same last new second same));
        idle = record { to_add = refl; to_remove = refl; unchanged = refl };
        balancer = refl;
      })
  reset_second-SecondDone last second new p same (nothing i equal) = rw (idle_not_pending p i) (
      subst (λ q. SecondDone new p.load_balancer (reset_first lb second (sort new) q))
        (sym (Idle-idle p i)) (quiet second new p.load_balancer (λ a. same a ∙ equal a)))
