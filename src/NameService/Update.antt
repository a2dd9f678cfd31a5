-- ===== src/NameService/Update.antt =====
-- `ResetServers`: what both copies hold after it, and what the load balancer was told.
use mathlib.Core.Path.{subst}
use lib_net_co_rpc.Prelude.{
  ℕ, ◌-◌, ◌≤◌, ◌≡◌, refl, sym, ap, ◌∙◌, Bool, true, false, not, ◌||◌, ◌&&◌, ltb, List, some, arith,
}
use lib_net_co_rpc.DoublyBuffered.{modify, plain}
use lib_net_co_rpc.NameService.{
  ServerNode, LoadBalancer, Pending, NameServiceActionImpl, balanced, reset_fn, reset_servers,
  lb_add_all, lb_remove_all,
}
use lib_net_co_rpc.NameService.Counts.{count}
use lib_net_co_rpc.NameService.Reset.{
  Same, Idle, missing, surplus, count-missing, Told, told, untold, SecondDone,
  reset_first-FirstDone, reset_second-SecondDone,
}
use lib_net_co_rpc.NameService.Balance.{Lawful, among, has-lb_add_all, has-lb_remove_all}

module _ {ℓ} {L : Type ℓ} (lb : LoadBalancer L) where
  -- the second call, from what the first one leaves
  after_both :
      (x y new : List ServerNode) (p : Pending L)
      → Idle p
      → Same y x
      → SecondDone lb new
          (reset_fn lb x (new, p)).2.1.load_balancer
          (reset_fn lb y (reset_fn lb x (new, p)).2)
  after_both x y new p i same =
      let f = reset_first-FirstDone lb x new p i in
      let r = reset_fn lb x (new, p) in
      subst (λ n. SecondDone lb new r.2.1.load_balancer (reset_fn lb y (n, r.2.1))) (sym f.sorted)
        (reset_second-SecondDone lb x y new r.2.1 same f.left)

  module _ (new : List ServerNode) (p : Pending L) (i : Idle p) where
    modify-Same :
        (b : Bool) (x y : List ServerNode)
        → Same x y
        → let m =
            modify (plain (reset_fn lb)) (record { data_0 = x; data_1 = y; index = b }) (new, p) in
          (m.assertion ≡ true)
          × Same m.buffers.data_0 new
          × Same m.buffers.data_1 new
          × Idle m.state.1
    unfolding modify
    modify-Same true x y same =
        let f = reset_first-FirstDone lb x new p i in
        let s = after_both x y new p i (λ a. sym (same a)) in
        (rw (f.ret, s.ret), f.servers, s.servers, s.idle)
    modify-Same false x y same =
        let f = reset_first-FirstDone lb y new p i in
        let s = after_both y x new p i same in (rw (f.ret, s.ret), s.servers, f.servers, s.idle)

  -- From a state in which nothing is left to be done and both copies have the same servers,
  -- `ResetServers` leaves the new servers in both copies, each as often as it was given, and such a
  -- state again.
  pub reset_servers-Same :
      (new : List ServerNode) (action : NameServiceActionImpl L)
      → Idle action.pending
      → Same action.servers_data.data_0 action.servers_data.data_1
      → let after = reset_servers lb new action in
        Same after.servers_data.data_0 new × Same after.servers_data.data_1 new × Idle after.pending
  unfolding reset_servers
  reset_servers-Same new action i same =
      let d = action.servers_data in
      let (_, f, s, p) = modify-Same new action.pending i d.index d.data_0 d.data_1 same in
      (f, s, p)

  module _ (new : List ServerNode) (p : Pending L) (i : Idle p) where
    -- what the balancer was told, from the servers of the copy that was written first
    modify-Told :
        (b : Bool) (x y : List ServerNode)
        → Same x y
        → let m =
            modify (plain (reset_fn lb)) (record { data_0 = x; data_1 = y; index = b }) (new, p) in
          (last : List ServerNode) × Same last x
          × Told lb last new p.load_balancer m.state.1.load_balancer
    unfolding modify
    modify-Told true x y same =
        let f = reset_first-FirstDone lb x new p i in
        let s = after_both x y new p i (λ a. sym (same a)) in
        (x, (λ a. refl), subst (Told lb x new p.load_balancer) (sym s.balancer) f.balancer)
    modify-Told false x y same =
        let f = reset_first-FirstDone lb y new p i in
        let s = after_both y x new p i same in
        (y, (λ a. sym (same a)), subst (Told lb y new p.load_balancer) (sym s.balancer) f.balancer)

  set_after :
      (o n s m : ℕ)
      → s ≡ o - n
      → m ≡ n - o
      → o ≤ 1
      → n ≤ 1
      → not (ltb 0 s) && (ltb 0 m || ltb 0 o) ≡ ltb 0 n
  set_after o n s m e f g h = ground arith

  -- Told of what is missing and of the surplus, a balancer has the new servers.
  told-has :
      (law : Lawful lb) (last new : List ServerNode) (l : L)
      → ((a : ServerNode) → count a last ≤ 1)
      → ((a : ServerNode) → count a new ≤ 1)
      → ((a : ServerNode) → law.has a l ≡ among a last)
      → (a : ServerNode)
      → law.has a (lb_remove_all lb (surplus last new) (lb_add_all lb (missing last new) l))
        ≡ among a new
  told-has law last new l once_last once_new has a =
      has-lb_remove_all lb law (surplus last new) (lb_add_all lb (missing last new) l) a
      ∙ ap (λ x. not (among a (surplus last new)) && x)
          (has-lb_add_all lb law (missing last new) l a)
      ∙ ap (λ x. not (among a (surplus last new)) && (among a (missing last new) || x)) (has a)
      ∙ set_after (count a last) (count a new) (count a (surplus last new))
          (count a (missing last new)) (count-missing a new last) (count-missing a last new)
          (once_last a) (once_new a)

  -- For lists that name no server twice, and a load balancer that has the servers that were added
  -- and not removed since: if it has the servers of both copies, then after `ResetServers` it has
  -- the new ones.
  pub reset_servers-balanced :
      (law : Lawful lb) (new : List ServerNode) (action : NameServiceActionImpl L) (l : L)
      → Idle action.pending
      → Same action.servers_data.data_0 action.servers_data.data_1
      → action.pending.load_balancer ≡ some l
      → ((a : ServerNode) → count a action.servers_data.data_0 ≤ 1)
      → ((a : ServerNode) → count a new ≤ 1)
      → ((a : ServerNode) → law.has a l ≡ among a action.servers_data.data_0)
      → (l' : L) × ((reset_servers lb new action).pending.load_balancer ≡ some l')
        × ((a : ServerNode) → law.has a l' ≡ among a new)
  unfolding reset_servers balanced
  reset_servers-balanced law new action l i same e once once_new has =
      let d = action.servers_data in
      let (last, equal, t) = modify-Told new action.pending i d.index d.data_0 d.data_1 same in
      let once_last : (a : ServerNode) → count a last ≤ 1 =
        λ a. (let s = equal a in let o = once a in omega arith) in
      let has_last = λ (a : ServerNode). has a ∙ ap (ltb 0) (sym (equal a)) in
      elim t [
        | told f ↦ (
          lb_remove_all lb (surplus last new) (lb_add_all lb (missing last new) l),
          f ∙ ap (balanced lb (missing last new) (surplus last new)) e,
          told-has law last new l once_last once_new has_last,
        )
        | untold f s ↦ (l, f ∙ e, λ a. has_last a ∙ ap (ltb 0) (s a))
      ]
