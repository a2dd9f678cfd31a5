-- ===== src/Epoller/Tests.antt =====
-- Five coroutines that are ready, and a list of two events, on an epoll that is the list of the
-- coroutines that are ready.
use mathlib.Core.List.{Perm, erase, perm_cons_erase, mem-cons_self}
use mathlib.Core.List.Perm
use lib_net_co_rpc.Prelude.{
  ℕ, ◌≡◌, refl, sym, Bool, true, [], ◌∷◌, some, arith, List, ℕ_discrete, take, drop,
  take-append-drop, length-take,
}
use mathlib.Core.Path.{subst}
use lib_net_co_rpc.Epoller.{Epoller, Operation, ctl_add, ctl_mod, ctl_del}
use lib_net_co_rpc.Epoller.Batches.{Epoll, LevelTriggered, poll, poll_takes_all}

abbrev control_ready : Operation → ℕ → ℕ → ℕ → List ℕ → Bool × List ℕ
control_ready ctl_add co fd ev k = (true, co ∷ k)
control_ready ctl_mod co fd ev k = (true, k)
control_ready ctl_del co fd ev k = (true, erase ℕ_discrete k co)

abbrev ready_list : Epoll (List ℕ)
ready_list = record { epoll_wait = λ size k. (some (take size k), k); epoll_ctl = control_ready }

ready_list-LevelTriggered : LevelTriggered ready_list (λ co. co)
ready_list-LevelTriggered = record {
  ready = λ k. k;
  finds = λ size k h. (
    take size k,
    drop size k,
    refl,
    subst (λ xs. Perm k xs) (sym (take-append-drop size k)) (Perm.refl k),
    length-take size k,
  );
  stays = λ size k. refl;
  removes = λ co ev k others p. Perm.cons_inv (
      Perm.trans
        (Perm.symm (perm_cons_erase ℕ_discrete {a = co} {l = k} ((Perm.mem_iff p).1 mem-cons_self)))
        p);
}

abbrev five : List ℕ
five = 1 ∷ 2 ∷ 3 ∷ 4 ∷ 5 ∷ []

poll_takes_all_example :
    (all : List ℕ) × (e : Epoller) × (k' : List ℕ) × (poll ready_list
        (λ co. co)
        (λ co. 1)
        2
        (record { epoll_fd = some 7; list_size = 2 })
        five
      ≡ some (all, e, k'))
    × Perm all five
    × (k' ≡ [])
unfolding ready_list-LevelTriggered
poll_takes_all_example =
    poll_takes_all ready_list (λ co. co) (λ co. 1) ready_list-LevelTriggered 2 7 2 five
      (omega arith) (omega arith)
