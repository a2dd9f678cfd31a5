-- ===== src/NameService/Reach.antt =====
-- Any sequence of the name service's calls and of its watch's events keeps the actions ready.
use mathlib.Core.Path.{subst}
use lib_net_co_rpc.Prelude.{ℕ, ◌≡◌, refl, sym, ◌∙◌, Bool, true, false, List, Option, none, some}
use lib_net_co_rpc.NameService.{LoadBalancer, NameServiceActionImpl, new_action}
use lib_net_co_rpc.NameService.Service.{
  Actions, set_action, action_key, split_path, run_ns, manage_load_balancer, get_server_list_ptr,
  child_watch_cb,
}
use lib_net_co_rpc.NameService.Listing.{
  Ready, set_action-Ready, new_action-ReadyAction, run_ns-Ready,
}

module _ {ℓ} {L : Type ℓ} (lb : LoadBalancer L) where
  -- What the actions can become: none at first; then a call, with any balancer and any children.
  pub data Reachable : Actions L → Type ℓ where
    start : Reachable (λ key. none)
    run :
        (children : List ℕ → List (List ℕ)) (service method : List ℕ) (a : Actions L)
        → Reachable a
        → Reachable (run_ns lb children service method a)
    manage :
        (children : List ℕ → List (List ℕ)) (service method : List ℕ) (o : Option L) (a : Actions L)
        → Reachable a
        → Reachable (manage_load_balancer lb children service method o a)
    ask :
        (children : List ℕ → List (List ℕ)) (service method : List ℕ) (a : Actions L)
        → Reachable a
        → Reachable (get_server_list_ptr lb children service method a).1
    event :
        (children : List ℕ → List (List ℕ)) (is_child : Bool) (path : List ℕ) (a b : Actions L)
        → Reachable a
        → child_watch_cb lb children is_child path a ≡ some b
        → Reachable b

  ask_absent :
      (children : List ℕ → List (List ℕ)) (service method : List ℕ) (a : Actions L)
      → a (action_key service method) ≡ none
      → (get_server_list_ptr lb children service method a).1 ≡ run_ns lb children service method a
  unfolding get_server_list_ptr
  ask_absent children service method a e = rw (e, get_server_list_ptr)

  ask_present :
      (children : List ℕ → List (List ℕ)) (service method : List ℕ) (a : Actions L)
      (action : NameServiceActionImpl L)
      → a (action_key service method) ≡ some action
      → (get_server_list_ptr lb children service method a).1 ≡ a
  unfolding get_server_list_ptr
  ask_present children service method a action e = rw (e, get_server_list_ptr)

  ask-Ready :
      (children : List ℕ → List (List ℕ)) (service method : List ℕ) (a : Actions L)
      → Ready a
      → Ready (get_server_list_ptr lb children service method a).1
  ask-Ready children service method a ready = go (a (action_key service method)) refl
    where
      go :
          (o : Option (NameServiceActionImpl L))
          → a (action_key service method) ≡ o
          → Ready (get_server_list_ptr lb children service method a).1
      go none e =
          subst Ready (sym (ask_absent children service method a e))
            (run_ns-Ready lb children service method a ready)
      go (some action) e = subst Ready (sym (ask_present children service method a action e)) ready

  event_none :
      (children : List ℕ → List (List ℕ)) (path : List ℕ) (a : Actions L)
      → split_path path ≡ none
      → child_watch_cb lb children true path a ≡ none
  unfolding child_watch_cb
  event_none children path a f = rw (f, child_watch_cb)

  event_some :
      (children : List ℕ → List (List ℕ)) (path : List ℕ) (a : Actions L) (names : List ℕ × List ℕ)
      → split_path path ≡ some names
      → child_watch_cb lb children true path a ≡ some (run_ns lb children names.0 names.1 a)
  unfolding child_watch_cb
  event_some children path a names f = rw (f, child_watch_cb)

  event-Ready :
      (children : List ℕ → List (List ℕ)) (is_child : Bool) (path : List ℕ) (a b : Actions L)
      → Ready a
      → child_watch_cb lb children is_child path a ≡ some b
      → Ready b
  unfolding child_watch_cb
  event-Ready children false path a b ready e = let same : a ≡ b = cc in subst Ready same ready
  event-Ready children true path a b ready e = go (split_path path) refl
    where
      go : (o : Option (List ℕ × List ℕ)) → split_path path ≡ o → Ready b
      go none f = let g : none ≡ some b = sym (event_none children path a f) ∙ e in cc
      go (some names) f =
          let g : some (run_ns lb children names.0 names.1 a) ≡ some b =
            sym (event_some children path a names f) ∙ e in
          let same : run_ns lb children names.0 names.1 a ≡ b = cc in
          subst Ready same (run_ns-Ready lb children names.0 names.1 a ready)

  -- Whatever calls and events came before, every action's copies have the same servers and nothing
  -- is left to be done for the second copy.
  pub Reachable-Ready : (a : Actions L) → Reachable a → Ready a
  unfolding manage_load_balancer
  Reachable-Ready a start = λ key action e. cc
  Reachable-Ready a (run children service method b r) =
      run_ns-Ready lb children service method b (Reachable-Ready b r)
  Reachable-Ready a (manage children service method o b r) =
      run_ns-Ready lb children service method
        (set_action b (action_key service method) (new_action lb o))
        (set_action-Ready b (action_key service method) (new_action lb o) (Reachable-Ready b r)
          (new_action-ReadyAction lb o))
  Reachable-Ready a (ask children service method b r) =
      ask-Ready children service method b (Reachable-Ready b r)
  Reachable-Ready a (event children is_child path b c r e) =
      event-Ready children is_child path b a (Reachable-Ready b r) e
