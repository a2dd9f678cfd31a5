-- ===== src/NameService/Tests.antt =====
-- The name service with two servers, a load balancer that keeps a set, and one method.
use mathlib.Core.Path.{subst}
use lib_net_co_rpc.Prelude.{
  ℕ, ◌≤◌, ◌≡◌, refl, sym, Bool, false, not, ◌||◌, ◌&&◌, List, [], ◌∷◌, none, some, arith, inl, inr,
  Bool-cases,
}
use lib_net_co_rpc.DoublyBuffered.{init}
use lib_net_co_rpc.NameService.{
  ServerNode, bytes_eq, node_eq, LoadBalancer, NameServiceActionImpl, new_action, reset_servers,
}
use lib_net_co_rpc.NameService.Counts.{count, node_eq_refl, node_eq_correct}
use lib_net_co_rpc.NameService.Reset.{Same, Idle}
use lib_net_co_rpc.NameService.Balance.{Lawful, among}
use lib_net_co_rpc.NameService.Update.{reset_servers-Same, reset_servers-balanced}
use lib_net_co_rpc.NameService.Service.{Actions, action_key, method_path, split_path, run_ns}
use lib_net_co_rpc.NameService.Listing.{Ready, ListsOnce, run_ns-ListsOnce, new_action-ReadyAction}
use lib_net_co_rpc.NameService.Watch.{split_path-method_path}
use lib_net_co_rpc.NameService.Reach.{start, run, Reachable-Ready}

-- a load balancer that is the set of its servers
abbrev SetOfServers : Type 0
SetOfServers = List ℕ → Bool

abbrev set_balancer : LoadBalancer SetOfServers
set_balancer = record {
  add_server = λ k l j. bytes_eq j k || l j;
  remove_server = λ k l j. not (bytes_eq j k) && l j;
}

abbrev set_lawful : Lawful set_balancer
set_lawful = record {
  has = λ a l. l a.ip_port;
  has_added = λ a l. rw (node_eq_refl a);
  has_added_other = λ a b l e. rw e;
  has_removed = λ a l. rw (node_eq_refl a);
  has_removed_other = λ a b l e. rw e;
}

abbrev server_a : List ℕ
server_a = 97 ∷ []

abbrev server_b : List ℕ
server_b = 98 ∷ []

abbrev node_a : ServerNode
node_a = record { ip_port = server_a }

abbrev node_b : ServerNode
node_b = record { ip_port = server_b }

abbrev two_servers : List ServerNode
two_servers = node_b ∷ node_a ∷ []

abbrev no_servers : SetOfServers
no_servers k = false

abbrev fresh : NameServiceActionImpl SetOfServers
fresh = new_action set_balancer (some no_servers)

reset_servers-Same_example :
    let after = reset_servers set_balancer two_servers fresh in
    Same after.servers_data.data_0 two_servers
    × Same after.servers_data.data_1 two_servers
    × Idle after.pending
reset_servers-Same_example =
    let ready = new_action-ReadyAction set_balancer (some no_servers) in
    reset_servers-Same set_balancer two_servers fresh ready.idle ready.same

two_servers_once : (a : ServerNode) → count a two_servers ≤ 1
unfolding bytes_eq
two_servers_once a = elim (Bool-cases (node_eq a node_b)) [
  | inl e ↦ subst (λ s. count s two_servers ≤ 1) (sym (node_eq_correct a node_b e)) (omega arith)
  | inr e ↦ elim (Bool-cases (node_eq a node_a)) [
    | inl f ↦ rw (e, f) (omega arith)
    | inr f ↦ rw (e, f) (omega arith)
  ]
]

reset_servers-balanced_example :
    (l' : SetOfServers) × ((reset_servers set_balancer two_servers fresh).pending.load_balancer
      ≡ some l')
    × ((a : ServerNode) → l' a.ip_port ≡ among a two_servers)
unfolding init
reset_servers-balanced_example =
    let ready = new_action-ReadyAction set_balancer (some no_servers) in
    reset_servers-balanced set_balancer set_lawful two_servers fresh no_servers ready.idle
      ready.same refl (λ a. omega arith) two_servers_once (λ a. refl)

-- the method "f" of the service "s", where one child is listed twice
abbrev children_of : List ℕ → List (List ℕ)
children_of path = server_a ∷ server_b ∷ server_a ∷ []

abbrev no_actions : Actions SetOfServers
no_actions key = none

run_ns-ListsOnce_example :
    (after : NameServiceActionImpl SetOfServers) × (run_ns set_balancer children_of
        (115 ∷ [])
        (102 ∷ [])
        no_actions
        (action_key (115 ∷ []) (102 ∷ []))
      ≡ some after)
    × ListsOnce (server_a ∷ server_b ∷ server_a ∷ []) after
run_ns-ListsOnce_example =
    run_ns-ListsOnce set_balancer children_of (115 ∷ []) (102 ∷ []) no_actions (λ key a e. cc)

split_path-method_path_example :
    split_path (method_path (115 ∷ 101 ∷ []) (102 ∷ [])) ≡ some (115 ∷ 101 ∷ [], 102 ∷ [])
split_path-method_path_example =
    split_path-method_path (115 ∷ 101 ∷ []) (102 ∷ []) (omega arith, (omega arith, tt))
      (omega arith)

Reachable-Ready_example : Ready (run_ns set_balancer children_of (115 ∷ []) (102 ∷ []) no_actions)
Reachable-Ready_example =
    Reachable-Ready set_balancer _ (run children_of (115 ∷ []) (102 ∷ []) no_actions start)
