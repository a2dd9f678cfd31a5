-- ===== src/NameService/Service.antt =====
-- `ZKNamingService`: the actions by service and method, the list of servers that ZooKeeper has, and
-- the callback of its watch. What ZooKeeper answers for a path is a parameter: the names of the
-- node's children. The callback's other parameters, and the data of each child, which the code reads
-- and drops, are left out.
use lib_net_co_rpc.Prelude.{
  ℕ, suc, ◌+◌, Bool, false, Option, none, some, List, [], ◌∷◌, ◌++◌, ◌==◌, ◌||◌, if◌then◌else◌,
  take, drop,
}
use lib_net_co_rpc.DoublyBuffered.{unsafe_read}
use lib_net_co_rpc.NameService.{
  ServerNode, bytes_eq, node_eq, LoadBalancer, NameServiceActionImpl, reset_servers, new_action,
}

-- '/' and '_'
abbrev pub slash : ℕ
slash = 47

abbrev pub underscore : ℕ
underscore = 95

-- `snprintf(path, 1024, "/%s/%s", service_name, method_name)`
unfoldable pub method_path : List ℕ → List ℕ → List ℕ
method_path service method = take 1023 (slash ∷ service ++ slash ∷ method)

-- `std::string(service_name) + "_" + std::string(method_name)`
abbrev pub action_key : List ℕ → List ℕ → List ℕ
action_key service method = service ++ underscore ∷ method

-- whether `std::set` has the node already
unfoldable pub contains : ServerNode → List ServerNode → Bool
contains a [] = false
contains a (b ∷ bs) = node_eq a b || contains a bs

-- The loop of `GetServers`; the set and the vector have the same nodes at every step.
unfoldable pub collect : List (List ℕ) → List ServerNode → List ServerNode
collect [] servers = servers
collect (child ∷ children) servers =
    let node : ServerNode = record { ip_port = child } in
    collect children (if contains node servers then servers else servers ++ node ∷ [])

-- the part of the path before the next '/', and what follows it
unfoldable pub slash_at : List ℕ → Option ℕ
slash_at [] = none
slash_at (c ∷ rest) =
    if c == slash then some 0 else elim (slash_at rest) [ none ↦ none | some i ↦ some (suc i) ]

-- How `child_watch_cb` reads the names off a path. With no second '/' it reads past the path's end:
-- `none`.
unfoldable pub split_path : List ℕ → Option (List ℕ × List ℕ)
split_path path = elim (slash_at (drop 1 path)) [
  | none ↦ none
  | some service_len ↦ some (take service_len (drop 1 path), drop (service_len + 2) path)
]

-- `_actions`
abbrev pub Actions {ℓ} : (L : Type ℓ) → Type ℓ
Actions L = List ℕ → Option (NameServiceActionImpl L)

abbrev pub set_action {ℓ} : {L : Type ℓ} → Actions L → List ℕ → NameServiceActionImpl L → Actions L
set_action actions key action k = if bytes_eq key k then some action else actions k

module _ {ℓ} {L : Type ℓ} (lb : LoadBalancer L) (list_children : List ℕ → List (List ℕ)) where
  -- `GetServers`
  unfoldable pub get_servers : List ℕ → List ℕ → List ServerNode → List ServerNode
  get_servers service method servers = collect (list_children (method_path service method)) servers

  -- `RunNS`
  unfoldable pub run_ns : List ℕ → List ℕ → Actions L → Actions L
  run_ns service method actions =
      let presence_servers = get_servers service method [] in
      let key = action_key service method in
      elim (actions key) [
        | none ↦ set_action actions key (reset_servers lb presence_servers (new_action lb none))
        | some action ↦ set_action actions key (reset_servers lb presence_servers action)
      ]

  -- `ManageLoadBalancer`
  unfoldable pub manage_load_balancer : List ℕ → List ℕ → Option L → Actions L → Actions L
  manage_load_balancer service method load_balancer actions =
      run_ns service method
        (set_action actions (action_key service method) (new_action lb load_balancer))

  abbrev pub listed : Option (NameServiceActionImpl L) → List ServerNode
  listed none = []
  listed (some action) = unsafe_read action.servers_data

  -- `GetServerListPtr`: the servers that the pointer reads, and the actions afterwards
  unfoldable pub get_server_list_ptr : List ℕ → List ℕ → Actions L → List ServerNode × Actions L
  get_server_list_ptr service method actions =
      let key = action_key service method in
      elim (actions key) [
        | some action ↦ (unsafe_read action.servers_data, actions)
        | none ↦
            let actions_1 = run_ns service method actions in (listed (actions_1 key), actions_1)
      ]

  -- `child_watch_cb`, where `zk_ns` is not null; `none` is a read past the path's end.
  unfoldable pub child_watch_cb : Bool → List ℕ → Actions L → Option (Actions L)
  child_watch_cb child_event path actions =
      if child_event
      then elim (split_path path) [
        | none ↦ none
        | some names ↦ some (run_ns names.0 names.1 actions)
      ]
      else some actions
