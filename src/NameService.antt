-- ===== src/NameService.antt =====
-- The servers of a method, as the name service keeps them: include/rpc_proto/name_service.h,
-- include/rpc_proto/zk_naming_service.h and src/rpc_proto/zk_naming_service.cc. A string is
-- the list of its bytes. The listing of a ZooKeeper node's children is a parameter, and so are the
-- calls of the load balancer.
pub mod Order
pub mod Counts
pub mod Difference
pub mod Edits
pub mod Reset
pub mod Update
pub mod Service
pub mod Balance
pub mod Listing
pub mod Watch
pub mod Reach
mod Tests
use lib_net_co_rpc.Prelude.{
  ℕ, zero, suc, ◌+◌, ◌-◌, ◌≡◌, Bool, true, false, not, ◌&&◌, ◌||◌, Option, none, some, List, [],
  ◌∷◌, ◌++◌, ltb, leb, ◌==◌, if◌then◌else◌, length, take, drop, get_elem?, set,
}
use lib_net_co_rpc.DoublyBuffered.{DoublyBufferedData, Modified, init, modify, plain, closure_1}

-- `operator==` and `operator<` of strings
unfoldable pub bytes_eq : List ℕ → List ℕ → Bool
bytes_eq [] [] = true
bytes_eq [] (y ∷ ys) = false
bytes_eq (x ∷ xs) [] = false
bytes_eq (x ∷ xs) (y ∷ ys) = (x == y) && bytes_eq xs ys

unfoldable pub bytes_less : List ℕ → List ℕ → Bool
bytes_less xs [] = false
bytes_less [] (y ∷ ys) = true
bytes_less (x ∷ xs) (y ∷ ys) = ltb x y || (x == y) && bytes_less xs ys

pub record ServerNode : Type 0 where
  pub ip_port : List ℕ

abbrev pub node_eq : ServerNode → ServerNode → Bool
node_eq a b = bytes_eq a.ip_port b.ip_port

abbrev pub node_less : ServerNode → ServerNode → Bool
node_less a b = bytes_less a.ip_port b.ip_port

-- `std::sort`, by insertion
unfoldable pub insert_node : ServerNode → List ServerNode → List ServerNode
insert_node a [] = a ∷ []
insert_node a (b ∷ bs) = if node_less b a then b ∷ insert_node a bs else a ∷ b ∷ bs

unfoldable pub sort : List ServerNode → List ServerNode
sort [] = []
sort (a ∷ as_rest) = insert_node a (sort as_rest)

-- `std::set_difference`; `fuel` is the number of steps, at most one for each item.
unfoldable pub difference_steps : ℕ → List ServerNode → List ServerNode → List ServerNode
difference_steps zero xs ys = []
difference_steps (suc fuel) [] ys = []
difference_steps (suc fuel) (x ∷ xs) [] = x ∷ xs
difference_steps (suc fuel) (x ∷ xs) (y ∷ ys) = elim (node_less x y) [
  | true ↦ x ∷ difference_steps fuel xs (y ∷ ys)
  | false ↦ elim (node_less y x) [
    | true ↦ difference_steps fuel (x ∷ xs) ys
    | false ↦ difference_steps fuel xs ys
  ]
]

abbrev pub set_difference : List ServerNode → List ServerNode → List ServerNode
set_difference xs ys = difference_steps (length xs + length ys) xs ys

-- `std::find`: where the first equal item stands
unfoldable pub find : ServerNode → List ServerNode → Option ℕ
find a [] = none
find a (b ∷ bs) =
    if node_eq b a then some 0 else elim (find a bs) [ none ↦ none | some i ↦ some (suc i) ]

-- `std::swap(*it, last_servers.back()); last_servers.pop_back();`
unfoldable pub swap_pop : ℕ → List ServerNode → List ServerNode
swap_pop i servers = elim (get_elem? servers (length servers - 1)) [
  | none ↦ servers
  | some last ↦ take (length servers - 1) (set servers i last)
]

-- What the code calls of a load balancer (`add_server`, `remove_server`).
pub record LoadBalancer {ℓ} (L : Type ℓ) : Type ℓ where
  pub add_server : List ℕ → L → L
  pub remove_server : List ℕ → L → L

-- What `NameServiceActionImpl` keeps beside the servers; `load_balancer` is `none` for the null
-- pointer.
pub record Pending {ℓ} (L : Type ℓ) : Type ℓ where
  pub servers_to_remove : List ServerNode
  pub servers_to_add : List ServerNode
  pub servers_list_changed : ℕ
  pub load_balancer : Option L

pub record NameServiceActionImpl {ℓ} (L : Type ℓ) : Type ℓ where
  pub servers_data : DoublyBufferedData (List ServerNode)
  pub pending : Pending L

-- The loops over `_servers_to_add` and `_servers_to_remove`.
unfoldable pub push_all : List ServerNode → List ServerNode → List ServerNode
push_all [] last_servers = last_servers
push_all (a ∷ to_add) last_servers = push_all to_add (last_servers ++ a ∷ [])

unfoldable pub remove_one : ServerNode → List ServerNode → List ServerNode
remove_one a last_servers = elim (find a last_servers) [
  | none ↦ last_servers
  | some i ↦ swap_pop i last_servers
]

unfoldable pub remove_each : List ServerNode → List ServerNode → List ServerNode
remove_each [] last_servers = last_servers
remove_each (a ∷ to_remove) last_servers = remove_each to_remove (remove_one a last_servers)

unfoldable pub is_empty : List ServerNode → Bool
is_empty [] = true
is_empty (a ∷ rest) = false

module _ {ℓ} {L : Type ℓ} (lb : LoadBalancer L) where
  unfoldable pub lb_add_all : List ServerNode → L → L
  lb_add_all [] l = l
  lb_add_all (a ∷ rest) l = lb_add_all rest (lb.add_server a.ip_port l)

  unfoldable pub lb_remove_all : List ServerNode → L → L
  lb_remove_all [] l = l
  lb_remove_all (a ∷ rest) l = lb_remove_all rest (lb.remove_server a.ip_port l)

  -- `LoadBalancerReset`; it returns at once where there is no balancer.
  unfoldable pub balanced : List ServerNode → List ServerNode → Option L → Option L
  balanced to_add to_remove none = none
  balanced to_add to_remove (some l) = some (lb_remove_all to_remove (lb_add_all to_add l))

  abbrev pub load_balancer_reset : Pending L → Pending L
  load_balancer_reset p = record p {
    load_balancer = balanced p.servers_to_add p.servers_to_remove p.load_balancer;
  }

  -- `AddServers` and `RemoveServers`
  abbrev pub add_servers : Pending L → List ServerNode → List ServerNode
  add_servers p last_servers = push_all p.servers_to_add last_servers

  abbrev pub remove_servers : Pending L → List ServerNode → List ServerNode
  remove_servers p last_servers = remove_each p.servers_to_remove last_servers

  -- `!_servers_to_add.empty() || !_servers_to_remove.empty() || _servers_list_changed`
  abbrev pub is_pending : Pending L → Bool
  is_pending p =
      not (is_empty p.servers_to_add)
      || not (is_empty p.servers_to_remove)
      || not (p.servers_list_changed == 0)

  -- the two branches of `ResetFn`: for the second buffer, and for the first
  unfoldable pub reset_second :
      List ServerNode
      → List ServerNode
      → Pending L
      → ℕ × List ServerNode × (List ServerNode × Pending L)
  reset_second last_servers new_servers p = (
    0,
    remove_servers p (add_servers p last_servers),
    (
      new_servers,
      record p { servers_to_add = []; servers_to_remove = []; servers_list_changed = 0 },
    ),
  )

  unfoldable pub reset_first :
      List ServerNode
      → List ServerNode
      → Pending L
      → ℕ × List ServerNode × (List ServerNode × Pending L)
  reset_first last_servers new_servers p =
      let last = sort last_servers in
      let new = sort new_servers in
      let p_1 = record p {
        servers_to_remove = p.servers_to_remove ++ set_difference last new;
        servers_to_add = p.servers_to_add ++ set_difference new last;
      } in
      if not (is_empty p_1.servers_to_add) || not (is_empty p_1.servers_to_remove)
      then (
        0,
        remove_servers p_1 (add_servers p_1 last),
        (new, load_balancer_reset (record p_1 { servers_list_changed = 1 })),
      )
      else (0, last, (new, p_1))

  -- `ResetFn`; the state that it changes is `new_servers`, which it has by reference, and the rest
  -- of `action`.
  unfoldable pub reset_fn :
      List ServerNode
      → List ServerNode × Pending L
      → ℕ × List ServerNode × (List ServerNode × Pending L)
  reset_fn last_servers (new_servers, p) =
      if is_pending p
      then reset_second last_servers new_servers p
      else reset_first last_servers new_servers p

  -- `ResetServers`
  unfoldable pub reset_servers : List ServerNode → NameServiceActionImpl L → NameServiceActionImpl L
  reset_servers new_servers action =
      let m = modify (plain reset_fn) action.servers_data (new_servers, action.pending) in
      record { servers_data = m.buffers; pending = m.state.1 }

  -- `NameServiceActionImpl(load_balancer)`
  abbrev pub new_action : Option L → NameServiceActionImpl L
  new_action load_balancer = record {
    servers_data = init [];
    pending = record {
      servers_to_remove = [];
      servers_to_add = [];
      servers_list_changed = 0;
      load_balancer = load_balancer;
    };
  }
