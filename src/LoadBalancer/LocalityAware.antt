-- ===== src/LoadBalancer/LocalityAware.antt =====
-- `LocalityAwareLoadBalancer` of include/rpc_proto/locality_aware_load_balancer.h and
-- src/rpc_proto/locality_aware_load_balancer.cc: `Add`, `Remove`, `add_server`, `remove_server`,
-- `select_server` and `Feedback`, one call at a time. Reads outside the tree, which the source does
-- not guard, leave the state alone here.
pub mod Nodes
pub mod Consistent
pub mod Grown
pub mod Add
pub mod Select
pub mod Finish
pub mod Effects
pub mod Shrunk
pub mod Moved
pub mod Calls
pub mod Replace
pub mod Drop
pub mod Remove
use Prim.Native.String.{String}
use text.Mathlib.Text.{◌==◌ as str_eq}
use lib_net_co_rpc.Prelude.{
  ℕ, zero, suc, ◌+◌, ◌-◌, ◌*◌, ◌/◌, Bool, true, false, Option, none, some, List, [], ◌∷◌, ◌++◌, ltb,
  leb, ◌==◌, if◌then◌else◌, length, get_elem?, set,
}
use lib_net_co_rpc.Prelude.Int.{ℤ, pos, ◌+ℤ◌, ◌-ℤ◌, neg, leb_ℤ, ltb_ℤ, eqb_ℤ}
use lib_net_co_rpc.DoublyBuffered
use lib_net_co_rpc.DoublyBuffered.{
  DoublyBufferedData, modify, plain, with_fg_2, closure_2, unsafe_read,
}
use lib_net_co_rpc.LoadBalancer.Weight
use lib_net_co_rpc.LoadBalancer.Weight.{
  Weight, weight_scale, to_u64, of_u64, add_inflight, disable, mark_old, clear_old, update, Outcome,
  done, fault,
}
use lib_net_co_rpc.LoadBalancer.Tree
use lib_net_co_rpc.LoadBalancer.Tree.{
  ServerInfo, Servers, write, update_parent_weight, walk, landed, passed, no_node, out_of_fuel,
}

-- The cells that the nodes of both buffers share, and `total_weight_`.
pub record Store : Type 0 where
  pub lefts : ℕ → ℤ
  pub weights : ℕ → Weight
  pub next : ℕ  -- the first cell that is not in use
  pub total_weight : ℤ

pub record Balancer : Type 0 where
  pub servers_dbd : DoublyBufferedData Servers
  pub server_map : String → Option ℕ
  pub store : Store

-- a map with one entry set, or erased
abbrev pub map_set : (String → Option ℕ) → String → Option ℕ → String → Option ℕ
map_set m k v j = if str_eq k j then v else m j

abbrev pub add_total : ℤ → Store → Store
add_total diff s = record s { total_weight = s.total_weight +ℤ diff }

-- `UpdateParentWeight` on the store
abbrev pub update_parents : List ServerInfo → ℤ → ℕ → Store → Store
update_parents tree diff index s = record s { lefts = update_parent_weight tree diff index s.lefts }

-- `if (diff) { UpdateParentWeight(diff, index); total_weight_.fetch_add(diff); }`
unfoldable pub apply_diff : List ServerInfo → ℤ → ℕ → Store → Store
apply_diff tree diff index s =
    if eqb_ℤ diff (pos 0) then s else add_total diff (update_parents tree diff index s)

-- `total_weight_ / n`, an unsigned division
abbrev pub initial_weight : ℕ → ℤ → ℤ
initial_weight n total = if n == 0 then pos weight_scale else of_u64 (to_u64 total / n)

-- the node that `ServerInfo(server_name, inital_weight)` allocates
abbrev pub new_node : String → Store → ServerInfo
new_node name s = record { server_name = name; left = s.next; weight = s.next }

abbrev pub allocate : ℤ → Store → Store
allocate weight s = record s {
  lefts = write s.lefts s.next (pos 0);
  weights = write s.weights s.next (Weight.init weight);
  next = s.next + 1;
}

abbrev pub size_of : Servers → ℕ
size_of servers = length servers.weight_tree

-- `Add`
unfoldable pub add : Servers → Servers → String → Unit {0} → Store → ℕ × Servers × Store
add bg fg name balancer s = elim (fg.server_map name) [
  | some i ↦ (
    0,
    elim (get_elem? fg.weight_tree i) [
      | none ↦ record bg { server_map = map_set bg.server_map name (some i) }
      | some node ↦ record {
        weight_tree = bg.weight_tree ++ node ∷ [];
        server_map = map_set bg.server_map name (some i);
      }
    ],
    s,
  )
  | none ↦
      let n = size_of bg in
      let weight = initial_weight n s.total_weight in
      let tree = bg.weight_tree ++ new_node name s ∷ [] in
      (
        0,
        record { weight_tree = tree; server_map = map_set bg.server_map name (some n) },
        apply_diff tree weight n (allocate weight s),
      )
]

-- The index of a name; 0 for one that the map has not, where the source dereferences `end()`, which is
-- undefined.
abbrev pub or_zero : Option ℕ → ℕ
or_zero none = 0
or_zero (some i) = i

-- `weight_tree.pop_back()`
abbrev pub pop_back {ℓ} : {A : Type ℓ} → List A → List A
pop_back [] = []
pop_back (x ∷ []) = []
pop_back (x ∷ y ∷ ys) = x ∷ pop_back (y ∷ ys)

abbrev pub set_weight : ℕ → Weight → Store → Store
set_weight cell w s = record s { weights = write s.weights cell w }

-- The end of `Remove` for a node that another one replaces: in the first buffer, where the removed
-- weight is not 0 yet, and in the second.
unfoldable pub replace_first : List ServerInfo → ℕ → ℕ → ℤ → Store → Store
replace_first tree index cell weight_rm s =
    let (add_weight, w) = mark_old (length tree) (s.weights cell) in
    apply_diff tree (add_weight -ℤ weight_rm) index (set_weight cell w s)

unfoldable pub replace_second : List ServerInfo → ℕ → ℕ → Store → Store
replace_second tree index cell s =
    let (p, w) = clear_old (s.weights cell) in
    let diff = p.1 in
    let old_weight = neg p.0 -ℤ p.1 in
    let s_1 = set_weight cell w s in
    let s_2 = if eqb_ℤ diff (pos 0) then s_1 else update_parents tree diff index s_1 in
    let s_3 =
      if eqb_ℤ old_weight (pos 0) then s_2 else update_parents tree old_weight (length tree) s_2 in
    add_total (neg p.0) s_3

-- `Remove` at a node that is in the tree
unfoldable pub remove_at :
    ℕ → ServerInfo → ServerInfo → (String → Option ℕ) → List ServerInfo → Store → Servers × Store
remove_at index node last names tree s =
    let (weight_rm, w) = disable (s.weights node.weight) in
    let s_1 = set_weight node.weight w s in
    let tree_2 =
      pop_back
        (set tree index (record node { weight = last.weight; server_name = last.server_name })) in
    if index + 1 == length tree
    then (
      record { weight_tree = pop_back tree; server_map = names },
      apply_diff (pop_back tree) (neg weight_rm) index s_1,
    )
    else (
      record { weight_tree = tree_2; server_map = map_set names last.server_name (some index) },
      if eqb_ℤ weight_rm (pos 0)
          then replace_second tree_2 index last.weight s_1
          else replace_first tree_2 index last.weight weight_rm s_1,
    )

-- `Remove`
unfoldable pub remove : Servers → String → Unit {0} → Store → ℕ × Servers × Store
remove bg name lb s =
    let index = or_zero (bg.server_map name) in
    let names = map_set bg.server_map name none in
    elim (get_elem? bg.weight_tree index) [
      | none ↦ (0, record bg { server_map = names }, s)
      | some node ↦ elim (get_elem? bg.weight_tree (size_of bg - 1)) [
        | none ↦ (0, record bg { server_map = names }, s)
        | some last ↦
            let (servers, t) = remove_at index node last names bg.weight_tree s in (0, servers, t)
      ]
    ]

-- `++server_map_[server_name]`
abbrev pub count_of : Option ℕ → ℕ
count_of none = 1
count_of (some n) = n + 1

-- `add_server`
unfoldable pub add_server : String → Balancer → Balancer
add_server name b =
    let counted = map_set b.server_map name (some (count_of (b.server_map name))) in
    if count_of (b.server_map name) == 1
    then (let m = modify (with_fg_2 add name tt) b.servers_dbd b.store in
        record { servers_dbd = m.buffers; server_map = counted; store = m.state })
    else record b { server_map = counted }

-- `remove_server`
unfoldable pub remove_server : String → Balancer → Balancer
remove_server name b = elim (b.server_map name) [
  | none ↦ b
  | some n ↦
      let m = modify (plain (closure_2 remove name tt)) b.servers_dbd b.store in
      record {
        servers_dbd = m.buffers;
        server_map = map_set b.server_map name none;
        store = m.state;
      }
]

-- What reads the nodes of a tree by index; 0 outside it.
abbrev pub read_node : (ServerInfo → ℤ) → List ServerInfo → ℕ → ℤ
read_node f [] k = pos 0
read_node f (node ∷ tree) zero = f node
read_node f (node ∷ tree) (suc k) = read_node f tree k

abbrev pub left_at : List ServerInfo → Store → ℕ → ℤ
left_at tree s = read_node (λ node. s.lefts node.left) tree

abbrev pub weight_at : List ServerInfo → Store → ℕ → ℤ
weight_at tree s = read_node (λ node. (s.weights node.weight).weight) tree

-- What `select_server` returns: 0 with the chosen node, or -1; or it reads outside the tree.
pub data Selected : Type 0 where
  chosen : String → Selected
  failed : Selected
  undefined : Selected

abbrev pub begin_walk : List ServerInfo → Store → ℤ → Tree.Landing
begin_walk tree s dice =
    walk (length tree + 1) (length tree) (left_at tree s) (weight_at tree s) 0 dice

-- How a round of the loop of `select_server` ends: the call returns, or it goes on with `n_try`.
pub data Round : Type 0 where
  stop : Selected → Store → Round
  again : ℕ → Store → Round

-- `if (++n_try >= n) break;`
unfoldable pub retry : ℕ → ℕ → Store → Round
retry n n_try s = if leb n (n_try + 1) then stop failed s else again (n_try + 1) s

-- The branch that falls on a node. `rest` is what is left of the dice.
unfoldable pub take_node : ℤ → List ServerInfo → ℕ → ℤ → ServerInfo → ℕ → Store → Round
take_node begin tree index rest node n_try s =
    let (result, w) =
      add_inflight begin index (rest -ℤ left_at tree s index) (s.weights node.weight) in
    let s_1 = apply_diff tree result.weight_diff index (set_weight node.weight w s) in
    if result.chosen
    then stop (chosen node.server_name) s_1
    else if leb (length tree) (n_try + 1)
    then stop failed s_1
    else retry (length tree) (n_try + 1) s_1

abbrev pub take_found : ℤ → List ServerInfo → ℕ → ℤ → Option ServerInfo → ℕ → Store → Round
take_found begin tree index rest none n_try s = stop undefined s
take_found begin tree index rest (some node) n_try s = take_node begin tree index rest node n_try s

abbrev pub land : ℤ → List ServerInfo → Tree.Landing → ℕ → Store → Round
land begin tree out_of_fuel n_try s = stop undefined s
land begin tree no_node n_try s = stop undefined s
land begin tree passed n_try s = retry (length tree) n_try s
land begin tree (landed index rest) n_try s =
    take_found begin tree index rest (get_elem? tree index) n_try s

-- The rounds of the loop of `select_server`, a walk down the tree in each. `dice` holds the values
-- that `getRand` returns in the rounds to come, and `total` is `total_weight`. A round raises
-- `n_try`, so `n + 1` rounds are enough.
unfoldable pub select_loop : ℕ → ℤ → List ServerInfo → (ℕ → ℤ) → ℕ → ℤ → Store → Selected × Store
select_loop zero begin tree dice n_try total s = (undefined, s)
select_loop (suc rounds) begin tree dice n_try total s =
    if leb_ℤ total (pos 0)
    then (failed, s)
    else elim (land begin tree (begin_walk tree s (dice 0)) n_try s) [
      | stop r t ↦ (r, t)
      | again m t ↦ select_loop rounds begin tree (λ k. dice (suc k)) m t.total_weight t
    ]

-- `select_server`
unfoldable pub select_server : ℤ → (ℕ → ℤ) → Balancer → Selected × Store
select_server begin dice b =
    let tree = (unsafe_read b.servers_dbd).weight_tree in
    select_loop (length tree + 1) begin tree dice 0 b.store.total_weight b.store

-- `Feedback`. For a name that is counted and that the tree's map has not, and for an index outside the
-- tree, the source's behaviour is undefined: here the first is index 0, and the second changes nothing.
unfoldable pub feedback : ℤ → ℤ → String → ℤ → Balancer → Outcome Store
feedback now begin name error b = elim (b.server_map name) [
  | none ↦ done b.store
  | some count ↦
      let servers = unsafe_read b.servers_dbd in
      let index = or_zero (servers.server_map name) in
      elim (get_elem? servers.weight_tree index) [
        | none ↦ done b.store
        | some node ↦ elim (update now begin error index (b.store.weights node.weight)) [
          | fault f ↦ fault f
          | done (diff, w) ↦
              done (apply_diff servers.weight_tree diff index (set_weight node.weight w b.store))
        ]
      ]
]
