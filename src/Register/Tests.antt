-- ===== src/Register/Tests.antt =====
-- A ZooKeeper that keeps a list of its nodes, and a server that registers the method "f" of the
-- service "s" there.
use mathlib.Core.Path.{subst}
use lib_net_co_rpc.Prelude.{
  ℕ, ◌≤◌, ◌<◌, ◌≡◌, ◌≢◌, refl, sym, ap, ◌∙◌, Bool, true, false, Option, none, some, List, [], ◌∷◌,
  ◌++◌, arith, ◌==◌, ◌||◌, ◌&&◌, if◌then◌else◌, inl, inr, Bool-cases,
}
use lib_net_co_rpc.NameService.{bytes_eq, LoadBalancer, NameServiceActionImpl}
use lib_net_co_rpc.NameService.Order.{bytes_eq_refl, bytes_eq_correct}
use lib_net_co_rpc.NameService.Counts.{hit, count}
use lib_net_co_rpc.NameService.Service.{slash, Actions, action_key, run_ns}
use lib_net_co_rpc.NameService.Listing.{nodes_of}
use lib_net_co_rpc.Register.{
  ZooKeeper, Flags, persistent, ephemeral, sequential, RpcService, RpcServerStub, register_path,
  register_all_service,
}
use lib_net_co_rpc.Register.Discovery.{Documented, NodeName, register_path-discovered}

record Node : Type 0 where
  pub path : List ℕ
  pub lasting : Bool

abbrev is_persistent : Flags → Bool
is_persistent persistent = true
is_persistent ephemeral = false
is_persistent sequential = true

abbrev has_node : List ℕ → List Node → Bool
has_node path [] = false
has_node path (n ∷ nodes) = bytes_eq n.path path || has_node path nodes

abbrev has_lasting : List ℕ → List Node → Bool
has_lasting path [] = false
has_lasting path (n ∷ nodes) = (bytes_eq n.path path && n.lasting) || has_lasting path nodes

abbrev add_node : Flags → List ℕ → List Node → Bool × List Node
add_node flags path nodes =
    if has_node path nodes
    then (false, nodes)
    else (true, record { path = path; lasting = is_persistent flags } ∷ nodes)

abbrev drop_node : List ℕ → List Node → List Node
drop_node path [] = []
drop_node path (n ∷ nodes) = if bytes_eq n.path path then nodes else n ∷ drop_node path nodes

-- what follows the parent's path and a '/'
abbrev name_under : List ℕ → List ℕ → Option (List ℕ)
name_under [] [] = none
name_under [] (c ∷ path) = if c == slash then some path else none
name_under (p ∷ parent) [] = none
name_under (p ∷ parent) (c ∷ path) = if p == c then name_under parent path else none

abbrev with_name : Option (List ℕ) → List (List ℕ) → List (List ℕ)
with_name none names = names
with_name (some name) names = name ∷ names

abbrev names_under : List ℕ → List Node → List (List ℕ)
names_under parent [] = []
names_under parent (n ∷ nodes) = with_name (name_under parent n.path) (names_under parent nodes)

abbrev node_list : ZooKeeper (List Node)
node_list = record {
  exists = has_node;
  zoo_create = add_node;
  zoo_delete = λ path nodes. (has_node path nodes, drop_node path nodes);
  children = names_under;
}

-- the root, or a node that is not ephemeral
abbrev is_durable : List ℕ → List Node → Bool
is_durable [] nodes = true
is_durable (c ∷ path) nodes = has_lasting (c ∷ path) nodes

name_under-append : (parent name : List ℕ) → name_under parent (parent ++ slash ∷ name) ≡ some name
name_under-append [] name = refl
name_under-append (p ∷ parent) name =
    let same : (p == p) ≡ true = ground arith in rw (same, name_under-append parent name)

add_node-has :
    (flags : Flags) (path other : List ℕ) (nodes : List Node)
    → has_node other nodes ≡ true
    → has_node other (add_node flags path nodes).1 ≡ true
add_node-has flags path other nodes e = elim (Bool-cases (has_node path nodes)) [
  | inl there ↦ rw there e
  | inr absent ↦ rw absent (ground arith)
]

add_node-lasting :
    (flags : Flags) (path other : List ℕ) (nodes : List Node)
    → is_durable other nodes ≡ true
    → is_durable other (add_node flags path nodes).1 ≡ true
add_node-lasting flags path [] nodes e = refl
add_node-lasting flags path (c ∷ other) nodes e = elim (Bool-cases (has_node path nodes)) [
  | inl there ↦ rw there e
  | inr absent ↦ rw absent (ground arith)
]

names_under-count :
    (parent name : List ℕ) (nodes : List Node)
    → has_node (parent ++ slash ∷ name) nodes ≡ true
    → 1 ≤ count (record { ip_port = name }) (nodes_of (names_under parent nodes))
names_under-count parent name [] e = cc
names_under-count parent name (n ∷ nodes) e =
    elim (Bool-cases (bytes_eq n.path (parent ++ slash ∷ name))) [
      | inl here ↦
          let p = bytes_eq_correct n.path (parent ++ slash ∷ name) here in
          let u = ap (name_under parent) p ∙ name_under-append parent name in
          let one : hit (record { ip_port = name }) (record { ip_port = name }) ≡ 1 =
            rw (bytes_eq_refl name) in
          subst
            (λ o.
              1
              ≤ count (record { ip_port = name })
                  (nodes_of (with_name o (names_under parent nodes))))
            (sym u) (omega arith)
      | inr off ↦
          let r = names_under-count parent name nodes (ground arith) in
          more (name_under parent n.path) r
    ]
  where
    more :
        (o : Option (List ℕ))
        → 1 ≤ count (record { ip_port = name }) (nodes_of (names_under parent nodes))
        → 1 ≤ count (record { ip_port = name }) (nodes_of (with_name o (names_under parent nodes)))
    more none r = r
    more (some other) r = omega arith

node_list-Documented : Documented node_list
node_list-Documented = record {
  durable = is_durable;
  root = λ nodes. refl;
  created = λ flags parent name nodes f clean d absent.
      rw (absent, bytes_eq_refl (parent ++ slash ∷ name));
  created_durable = λ path nodes there absent. lasting path nodes absent;
  keeps = add_node-has;
  keeps_durable = add_node-lasting;
  no_other = λ flags path other nodes f differ absent. apart flags path other nodes differ absent;
  listed = λ parent name nodes clean e. names_under-count parent name nodes e;
}
  where
    lasting :
        (path : List ℕ) (nodes : List Node)
        → has_node path nodes ≡ false
        → is_durable path (add_node persistent path nodes).1 ≡ true
    lasting [] nodes absent = refl
    lasting (c ∷ path) nodes absent = rw (absent, bytes_eq_refl (c ∷ path))

    apart :
        (flags : Flags) (path other : List ℕ) (nodes : List Node)
        → bytes_eq path other ≡ false
        → has_node other nodes ≡ false
        → has_node other (add_node flags path nodes).1 ≡ false
    apart flags path other nodes differ absent = elim (Bool-cases (has_node path nodes)) [
      | inl there ↦ rw there absent
      | inr not_there ↦ rw not_there (rw (differ, absent))
    ]

-- a load balancer that keeps nothing
abbrev no_balancer : LoadBalancer (Unit {0})
no_balancer = record { add_server = λ k l. l; remove_server = λ k l. l }

abbrev no_actions : Actions (Unit {0})
no_actions key = none

-- the method "g" of the service "s", which the server "b" registers later
abbrev later_service : RpcService
later_service = record { service = 115 ∷ []; methods = (103 ∷ [], λ arg. arg) ∷ [] }

abbrev later_stub : RpcServerStub
later_stub = record { service_map = (115 ∷ [], later_service) ∷ []; registered_address = [] }

-- a name of one letter
letter_name : (c : ℕ) → (97 ≤ c) × (c < 123) → NodeName (c ∷ [])
letter_name c h = (
  (omega arith, tt),
  ((omega arith, omega arith), tt),
  (λ e. cc),
  (λ e. absurd (not_dot (ap first e))),
  λ e. absurd (not_dot (ap first e)),
)
  where
    first : List ℕ → ℕ
    first [] = 0
    first (x ∷ xs) = x

    not_dot : c ≢ 46
    not_dot = omega arith

register_path-discovered_example :
    let after_all =
      (register_all_service node_list later_stub
        (98 ∷ [])
        (register_path node_list (115 ∷ []) (102 ∷ []) (97 ∷ []) [])).1 in
    (after : NameServiceActionImpl (Unit {0})) × (run_ns no_balancer
        (λ path. names_under path after_all)
        (115 ∷ [])
        (102 ∷ [])
        no_actions
        (action_key (115 ∷ []) (102 ∷ []))
      ≡ some after)
    × (count (record { ip_port = 97 ∷ [] }) after.servers_data.data_0 ≡ 1)
    × (count (record { ip_port = 97 ∷ [] }) after.servers_data.data_1 ≡ 1)
register_path-discovered_example =
    register_path-discovered node_list node_list-Documented no_balancer (115 ∷ []) (102 ∷ [])
      (97 ∷ []) [] later_stub (98 ∷ []) no_actions (letter_name 115 (omega arith))
      (letter_name 102 (omega arith)) (letter_name 97 (omega arith)) (omega arith) (inl refl)
      (inl refl) (λ key a e. cc)
