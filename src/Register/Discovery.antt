-- ===== src/Register/Discovery.antt =====
-- A server that has registered its methods is found by the clients of each.
use mathlib.Core.Path.{subst}
use lib_net_co_rpc.Prelude.{
  All, ℕ, ◌+◌, ◌≤◌, ◌<◌, ◌≡◌, ◌≢◌, refl, sym, ap, ◌∙◌, Bool, true, false, some, List, [], ◌∷◌, ◌++◌,
  arith, ◌||◌, if◌then◌else◌, ◌⊎◌, inl, inr, Bool-cases, length,
}
use lib_net_co_rpc.NameService.{bytes_eq, LoadBalancer, NameServiceActionImpl}
use lib_net_co_rpc.NameService.Counts.{count}
use lib_net_co_rpc.NameService.Service.{slash, method_path, Actions, action_key, run_ns}
use lib_net_co_rpc.NameService.Listing.{Ready, nodes_of, run_ns-ListsOnce}
use lib_net_co_rpc.NameService.Watch.{NoSlash, method_path_whole}
use lib_net_co_rpc.Register.{
  ZooKeeper, Flags, is_sequential, persistent, ephemeral, starts_with_slash, Callback, RpcService,
  create, register_path, register_each, register_all_method, StringMap, RpcServerStub,
  register_services, register_all_service,
}

-- A name that ZooKeeper documents as valid for a node: some printable ASCII characters, none of them
-- '/', and neither "." nor "..".
abbrev pub NodeName : List ℕ → Type 0
NodeName name =
    NoSlash name
    × All (λ c. (32 ≤ c) × (c < 127)) name
    × (name ≢ [])
    × (name ≢ 46 ∷ [])
    × (name ≢ 46 ∷ 46 ∷ [])

-- What ZooKeeper documents of these calls, in a session that is connected and may create nodes. The
-- root is the empty path. `durable` holds of the nodes that are not ephemeral: those can have
-- children. A node that is made with ZOO_SEQUENCE gets a path of its own.
pub record Documented {ℓ} {Z : Type ℓ} (zk : ZooKeeper Z) : Type ℓ where
  pub durable : List ℕ → Z → Bool
  pub root : (z : Z) → durable [] z ≡ true
  -- a node under a durable one can be made, and is there then
  pub created :
      (flags : Flags) (parent name : List ℕ) (z : Z)
      → is_sequential flags ≡ false
      → NodeName name
      → durable parent z ≡ true
      → zk.exists (parent ++ slash ∷ name) z ≡ false
      → zk.exists (parent ++ slash ∷ name) (zk.zoo_create flags (parent ++ slash ∷ name) z).1 ≡ true
  pub created_durable :
      (path : List ℕ) (z : Z)
      → zk.exists path (zk.zoo_create persistent path z).1 ≡ true
      → zk.exists path z ≡ false
      → durable path (zk.zoo_create persistent path z).1 ≡ true
  -- making a node leaves those that are there, and makes no other one
  pub keeps :
      (flags : Flags) (path other : List ℕ) (z : Z)
      → zk.exists other z ≡ true
      → zk.exists other (zk.zoo_create flags path z).1 ≡ true
  pub keeps_durable :
      (flags : Flags) (path other : List ℕ) (z : Z)
      → durable other z ≡ true
      → durable other (zk.zoo_create flags path z).1 ≡ true
  pub no_other :
      (flags : Flags) (path other : List ℕ) (z : Z)
      → is_sequential flags ≡ false
      → bytes_eq path other ≡ false
      → zk.exists other z ≡ false
      → zk.exists other (zk.zoo_create flags path z).1 ≡ false
  -- a node is among the children of its parent
  pub listed :
      (parent name : List ℕ) (z : Z)
      → NodeName name
      → zk.exists (parent ++ slash ∷ name) z ≡ true
      → 1 ≤ count (record { ip_port = name }) (nodes_of (zk.children parent z))

-- A string is not equal to a longer one that begins with it.
longer_differs : (xs : List ℕ) (y : ℕ) (ys : List ℕ) → bytes_eq xs (xs ++ y ∷ ys) ≡ false
unfolding bytes_eq
longer_differs [] y ys = refl
longer_differs (x ∷ xs) y ys = let r = longer_differs xs y ys in ground arith

module _ {ℓ} {Z : Type ℓ} (zk : ZooKeeper Z) (doc : Documented zk) where
  -- What holds of a state, and of it after `zoo_create`, holds after `create`.
  create_either :
      (P : Z → Type 0) (path : List ℕ) (flags : Flags) (z : Z)
      → P z
      → P (zk.zoo_create flags path z).1
      → P (create zk path flags z).1
  unfolding create
  create_either P path flags z p q = elim (Bool-cases (starts_with_slash path)) [
    | inr off ↦ rw off p
    | inl on ↦
        elim (Bool-cases (is_sequential flags || (if zk.exists path z then false else true))) [
          | inl made ↦ rw (on, made) q
          | inr left ↦ rw (on, left) p
        ]
  ]

  create_absent :
      (path : List ℕ) (flags : Flags) (z : Z)
      → starts_with_slash path ≡ true
      → zk.exists path z ≡ false
      → is_sequential flags ≡ false
      → (create zk path flags z).1 ≡ (zk.zoo_create flags path z).1
  unfolding create
  create_absent path flags z s e f = rw (s, e, f)

  -- A node that is there, if there is one, is durable.
  abbrev pub Usable : List ℕ → Z → Type 0
  Usable path z = (zk.exists path z ≡ false) ⊎ (doc.durable path z ≡ true)

  -- `create` with ZOO_PERSISTENT leaves a durable node.
  create-durable :
      (parent name : List ℕ) (z : Z)
      → starts_with_slash (parent ++ slash ∷ name) ≡ true
      → NodeName name
      → doc.durable parent z ≡ true
      → Usable (parent ++ slash ∷ name) z
      → doc.durable (parent ++ slash ∷ name) (create zk (parent ++ slash ∷ name) persistent z).1
        ≡ true
  create-durable parent name z s clean d (inl absent) =
      let path = parent ++ slash ∷ name in
      ap (doc.durable path) (create_absent path persistent z s absent refl)
      ∙ doc.created_durable path z (doc.created persistent parent name z refl clean d absent) absent
  create-durable parent name z s clean d (inr there) =
      create_either (λ y. doc.durable (parent ++ slash ∷ name) y ≡ true) (parent ++ slash ∷ name)
        persistent z there
        (doc.keeps_durable persistent (parent ++ slash ∷ name) (parent ++ slash ∷ name) z there)

  create-exists :
      (parent name : List ℕ) (flags : Flags) (z : Z)
      → starts_with_slash (parent ++ slash ∷ name) ≡ true
      → NodeName name
      → is_sequential flags ≡ false
      → doc.durable parent z ≡ true
      → zk.exists (parent ++ slash ∷ name) (create zk (parent ++ slash ∷ name) flags z).1 ≡ true
  create-exists parent name flags z s clean f d =
      let path = parent ++ slash ∷ name in
      elim (Bool-cases (zk.exists path z)) [
        | inr absent ↦
            ap (zk.exists path) (create_absent path flags z s absent f)
            ∙ doc.created flags parent name z f clean d absent
        | inl there ↦
            create_either (λ y. zk.exists path y ≡ true) path flags z there
              (doc.keeps flags path path z there)
      ]

  create-keeps :
      (path other : List ℕ) (flags : Flags) (z : Z)
      → zk.exists other z ≡ true
      → zk.exists other (create zk path flags z).1 ≡ true
  create-keeps path other flags z e =
      create_either (λ y. zk.exists other y ≡ true) path flags z e (doc.keeps flags path other z e)

  create-Usable :
      (path other : List ℕ) (flags : Flags) (z : Z)
      → is_sequential flags ≡ false
      → bytes_eq path other ≡ false
      → Usable other z
      → Usable other (create zk path flags z).1
  create-Usable path other flags z f differ (inl absent) = inl (
      create_either (λ y. zk.exists other y ≡ false) path flags z absent
        (doc.no_other flags path other z f differ absent))
  create-Usable path other flags z f differ (inr there) = inr (
      create_either (λ y. doc.durable other y ≡ true) path flags z there
        (doc.keeps_durable flags path other z there))

  register_path-exists :
      (service method ip_port : List ℕ) (z : Z)
      → NodeName service
      → NodeName method
      → NodeName ip_port
      → Usable (slash ∷ service) z
      → Usable (slash ∷ service ++ slash ∷ method) z
      → zk.exists
          (slash ∷ service ++ slash ∷ method ++ slash ∷ ip_port)
          (register_path zk service method ip_port z)
        ≡ true
  unfolding register_path starts_with_slash
  register_path-exists service method ip_port z cs cm ci u v =
      let path_1 = slash ∷ service in
      let path_2 = path_1 ++ slash ∷ method in
      let z_1 = (create zk path_1 persistent z).1 in
      let z_2 = (create zk path_2 persistent z_1).1 in
      let d_1 = create-durable [] service z refl cs (doc.root z) u in
      let v_1 =
        create-Usable path_1 path_2 persistent z refl (longer_differs path_1 slash method) v in
      let d_2 = create-durable path_1 method z_1 refl cm d_1 v_1 in
      create-exists path_2 ip_port ephemeral z_2 refl ci refl d_2

  register_path-keeps :
      (service method ip_port other : List ℕ) (z : Z)
      → zk.exists other z ≡ true
      → zk.exists other (register_path zk service method ip_port z) ≡ true
  unfolding register_path
  register_path-keeps service method ip_port other z e =
      create-keeps _ other ephemeral _
        (create-keeps _ other persistent _ (create-keeps _ other persistent z e))

  register_each-keeps :
      (service : List ℕ) (methods : StringMap Callback) (ip_port other : List ℕ) (z : Z)
      → zk.exists other z ≡ true
      → zk.exists other (register_each zk service methods ip_port z) ≡ true
  unfolding register_each
  register_each-keeps service [] ip_port other z e = e
  register_each-keeps service (m ∷ methods) ip_port other z e =
      register_each-keeps service methods ip_port other (register_path zk service m.0 ip_port z)
        (register_path-keeps service m.0 ip_port other z e)

  register_services-keeps :
      (services : StringMap RpcService) (ip_port other : List ℕ) (z : Z)
      → zk.exists other z ≡ true
      → zk.exists other (register_services zk services ip_port z) ≡ true
  unfolding register_services register_all_method
  register_services-keeps [] ip_port other z e = e
  register_services-keeps (m ∷ services) ip_port other z e =
      register_services-keeps services ip_port other (register_all_method zk m.1 ip_port z)
        (register_each-keeps m.1.service m.1.methods ip_port other z e)

  -- Where ZooKeeper does as it documents, a server that registers a method is found by a client: for
  -- names without a slash that fit into the client's buffer, where the nodes of the service and of
  -- the method are not there yet or not ephemeral, and whatever services a
  -- server registers afterwards, `RunNS` on actions between two calls leaves an action for the method whose
  -- copies both list the server once.
  pub register_path-discovered {κ} :
      {L : Type κ} (lb : LoadBalancer L) (service method ip_port : List ℕ) (z : Z)
      (later : RpcServerStub) (later_ip : List ℕ) (actions : Actions L)
      → NodeName service
      → NodeName method
      → NodeName ip_port
      → length service + length method ≤ 1021
      → Usable (slash ∷ service) z
      → Usable (slash ∷ service ++ slash ∷ method) z
      → Ready actions
      → let after_all =
          (register_all_service zk later later_ip (register_path zk service method ip_port z)).1 in
        (after : NameServiceActionImpl L) × (run_ns lb
            (λ path. zk.children path after_all)
            service
            method
            actions
            (action_key service method)
          ≡ some after)
        × (count (record { ip_port = ip_port }) after.servers_data.data_0 ≡ 1)
        × (count (record { ip_port = ip_port }) after.servers_data.data_1 ≡ 1)
  unfolding register_all_service
  register_path-discovered lb service method ip_port z later later_ip actions cs cm ci fits u v
        ready =
      let after_all =
        (register_all_service zk later later_ip (register_path zk service method ip_port z)).1 in
      let path = slash ∷ service ++ slash ∷ method in
      let there =
        register_services-keeps later.service_map later_ip (path ++ slash ∷ ip_port)
          (register_path zk service method ip_port z)
          (register_path-exists service method ip_port z cs cm ci u v) in
      let found = doc.listed path ip_port after_all ci there in
      let whole = method_path_whole service method fits in
      let at_path : 1
          ≤ count (record { ip_port = ip_port })
              (nodes_of (zk.children (method_path service method) after_all)) =
        subst (λ p. 1 ≤ count (record { ip_port = ip_port }) (nodes_of (zk.children p after_all)))
          (sym whole) found in
      let (after, e, once) =
        run_ns-ListsOnce lb (λ p. zk.children p after_all) service method actions ready in
      let f = once.first (record { ip_port = ip_port }) in
      let g = once.second (record { ip_port = ip_port }) in (after, e, omega arith, omega arith)
