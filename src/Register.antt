-- ===== src/Register.antt =====
-- How a server's methods come into ZooKeeper: `ZkClient::create`, `set` and
-- `delete_node_no_version_check` of src/zk_client.cc, include/rpc_proto/zk_name_service_register.h,
-- include/rpc_proto/rpc_service.h and `RpcServerStub::RegisterService`. ZooKeeper's C client is a
-- parameter. A string is the list of its bytes.
pub mod Discovery
pub mod Services
mod Tests
use lib_net_co_rpc.Prelude.{
  ℕ, zero, suc, ◌+◌, ◌≡◌, Bool, true, false, Option, none, some, List, [], ◌∷◌, ◌++◌, ◌==◌, ◌||◌,
  if◌then◌else◌,
}
use lib_net_co_rpc.Prelude.Int.{ℤ, pos, negsuc}
use lib_net_co_rpc.NameService.{bytes_eq, bytes_less}
use lib_net_co_rpc.NameService.Service.{slash}

-- the flags that `create` tells apart
pub data Flags : Type 0 where
  persistent ephemeral sequential : Flags

-- What the code calls of the C client, on a state of ZooKeeper: whether a node exists, `zoo_create`
-- and `zoo_delete`, with whether they succeed, and the names of a node's children.
pub record ZooKeeper {ℓ} (Z : Type ℓ) : Type ℓ where
  pub exists : List ℕ → Z → Bool
  pub zoo_create : Flags → List ℕ → Z → Bool × Z
  pub zoo_delete : List ℕ → Z → Bool × Z
  pub children : List ℕ → Z → List (List ℕ)

abbrev pub is_sequential : Flags → Bool
is_sequential persistent = false
is_sequential ephemeral = false
is_sequential sequential = true

unfoldable pub starts_with_slash : List ℕ → Bool
starts_with_slash [] = false
starts_with_slash (c ∷ rest) = c == slash

-- 0 where the call has succeeded, and -1
abbrev pub result_of : Bool → ℤ
result_of true = pos 0
result_of false = negsuc 0

-- A method is what it makes of its arguments.
abbrev pub Callback : Type 0
Callback = List ℕ → List ℕ

-- `std::map` with strings for keys: the list of its entries, by key
abbrev pub StringMap {ℓ} : (A : Type ℓ) → Type ℓ
StringMap A = List (List ℕ × A)

-- `m[key] = value`
unfoldable pub map_put {ℓ} : {A : Type ℓ} → List ℕ → A → StringMap A → StringMap A
map_put key a [] = (key, a) ∷ []
map_put key a (m ∷ rest) =
    if bytes_eq key m.0
    then (key, a) ∷ rest
    else if bytes_less key m.0
    then (key, a) ∷ m ∷ rest
    else m ∷ map_put key a rest

-- `m.find(key)`
unfoldable pub map_find {ℓ} : {A : Type ℓ} → List ℕ → StringMap A → Option A
map_find key [] = none
map_find key (m ∷ rest) = if bytes_eq key m.0 then some m.1 else map_find key rest

pub record RpcService : Type 0 where
  pub service : List ℕ
  pub methods : StringMap Callback

-- `RpcServerStub`: its services, and the address that it has registered
pub record RpcServerStub : Type 0 where
  pub service_map : StringMap RpcService
  pub registered_address : List ℕ

unfoldable pub is_empty_name : List ℕ → Bool
is_empty_name [] = true
is_empty_name (c ∷ rest) = false

-- `register_method`
unfoldable pub register_method : List ℕ → Callback → RpcService → Bool × RpcService
register_method name f s =
    if is_empty_name name
    then (false, s)
    else (true, record s { methods = map_put name f s.methods })

-- `has_method`
unfoldable pub has_method : List ℕ → RpcService → Bool
has_method name s = elim (map_find name s.methods) [ none ↦ false | some f ↦ true ]

-- `call_method`; for a name that it has not it makes a string of a null pointer: `none`.
unfoldable pub call_service_method : List ℕ → List ℕ → RpcService → Option (List ℕ)
call_service_method name arg s = elim (map_find name s.methods) [
  | none ↦ none
  | some f ↦ some (f arg)
]

-- `RegisterService`; the result of `register_method` is dropped.
unfoldable pub register_service : List ℕ → List ℕ → Callback → RpcServerStub → RpcServerStub
register_service service method f stub = elim (map_find service stub.service_map) [
  | none ↦ record stub {
    service_map =
        map_put service (register_method method f (record { service = service; methods = [] })).1
          stub.service_map;
  }
  | some s ↦ record stub {
    service_map = map_put service (register_method method f s).1 stub.service_map;
  }
]

module _ {ℓ} {Z : Type ℓ} (zk : ZooKeeper Z) where
  -- `ZkClient::create`
  unfoldable pub create : List ℕ → Flags → Z → ℤ × Z
  create path flags z =
      if starts_with_slash path
      then if is_sequential flags || (if zk.exists path z then false else true)
        then (result_of (zk.zoo_create flags path z).0, (zk.zoo_create flags path z).1)
        else (negsuc 0, z)
      else (negsuc 0, z)

  -- `ZkNameServiceRegister::RegisterMethod`
  unfoldable pub register_path : List ℕ → List ℕ → List ℕ → Z → Z
  register_path service method ip_port z =
      let path_1 = slash ∷ service in
      let z_1 = (create path_1 persistent z).1 in
      let path_2 = path_1 ++ slash ∷ method in
      let z_2 = (create path_2 persistent z_1).1 in
      (create (path_2 ++ slash ∷ ip_port) ephemeral z_2).1

  -- `ZkNameServiceRegister::UnregisterMethod`
  unfoldable pub unregister_path : List ℕ → List ℕ → List ℕ → Z → Z
  unregister_path service method ip_port z =
      (zk.zoo_delete (slash ∷ service ++ slash ∷ method ++ slash ∷ ip_port) z).1

  -- the loops of `registerAllMethod` and `UnregisterAllMethod`
  unfoldable pub register_each : List ℕ → StringMap Callback → List ℕ → Z → Z
  register_each service [] ip_port z = z
  register_each service (m ∷ methods) ip_port z =
      register_each service methods ip_port (register_path service m.0 ip_port z)

  unfoldable pub unregister_each : List ℕ → StringMap Callback → List ℕ → Z → Z
  unregister_each service [] ip_port z = z
  unregister_each service (m ∷ methods) ip_port z =
      unregister_each service methods ip_port (unregister_path service m.0 ip_port z)

  unfoldable pub register_all_method : RpcService → List ℕ → Z → Z
  register_all_method s ip_port z = register_each s.service s.methods ip_port z

  unfoldable pub unregister_all_method : RpcService → List ℕ → Z → Z
  unregister_all_method s ip_port z = unregister_each s.service s.methods ip_port z

  -- the loops of `registerAllService` and `UnregisterAll`
  unfoldable pub register_services : StringMap RpcService → List ℕ → Z → Z
  register_services [] ip_port z = z
  register_services (m ∷ services) ip_port z =
      register_services services ip_port (register_all_method m.1 ip_port z)

  unfoldable pub unregister_services : StringMap RpcService → List ℕ → Z → Z
  unregister_services [] ip_port z = z
  unregister_services (m ∷ services) ip_port z =
      unregister_services services ip_port (unregister_all_method m.1 ip_port z)

  -- `registerAllService`
  unfoldable pub register_all_service : RpcServerStub → List ℕ → Z → RpcServerStub × Z
  register_all_service stub ip_port z =
      (record stub { registered_address = ip_port }, register_services stub.service_map ip_port z)

  -- `UnregisterAll`
  unfoldable pub unregister_all : RpcServerStub → Z → Z
  unregister_all stub z = unregister_services stub.service_map stub.registered_address z
