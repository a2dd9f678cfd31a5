-- ===== src/Register/Services.antt =====
-- The maps of the services and their methods, and a call of a method that was registered.
use lib_net_co_rpc.Prelude.{
  ℕ, ◌+◌, ◌≤◌, ◌≡◌, refl, ap, false, Option, none, some, List, [], ◌∷◌, inl, inr, Bool-cases,
  length,
}
use lib_net_co_rpc.NameService.{bytes_eq, bytes_less}
use lib_net_co_rpc.NameService.Order.{bytes_eq_refl}
use lib_net_co_rpc.Rpc.{Codec, RpcHeader, RpcResponseHeader, Services, request, on_connection}
use lib_net_co_rpc.Rpc.RoundTrip.{RoundTrips, header_of, success_of, delivered, call_returns}
use lib_net_co_rpc.Register.{
  StringMap, map_put, map_find, Callback, RpcService, RpcServerStub, is_empty_name, register_method,
  register_service,
}

module _ {ℓ} {A : Type ℓ} where
  -- What was put is found.
  pub map_find-map_put :
      (key : List ℕ) (a : A) (m : StringMap A) → map_find key (map_put key a m) ≡ some a
  unfolding map_find map_put
  map_find-map_put key a [] = rw (bytes_eq_refl key)
  map_find-map_put key a (m ∷ rest) = elim (Bool-cases (bytes_eq key m.0)) [
    | inl same ↦ rw same (rw (bytes_eq_refl key))
    | inr other ↦ elim (Bool-cases (bytes_less key m.0)) [
      | inl less ↦ rw (other, less) (rw (bytes_eq_refl key))
      | inr greater ↦ rw (other, greater) (rw other (map_find-map_put key a rest))
    ]
  ]

-- the services that `process_request` looks up
abbrev pub methods_of : Option RpcService → Option (List ℕ → Option Callback)
methods_of none = none
methods_of (some s) = some (λ method. map_find method s.methods)

abbrev pub services_of : RpcServerStub → Services
services_of stub service = methods_of (map_find service stub.service_map)

register_method-find :
    (method : List ℕ) (f : Callback) (s : RpcService)
    → is_empty_name method ≡ false
    → map_find method (register_method method f s).1.methods ≡ some f
unfolding register_method
register_method-find method f s named = rw named (map_find-map_put method f s.methods)

-- the service that `RegisterService` leaves in the map
abbrev current_service : List ℕ → Option RpcService → RpcService
current_service service none = record { service = service; methods = [] }
current_service service (some s) = s

register_service-find :
    (service method : List ℕ) (f : Callback) (stub : RpcServerStub)
    → map_find service (register_service service method f stub).service_map
      ≡ some
          (register_method method f (current_service service (map_find service stub.service_map))).1
unfolding register_service
register_service-find service method f stub = go (map_find service stub.service_map) refl
  where
    go :
        (o : Option RpcService)
        → map_find service stub.service_map ≡ o
        → map_find service (register_service service method f stub).service_map
          ≡ some
              (register_method method f
                (current_service service (map_find service stub.service_map))).1
    go none e = rw (e, register_service) (map_find-map_put service _ stub.service_map)
    go (some s) e = rw (e, register_service) (map_find-map_put service _ stub.service_map)

module _ (rpc_header : Codec RpcHeader) (response_header : Codec RpcResponseHeader) where
  -- After `RegisterService` of a method with a name that is not empty, whatever was registered
  -- before, a connection that sends a request for it gets an answer that the client reads as the
  -- status of success and what the method returns for the arguments, where protobuf parses what it
  -- serializes for both headers of the call, and the request and the answer have at most 4096 bytes
  -- and arrive in one read each.
  pub registered_call_returns :
      (stub : RpcServerStub) (callback : Callback) (service method args : List ℕ)
      → RoundTrips rpc_header (header_of rpc_header response_header service method args)
      → RoundTrips response_header (success_of rpc_header response_header (callback args))
      → is_empty_name method ≡ false
      → length (request rpc_header response_header service method args) ≤ 4096
      → 4
          + length
              (response_header.serialize (success_of rpc_header response_header (callback args)))
          + length (callback args)
        ≤ 4096
      → delivered rpc_header response_header (
          on_connection rpc_header response_header
            (services_of (register_service service method callback stub))
            (request rpc_header response_header service method args ∷ [] ∷ []))
        ≡ some (success_of rpc_header response_header (callback args), callback args)
  registered_call_returns stub callback service method args trips trips' named few fits =
      let now =
        (register_method method callback
          (current_service service (map_find service stub.service_map))).1 in
      call_returns rpc_header response_header
        (services_of (register_service service method callback stub))
        (λ name. map_find name now.methods) callback service method args trips trips'
        (ap methods_of (register_service-find service method callback stub))
        (register_method-find method callback
          (current_service service (map_find service stub.service_map)) named)
        few fits
