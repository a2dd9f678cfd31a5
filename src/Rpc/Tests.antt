-- ===== src/Rpc/Tests.antt =====
-- A call of a method that doubles each byte, with headers in a format of their own.
use mathlib.Core.Path.{ap₂}
use lib_net_co_rpc.Prelude.{
  ℕ, zero, suc, ◌*◌, ◌≡◌, refl, ap, ◌∙◌, some, List, [], ◌∷◌, ◌++◌, arith, map, length, take, drop,
}
use lib_net_co_rpc.Prelude.Int.{ℤ, pos, pos_part, neg_part, sub_ℕ}
use lib_net_co_rpc.Rpc.{
  Codec, RpcHeader, RpcResponseHeader, Status, success, unknown_error, invalid_request, Message,
  success_message, service_not_found, method_not_found, select_server_failed, Method, on_connection,
  request, encode_u32, as_int32,
}
use lib_net_co_rpc.Register.{RpcServerStub, is_empty_name, register_service}
use lib_net_co_rpc.Register.Services.{services_of, registered_call_returns}
use lib_net_co_rpc.Rpc.RoundTrip.{RoundTrips, success_of, delivered, take-append, drop-append}

-- a text of bytes with its length before it
abbrev parse_header : List ℕ → RpcHeader
parse_header (args_size ∷ n ∷ rest) = record {
  service_name = take n rest;
  method_name = drop n rest;
  args_size = args_size;
}
parse_header _ = record { service_name = []; method_name = []; args_size = 0 }

abbrev header_codec : Codec RpcHeader
header_codec = record {
  serialize = λ h. h.args_size ∷ length h.service_name ∷ (h.service_name ++ h.method_name);
  parse = parse_header;
}

header_codec-RoundTrips : (h : RpcHeader) → RoundTrips header_codec h
header_codec-RoundTrips h =
    ap
      (λ s. record {
        service_name = s;
        method_name = drop (length h.service_name) (h.service_name ++ h.method_name);
        args_size = h.args_size;
      })
      (take-append h.service_name h.method_name)
    ∙ ap (λ m. record { service_name = h.service_name; method_name = m; args_size = h.args_size })
        (drop-append h.service_name h.method_name)

abbrev status_code : Status → ℕ
status_code success = 0
status_code unknown_error = 1
status_code invalid_request = 2

abbrev status_of : ℕ → Status
status_of zero = success
status_of (suc zero) = unknown_error
status_of _ = invalid_request

abbrev message_code : Message → ℕ
message_code success_message = 0
message_code service_not_found = 1
message_code method_not_found = 2
message_code select_server_failed = 3

abbrev message_of : ℕ → Message
message_of zero = success_message
message_of (suc zero) = service_not_found
message_of (suc (suc zero)) = method_not_found
message_of _ = select_server_failed

abbrev parse_response_header : List ℕ → RpcResponseHeader
parse_response_header (a ∷ b ∷ c ∷ d ∷ rest) = record {
  status = status_of a;
  message = message_of b;
  args_size = sub_ℕ c d;
}
parse_response_header _ = record {
  status = unknown_error;
  message = success_message;
  args_size = pos 0;
}

abbrev response_codec : Codec RpcResponseHeader
response_codec = record {
  serialize = λ h.
      status_code h.status
      ∷ message_code h.message
      ∷ pos_part h.args_size
      ∷ neg_part h.args_size
      ∷ [];
  parse = parse_response_header;
}

status_of-status_code : (s : Status) → status_of (status_code s) ≡ s
status_of-status_code success = refl
status_of-status_code unknown_error = refl
status_of-status_code invalid_request = refl

message_of-message_code : (m : Message) → message_of (message_code m) ≡ m
message_of-message_code success_message = refl
message_of-message_code service_not_found = refl
message_of-message_code method_not_found = refl
message_of-message_code select_server_failed = refl

response_codec-RoundTrips : (h : RpcResponseHeader) → RoundTrips response_codec h
response_codec-RoundTrips h =
    ap₂ (λ s m. record { status = s; message = m; args_size = size_of h.args_size })
      (status_of-status_code h.status) (message_of-message_code h.message)
    ∙ ap (λ n. record { status = h.status; message = h.message; args_size = n })
        (size_of-same h.args_size)
  where
    size_of : ℤ → ℤ
    size_of n = sub_ℕ (pos_part n) (neg_part n)

    size_of-same : (n : ℤ) → size_of n ≡ n
    size_of-same n = ground arith

abbrev doubles : Method
doubles = map (λ b. 2 * b)

-- a server that has registered nothing yet
abbrev fresh_stub : RpcServerStub
fresh_stub = record { service_map = []; registered_address = [] }

registered_call_returns_example :
    delivered header_codec response_codec (
      on_connection header_codec response_codec
        (services_of (register_service (7 ∷ 8 ∷ []) (9 ∷ []) doubles fresh_stub))
        (request header_codec response_codec (7 ∷ 8 ∷ []) (9 ∷ []) (1 ∷ 2 ∷ 3 ∷ []) ∷ [] ∷ []))
    ≡ some (success_of header_codec response_codec (2 ∷ 4 ∷ 6 ∷ []), 2 ∷ 4 ∷ 6 ∷ [])
unfolding is_empty_name request encode_u32 as_int32
registered_call_returns_example =
    registered_call_returns header_codec response_codec fresh_stub doubles (7 ∷ 8 ∷ []) (9 ∷ [])
      (1 ∷ 2 ∷ 3 ∷ []) (header_codec-RoundTrips _) (response_codec-RoundTrips _) refl (omega arith)
      (omega arith)
