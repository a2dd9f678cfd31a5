-- ===== src/Rpc.antt =====
-- The calls of src/rpc_proto/rpc_client_stub.cc, src/rpc_proto/rpc_server_stub.cc and
-- src/rpc_proto/rpc_server.cc: how a request
-- and its response are put into bytes and read back. A byte is a number. The protobuf classes are
-- parameters: a `Codec` for each header. Integers of 32 bits are copied as the machine holds them,
-- low byte first.
pub mod RoundTrip
mod Tests
use lib_net_co_rpc.Prelude.Int.{ℤ, pos, negsuc}
use lib_net_co_rpc.Prelude.{
  ℕ, zero, suc, ◌+◌, ◌-◌, ◌*◌, ◌/◌, ◌%◌, ◌^◌, Bool, true, false, Option, none, some, List, [], ◌∷◌,
  ◌++◌, ltb, leb, ◌==◌, if◌then◌else◌, length, take, drop, replicate,
}

-- `SerializeToString` and `ParseFromString` of a protobuf class
pub record Codec (H : Type 0) : Type 0 where
  pub serialize : H → List ℕ
  pub parse : List ℕ → H

-- `RpcHeader`
pub record RpcHeader : Type 0 where
  pub service_name : List ℕ
  pub method_name : List ℕ
  pub args_size : ℕ

-- The status codes that the stubs use.
pub data Status : Type 0 where
  success unknown_error invalid_request : Status

-- The messages that the stubs set: "success", "service not found", "method not found" and "select
-- server failed".
pub data Message : Type 0 where
  success_message service_not_found method_not_found select_server_failed : Message

-- `RpcResponseHeader`; its size is an `int32`.
pub record RpcResponseHeader : Type 0 where
  pub status : Status
  pub message : Message
  pub args_size : ℤ

-- what `set_args_size` makes of a `size_t`
unfoldable pub as_int32 : ℕ → ℤ
as_int32 n =
    if ltb (n % 2 ^ 32) (2 ^ 31) then pos (n % 2 ^ 32) else negsuc (2 ^ 32 - 1 - n % 2 ^ 32)

-- the bytes of a `uint32_t`, and the number that the first four bytes hold
unfoldable pub encode_u32 : ℕ → List ℕ
encode_u32 n = n % 256 ∷ n / 256 % 256 ∷ n / 65536 % 256 ∷ n / 16777216 % 256 ∷ []

unfoldable pub decode_u32 : List ℕ → Option ℕ
decode_u32 (a ∷ b ∷ c ∷ d ∷ rest) = some (a + b * 256 + c * 65536 + d * 16777216)
decode_u32 _ = none

-- `s.substr(at, n)`, which throws where `at` is past the end
unfoldable pub substr : ℕ → ℕ → List ℕ → Option (List ℕ)
substr at n s = if leb at (length s) then some (take n (drop at s)) else none

-- A service's methods by name, and the services (`m_service_map`).
abbrev pub Method : Type 0
Method = List ℕ → List ℕ

abbrev pub Services : Type 0
Services = List ℕ → Option (List ℕ → Option Method)

module _ (rpc_header : Codec RpcHeader) (response_header : Codec RpcResponseHeader) where
  -- The request of `RpcClientStub::call`.
  unfoldable pub request : List ℕ → List ℕ → List ℕ → List ℕ
  request service method args =
      let header : RpcHeader = record {
        service_name = service;
        method_name = method;
        args_size = length args % 2 ^ 32;
      } in
      let str = rpc_header.serialize header in encode_u32 (length str) ++ (str ++ args)

  -- The end of `process_request`: what it writes.
  unfoldable pub write_response : RpcResponseHeader → List ℕ → List ℕ
  write_response header response =
      let str = response_header.serialize header in encode_u32 (length str) ++ (str ++ response)

  abbrev pub refuse : Message → Option (List ℕ)
  refuse message = some (
      write_response
        (record { status = Status.invalid_request; message = message; args_size = pos 0 }) [])

  abbrev pub answer : Method → Option (List ℕ) → Option (List ℕ)
  answer callback none = none
  answer callback (some args) =
      let response = callback args in
      some (
        write_response
          (record {
            status = Status.success;
            message = Message.success_message;
            args_size = as_int32 (length response);
          })
          response)

  abbrev pub call_method : Option Method → ℕ → ℕ → List ℕ → Option (List ℕ)
  call_method none head_size args_size payload = refuse Message.method_not_found
  call_method (some callback) head_size args_size payload =
      answer callback (substr head_size args_size payload)

  abbrev pub find_service :
      Option (List ℕ → Option Method) → RpcHeader → ℕ → List ℕ → Option (List ℕ)
  find_service none header head_size payload = refuse Message.service_not_found
  find_service (some service) header head_size payload =
      call_method (service header.method_name) head_size header.args_size payload

  abbrev pub dispatch : Services → Option (List ℕ) → ℕ → List ℕ → Option (List ℕ)
  dispatch services none head_size payload = none
  dispatch services (some bytes) head_size payload =
      let header = rpc_header.parse bytes in
      find_service (services header.service_name) header head_size payload

  abbrev pub process_sized : Services → Option ℕ → List ℕ → Option (List ℕ)
  process_sized services none payload = none
  process_sized services (some head_size) payload =
      dispatch services (substr 0 head_size payload) head_size payload

  -- `process_request`: the bytes that it writes, or `none` where a `substr` throws or the buffer is
  -- too short for the size. `payload` is what follows the size.
  unfoldable pub process_request : Services → List ℕ → Option (List ℕ)
  process_request services read_buffer =
      process_sized services (decode_u32 read_buffer) (drop 4 read_buffer)

  abbrev pub and_then : Option (List ℕ) → Option (List (List ℕ)) → Option (List (List ℕ))
  and_then none rest = none
  and_then (some bytes) none = none
  and_then (some bytes) (some rest) = some (bytes ∷ rest)

  -- `RpcServer::on_connection`: what it sends, where each read finds the bytes given. A read takes at
  -- most 4096 of them, and the connection ends at a read of none.
  unfoldable pub on_connection : Services → List (List ℕ) → Option (List (List ℕ))
  on_connection services [] = some []
  on_connection services ([] ∷ reads) = some []
  on_connection services ((b ∷ bytes) ∷ reads) =
      and_then (process_request services (take 4096 (b ∷ bytes))) (on_connection services reads)

  -- The buffer of 4096 bytes after `recv` of bytes that arrive at once.
  abbrev pub received : List ℕ → List ℕ
  received bytes = take 4096 bytes ++ replicate (4096 - length bytes) 0

  abbrev pub read_args : RpcResponseHeader → ℤ → ℕ → List ℕ → Option (RpcResponseHeader × List ℕ)
  read_args header (pos n) size payload =
      if leb (size + n) (length payload) then some (header, take n (drop size payload)) else none
  read_args header (negsuc n) size payload = none

  abbrev pub read_sized : Option ℕ → List ℕ → Option (RpcResponseHeader × List ℕ)
  read_sized none payload = none
  read_sized (some size) payload =
      let header = response_header.parse (take size payload) in
      read_args header header.args_size size payload

  -- The end of `RpcClientStub::call`; `none` where it reads past the buffer, or throws on a size below
  -- 0.
  unfoldable pub read_response : List ℕ → Option (RpcResponseHeader × List ℕ)
  read_response bytes = read_sized (decode_u32 (received bytes)) (drop 4 (received bytes))
