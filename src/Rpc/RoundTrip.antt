-- ===== src/Rpc/RoundTrip.antt =====
-- A call comes back with what the method returns.
use lib_net_co_rpc.Prelude.{
  ℕ, zero, suc, ◌+◌, ◌-◌, ◌%◌, ◌^◌, ◌<◌, ◌≤◌, ◌≡◌, refl, ap, ◌∙◌, true, Option, none, some, List,
  [], ◌∷◌, ◌++◌, arith, leb, length, take, drop, replicate, length-append,
}
use lib_net_co_rpc.Prelude.Int.{ℤ, pos, negsuc, pos_part, neg_part}
use lib_net_co_rpc.Prelude.{ltb}
use lib_net_co_rpc.Rpc.{
  Codec, RpcHeader, RpcResponseHeader, success, success_message, encode_u32, decode_u32, substr,
  Method, Services, request, write_response, process_request, received, read_response, as_int32,
  on_connection, read_args,
}

-- What the message's bytes parse to is the message.
abbrev pub RoundTrips : {H : Type 0} → Codec H → H → Type 0
RoundTrips c h = c.parse (c.serialize h) ≡ h

module _ {ℓ} {A : Type ℓ} where
  pub take-append : (xs ys : List A) → take (length xs) (xs ++ ys) ≡ xs
  take-append [] ys = refl
  take-append (x ∷ xs) ys = ap (λ zs. x ∷ zs) (take-append xs ys)

  pub drop-append : (xs ys : List A) → drop (length xs) (xs ++ ys) ≡ ys
  drop-append [] ys = refl
  drop-append (x ∷ xs) ys = drop-append xs ys

  take_all : (n : ℕ) (xs : List A) → length xs ≤ n → take n xs ≡ xs
  take_all zero [] h = refl
  take_all zero (x ∷ xs) h = absurd (omega arith)
  take_all (suc n) [] h = refl
  take_all (suc n) (x ∷ xs) h = ap (λ zs. x ∷ zs) (take_all n xs (omega arith))

decode-encode : (n : ℕ) (rest : List ℕ) → n < 2 ^ 32 → decode_u32 (encode_u32 n ++ rest) ≡ some n
unfolding decode_u32 encode_u32
decode-encode n rest h = ap some (omega arith)

drop-encode : (n : ℕ) (rest : List ℕ) → drop 4 (encode_u32 n ++ rest) ≡ rest
unfolding encode_u32
drop-encode n rest = refl

substr-first : (xs ys : List ℕ) → substr 0 (length xs) (xs ++ ys) ≡ some xs
unfolding substr
substr-first xs ys = let e : leb 0 (length (xs ++ ys)) ≡ true = ground arith in rw (e, take-append)

substr-second : (xs ys : List ℕ) (n : ℕ) → n ≡ length ys → substr (length xs) n (xs ++ ys) ≡ some ys
unfolding substr
substr-second xs ys n same =
    let l = length-append xs ys in
    let e : leb (length xs) (length (xs ++ ys)) ≡ true = ground (arith, l) in
    rw (e, drop-append) (ap some (take_all n ys (omega arith)))

append_assoc : (xs ys zs : List ℕ) → (xs ++ ys) ++ zs ≡ xs ++ (ys ++ zs)
append_assoc [] ys zs = refl
append_assoc (x ∷ xs) ys zs = ap (λ ws. x ∷ ws) (append_assoc xs ys zs)

length-encode : (n : ℕ) → length (encode_u32 n) ≡ 4
unfolding encode_u32
length-encode n = refl

length-bytes :
    (str response : List ℕ)
    → length (encode_u32 (length str) ++ (str ++ response)) ≡ 4 + (length str + length response)
length-bytes str response =
    length-append (encode_u32 (length str)) (str ++ response)
    ∙ ap (λ n. n + length (str ++ response)) (length-encode (length str))
    ∙ ap (λ n. 4 + n) (length-append str response)

module _ (rpc_header : Codec RpcHeader) (response_header : Codec RpcResponseHeader) where
  -- the header of a request, and that of an answer
  abbrev pub header_of : List ℕ → List ℕ → List ℕ → RpcHeader
  header_of service method args = record {
    service_name = service;
    method_name = method;
    args_size = length args % 2 ^ 32;
  }

  abbrev pub success_of : List ℕ → RpcResponseHeader
  success_of response = record {
    status = success;
    message = success_message;
    args_size = as_int32 (length response);
  }

  -- The server reads the request back, and calls the method with its arguments.
  pub process_request-request :
      (services : Services) (methods : List ℕ → Option Method) (callback : Method)
      (service method args : List ℕ)
      → RoundTrips rpc_header (header_of service method args)
      → services service ≡ some methods
      → methods method ≡ some callback
      → length (rpc_header.serialize (header_of service method args)) < 2 ^ 32
      → length args < 2 ^ 32
      → process_request rpc_header response_header services
          (request rpc_header response_header service method args)
        ≡ some
            (write_response rpc_header response_header (success_of (callback args)) (callback args))
  unfolding process_request request
  process_request-request services methods callback service method args trips s m small few =
      let h = header_of service method args in
      let str = rpc_header.serialize h in
      let size : length args % 2 ^ 32 ≡ length args = omega arith in
      rw (
        decode-encode (length str) (str ++ args) small,
        drop-encode (length str) (str ++ args),
        substr-first str args,
        trips,
        s,
        m,
        substr-second str args (length args % 2 ^ 32) size,
      )

  -- The arguments of an answer, in a buffer that goes on behind them.
  read_args-whole :
      (h : RpcResponseHeader) (str response pad : List ℕ) (n : ℤ)
      → n ≡ pos (length response)
      → read_args rpc_header response_header h n (length str) (str ++ (response ++ pad))
        ≡ some (h, response)
  read_args-whole h str response pad (negsuc n) size = absurd (omega (arith, ap neg_part size))
  read_args-whole h str response pad (pos n) size =
      let same : n ≡ length response = ap pos_part size in
      let l = length-append str (response ++ pad) in
      let k = length-append response pad in
      let inside : leb (length str + length response) (length (str ++ (response ++ pad))) ≡ true =
        ground (arith, l, k) in
      rw (same, inside, drop-append str (response ++ pad))
        (ap (λ r. some (h, r)) (take-append response pad))

  -- The client reads an answer back whose bytes fit into its buffer.
  read_response-write_response :
      (h : RpcResponseHeader) (response : List ℕ)
      → RoundTrips response_header h
      → h.args_size ≡ pos (length response)
      → 4 + length (response_header.serialize h) + length response ≤ 4096
      → read_response rpc_header response_header
          (write_response rpc_header response_header h response)
        ≡ some (h, response)
  unfolding read_response write_response
  read_response-write_response h response trips size fits =
      let str = response_header.serialize h in
      let bytes = encode_u32 (length str) ++ (str ++ response) in
      let pad = replicate (4096 - length bytes) 0 in
      let total : length bytes ≡ 4 + (length str + length response) = length-bytes str response in
      let whole : received rpc_header response_header bytes
          ≡ encode_u32 (length str) ++ (str ++ (response ++ pad)) =
        ap (λ b. b ++ pad) (take_all 4096 bytes (omega arith))
        ∙ append_assoc (encode_u32 (length str)) (str ++ response) pad
        ∙ ap (λ b. encode_u32 (length str) ++ b) (append_assoc str response pad) in
      rw
        (
          whole,
          decode-encode (length str) (str ++ (response ++ pad)) (omega arith),
          drop-encode (length str) (str ++ (response ++ pad)),
          take-append str (response ++ pad),
          trips,
        )
        (read_args-whole h str response pad h.args_size size)

  as_int32-pos : (n : ℕ) → n ≤ 4096 → as_int32 n ≡ pos n
  unfolding as_int32
  as_int32-pos n h =
      let small : n % 2 ^ 32 ≡ n = omega arith in
      let positive : ltb n (2 ^ 31) ≡ true = ground arith in rw (small, positive) refl

  request-length :
      (service method args : List ℕ)
      → length (request rpc_header response_header service method args)
        ≡ 4 + (length (rpc_header.serialize (header_of service method args)) + length args)
  unfolding request
  request-length service method args =
      length-bytes (rpc_header.serialize (header_of service method args)) args

  -- A read of at most 4096 bytes that are some is processed, and the connection then ends.
  on_connection-one :
      (services : Services) (bytes answer : List ℕ)
      → 0 < length bytes
      → length bytes ≤ 4096
      → process_request rpc_header response_header services bytes ≡ some answer
      → on_connection rpc_header response_header services (bytes ∷ [] ∷ []) ≡ some (answer ∷ [])
  unfolding on_connection
  on_connection-one services [] answer some_bytes few e = absurd (omega arith)
  on_connection-one services (b ∷ bytes) answer some_bytes few e =
      rw (take_all 4096 (b ∷ bytes) few, e) refl

  -- the client's reading of the first answer
  abbrev pub delivered : Option (List (List ℕ)) → Option (RpcResponseHeader × List ℕ)
  delivered none = none
  delivered (some []) = none
  delivered (some (bytes ∷ answers)) = read_response rpc_header response_header bytes

  -- A call of a method that is registered comes back with the status of success and what the method
  -- returns for the arguments, where protobuf parses what it serializes for both headers of the call,
  -- and the request and the answer have at most 4096 bytes and arrive in one read each.
  pub call_returns :
      (services : Services) (methods : List ℕ → Option Method) (callback : Method)
      (service method args : List ℕ)
      → RoundTrips rpc_header (header_of service method args)
      → RoundTrips response_header (success_of (callback args))
      → services service ≡ some methods
      → methods method ≡ some callback
      → length (request rpc_header response_header service method args) ≤ 4096
      → 4 + length (response_header.serialize (success_of (callback args))) + length (callback args)
        ≤ 4096
      → delivered (
          on_connection rpc_header response_header services
            (request rpc_header response_header service method args ∷ [] ∷ []))
        ≡ some (success_of (callback args), callback args)
  call_returns services methods callback service method args trips trips' s m few fits =
      let l = request-length service method args in
      rw
        (on_connection-one services (request rpc_header response_header service method args) _
          (omega arith) few
          (process_request-request services methods callback service method args trips s m
            (omega arith) (omega arith)))
        (read_response-write_response (success_of (callback args)) (callback args) trips'
          (as_int32-pos (length (callback args)) (omega arith)) fits)
