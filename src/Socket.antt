-- ===== src/Socket.antt =====
-- The calls of src/socket.cc that switch coroutines: `read`, `connect`, `send`, `accept`, `recvfrom`
-- and `sendto`; and the default connection of src/tcp/tcp_server.cc. What the operating system
-- answers is a parameter: call `i` of a loop gets answer `i`. The loops call themselves again for as
-- long as the system fails, so they run on fuel. A result comes with the number of times that the
-- coroutine has waited in `waitEvent`.
pub mod Laws
mod Tests
use lib_net_co_rpc.Prelude.{
  ℕ, zero, suc, ◌+◌, ◌-◌, ◌^◌, Bool, true, false, Option, none, some, List, [], ◌∷◌, ◌++◌, leb,
  ◌==◌, if◌then◌else◌, length, take, drop,
}
use lib_net_co_rpc.Prelude.Int.{ℤ, pos, negsuc, eqb_ℤ}

-- What a system call answers: a result, or -1 with an `errno`.
pub data Answer {ℓ} (A : Type ℓ) : Type ℓ where
  done : A → Answer A
  interrupted : Answer A  -- EINTR
  unreachable : Answer A  -- ENETUNREACH
  failed : Answer A  -- any other

-- The answers from the second call on.
abbrev pub later {ℓ} : {A : Type ℓ} → (ℕ → A) → ℕ → A
later answers i = answers (suc i)

abbrev pub waited {ℓ} : {A : Type ℓ} → Option (A × ℕ) → Option (A × ℕ)
waited none = none
waited (some (a, waits)) = some (a, suc waits)

-- `Socket::read`: the bytes that it leaves in the buffer. It never returns -1.
unfoldable pub read : ℕ → (ℕ → Answer (List ℕ)) → Option (List ℕ × ℕ)
read zero answers = none
read (suc fuel) answers = elim (answers 0) [
  | done bytes ↦ some (bytes, 0)
  | interrupted ↦ read fuel (later answers)
  | unreachable ↦ waited (read fuel (later answers))
  | failed ↦ waited (read fuel (later answers))
]

-- `Socket::recvfrom`: none of the bytes, and -1, for another descriptor than the socket's
unfoldable pub recvfrom : ℕ → ℤ → ℤ → (ℕ → Answer (List ℕ)) → Option (Answer (List ℕ) × ℕ)
recvfrom fuel sockfd own answers =
    if eqb_ℤ sockfd own
    then elim (read fuel answers) [ none ↦ none | some r ↦ some (done r.0, r.1) ]
    else some (failed, 0)

-- `Socket::connect`
unfoldable pub connect : ℕ → (ℕ → Answer (Unit {0})) → Option (ℤ × ℕ)
connect zero answers = none
connect (suc fuel) answers = elim (answers 0) [
  | done ok ↦ some (pos 0, 0)
  | interrupted ↦ connect fuel (later answers)
  | unreachable ↦ some (negsuc 0, 0)
  | failed ↦ waited (connect fuel (later answers))
]

-- whether `accept_raw` has a connection
abbrev pub accepted : Answer ℕ → Option ℕ
accepted (done fd) = some fd
accepted interrupted = none
accepted unreachable = none
accepted failed = none

-- `Socket::accept`: a try, a wait, a second try, and all of it again
unfoldable pub accept : ℕ → (ℕ → Answer ℕ) → Option (ℕ × ℕ)
accept zero answers = none
accept (suc fuel) answers =
    let again = accept fuel (later (later answers)) in
    elim (accepted (answers 0)) [
      | some fd ↦ some (fd, 0)
      | none ↦ waited (elim (accepted (answers 1)) [ some fd ↦ some (fd, 0) | none ↦ again ])
    ]

-- `(size_t)-1`
abbrev pub size_max : ℕ
size_max = 2 ^ 64 - 1

-- what `::send` returns, held in a `size_t`
abbrev pub as_size : Answer ℕ → ℕ
as_size (done n) = n
as_size interrupted = size_max
as_size unreachable = size_max
as_size failed = size_max

-- the bytes that the system has taken
abbrev pub taken : Answer ℕ → List ℕ → List ℕ
taken (done n) buf = take n buf
taken interrupted buf = []
taken unreachable buf = []
taken failed buf = []

-- What `send` returns, the bytes that the system has taken, and the waits.
pub record Sent : Type 0 where
  pub returned : ℕ
  pub bytes : List ℕ
  pub waits : ℕ

abbrev pub after_part : List ℕ → Option Sent → Option Sent
after_part part none = none
after_part part (some s) = some (record s { bytes = part ++ s.bytes; waits = suc s.waits })

-- `Socket::send`
unfoldable pub send : ℕ → (ℕ → Answer ℕ) → List ℕ → Option Sent
send zero answers buf = none
send (suc fuel) answers buf =
    let rest = send fuel (later answers) (drop (as_size (answers 0)) buf) in
    if leb (length buf) (as_size (answers 0))
    then some (record { returned = length buf; bytes = taken (answers 0) buf; waits = 0 })
    else after_part (taken (answers 0) buf) rest

-- `Socket::sendto`; -1 for another descriptor than the socket's
unfoldable pub sendto : ℕ → ℤ → ℤ → (ℕ → Answer ℕ) → List ℕ → Option (ℤ × List ℕ)
sendto fuel sockfd own answers buf =
    if eqb_ℤ sockfd own
    then elim (send fuel answers buf) [ none ↦ none | some s ↦ some (pos s.returned, s.bytes) ]
    else some (negsuc 0, [])

-- `default_connection`: one read of at most 2048 bytes, and a send of what was read
unfoldable pub default_connection : ℕ → (ℕ → Answer (List ℕ)) → (ℕ → Answer ℕ) → Option (List ℕ)
default_connection fuel reads sends = elim (read fuel reads) [
  | none ↦ none
  | some r ↦ elim r.0 [
    | [] ↦ some []
    | ◌∷◌ b bs ↦ elim (send fuel sends (b ∷ bs)) [ none ↦ none | some s ↦ some s.bytes ]
  ]
]
