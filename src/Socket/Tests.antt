-- ===== src/Socket/Tests.antt =====
-- A socket whose calls fail at first, and a connection that is echoed.
use lib_net_co_rpc.Prelude.{ℕ, zero, suc, ◌<◌, ◌≡◌, refl, List, [], ◌∷◌, some, arith}
use lib_net_co_rpc.Socket.{Answer, done, interrupted, failed, read, send, default_connection}
use lib_net_co_rpc.Socket.Laws.{
  IsFailure, sizes_of, read_returns, send_hides_failure, default_connection-echo,
}

-- an interruption, a failure, and then three bytes
abbrev three_bytes : ℕ → Answer (List ℕ)
three_bytes zero = interrupted
three_bytes (suc zero) = failed
three_bytes (suc (suc i)) = done (1 ∷ 2 ∷ 3 ∷ [])

three_bytes-fails : (i : ℕ) → i < 2 → IsFailure (three_bytes i)
three_bytes-fails zero h = tt
three_bytes-fails (suc zero) h = tt
three_bytes-fails (suc (suc i)) h = absurd (omega arith)

read_returns_example : read 5 three_bytes ≡ some (1 ∷ 2 ∷ 3 ∷ [], 1)
read_returns_example =
    read_returns 2 5 three_bytes (1 ∷ 2 ∷ 3 ∷ []) (omega arith) three_bytes-fails refl

abbrev always_failed : ℕ → Answer ℕ
always_failed i = failed

send_hides_failure_example :
    send 1 always_failed (1 ∷ 2 ∷ []) ≡ some (record { returned = 2; bytes = []; waits = 0 })
send_hides_failure_example = send_hides_failure 0 always_failed (1 ∷ 2 ∷ []) tt (omega arith)

abbrev one_each : ℕ → ℕ
one_each i = 1

default_connection-echo_example :
    default_connection 6 three_bytes (sizes_of one_each) ≡ some (1 ∷ 2 ∷ 3 ∷ [])
default_connection-echo_example =
    default_connection-echo 2 6 three_bytes one_each (1 ∷ 2 ∷ 3 ∷ []) (omega arith)
      three_bytes-fails refl (λ i. omega arith)
