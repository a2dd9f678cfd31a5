-- ===== src/Socket/Laws.antt =====
-- When the calls return, and what they have read and sent.
use mathlib.Core.Path.{subst}
use lib_net_co_rpc.Prelude.{
  ℕ, zero, suc, ◌+◌, ◌*◌, ◌/◌, ◌≤◌, ◌<◌, ◌≡◌, refl, ap, ◌∙◌, true, List, [], ◌∷◌, ◌++◌, none, some,
  arith, leb, inl, inr, Bool-cases, length, take, drop, take-append-drop, length-drop, take_all,
}
use lib_net_co_rpc.Socket.{
  Answer, done, interrupted, unreachable, failed, later, read, accepted, accept, size_max, Sent,
  send, default_connection,
}

-- The call gets no result.
abbrev pub IsFailure {ℓ} : {A : Type ℓ} → Answer A → Type 0
IsFailure (done a) = ⊥
IsFailure interrupted = Unit
IsFailure unreachable = Unit
IsFailure failed = Unit

-- how often the coroutine waits for the answer: an interrupted call is made again at once
abbrev pub wait_for {ℓ} : {A : Type ℓ} → Answer A → ℕ
wait_for (done a) = 0
wait_for interrupted = 0
wait_for unreachable = 1
wait_for failed = 1

abbrev pub waits_before {ℓ} : {A : Type ℓ} → ℕ → (ℕ → Answer A) → ℕ
waits_before zero answers = 0
waits_before (suc k) answers = wait_for (answers 0) + waits_before k (later answers)

read_done :
    (fuel : ℕ) (answers : ℕ → Answer (List ℕ)) (bytes : List ℕ)
    → answers 0 ≡ done bytes
    → read (suc fuel) answers ≡ some (bytes, 0)
unfolding read
read_done fuel answers bytes e = rw (e, read)

read_failure :
    (fuel : ℕ) (answers : ℕ → Answer (List ℕ)) (bytes : List ℕ) (waits : ℕ)
    → IsFailure (answers 0)
    → read fuel (later answers) ≡ some (bytes, waits)
    → read (suc fuel) answers ≡ some (bytes, wait_for (answers 0) + waits)
unfolding read
read_failure fuel answers bytes waits fails e = go (answers 0) refl
  where
    one : suc waits ≡ 1 + waits
    one = omega arith

    none_waited : waits ≡ 0 + waits
    none_waited = omega arith

    go :
        (a : Answer (List ℕ))
        → answers 0 ≡ a
        → read (suc fuel) answers ≡ some (bytes, wait_for (answers 0) + waits)
    go (done b) f = elim (subst IsFailure f fails) [ ]
    go interrupted f = rw (f, e, read) (ap (λ w. some (bytes, w)) none_waited)
    go unreachable f = rw (f, e, read) (ap (λ w. some (bytes, w)) one)
    go failed f = rw (f, e, read) (ap (λ w. some (bytes, w)) one)

-- Given at least as many rounds as calls up to the first that succeeds, `read` returns what that
-- call has read, after a wait for every failure before it that was no interruption.
pub read_returns :
    (k fuel : ℕ) (answers : ℕ → Answer (List ℕ)) (bytes : List ℕ)
    → k < fuel
    → ((i : ℕ) → i < k → IsFailure (answers i))
    → answers k ≡ done bytes
    → read fuel answers ≡ some (bytes, waits_before k answers)
read_returns k zero answers bytes h fails e = absurd (omega arith)
read_returns zero (suc fuel) answers bytes h fails e = read_done fuel answers bytes e
read_returns (suc k) (suc fuel) answers bytes h fails e =
    read_failure fuel answers bytes (waits_before k (later answers)) (fails 0 (omega arith)) (
      read_returns k fuel (later answers) bytes (omega arith) (λ i l. fails (suc i) (omega arith))
        e)

-- As long as every call fails, `read` does not return, whatever the failure is.
pub read_never :
    (fuel : ℕ) (answers : ℕ → Answer (List ℕ))
    → ((i : ℕ) → IsFailure (answers i))
    → read fuel answers ≡ none
unfolding read
read_never zero answers fails = refl
read_never (suc fuel) answers fails =
    go (answers 0) refl (read_never fuel (later answers) (λ i. fails (suc i)))
  where
    go :
        (a : Answer (List ℕ))
        → answers 0 ≡ a
        → read fuel (later answers) ≡ none
        → read (suc fuel) answers ≡ none
    go (done b) f rest = elim (subst IsFailure f (fails 0)) [ ]
    go interrupted f rest = rw (f, rest, read)
    go unreachable f rest = rw (f, rest, read)
    go failed f rest = rw (f, rest, read)

-- the sizes that `::send` returns, one for each call
abbrev pub sizes_of : (ℕ → ℕ) → ℕ → Answer ℕ
sizes_of sizes i = done (sizes i)

-- `send` hands every byte to the system, in order, where each call takes one byte at least.
pub send_delivers :
    (fuel : ℕ) (sizes : ℕ → ℕ) (buf : List ℕ)
    → length buf < fuel
    → ((i : ℕ) → 1 ≤ sizes i)
    → (s : Sent) × (send fuel (sizes_of sizes) buf ≡ some s) × (s.bytes ≡ buf)
unfolding send
send_delivers zero sizes buf h takes = absurd (omega arith)
send_delivers (suc fuel) sizes buf h takes = elim (Bool-cases (leb (length buf) (sizes 0))) [
  | inl all ↦ rw all (
    record { returned = length buf; bytes = take (sizes 0) buf; waits = 0 },
    refl,
    take_all (sizes 0) buf (ground arith),
  )
  | inr part ↦
      let t = takes 0 in
      let short : sizes 0 < length buf = ground arith in
      let l = length-drop (sizes 0) buf in
      let (s, e, b) =
        send_delivers fuel (later sizes) (drop (sizes 0) buf) (omega arith) (λ i. takes (suc i)) in
      rw (part, e, send)
        (
          record s { bytes = take (sizes 0) buf ++ s.bytes; waits = suc s.waits },
          refl,
          ap (λ x. take (sizes 0) buf ++ x) b ∙ take-append-drop (sizes 0) buf,
        )
]

-- Where the first call fails, `send` returns as if every byte had been sent, and none has been.
pub send_hides_failure :
    (fuel : ℕ) (answers : ℕ → Answer ℕ) (buf : List ℕ)
    → IsFailure (answers 0)
    → length buf ≤ size_max
    → send (suc fuel) answers buf ≡ some (record { returned = length buf; bytes = []; waits = 0 })
unfolding send
send_hides_failure fuel answers buf fails fits = go (answers 0) refl
  where
    all : leb (length buf) size_max ≡ true
    all = ground arith

    go :
        (a : Answer ℕ)
        → answers 0 ≡ a
        → send (suc fuel) answers buf
          ≡ some (record { returned = length buf; bytes = []; waits = 0 })
    go (done n) f = elim (subst IsFailure f fails) [ ]
    go interrupted f = rw (f, all, send)
    go unreachable f = rw (f, all, send)
    go failed f = rw (f, all, send)

-- `default_connection` sends back what it has read: with rounds enough for the first read that
-- succeeds and for the sends, which take one byte at least each.
pub default_connection-echo :
    (k fuel : ℕ) (reads : ℕ → Answer (List ℕ)) (sizes : ℕ → ℕ) (bytes : List ℕ)
    → k + length bytes < fuel
    → ((i : ℕ) → i < k → IsFailure (reads i))
    → reads k ≡ done bytes
    → ((i : ℕ) → 1 ≤ sizes i)
    → default_connection fuel reads (sizes_of sizes) ≡ some bytes
unfolding default_connection
default_connection-echo k fuel reads sizes [] h fails e takes =
    rw (read_returns k fuel reads [] (omega arith) fails e, default_connection)
default_connection-echo k fuel reads sizes (b ∷ bs) h fails e takes =
    let (s, f, same) = send_delivers fuel sizes (b ∷ bs) (omega arith) takes in
    rw (read_returns k fuel reads (b ∷ bs) (omega arith) fails e, f, default_connection)
      (ap some same)

accepted_failure : (a : Answer ℕ) → IsFailure a → accepted a ≡ none
accepted_failure (done fd) fails = elim fails [ ]
accepted_failure interrupted fails = refl
accepted_failure unreachable fails = refl
accepted_failure failed fails = refl

-- Given enough rounds of two tries, `accept` returns the connection of the first try that has one,
-- after a wait before every second try.
pub accept_returns :
    (k fuel : ℕ) (answers : ℕ → Answer ℕ) (fd : ℕ)
    → k < 2 * fuel
    → ((i : ℕ) → i < k → IsFailure (answers i))
    → answers k ≡ done fd
    → accept fuel answers ≡ some (fd, (k + 1) / 2)
unfolding accept
accept_returns k zero answers fd h fails e = absurd (omega arith)
accept_returns zero (suc fuel) answers fd h fails e = rw (e, accept)
accept_returns (suc zero) (suc fuel) answers fd h fails e =
    rw (accepted_failure (answers 0) (fails 0 (omega arith)), e, accept)
accept_returns (suc (suc k)) (suc fuel) answers fd h fails e =
    let r =
      accept_returns k fuel (later (later answers)) fd (omega arith)
        (λ i l. fails (suc (suc i)) (omega arith)) e in
    let half : suc ((k + 1) / 2) ≡ (suc (suc k) + 1) / 2 = omega arith in
    rw
      (
        accepted_failure (answers 0) (fails 0 (omega arith)),
        accepted_failure (answers 1) (fails 1 (omega arith)),
        r,
        accept,
      )
      (ap (λ n. some (fd, n)) half)
