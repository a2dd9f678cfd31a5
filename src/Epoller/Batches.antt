-- ===== src/Epoller/Batches.antt =====
-- How rounds of `getActEvServ`, each followed by the coroutines that it woke, take all coroutines whose
-- descriptors are ready. `Processor::waitEvent` of src/processor.cc removes a coroutine's descriptor as
-- soon as the coroutine goes on.
use mathlib.Core.List.{Perm}
use mathlib.Core.List.Perm
use lib_net_co_rpc.Prelude.{
  ℕ, zero, suc, ◌+◌, ◌*◌, ◌≤◌, ◌≡◌, refl, sym, ap, ◌∙◌, true, false, Bool, Option, none, some, List,
  [], ◌∷◌, ◌++◌, arith, ltb, ◌==◌, inl, inr, Bool-cases, length, length-append, if◌then◌else◌,
}
use Prim.Native.Nat.{min}
use mathlib.Core.Path.{subst}
use mathlib.Core.List.{Permᴰ}
use mathlib.Core.List.Permᴰ.{nil, cons, swap, trans}
use mathlib.Core.Logic.{∥∥₁_elim}
use native.Mathlib.Nat.{ℕ_set}
use lib_net_co_rpc.Epoller.{Epoller, Operation, remove_ev, get_act_ev_serv}

-- epoll as the code calls it: `epoll_wait` with room for a number of events, and `epoll_ctl`
pub record Epoll {ℓ} (K : Type ℓ) : Type ℓ where
  pub epoll_wait : ℕ → K → Option (List ℕ) × K
  pub epoll_ctl : Operation → ℕ → ℕ → ℕ → K → Bool × K

-- What is documented of it, where a call of `epoll_wait` is not interrupted and no further descriptor
-- becomes ready. `ready` are the coroutines whose descriptors are; each waits for a descriptor of its
-- own, `fd_of`. It is level-triggered: what is found stays ready until its descriptor is removed.
pub record LevelTriggered {ℓ} {K : Type ℓ} (epoll : Epoll K) (fd_of : ℕ → ℕ) : Type ℓ where
  pub ready : K → List ℕ
  -- as many of those ready as there is room for
  pub finds :
      (size : ℕ) (k : K)
      → 1 ≤ size
      → (found : List ℕ) × (rest : List ℕ) × ((epoll.epoll_wait size k).0 ≡ some found)
        × Perm (ready k) (found ++ rest)
        × (length found ≡ min size (length (ready k)))
  pub stays : (size : ℕ) (k : K) → ready (epoll.epoll_wait size k).1 ≡ ready k
  -- a coroutine is no longer ready once its descriptor is removed, and no other one is lost
  pub removes :
      (co ev : ℕ) (k : K) (others : List ℕ)
      → Perm (ready k) (co ∷ others)
      → Perm (ready (epoll.epoll_ctl Operation.ctl_del co (fd_of co) ev k).1) others

module _ {ℓ} {K : Type ℓ} (epoll : Epoll K) (fd_of ev_of : ℕ → ℕ) where
  -- the coroutines go on, and each removes its descriptor
  abbrev pub go_on : List ℕ → Epoller → K → K
  go_on [] e k = k
  go_on (co ∷ cos) e k = go_on cos e (remove_ev epoll.epoll_ctl co (fd_of co) (ev_of co) e k).1

  abbrev pub woken : List ℕ → Option (List ℕ × Epoller × K) → Option (List ℕ × Epoller × K)
  woken cos none = none
  woken cos (some (more, e, k)) = some (cos ++ more, e, k)

  -- `rounds` rounds, each with an empty list of active coroutines: all that have gone on
  abbrev pub poll : ℕ → Epoller → K → Option (List ℕ × Epoller × K)
  poll zero e k = some ([], e, k)
  poll (suc rounds) e k =
      let (found, k') = epoll.epoll_wait e.list_size k in
      elim (get_act_ev_serv found [] e) [
        | none ↦ none
        | some r ↦ woken r.0 (poll rounds r.1 (go_on r.0 r.1 k'))
      ]

-- what the lists of that many calls hold together, as they grow
abbrev pub room : ℕ → ℕ → ℕ
room zero size = 0
room (suc rounds) size = size + room rounds (size * 2)

abbrev epoller : ℕ → ℕ → Epoller
epoller fd size = record { epoll_fd = some fd; list_size = size }

module _ {ℓ} {A : Type ℓ} where
  length-Permᴰ : {xs ys : List A} → Permᴰ xs ys → length xs ≡ length ys
  length-Permᴰ nil = refl
  length-Permᴰ (cons e d) = ap suc (length-Permᴰ d)
  length-Permᴰ (swap e f) = refl
  length-Permᴰ (trans d f) = length-Permᴰ d ∙ length-Permᴰ f

  length-Perm : {xs ys : List A} → Perm xs ys → length xs ≡ length ys
  length-Perm {xs} {ys} p = ∥∥₁_elim p (ℕ_set (length xs) (length ys)) length-Permᴰ

  nil_of_length : (xs : List A) → length xs ≡ 0 → xs ≡ []
  nil_of_length [] h = refl
  nil_of_length (x ∷ xs) h = absurd (omega arith)

-- what the list of events holds after a call that found so many
abbrev next_size : ℕ → ℕ → ℕ
next_size found size = if found == size then size * 2 else size

next_size-positive : (found size : ℕ) → 1 ≤ size → 1 ≤ next_size found size
next_size-positive found size h = elim (Bool-cases (found == size)) [
  | inl full ↦ rw full (omega arith)
  | inr part ↦ rw part h
]

-- What a round leaves ready fits into the rounds that are left.
left_fits :
    (rounds size all found rest left : ℕ)
    → all ≡ found + rest
    → left ≡ rest
    → found ≡ min size all
    → all ≤ room (suc rounds) size
    → left ≤ room rounds (next_size found size)
left_fits rounds size all found rest left total few n fits = elim (Bool-cases (found == size)) [
  | inl full ↦ rw full (ground arith)
  | inr part ↦ rw part (ground arith)
]

-- A call gives what was found, and doubles the list that was full.
one_call :
    (fd size : ℕ) (cos : List ℕ)
    → 1 ≤ size
    → length cos ≤ size
    → get_act_ev_serv (some cos) [] (epoller fd size)
      ≡ some (cos, epoller fd (next_size (length cos) size))
unfolding get_act_ev_serv
one_call fd size [] h fits = let other : (0 == size) ≡ false = ground arith in rw other refl
one_call fd size (c ∷ cos) h fits =
    let fits' : ltb size (suc (length cos)) ≡ false = ground arith in
    let positive : ltb 0 (suc (length cos)) ≡ true = ground arith in
    elim (Bool-cases (suc (length cos) == size)) [
      | inl full ↦ rw (positive, fits', full) refl
      | inr part ↦ rw (positive, fits', part) refl
    ]

module _ {ℓ} {K : Type ℓ} (epoll : Epoll K) (fd_of ev_of : ℕ → ℕ)
    (doc : LevelTriggered epoll fd_of) where
  go_on-ready :
      (cos others : List ℕ) (fd size : ℕ) (k : K)
      → Perm (doc.ready k) (cos ++ others)
      → Perm (doc.ready (go_on epoll fd_of ev_of cos (epoller fd size) k)) others
  go_on-ready [] others fd size k p = p
  go_on-ready (co ∷ cos) others fd size k p =
      go_on-ready cos others fd size _ (doc.removes co (ev_of co) k (cos ++ others) p)

  poll_step :
      (rounds : ℕ) (e e' : Epoller) (k : K) (found : List ℕ)
      → (epoll.epoll_wait e.list_size k).0 ≡ some found
      → get_act_ev_serv (some found) [] e ≡ some (found, e')
      → {all : List ℕ} {last : Epoller} {k' : K}
      → poll epoll fd_of ev_of rounds e'
          (go_on epoll fd_of ev_of found e' (epoll.epoll_wait e.list_size k).1)
        ≡ some (all, last, k')
      → poll epoll fd_of ev_of (suc rounds) e k ≡ some (found ++ all, last, k')
  poll_step rounds e e' k found waits calls ran = rw (poll, waits, calls, ran) refl

  -- On an epoll that is open, with room for an event at least, rounds that together have room for all
  -- the coroutines that are ready wake each of them once, and leave none ready. A round is a call of
  -- `getActEvServ` after which the coroutines that it found remove their descriptors; a list that was
  -- full has twice the size in the next round. epoll is level-triggered, as documented, each coroutine
  -- waits for a descriptor of its own, and nothing else becomes ready meanwhile.
  pub poll_takes_all :
      (rounds fd size : ℕ) (k : K)
      → 1 ≤ size
      → length (doc.ready k) ≤ room rounds size
      → (all : List ℕ) × (e : Epoller) × (k' : K) × (poll epoll fd_of ev_of rounds
            (epoller fd size)
            k
          ≡ some (all, e, k'))
        × Perm all (doc.ready k)
        × (doc.ready k' ≡ [])
  poll_takes_all zero fd size k h fits =
      let none_left = nil_of_length (doc.ready k) (omega arith) in
      ([], epoller fd size, k, refl, subst (λ xs. Perm [] xs) (sym none_left) Perm.nil, none_left)
  poll_takes_all (suc rounds) fd size k h fits =
      let (found, rest, e, split, n) = doc.finds size k h in
      let k_1 = (epoll.epoll_wait size k).1 in
      let size' = next_size (length found) size in
      let k_2 = go_on epoll fd_of ev_of found (epoller fd size') k_1 in
      let left =
        go_on-ready found rest fd size' k_1
          (subst (λ xs. Perm xs (found ++ rest)) (sym (doc.stays size k)) split) in
      let total = length-Perm split ∙ length-append found rest in
      let few = length-Perm left in
      let (all, last, k', ran, all_of, nothing) =
        poll_takes_all rounds fd size' k_2 (next_size-positive (length found) size h)
          (left_fits rounds size _ (length found) (length rest) _ total few n fits) in
      (
        found ++ all,
        last,
        k',
        poll_step rounds (epoller fd size) (epoller fd size') k found e
            (one_call fd size found h (omega arith)) ran,
        Perm.trans (Perm.append_left found (Perm.trans all_of left)) (Perm.symm split),
        nothing,
      )
