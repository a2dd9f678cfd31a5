-- ===== src/BoundedQueue/Deque.antt =====
-- What `BoundedQueue` promises: a deque of at most `cap` items, the top one first.
use lib_net_co_rpc.Prelude.{
  ℕ, zero, suc, ◌+◌, ◌-◌, ◌≤◌, ◌<◌, ◌≡◌, refl, Option, none, some, List, [], ◌∷◌, ◌++◌, Bool, true,
  false, arith, length, get_elem?, ltb, if◌then◌else◌, length-append,
}

module _ {ℓ} {A : Type ℓ} where
  abbrev pub tail : List A → List A
  tail [] = []
  tail (x ∷ xs) = xs

  -- all but the last item
  abbrev pub init : List A → List A
  init [] = []
  init (x ∷ []) = []
  init (x ∷ y ∷ ys) = x ∷ init (y ∷ ys)

  abbrev pub push : ℕ → A → List A → Bool × List A
  push cap x xs = if ltb (length xs) cap then (true, xs ++ x ∷ []) else (false, xs)

  -- a push on a full deque drops the top item
  abbrev pub elim_push : ℕ → A → List A → List A
  elim_push cap x xs = (if ltb (length xs) cap then xs else tail xs) ++ x ∷ []

  abbrev pub push_top : ℕ → A → List A → Bool × List A
  push_top cap x xs = if ltb (length xs) cap then (true, x ∷ xs) else (false, xs)

  abbrev pub pop : List A → Bool × Option A × List A
  pop [] = (false, none, [])
  pop (x ∷ xs) = (true, some x, xs)

  abbrev pub last? : List A → Option A
  last? xs = get_elem? xs (length xs - 1)

  abbrev pub pop_bottom : List A → Bool × Option A × List A
  pop_bottom [] = (false, none, [])
  pop_bottom (x ∷ xs) = (true, last? (x ∷ xs), init (x ∷ xs))

  pub get_elem?-none : (xs : List A) (i : ℕ) → length xs ≤ i → get_elem? xs i ≡ none
  get_elem?-none [] i h = refl
  get_elem?-none (x ∷ xs) zero h = absurd (omega arith)
  get_elem?-none (x ∷ xs) (suc i) h = get_elem?-none xs i (omega arith)

  pub get_elem?-snoc_lt :
      (xs : List A) (x : A) (i : ℕ) → i < length xs → get_elem? (xs ++ x ∷ []) i ≡ get_elem? xs i
  get_elem?-snoc_lt [] x i h = absurd (omega arith)
  get_elem?-snoc_lt (y ∷ xs) x zero h = refl
  get_elem?-snoc_lt (y ∷ xs) x (suc i) h = get_elem?-snoc_lt xs x i (omega arith)

  pub get_elem?-snoc_eq :
      (xs : List A) (x : A) (i : ℕ) → i ≡ length xs → get_elem? (xs ++ x ∷ []) i ≡ some x
  get_elem?-snoc_eq [] x zero h = refl
  get_elem?-snoc_eq [] x (suc i) h = absurd (omega arith)
  get_elem?-snoc_eq (y ∷ xs) x zero h = absurd (omega arith)
  get_elem?-snoc_eq (y ∷ xs) x (suc i) h = get_elem?-snoc_eq xs x i (omega arith)

  pub get_elem?-tail : (xs : List A) (i : ℕ) → get_elem? (tail xs) i ≡ get_elem? xs (suc i)
  get_elem?-tail [] i = refl
  get_elem?-tail (x ∷ xs) i = refl

  pub length-tail : (xs : List A) → length (tail xs) ≡ length xs - 1
  length-tail [] = omega arith
  length-tail (x ∷ xs) = omega arith

  pub length-init : (xs : List A) → length (init xs) ≡ length xs - 1
  length-init [] = omega arith
  length-init (x ∷ []) = omega arith
  length-init (x ∷ y ∷ ys) = omega (arith, length-init (y ∷ ys))

  pub get_elem?-init_lt :
      (xs : List A) (i : ℕ) → i < length xs - 1 → get_elem? (init xs) i ≡ get_elem? xs i
  get_elem?-init_lt [] i h = refl
  get_elem?-init_lt (x ∷ []) i h = absurd (omega arith)
  get_elem?-init_lt (x ∷ y ∷ ys) zero h = refl
  get_elem?-init_lt (x ∷ y ∷ ys) (suc i) h = get_elem?-init_lt (y ∷ ys) i (omega arith)

  pub length-snoc : (xs : List A) (x : A) → length (xs ++ x ∷ []) ≡ length xs + 1
  length-snoc xs x = omega (arith, length-append xs (x ∷ []))
