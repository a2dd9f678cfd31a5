-- ===== src/BoundedQueue/Ends.antt =====
-- The slots after `push_top`, `pop_bottom`, a push on a full queue and `clear`.
use lib_net_co_rpc.Prelude.{
  ℕ, zero, suc, ◌+◌, ◌-◌, ◌%◌, ◌≤◌, ◌<◌, ◌≡◌, refl, ◌∙◌, sym, ap, List, [], ◌∷◌, ◌++◌, none, some,
  arith, length, get_elem?, dec_lt,
}
use native.Mathlib.Decide.{ℕ_discrete}
use native.Mathlib.Nat.{mod-eq_of_lt}
use lib_net_co_rpc.BoundedQueue.{
  BoundedQueue, u32, mod_cap, write, top_slot, bottom_slot, clear_loop, clear,
}
use lib_net_co_rpc.BoundedQueue.Deque
use lib_net_co_rpc.BoundedQueue.Deque.{
  get_elem?-none, get_elem?-snoc_lt, get_elem?-snoc_eq, length-tail, length-snoc, length-init,
  get_elem?-init_lt,
}
use lib_net_co_rpc.BoundedQueue.Represents.{
  Represents, round-lt, round-ge, round_injective, round-suc,
}
use lib_net_co_rpc.BoundedQueue.Slots.{
  write_hit, write_miss, slot-after, next_start, next_start-mod, step-slot, last-slot, tail-slots,
}

module _ {ℓ} {A : Type ℓ} {q : BoundedQueue A} {xs : List A} (r : Represents q xs) where
  open r use {small, start_in, counts, fits, slots}

  -- A push on a full queue overwrites the top slot, which becomes the last one.
  pub replace-Represents :
      (x : A)
      → length xs ≡ q.cap
      → Represents
          (record q { items = write q.items q.start (some x); start = next_start r })
          (Deque.tail xs ++ x ∷ [])
  replace-Represents x full = record {
    small = small;
    start_in = let p : 0 < q.cap = omega arith in rw (next_start-mod r) (omega arith);
    counts = omega (arith, length-tail xs, length-snoc (Deque.tail xs) x);
    fits = omega (arith, length-tail xs, length-snoc (Deque.tail xs) x);
    slots = λ i h. elim (dec_lt (suc i) q.cap) [
      | yes lt ↦
          tail-slots r (some x) i lt
          ∙ sym (get_elem?-snoc_lt (Deque.tail xs) x i (omega (arith, length-tail xs)))
      | no ge ↦
          write_hit q.items (some x) _ _ (sym (step-slot r i h ∙ last-slot r i (omega arith)))
          ∙ sym (get_elem?-snoc_eq (Deque.tail xs) x i (omega (arith, length-tail xs)))
    ];
  }

  top_slot-lt : top_slot q < q.cap
  top_slot-lt = ground arith

  top_slot-suc : (top_slot q + 1) % q.cap ≡ q.start
  top_slot-suc = elim (ℕ_discrete q.start 0) [
    | yes e ↦
        let f : top_slot q ≡ q.cap - 1 = ground arith in
        rw f (omega (arith, round-ge q.cap (q.cap - 1) 1 (omega arith) (omega arith) (omega arith)))
    | no ne ↦ let f : top_slot q + 1 ≡ q.start = ground arith in rw f (mod-eq_of_lt start_in)
  ]

  push_top-slots :
      (x : A) (i : ℕ)
      → length xs < q.cap
      → i < q.cap
      → write q.items (top_slot q) (some x) ((top_slot q + i) % q.cap) ≡ get_elem? (x ∷ xs) i
  push_top-slots x zero room h =
      write_hit q.items (some x) _ _
        (let e : top_slot q + 0 ≡ top_slot q = omega arith in rw e (sym (mod-eq_of_lt top_slot-lt)))
  push_top-slots x (suc i) room h =
      write_miss q.items (some x) _ _ (λ e. absurd (
        let j : 0 ≡ suc i =
          round_injective q.cap (top_slot q) 0 (suc i) top_slot-lt (omega arith) h (
            round-lt q.cap (top_slot q) 0 (omega (arith, top_slot-lt))
            ∙ (let z : top_slot q + 0 ≡ top_slot q = omega arith in z)
            ∙ e) in
        omega arith))
      ∙ ap q.items (
          sym (round-suc q.cap (top_slot q) i top_slot-lt (omega arith))
          ∙ ap (λ k. (k + i) % q.cap) top_slot-suc)
      ∙ slots i (omega arith)

  pub push_top-Represents :
      (x : A)
      → length xs < q.cap
      → Represents
          (record q {
            start = top_slot q;
            count = u32 (q.count + 1);
            items = write q.items (top_slot q) (some x);
          })
          (x ∷ xs)
  push_top-Represents x room = record {
    small = small;
    start_in = top_slot-lt;
    counts = omega arith;
    fits = omega arith;
    slots = λ i h. push_top-slots x i room h;
  }

  -- the slot of the last item
  pub bottom_slot-mod : 0 < length xs → bottom_slot q ≡ (q.start + (length xs - 1)) % q.cap
  bottom_slot-mod h =
      slot-after r (q.count - 1) (omega arith) ∙ ap (λ k. (q.start + (k - 1)) % q.cap) counts

  init-slots :
      (i : ℕ)
      → 0 < length xs
      → i < q.cap
      → write q.items (bottom_slot q) none ((q.start + i) % q.cap) ≡ get_elem? (Deque.init xs) i
  init-slots i some_left h = elim (ℕ_discrete i (length xs - 1)) [
    | yes e ↦
        write_hit q.items none _ _
          (bottom_slot-mod some_left ∙ ap (λ k. (q.start + k) % q.cap) (sym e))
        ∙ sym (get_elem?-none (Deque.init xs) i (omega (arith, length-init xs)))
    | no ne ↦
        write_miss q.items none _ _ (λ e. ne (
          sym (
            round_injective q.cap q.start (length xs - 1) i start_in (omega arith) h
              (sym (bottom_slot-mod some_left) ∙ e))))
        ∙ slots i h
        ∙ elim (dec_lt i (length xs - 1)) [
          | yes lt ↦ sym (get_elem?-init_lt xs i lt)
          | no ge ↦
              get_elem?-none xs i (omega arith)
              ∙ sym (get_elem?-none (Deque.init xs) i (omega (arith, length-init xs)))
        ]
  ]

  pub pop_bottom-Represents :
      0 < length xs
      → Represents
          (record q { count = q.count - 1; items = write q.items (bottom_slot q) none })
          (Deque.init xs)
  pop_bottom-Represents h = record {
    small = small;
    start_in = start_in;
    counts = omega (arith, length-init xs);
    fits = omega (arith, length-init xs);
    slots = λ i l. init-slots i h l;
  }

module _ {ℓ} {A : Type ℓ} where
  -- a raw slot stays raw through the loop of `clear`
  clear_loop-raw : (n i k : ℕ) (q : BoundedQueue A) → q.items k ≡ none → clear_loop n i q k ≡ none
  unfolding clear_loop
  clear_loop-raw zero i k q h = h
  clear_loop-raw (suc n) i k q h = clear_loop-raw n (i + 1) k _ (ground arith)

  -- a slot that a round visits is raw at the end
  clear_loop-visited :
      (n i j : ℕ) (q : BoundedQueue A)
      → i ≤ j
      → j < i + n
      → clear_loop n i q (mod_cap (u32 (q.start + j)) q.cap) ≡ none
  unfolding clear_loop
  clear_loop-visited zero i j q le lt = absurd (omega arith)
  clear_loop-visited (suc n) i j q le lt = elim (ℕ_discrete i j) [
    | yes e ↦
        clear_loop-raw n (i + 1) _ _
          (write_hit q.items none _ _ (ap (λ k. mod_cap (u32 (q.start + k)) q.cap) e))
    | no ne ↦ clear_loop-visited n (i + 1) j _ (omega arith) (omega arith)
  ]

module _ {ℓ} {A : Type ℓ} {q : BoundedQueue A} {xs : List A} (r : Represents q xs) where
  open r use {small, start_in, counts, fits, slots}

  -- how far slot `k` is from `start`
  distance : ℕ → ℕ
  distance k = (k + q.cap - q.start) % q.cap

  distance-lt : (k : ℕ) → distance k < q.cap
  unfolding distance
  distance-lt k = let p : 0 < q.cap = omega arith in omega arith

  at_distance : (k : ℕ) → k < q.cap → (q.start + distance k) % q.cap ≡ k
  unfolding distance
  at_distance k h = elim (dec_lt k q.start) [
    | yes lt ↦
        let e : (k + q.cap - q.start) % q.cap ≡ k + q.cap - q.start = mod-eq_of_lt (omega arith) in
        rw e (
          omega (
            arith,
            round-ge q.cap q.start (k + q.cap - q.start) start_in (omega arith) (omega arith),
          ))
    | no ge ↦
        let s : k + q.cap - q.start ≡ (k - q.start) + q.cap = omega arith in
        let e : ((k - q.start) + q.cap) % q.cap ≡ k - q.start =
          round-ge q.cap (k - q.start) q.cap (omega arith) (omega arith) (omega arith)
          ∙ (let z : k - q.start + q.cap - q.cap ≡ k - q.start = omega arith in z) in
        rw (s, e) (let z : q.start + (k - q.start) ≡ k = omega arith in rw z (mod-eq_of_lt h))
  ]

  clear-slot : (k : ℕ) → k < q.cap → clear_loop q.count 0 q k ≡ none
  clear-slot k h = elim (dec_lt (distance k) q.count) [
    | yes lt ↦
        ap (clear_loop q.count 0 q)
          (sym (slot-after r (distance k) (omega (arith, distance-lt k)) ∙ at_distance k h))
        ∙ clear_loop-visited q.count 0 (distance k) q (omega arith) (omega arith)
    | no ge ↦ clear_loop-raw q.count 0 k q (
        ap q.items (sym (at_distance k h))
        ∙ slots (distance k) (distance-lt k)
        ∙ get_elem?-none xs (distance k) (omega arith))
  ]

  pub clear-Represents : Represents (clear q) []
  unfolding clear
  clear-Represents = record {
    small = small;
    start_in = omega arith;
    counts = refl;
    fits = omega arith;
    slots = λ i h. clear-slot _ (let p : 0 < q.cap = omega arith in omega arith);
  }
