-- ===== src/BoundedQueue/Slots.antt =====
-- The slots after a push or a pop at either end, for `BoundedQueue` of the queue's memory.
use lib_net_co_rpc.Prelude.{
  ℕ, suc, ◌+◌, ◌-◌, ◌%◌, ◌≤◌, ◌<◌, ◌≡◌, ◌≢◌, ◌∙◌, sym, ap, List, [], ◌∷◌, ◌++◌, Option, none, some,
  arith, length, get_elem?, dec_lt,
}
use native.Mathlib.Decide.{ℕ_discrete}
use native.Mathlib.Nat.{mod-eq_of_lt}
use lib_net_co_rpc.BoundedQueue.{BoundedQueue, u32, mod_cap, write}
use lib_net_co_rpc.BoundedQueue.Deque
use lib_net_co_rpc.BoundedQueue.Deque.{
  get_elem?-none, get_elem?-snoc_lt, get_elem?-snoc_eq, get_elem?-tail, length-tail, length-snoc,
}
use lib_net_co_rpc.BoundedQueue.Represents.{
  Represents, mod_cap-mod, round-ge, round_injective, round-suc,
}

module _ {ℓ} {A : Type ℓ} where
  pub write_hit : (f : ℕ → Option A) (v : Option A) (i j : ℕ) → i ≡ j → write f i v j ≡ v
  write_hit f v i j e = ground arith

  pub write_miss : (f : ℕ → Option A) (v : Option A) (i j : ℕ) → i ≢ j → write f i v j ≡ f j
  write_miss f v i j e = ground arith

  module _ {q : BoundedQueue A} {xs : List A} (r : Represents q xs) where
    open r use {small, start_in, counts, fits, slots}

    -- the slot behind the last item, as the code computes it
    pub slot-after : (n : ℕ) → n ≤ q.cap → mod_cap (u32 (q.start + n)) q.cap ≡ (q.start + n) % q.cap
    slot-after n h =
        let e : u32 (q.start + n) ≡ q.start + n = omega arith in
        rw e (mod_cap-mod (q.start + n) q.cap (omega arith))

    snoc-slots :
        (x : A) (i : ℕ)
        → length xs < q.cap
        → i < q.cap
        → write q.items (mod_cap (u32 (q.start + q.count)) q.cap) (some x) ((q.start + i) % q.cap)
          ≡ get_elem? (xs ++ x ∷ []) i
    snoc-slots x i room h = elim (ℕ_discrete i (length xs)) [
      | yes e ↦
          write_hit q.items (some x) _ _
            (slot-after q.count (omega arith) ∙ ap (λ k. (q.start + k) % q.cap) (omega arith))
          ∙ sym (get_elem?-snoc_eq xs x i e)
      | no ne ↦
          write_miss q.items (some x) _ _ (λ e. ne (
            sym (
              round_injective q.cap q.start (length xs) i start_in room h (
                ap (λ k. (q.start + k) % q.cap) (sym counts)
                ∙ sym (slot-after q.count (omega arith))
                ∙ e))))
          ∙ slots i h
          ∙ elim (dec_lt i (length xs)) [
            | yes lt ↦ sym (get_elem?-snoc_lt xs x i lt)
            | no ge ↦
                get_elem?-none xs i (omega arith)
                ∙ sym (get_elem?-none (xs ++ x ∷ []) i (omega (arith, length-snoc xs x)))
          ]
    ]

    pub snoc-Represents :
        (x : A)
        → length xs < q.cap
        → Represents
            (record q {
              items = write q.items (mod_cap (u32 (q.start + q.count)) q.cap) (some x);
              count = u32 (q.count + 1);
            })
            (xs ++ x ∷ [])
    snoc-Represents x room = record {
      small = small;
      start_in = start_in;
      counts = omega (arith, length-snoc xs x);
      fits = omega (arith, length-snoc xs x);
      slots = λ i h. snoc-slots x i room h;
    }

    -- what stays when the top item goes: the slots seen from the next start
    abbrev pub next_start : ℕ
    next_start = mod_cap (u32 (q.start + 1)) q.cap

    pub next_start-mod : next_start ≡ (q.start + 1) % q.cap
    next_start-mod = slot-after 1 (omega arith)

    pub step-slot : (i : ℕ) → i < q.cap → (next_start + i) % q.cap ≡ (q.start + suc i) % q.cap
    step-slot i h = rw next_start-mod (round-suc q.cap q.start i start_in h)

    pub last-slot : (i : ℕ) → suc i ≡ q.cap → (q.start + suc i) % q.cap ≡ q.start
    last-slot i e =
        omega (arith, round-ge q.cap q.start (suc i) start_in (omega arith) (omega arith))

    start-slot : (q.start + 0) % q.cap ≡ q.start
    start-slot = let e : q.start + 0 ≡ q.start = omega arith in rw e (mod-eq_of_lt start_in)

    pub tail-slots :
        (v : Option A) (i : ℕ)
        → suc i < q.cap
        → write q.items q.start v ((next_start + i) % q.cap) ≡ get_elem? (Deque.tail xs) i
    tail-slots v i h =
        write_miss q.items v _ _ (λ e. absurd (
          let j : 0 ≡ suc i =
            round_injective q.cap q.start 0 (suc i) start_in (omega arith) h
              (start-slot ∙ e ∙ step-slot i (omega arith)) in
          omega arith))
        ∙ ap q.items (step-slot i (omega arith))
        ∙ slots (suc i) h
        ∙ sym (get_elem?-tail xs i)

    pub tail-Represents :
        Represents
          (record q { count = q.count - 1; items = write q.items q.start none; start = next_start })
          (Deque.tail xs)
    tail-Represents = record {
      small = small;
      start_in = let p : 0 < q.cap = omega arith in rw next_start-mod (omega arith);
      counts = omega (arith, length-tail xs);
      fits = omega (arith, length-tail xs);
      slots = λ i h. elim (dec_lt (suc i) q.cap) [
        | yes lt ↦ tail-slots none i lt
        | no ge ↦
            write_hit q.items none _ _ (sym (step-slot i h ∙ last-slot i (omega arith)))
            ∙ sym (get_elem?-none (Deque.tail xs) i (omega (arith, length-tail xs)))
      ];
    }
