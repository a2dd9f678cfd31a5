-- ===== src/BoundedQueue/Refine.antt =====
-- Every operation of `BoundedQueue` is that of the deque which its slots hold.
use lib_net_co_rpc.Prelude.{
  ℕ, zero, suc, ◌+◌, ◌-◌, ◌%◌, ◌^◌, ◌≤◌, ◌<◌, ◌≡◌, refl, ◌∙◌, sym, ap, List, [], ◌∷◌, Option, none,
  some, Bool, true, false, arith, length, get_elem?, ltb, ◌==◌, if◌then◌else◌, inl, inr, Bool-cases,
}
use lib_net_co_rpc.BoundedQueue.{
  BoundedQueue, u32, mod_cap, init_capacity, push, elim_push, push_top, pop, pop_bottom,
  push_default, push_top_default, pop_item, pop_bottom_item, top_at, bottom_at, clear,
}
use lib_net_co_rpc.BoundedQueue.Deque
use lib_net_co_rpc.BoundedQueue.Deque.{get_elem?-none}
use lib_net_co_rpc.BoundedQueue.Represents.{Represents}
use lib_net_co_rpc.BoundedQueue.Slots.{slot-after, snoc-Represents, tail-Represents}
use lib_net_co_rpc.BoundedQueue.Ends.{
  replace-Represents, push_top-Represents, pop_bottom-Represents, bottom_slot-mod, clear-Represents,
}
use mathlib.Core.Path.{ap₂, subst}
use native.Mathlib.Nat.{mod-eq_of_lt}

-- The queue of a client that calls these operations in any order, with what each call returns.
pub data Op {ℓ} (A : Type ℓ) : Type ℓ where
  push_op elim_push_op push_top_op : A → Op A
  pop_op pop_bottom_op clear_op : Op A

abbrev pub Reply {ℓ} : Type ℓ → Type ℓ
Reply A = Bool × Option A

module _ {ℓ} {A : Type ℓ} where
  unfoldable pub apply : Op A → BoundedQueue A → Reply A × BoundedQueue A
  apply (push_op x) q = let (b, q') = push x q in ((b, none), q')
  apply (elim_push_op x) q = ((true, none), elim_push x q)
  apply (push_top_op x) q = let (b, q') = push_top x q in ((b, none), q')
  apply pop_op q = let (b, x, q') = pop_item q in ((b, x), q')
  apply pop_bottom_op q = let (b, x, q') = pop_bottom_item q in ((b, x), q')
  apply clear_op q = ((true, none), clear q)

  unfoldable pub run : List (Op A) → BoundedQueue A → List (Reply A) × BoundedQueue A
  run [] q = ([], q)
  run (o ∷ os) q =
      let (reply, q') = apply o q in let (replies, last) = run os q' in (reply ∷ replies, last)

  -- the same calls on a deque of at most `cap` items
  abbrev pub apply_deque : ℕ → Op A → List A → Reply A × List A
  apply_deque limit (push_op x) xs = let (b, ys) = Deque.push limit x xs in ((b, none), ys)
  apply_deque limit (elim_push_op x) xs = ((true, none), Deque.elim_push limit x xs)
  apply_deque limit (push_top_op x) xs = let (b, ys) = Deque.push_top limit x xs in ((b, none), ys)
  apply_deque limit pop_op xs = let (b, x, ys) = Deque.pop xs in ((b, x), ys)
  apply_deque limit pop_bottom_op xs = let (b, x, ys) = Deque.pop_bottom xs in ((b, x), ys)
  apply_deque limit clear_op xs = ((true, none), [])

  abbrev pub run_deque : ℕ → List (Op A) → List A → List (Reply A) × List A
  run_deque limit [] xs = ([], xs)
  run_deque limit (o ∷ os) xs =
      let (reply, ys) = apply_deque limit o xs in
      let (replies, last) = run_deque limit os ys in (reply ∷ replies, last)

  -- `q'` holds what the deque has become, says the same, and has the same capacity.
  pub record Agrees (limit : ℕ) (o : Op A) (q : BoundedQueue A) (xs : List A) : Type ℓ where
    pub reply : (apply o q).0 ≡ (apply_deque limit o xs).0
    pub holds : Represents (apply o q).1 (apply_deque limit o xs).1
    pub same_cap : (apply o q).1.cap ≡ q.cap

module _ {ℓ} {A : Type ℓ} {q : BoundedQueue A} where
  push-Agrees : {xs : List A} (x : A) → Represents q xs → Agrees q.cap (push_op x) q xs
  unfolding apply push
  push-Agrees {xs} x r = elim (Bool-cases (ltb (length xs) q.cap)) [
    | inl room ↦
        let e : ltb q.count q.cap ≡ true = ap (λ n. ltb n q.cap) r.counts ∙ room in
        record {
          reply = rw (e, room);
          holds = rw (e, room) (snoc-Represents r x (ground arith));
          same_cap = rw e;
        }
    | inr full ↦
        let e : ltb q.count q.cap ≡ false = ap (λ n. ltb n q.cap) r.counts ∙ full in
        record { reply = rw (e, full); holds = rw (e, full) r; same_cap = rw e }
  ]

  elim_push-Agrees : {xs : List A} (x : A) → Represents q xs → Agrees q.cap (elim_push_op x) q xs
  unfolding apply elim_push
  elim_push-Agrees {xs} x r = elim (Bool-cases (ltb (length xs) q.cap)) [
    | inl room ↦
        let e : ltb q.count q.cap ≡ true = ap (λ n. ltb n q.cap) r.counts ∙ room in
        record {
          reply = refl;
          holds = rw (e, room) (snoc-Represents r x (ground arith));
          same_cap = rw e;
        }
    | inr full ↦
        let e : ltb q.count q.cap ≡ false = ap (λ n. ltb n q.cap) r.counts ∙ full in
        record {
          reply = refl;
          holds = rw (e, full) (replace-Represents r x (ground (arith, r.fits)));
          same_cap = rw e;
        }
  ]

  push_top-Agrees : {xs : List A} (x : A) → Represents q xs → Agrees q.cap (push_top_op x) q xs
  unfolding apply push_top
  push_top-Agrees {xs} x r = elim (Bool-cases (ltb (length xs) q.cap)) [
    | inl room ↦
        let e : ltb q.count q.cap ≡ true = ap (λ n. ltb n q.cap) r.counts ∙ room in
        record {
          reply = rw (e, room);
          holds = rw (e, room) (push_top-Represents r x (ground arith));
          same_cap = rw e;
        }
    | inr full ↦
        let e : ltb q.count q.cap ≡ false = ap (λ n. ltb n q.cap) r.counts ∙ full in
        record { reply = rw (e, full); holds = rw (e, full) r; same_cap = rw e }
  ]

  pop-Agrees : (xs : List A) → Represents q xs → Agrees q.cap pop_op q xs
  unfolding apply pop_item
  pop-Agrees [] r =
      let e : (q.count == 0) ≡ true = ground (arith, r.counts) in
      record { reply = rw e; holds = rw e r; same_cap = rw e }
  pop-Agrees (x ∷ xs) r =
      let e : (q.count == 0) ≡ false = ground (arith, r.counts) in
      let z : (q.start + 0) % q.cap ≡ q.start =
        (let s : q.start + 0 ≡ q.start = omega arith in rw s (mod-eq_of_lt r.start_in)) in
      let s : q.items q.start ≡ some x =
        ap q.items (sym z) ∙ r.slots 0 (omega (arith, r.start_in)) in
      record { reply = rw (e, s); holds = rw e (tail-Represents r); same_cap = rw e }

  pop_bottom-Agrees : (xs : List A) → Represents q xs → Agrees q.cap pop_bottom_op q xs
  unfolding apply pop_bottom_item
  pop_bottom-Agrees [] r =
      let e : (q.count == 0) ≡ true = ground (arith, r.counts) in
      record { reply = rw e; holds = rw e r; same_cap = rw e }
  pop_bottom-Agrees (x ∷ xs) r =
      let e : (q.count == 0) ≡ false = ground (arith, r.counts) in
      let s : q.items (mod_cap (u32 (q.start + (q.count - 1))) q.cap)
          ≡ get_elem? (x ∷ xs) (suc (length xs) - 1) =
        ap q.items (bottom_slot-mod r (omega arith))
        ∙ r.slots (suc (length xs) - 1) (omega (arith, r.fits)) in
      record {
        reply = rw (e, s);
        holds = rw e (pop_bottom-Represents r (omega arith));
        same_cap = rw e;
      }

  clear-Agrees : (xs : List A) → Represents q xs → Agrees q.cap clear_op q xs
  unfolding apply clear
  clear-Agrees xs r = record { reply = refl; holds = clear-Represents r; same_cap = refl }

  -- Each call agrees with the deque's, on every branch.
  pub apply-Agrees : (o : Op A) (xs : List A) → Represents q xs → Agrees q.cap o q xs
  apply-Agrees (push_op x) xs r = push-Agrees x r
  apply-Agrees (elim_push_op x) xs r = elim_push-Agrees x r
  apply-Agrees (push_top_op x) xs r = push_top-Agrees x r
  apply-Agrees pop_op xs r = pop-Agrees xs r
  apply-Agrees pop_bottom_op xs r = pop_bottom-Agrees xs r
  apply-Agrees clear_op xs r = clear-Agrees xs r

module _ {ℓ} {A : Type ℓ} where
  -- the object that a `T*` into the queue points to
  abbrev pub deref : BoundedQueue A → Option ℕ → Option A
  deref q none = none
  deref q (some p) = q.items p

  -- A `T*` that is to point to an item does so, and one that is to point to none is `NULL`.
  pub data PointsTo (q : BoundedQueue A) : Option A → Option ℕ → Type ℓ where
    points : {a : A} (slot : ℕ) → q.items slot ≡ some a → PointsTo q (some a) (some slot)
    null : PointsTo q none none

  item_at : (xs : List A) (i : ℕ) → i < length xs → (a : A) × (get_elem? xs i ≡ some a)
  item_at [] i h = absurd (omega arith)
  item_at (x ∷ xs) zero h = (x, refl)
  item_at (x ∷ xs) (suc i) h = item_at xs i (omega arith)

  PointsTo-slot :
      (q : BoundedQueue A) (xs : List A) (i slot : ℕ)
      → i < length xs
      → q.items slot ≡ get_elem? xs i
      → PointsTo q (get_elem? xs i) (some slot)
  PointsTo-slot q xs i slot h e =
      let (a, f) = item_at xs i h in
      subst (λ o. PointsTo q o (some slot)) (sym f) (points slot (e ∙ f))

  -- `top(index)` points to the item `index` places from the top, and `bottom(index)` to the one
  -- `index` places from the bottom. They are `NULL` where there is no such item, and only there.
  pub access_refines :
      (q : BoundedQueue A) (xs : List A) (index : ℕ)
      → Represents q xs
      → PointsTo q (get_elem? xs index) (top_at index q)
        × PointsTo q
            (if ltb index (length xs) then get_elem? xs (length xs - index - 1) else none)
            (bottom_at index q)
  unfolding top_at bottom_at
  access_refines q xs index r = elim (Bool-cases (ltb index (length xs))) [
    | inl inside ↦
        let lt : index < length xs = ground arith in
        let e : ltb index q.count ≡ true = ap (ltb index) r.counts ∙ inside in
        let b : u32 (u32 (q.start + q.count) + 2 ^ 64 - index - 1)
            ≡ u32 (q.start + (length xs - index - 1)) =
          omega (arith, r.small, r.counts, r.fits, r.start_in) in
        (
          rw e (
              PointsTo-slot q xs index _ lt (
                ap q.items (slot-after r index (omega (arith, r.fits)))
                ∙ r.slots index (omega (arith, r.fits)))),
          rw (e, inside)
              (PointsTo-slot q xs (length xs - index - 1) _ (omega arith) (
                ap q.items (
                  ap (λ k. mod_cap k q.cap) b
                  ∙ slot-after r (length xs - index - 1) (omega (arith, r.fits)))
                ∙ r.slots (length xs - index - 1) (omega (arith, r.fits)))),
        )
    | inr outside ↦
        let e : ltb index q.count ≡ false = ap (ltb index) r.counts ∙ outside in
        (rw (e, get_elem?-none xs index (ground arith)) null, rw (e, outside) null)
  ]

  -- The variants of an operation leave the same queue: `pop()` as `pop(T*)`, `pop_bottom()` as
  -- `pop_bottom(T*)`, `push()` and `push_top()` as a push of the default item. A push of a default
  -- item returns its slot exactly when the queue has room.
  pub variants_agree :
      (q : BoundedQueue A) (default : A)
      → (pop q ≡ ((pop_item q).0, (pop_item q).2))
        × (pop_bottom q ≡ ((pop_bottom_item q).0, (pop_bottom_item q).2))
        × ((push_default default q).1 ≡ (push default q).1)
        × ((push_top_default default q).1 ≡ (push_top default q).1)
        × (deref (push_default default q).1 (push_default default q).0
            ≡ (if (push default q).0 then some default else none))
        × (deref (push_top_default default q).1 (push_top_default default q).0
            ≡ (if (push_top default q).0 then some default else none))
  unfolding pop pop_item pop_bottom pop_bottom_item push_default push push_top_default push_top
  variants_agree q default = (
    elim (Bool-cases (q.count == 0)) [ inl e ↦ rw e | inr e ↦ rw e ],
    elim (Bool-cases (q.count == 0)) [ inl e ↦ rw e | inr e ↦ rw e ],
    elim (Bool-cases (ltb q.count q.cap)) [ inl e ↦ rw e | inr e ↦ rw e ],
    elim (Bool-cases (ltb q.count q.cap)) [ inl e ↦ rw e | inr e ↦ rw e ],
    elim (Bool-cases (ltb q.count q.cap)) [ inl e ↦ rw e (ground arith) | inr e ↦ rw e ],
    elim (Bool-cases (ltb q.count q.cap)) [ inl e ↦ rw e (ground arith) | inr e ↦ rw e ],
  )

  -- A fresh queue of 1 to `2 ^ 31` items represents the empty deque.
  pub init_capacity-Represents :
      (n : ℕ) (ok : Bool)
      → 0 < n
      → n ≤ 2 ^ 31
      → Represents (init_capacity {A = A} n ok) [] × ((init_capacity {A = A} n ok).cap ≡ n)
  unfolding init_capacity
  init_capacity-Represents n ok h l =
      let e : u32 n ≡ n = omega arith in
      (
        record {
          small = omega arith;
          start_in = omega arith;
          counts = refl;
          fits = omega arith;
          slots = λ i h. refl;
        },
        e,
      )

  run_refines_at :
      (limit : ℕ) (os : List (Op A)) (q : BoundedQueue A) (xs : List A)
      → q.cap ≡ limit
      → Represents q xs
      → ((run os q).0 ≡ (run_deque limit os xs).0)
        × Represents (run os q).1 (run_deque limit os xs).1
  unfolding run
  run_refines_at limit [] q xs e r = (refl, r)
  run_refines_at limit (o ∷ os) q xs e r =
      let a : Agrees limit o q xs = subst (λ n. Agrees n o q xs) e (apply-Agrees o xs r) in
      let (replies, last) =
        run_refines_at limit os (apply o q).1 (apply_deque limit o xs).1 (a.same_cap ∙ e) a.holds in
      (ap₂ ◌∷◌ a.reply replies, last)

  -- Any sequence of pushes, pops at either end, overwriting pushes and clears on a queue that
  -- represents a list returns what the same calls on a deque of at most `cap` items return, and
  -- leaves the queue representing the deque's last state.
  pub run_refines :
      (os : List (Op A)) (q : BoundedQueue A) (xs : List A)
      → Represents q xs
      → ((run os q).0 ≡ (run_deque q.cap os xs).0)
        × Represents (run os q).1 (run_deque q.cap os xs).1
  run_refines os q xs r = run_refines_at q.cap os q xs refl r
