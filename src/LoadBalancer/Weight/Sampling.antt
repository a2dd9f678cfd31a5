-- ===== src/LoadBalancer/Weight/Sampling.antt =====
-- When `Update` ends the program, and when it cannot.
use lib_net_co_rpc.Prelude.{
  ℕ, zero, suc, ◌+◌, ◌-◌, ◌%◌, ◌^◌, ◌<◌, ◌≡◌, refl, sym, ap, ◌∙◌, false, ◌||◌, Option, none, some,
  List, [], ◌∷◌, arith, ltb, ◌==◌, if◌then◌else◌, inl, inr, Bool-cases, length, get_elem?,
}
use lib_net_co_rpc.Prelude.Int.{ℤ, pos, ◌+ℤ◌, ◌-ℤ◌, leb_ℤ, ltb_ℤ, eqb_ℤ}
use mathlib.Core.Path.{subst}
use native.Mathlib.Nat.{mod-eq_of_lt}
use lib_net_co_rpc.BoundedQueue.{BoundedQueue, elim_push, u32, mod_cap, top, bottom, size}
use lib_net_co_rpc.BoundedQueue.Deque
use lib_net_co_rpc.BoundedQueue.Deque.{length-snoc, get_elem?-snoc_eq, get_elem?-none}
use lib_net_co_rpc.BoundedQueue.Represents.{Represents}
use lib_net_co_rpc.BoundedQueue.Refine.{apply, elim_push_op, apply-Agrees}
use lib_net_co_rpc.BoundedQueue.Slots.{slot-after}
use lib_net_co_rpc.LoadBalancer.Weight.{
  Weight, TimeInfo, entry, sample, measure_at, measure, update, disabled, reset_weight, Outcome,
  done, fault, rebase,
}

module _ {q : BoundedQueue TimeInfo} {xs : List TimeInfo} (r : Represents q xs) where
  open r use {small, start_in, counts, fits, slots}

  slot-zero : (q.start + 0) % q.cap ≡ q.start
  slot-zero = let e : q.start + 0 ≡ q.start = omega arith in rw e (mod-eq_of_lt start_in)

  -- what `top()` and `bottom()` of a queue point to
  pub entry-top : entry q (top q) ≡ get_elem? xs 0
  unfolding entry top
  entry-top = elim (Bool-cases (q.count == 0)) [
    | inl e ↦ rw (e, entry) (sym (get_elem?-none xs 0 (ground (arith, counts))))
    | inr e ↦ rw (e, entry) (ap q.items (sym slot-zero) ∙ slots 0 (omega arith))
  ]

  pub entry-bottom : entry q (bottom q) ≡ Deque.last? xs
  unfolding entry bottom
  entry-bottom = elim (Bool-cases (q.count == 0)) [
    | inl e ↦ rw (e, entry) (sym (get_elem?-none xs (length xs - 1) (ground (arith, counts))))
    | inr e ↦
        let p : 0 < length xs = ground (arith, counts) in
        let b : u32 (u32 (q.start + q.count) + 2 ^ 32 - 1) ≡ u32 (q.start + (length xs - 1)) =
          omega arith in
        rw (e, entry)
          (ap q.items (ap (λ k. mod_cap k q.cap) b ∙ slot-after r (length xs - 1) (omega arith))
            ∙ slots (length xs - 1) (omega arith))
  ]

time_q-reset_weight :
    (index : ℕ) (now : ℤ) (w : Weight) → (reset_weight index now w).1.time_q ≡ w.time_q
unfolding reset_weight
time_q-reset_weight index now w = ground arith

time_q-rebase :
    (index : ℕ) (qps end : ℤ) (w : Weight) → (rebase index qps end w).1.time_q ≡ w.time_q
unfolding rebase
time_q-rebase index qps end w = elim (Bool-cases (eqb_ℤ w.avg_latency (pos 0))) [
  | inl e ↦ rw e
  | inr e ↦ rw e (time_q-reset_weight index end _)
]

-- The program goes on, and the sample queue holds `xs`.
abbrev pub Completes : List TimeInfo → Outcome (ℤ × Weight) → Type 0
Completes xs (done v) = Represents v.1.time_q xs
Completes xs (fault f) = ⊥

-- With at least one sample, and with one sample only if it was taken now, the measurement ends.
pub measure_at-Completes :
    (index : ℕ) (end : ℤ) (w : Weight) (xs : List TimeInfo) (first last : TimeInfo)
    → Represents w.time_q xs
    → ((length xs ≡ 1) → ltb_ℤ first.end_time_us end ≡ false)
    → Completes xs (measure_at (some first) (some last) index end w)
unfolding measure_at size
measure_at-Completes index end w xs first last r one =
    elim (Bool-cases (ltb_ℤ first.end_time_us end)) [
      | inl moved ↦ elim (Bool-cases (w.time_q.count == 1)) [
        | inl single ↦
            absurd
              (cc (one (sym r.counts ∙ (let e : w.time_q.count ≡ 1 = ground arith in e)), moved))
        | inr more ↦
            rw (moved, more) (subst (λ q. Represents q xs) (sym (time_q-rebase index _ end _)) r)
      ]
      | inr still ↦ elim (Bool-cases (w.time_q.count == 1)) [
        | inl single ↦
            rw (still, single) (subst (λ q. Represents q xs) (sym (time_q-rebase index _ end _)) r)
        | inr more ↦ rw (still, more) r
      ]
    ]

-- The entry that a sample adds: the latencies so far, summed.
abbrev pub new_entry : ℤ → ℤ → Option TimeInfo → TimeInfo
new_entry latency end none = record { latency_sum = latency; end_time_us = end }
new_entry latency end (some last) = record {
  latency_sum = latency +ℤ last.latency_sum;
  end_time_us = end;
}

abbrev pub sampled : ℕ → ℤ → ℤ → List TimeInfo → List TimeInfo
sampled limit latency end xs = Deque.elim_push limit (new_entry latency end (Deque.last? xs)) xs

sample-Represents :
    (latency end : ℤ) (q : BoundedQueue TimeInfo) (xs : List TimeInfo)
    → Represents q xs
    → Represents (sample latency end q) (sampled q.cap latency end xs)
unfolding sample apply
sample-Represents latency end q xs r = go (entry q (bottom q)) (entry-bottom r)
  where
    go :
        (o : Option TimeInfo)
        → o ≡ Deque.last? xs
        → Represents
            (elim o [
              | none ↦ elim_push (new_entry latency end none) q
              | some last ↦ elim_push (new_entry latency end (some last)) q
            ])
            (sampled q.cap latency end xs)
    go none e =
        subst
          (λ o.
            Represents (elim_push (new_entry latency end none) q)
              (Deque.elim_push q.cap (new_entry latency end o) xs))
          e (apply-Agrees (elim_push_op (new_entry latency end none)) xs r).holds
    go (some last) e =
        subst
          (λ o.
            Represents (elim_push (new_entry latency end (some last)) q)
              (Deque.elim_push q.cap (new_entry latency end o) xs))
          e (apply-Agrees (elim_push_op (new_entry latency end (some last))) xs r).holds

pub item_at :
    (xs : List TimeInfo) (i : ℕ) → i < length xs → (a : TimeInfo) × (get_elem? xs i ≡ some a)
item_at [] i h = absurd (omega arith)
item_at (x ∷ xs) zero h = (x, refl)
item_at (x ∷ xs) (suc i) h = item_at xs i (omega arith)

-- the first of one item after a push is the item pushed
first_of_one :
    (limit : ℕ) (s : TimeInfo) (xs : List TimeInfo)
    → length (Deque.elim_push limit s xs) ≡ 1
    → get_elem? (Deque.elim_push limit s xs) 0 ≡ some s
first_of_one limit s xs h = get_elem?-snoc_eq _ s 0 (omega (arith, length-snoc _ s))

eq_of_some : (a b : TimeInfo) → some a ≡ some b → a ≡ b
eq_of_some a b e = cc

end_of_first :
    (limit : ℕ) (latency end : ℤ) (xs : List TimeInfo) (a : TimeInfo)
    → get_elem? (sampled limit latency end xs) 0 ≡ some a
    → length (sampled limit latency end xs) ≡ 1
    → ltb_ℤ a.end_time_us end ≡ false
end_of_first limit latency end xs a e one =
    let s = new_entry latency end (Deque.last? xs) in
    let same : some a ≡ some s = sym e ∙ first_of_one limit s xs one in
    rw (ap (λ (t : TimeInfo). t.end_time_us) (eq_of_some a s same), end_of_new (Deque.last? xs))
      (ground arith)
  where
    end_of_new : (o : Option TimeInfo) → (new_entry latency end o).end_time_us ≡ end
    end_of_new none = refl
    end_of_new (some last) = refl

pub measure-Completes :
    (index : ℕ) (latency end : ℤ) (w : Weight) (q : BoundedQueue TimeInfo) (xs : List TimeInfo)
    → Represents q xs
    → Completes
        (sampled q.cap latency end xs)
        (measure index end (record w { time_q = sample latency end q }))
unfolding measure
measure-Completes index latency end w q xs r =
    let ys = sampled q.cap latency end xs in
    let t = sample-Represents latency end q xs r in
    let n : length ys ≡ length (if ltb (length xs) q.cap then xs else Deque.tail xs) + 1 =
      length-snoc _ _ in
    let (a, e) = item_at ys 0 (omega arith) in
    let (b, f) = item_at ys (length ys - 1) (omega arith) in
    rw (entry-top t, entry-bottom t, e, f)
      (measure_at-Completes index end _ ys a b t (end_of_first q.cap latency end xs a e))

-- Feedback on a call that succeeded never ends the program, for any sample queue that holds a list
-- of samples. It adds the sample of a call that took some time to a weight that is not disabled,
-- dropping the oldest of a full queue, and leaves the queue alone in the other cases.
pub update-Completes :
    (end begin : ℤ) (index : ℕ) (w : Weight) (xs : List TimeInfo)
    → Represents w.time_q xs
    → Completes
        (if disabled w || leb_ℤ (end -ℤ begin) (pos 0)
          then xs
          else sampled w.time_q.cap (end -ℤ begin) end xs)
        (update end begin (pos 0) index w)
unfolding update
update-Completes end begin index w xs r = elim (Bool-cases (disabled w)) [
  | inl off ↦ rw off r
  | inr on ↦ elim (Bool-cases (leb_ℤ (end -ℤ begin) (pos 0))) [
    | inl skewed ↦ rw (on, skewed) r
    | inr took ↦
        rw (on, took)
          (measure-Completes index (end -ℤ begin) end
            (record w {
              begin_time_sum = w.begin_time_sum -ℤ begin;
              begin_time_count = w.begin_time_count -ℤ pos 1;
            })
            w.time_q xs r)
  ]
]
