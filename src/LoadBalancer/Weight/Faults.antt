-- ===== src/LoadBalancer/Weight/Faults.antt =====
-- When `Update` ends the program: exactly after a call that failed, with too few samples.
use lib_net_co_rpc.Prelude.{
  ℕ, ◌-◌, ◌≡◌, refl, true, ◌||◌, Option, none, some, List, [], ◌∷◌, arith, ◌==◌, if◌then◌else◌, inl,
  inr, Bool-cases, length,
}
use lib_net_co_rpc.Prelude.Int.{ℤ, pos, ◌-ℤ◌, leb_ℤ, ltb_ℤ, eqb_ℤ}
use lib_net_co_rpc.BoundedQueue.{size}
use lib_net_co_rpc.BoundedQueue.Deque
use lib_net_co_rpc.BoundedQueue.Represents.{Represents}
use lib_net_co_rpc.LoadBalancer.Weight.{
  Weight, TimeInfo, measure_at, measure, update, disabled, Fault, null_pointer, division_by_zero,
  Outcome, done, fault,
}
use lib_net_co_rpc.LoadBalancer.Weight.Sampling.{
  Completes, entry-top, entry-bottom, measure_at-Completes, item_at, measure-Completes,
}

abbrev pub fault_of {ℓ} : {A : Type ℓ} → Outcome A → Option Fault
fault_of (done a) = none
fault_of (fault f) = some f

-- What a measurement of the samples that were taken before ends in, without a new one: a null pointer
-- where there are none, and a division by zero where there is one from before the clock's reading.
abbrev pub fault_without_sample : ℤ → List TimeInfo → Option Fault
fault_without_sample end [] = some null_pointer
fault_without_sample end (s ∷ []) = if ltb_ℤ s.end_time_us end then some division_by_zero else none
fault_without_sample end (s ∷ t ∷ rest) = none

Completes-none :
    (xs : List TimeInfo) (o : Outcome (ℤ × Weight)) → Completes xs o → fault_of o ≡ none
Completes-none xs (done v) c = refl
Completes-none xs (fault f) c = elim c [ ]

measure-fault :
    (index : ℕ) (end : ℤ) (w : Weight) (xs : List TimeInfo)
    → Represents w.time_q xs
    → fault_of (measure index end w) ≡ fault_without_sample end xs
unfolding measure measure_at size
measure-fault index end w [] r = rw (entry-top r) refl
measure-fault index end w (s ∷ []) r =
    let one : (w.time_q.count == 1) ≡ true = ground (arith, r.counts) in
    elim (Bool-cases (ltb_ℤ s.end_time_us end)) [
      | inl moved ↦ rw (entry-top r, entry-bottom r, moved) (rw one refl)
      | inr still ↦ rw (entry-top r, entry-bottom r, still) (rw one refl)
    ]
measure-fault index end w (s ∷ t ∷ rest) r =
    let xs = s ∷ t ∷ rest in
    let (last, e) = item_at xs (length xs - 1) (omega arith) in
    let found : Deque.last? xs ≡ some last = e in
    rw (entry-top r, entry-bottom r, found)
      (Completes-none xs _
        (measure_at-Completes index end w xs s last r (λ one. absurd (omega (arith, one)))))

-- With a sample queue that holds a list, `Update` ends the program exactly where the weight is not
-- disabled, the call failed and took some time, and the queue holds no sample (a null pointer) or one
-- from before the clock's reading (a division by zero).
pub update-faults :
    (end begin error : ℤ) (index : ℕ) (w : Weight) (xs : List TimeInfo)
    → Represents w.time_q xs
    → fault_of (update end begin error index w) ≡ (
        if disabled w || (leb_ℤ (end -ℤ begin) (pos 0) || eqb_ℤ error (pos 0))
        then none
        else fault_without_sample end xs)
unfolding update
update-faults end begin error index w xs r = elim (Bool-cases (disabled w)) [
  | inl off ↦ rw off refl
  | inr on ↦ elim (Bool-cases (leb_ℤ (end -ℤ begin) (pos 0))) [
    | inl skewed ↦ rw (on, skewed) refl
    | inr took ↦ elim (Bool-cases (eqb_ℤ error (pos 0))) [
      | inl succeeded ↦
          rw (on, took, succeeded)
            (Completes-none _ _ (
              measure-Completes index (end -ℤ begin) end
                (record w {
                  begin_time_sum = w.begin_time_sum -ℤ begin;
                  begin_time_count = w.begin_time_count -ℤ pos 1;
                })
                w.time_q xs r))
      | inr failed ↦ rw (on, took, failed) (measure-fault index end _ xs r)
    ]
  ]
]
