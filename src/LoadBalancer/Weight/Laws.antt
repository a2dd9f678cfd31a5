-- ===== src/LoadBalancer/Weight/Laws.antt =====
-- How the operations on a server's weight account for what they change.
use lib_net_co_rpc.Prelude.{
  ℕ, ◌≡◌, refl, sym, ap, ◌∙◌, Option, none, some, true, arith, ◌==◌, if◌then◌else◌, inl, inr,
  Bool-cases,
}
use lib_net_co_rpc.Prelude.Int.{
  ℤ, pos, ◌+ℤ◌, ◌-ℤ◌, ◌/ℤ◌, leb_ℤ, ltb_ℤ, eqb_ℤ, int_laws, eq_of_parts,
}
use mathlib.Core.Path.{ap₂}
use lib_net_co_rpc.BoundedQueue.{size}
use lib_net_co_rpc.LoadBalancer.Weight.{
  Weight, punished, at_least_min, reset_weight, add_inflight, mark_failed, disabled, rebase,
  TimeInfo, update, measure_at, measure, Outcome, done, fault,
}

-- `diff` is what the operation added to the weight; it is also added to `old_diff_sum` if `index`
-- is the old index. The old index and the old weight stay.
pub record Tracked (index : ℕ) (w : Weight) (diff : ℤ) (w' : Weight) : Type 0 where
  pub change : w'.weight ≡ w.weight +ℤ diff
  pub recorded :
      w'.old_diff_sum ≡ (if w.old_index == index then w.old_diff_sum +ℤ diff else w.old_diff_sum)
  pub old_index : w'.old_index ≡ w.old_index
  pub old_weight : w'.old_weight ≡ w.old_weight

add_sub : (a b : ℤ) → a ≡ b +ℤ (a -ℤ b)
add_sub a b = omega int_laws

pub add_zero : (a : ℤ) → a +ℤ pos 0 ≡ a
add_zero a = omega int_laws

add_of_eqb : (a d : ℤ) → eqb_ℤ d (pos 0) ≡ true → a ≡ a +ℤ d
add_of_eqb a d h = let e : d ≡ pos 0 = eq_of_parts d (pos 0) (ground arith) in rw e (omega int_laws)

-- `ResetWeight` accounts for the change.
pub reset_weight-Tracked :
    (index : ℕ) (now : ℤ) (w : Weight)
    → let (diff, w') = reset_weight index now w in Tracked index w diff w'
unfolding reset_weight
reset_weight-Tracked index now w =
    let new = at_least_min (punished w now) in
    let diff = new -ℤ w.weight in
    elim (Bool-cases (w.old_index == index)) [
      | inl old ↦ elim (Bool-cases (eqb_ℤ diff (pos 0))) [
        | inl none_left ↦
            rw (old, none_left)
              (record {
                change = add_sub new w.weight;
                recorded = rw old (add_of_eqb w.old_diff_sum diff none_left);
                old_index = refl;
                old_weight = refl;
              })
        | inr some_left ↦
            rw (old, some_left)
              (record {
                change = add_sub new w.weight;
                recorded = rw old;
                old_index = refl;
                old_weight = refl;
              })
      ]
      | inr other ↦ rw other (record {
        change = add_sub new w.weight;
        recorded = rw other;
        old_index = refl;
        old_weight = refl;
      })
    ]

pub unchanged-Tracked : (index : ℕ) (w : Weight) → Tracked index w (pos 0) w
unchanged-Tracked index w = record {
  change = sym (add_zero w.weight);
  recorded = elim (Bool-cases (w.old_index == index)) [ inl e ↦ rw (e, add_zero) | inr e ↦ rw e ];
  old_index = refl;
  old_weight = refl;
}

-- Fields other than those of `Tracked` may differ at the start and at the end.
pub add_inflight-Tracked :
    (begin : ℤ) (index : ℕ) (dice : ℤ) (w : Weight)
    → let (r, w') = add_inflight begin index dice w in Tracked index w r.weight_diff w'
unfolding add_inflight
add_inflight-Tracked begin index dice w =
    let t = reset_weight-Tracked index begin w in
    elim (Bool-cases (disabled w)) [
      | inl off ↦ rw off (unchanged-Tracked index w)
      | inr on ↦ elim (Bool-cases (ltb_ℤ (reset_weight index begin w).1.weight dice)) [
        | inl small ↦ rw (on, small) t
        | inr big ↦
            rw (on, big)
              (record {
                change = t.change;
                recorded = t.recorded;
                old_index = t.old_index;
                old_weight = t.old_weight;
              })
      ]
    ]

pub mark_failed-Tracked :
    (index : ℕ) (avg : ℤ) (w : Weight)
    → let (diff, w') = mark_failed index avg w in Tracked index w diff w'
unfolding mark_failed
mark_failed-Tracked index avg w = elim (Bool-cases (leb_ℤ w.base_weight avg)) [
  | inl low ↦ rw low (unchanged-Tracked index w)
  | inr high ↦
      let t = reset_weight-Tracked index (pos 0) (record w { base_weight = avg }) in
      rw high (record {
        change = t.change;
        recorded = t.recorded;
        old_index = t.old_index;
        old_weight = t.old_weight;
      })
]

-- what an operation that may end the program leaves behind
abbrev pub TrackedOutcome : ℕ → Weight → Outcome (ℤ × Weight) → Type 0
TrackedOutcome index w (done (diff, w')) = Tracked index w diff w'
TrackedOutcome index w (fault f) = Unit

rebase-Tracked :
    (index : ℕ) (qps end : ℤ) (w : Weight)
    → let (diff, w') = rebase index qps end w in Tracked index w diff w'
unfolding rebase
rebase-Tracked index qps end w = elim (Bool-cases (eqb_ℤ w.avg_latency (pos 0))) [
  | inl still ↦ rw still (unchanged-Tracked index w)
  | inr moved ↦
      let t = reset_weight-Tracked index end (record w { base_weight = qps /ℤ w.avg_latency }) in
      rw moved (record {
        change = t.change;
        recorded = t.recorded;
        old_index = t.old_index;
        old_weight = t.old_weight;
      })
]

module _ (index : ℕ) (end : ℤ) (w : Weight) where
  average-Tracked :
      (a qps : ℤ)
      → TrackedOutcome index w (done (rebase index qps end (record w { avg_latency = a })))
  average-Tracked a qps =
      let t = rebase-Tracked index qps end (record w { avg_latency = a }) in
      record {
        change = t.change;
        recorded = t.recorded;
        old_index = t.old_index;
        old_weight = t.old_weight;
      }

  measure_at-Tracked :
      (first last : Option TimeInfo) → TrackedOutcome index w (measure_at first last index end w)
  unfolding measure_at
  measure_at-Tracked none last = tt
  measure_at-Tracked (some first) none = tt
  measure_at-Tracked (some first) (some last) = elim (Bool-cases (ltb_ℤ first.end_time_us end)) [
    | inl moved ↦ elim (Bool-cases (size w.time_q == 1)) [
      | inl one ↦ rw (moved, one) tt
      | inr more ↦ rw (moved, more) (average-Tracked _ _)
    ]
    | inr still ↦ elim (Bool-cases (size w.time_q == 1)) [
      | inl one ↦ rw (still, one) (average-Tracked _ _)
      | inr more ↦ rw (still, more) (unchanged-Tracked index w)
    ]
  ]

-- Fields that `Tracked` does not read may change before the measurement.
measure-Tracked :
    (index : ℕ) (end : ℤ) (w w' : Weight)
    → w'.weight ≡ w.weight
    → w'.old_diff_sum ≡ w.old_diff_sum
    → w'.old_index ≡ w.old_index
    → w'.old_weight ≡ w.old_weight
    → TrackedOutcome index w (measure index end w')
unfolding measure
measure-Tracked index end w w' same_weight same_sum same_index same_old =
    go _ (measure_at-Tracked index end w' _ _)
  where
    go : (o : Outcome (ℤ × Weight)) → TrackedOutcome index w' o → TrackedOutcome index w o
    go (fault f) t = tt
    go (done (diff, v)) t = record {
      change = t.change ∙ ap (λ x. x +ℤ diff) same_weight;
      recorded = t.recorded ∙ ap₂ (λ k s. if k == index then s +ℤ diff else s) same_index same_sum;
      old_index = t.old_index ∙ same_index;
      old_weight = t.old_weight ∙ same_old;
    }

-- Every result of `Update` accounts for the change that it returns.
pub update-Tracked :
    (end begin error : ℤ) (index : ℕ) (w : Weight)
    → TrackedOutcome index w (update end begin error index w)
unfolding update
update-Tracked end begin error index w = elim (Bool-cases (disabled w)) [
  | inl off ↦ rw off (unchanged-Tracked index w)
  | inr on ↦ elim (Bool-cases (leb_ℤ (end -ℤ begin) (pos 0))) [
    | inl skewed ↦
        let t = unchanged-Tracked index w in
        rw (on, skewed)
          (record {
            change = t.change;
            recorded = t.recorded;
            old_index = t.old_index;
            old_weight = t.old_weight;
          })
    | inr sampled ↦ elim (Bool-cases (eqb_ℤ error (pos 0))) [
      | inl good ↦ rw (on, sampled, good) (measure-Tracked index end w _ refl refl refl refl)
      | inr bad ↦ rw (on, sampled, bad) (measure-Tracked index end w _ refl refl refl refl)
    ]
  ]
]
