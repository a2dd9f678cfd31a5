-- ===== src/LoadBalancer/Weight.antt =====
-- The weight of one server: class `Weight` of include/rpc_proto/locality_aware_load_balancer.h and
-- its methods in src/rpc_proto/locality_aware_load_balancer.cc. `int64_t` is ℤ: its overflow is
-- undefined in the source. A `size_t` or unsigned 64-bit result is taken modulo 2 ^ 64.
pub mod Laws
pub mod Bounds
pub mod Sampling
pub mod Faults
use lib_net_co_rpc.Prelude.{
  ℕ, suc, ◌+◌, ◌-◌, ◌*◌, ◌/◌, ◌%◌, ◌^◌, Bool, true, false, ◌&&◌, Option, none, some, ltb, leb, ◌==◌,
  if◌then◌else◌,
}
use lib_net_co_rpc.Prelude.Int.{ℤ, pos, negsuc, ◌+ℤ◌, ◌-ℤ◌, ◌*ℤ◌, ◌/ℤ◌, leb_ℤ, ltb_ℤ, eqb_ℤ}
use lib_net_co_rpc.BoundedQueue.{
  BoundedQueue, init_mem, elim_push, top, bottom, empty, size, capacity,
}
use lib_net_co_rpc.BoundedQueue.{StorageOwnership}

pub record TimeInfo : Type 0 where
  pub latency_sum : ℤ
  pub end_time_us : ℤ

pub record Weight : Type 0 where
  pub base_weight : ℤ
  pub weight : ℤ
  pub avg_latency : ℤ
  pub begin_time_sum : ℤ
  pub begin_time_count : ℤ
  pub old_diff_sum : ℤ
  pub old_index : ℕ
  pub old_weight : ℤ
  pub time_q : BoundedQueue TimeInfo

-- `(size_t)-1`
abbrev pub no_index : ℕ
no_index = 2 ^ 64 - 1

abbrev pub recv_queue_size : ℕ
recv_queue_size = 128

-- 1008680231
abbrev pub weight_scale : ℕ
weight_scale = (2 ^ 63 - 1) / 72000000 / (128 - 1)

abbrev pub min_weight : ℤ
min_weight = pos 1000

-- The constant is declared `int64_t`, so 1.5 is cut to 1.
abbrev pub punish_inflight_ratio : ℤ
punish_inflight_ratio = pos 1

-- `Weight(int64_t)`; a `TimeInfo` is 16 bytes.
unfoldable pub init : ℤ → Weight
init initial_weight = record {
  base_weight = initial_weight;
  weight = initial_weight;
  avg_latency = pos 0;
  begin_time_sum = pos 0;
  begin_time_count = pos 0;
  old_diff_sum = pos 0;
  old_index = no_index;
  old_weight = pos 0;
  time_q = init_mem (recv_queue_size * 16) 16 StorageOwnership.not_own_storage;
}

unfoldable pub disabled : Weight → Bool
disabled w = ltb_ℤ w.base_weight (pos 0)

-- The weight that `ResetWeight` computes, before its lower bound.
abbrev pub punished : Weight → ℤ → ℤ
punished w now_us =
    let inflight_delay = now_us -ℤ w.begin_time_sum /ℤ w.begin_time_count in
    let punish_latency = w.avg_latency *ℤ punish_inflight_ratio in
    if ltb_ℤ (pos 0) w.begin_time_count
    then if leb_ℤ punish_latency inflight_delay && ltb_ℤ (pos 0) w.avg_latency
      then w.base_weight *ℤ punish_latency /ℤ inflight_delay
      else w.base_weight
    else w.base_weight

abbrev pub at_least_min : ℤ → ℤ
at_least_min new_weight = if ltb_ℤ new_weight min_weight then min_weight else new_weight

-- `ResetWeight`
unfoldable pub reset_weight : ℕ → ℤ → Weight → ℤ × Weight
reset_weight index now_us w =
    let new_weight = at_least_min (punished w now_us) in
    let diff = new_weight -ℤ w.weight in
    if w.old_index == index
    then if eqb_ℤ diff (pos 0)
      then (diff, record w { weight = new_weight })
      else (diff, record w { weight = new_weight; old_diff_sum = w.old_diff_sum +ℤ diff })
    else (diff, record w { weight = new_weight })

pub record AddInflightResult : Type 0 where
  pub chosen : Bool
  pub weight_diff : ℤ

-- `AddInflight`; of `SelectIn` it reads `begin_time_us` alone.
unfoldable pub add_inflight : ℤ → ℕ → ℤ → Weight → AddInflightResult × Weight
add_inflight begin_time_us index dice w =
    if disabled w
    then (record { chosen = false; weight_diff = pos 0 }, w)
    else let (diff, w') = reset_weight index begin_time_us w in
      if ltb_ℤ w'.weight dice then (record { chosen = false; weight_diff = diff }, w') else (
        record { chosen = true; weight_diff = diff },
        record w' {
          begin_time_sum = w'.begin_time_sum +ℤ begin_time_us;
          begin_time_count = w'.begin_time_count +ℤ pos 1;
        },
      )

-- `MarkFailed`
unfoldable pub mark_failed : ℕ → ℤ → Weight → ℤ × Weight
mark_failed index avg_weight w =
    if leb_ℤ w.base_weight avg_weight
    then (pos 0, w)
    else reset_weight index (pos 0) (record w { base_weight = avg_weight })

-- `MarkOld`
unfoldable pub mark_old : ℕ → Weight → ℤ × Weight
mark_old index w =
    (w.weight, record w { old_weight = w.weight; old_diff_sum = pos 0; old_index = index })

-- `ClearOld`
unfoldable pub clear_old : Weight → (ℤ × ℤ) × Weight
clear_old w = (
  (w.old_weight, w.old_diff_sum),
  record w { old_diff_sum = pos 0; old_index = no_index; old_weight = pos 0 },
)

-- `Disable`
unfoldable pub disable : Weight → ℤ × Weight
disable w = (w.weight, record w { base_weight = negsuc 0; weight = pos 0 })

-- How `Update` can end the program: a read through the null pointer that `top()` or `bottom()`
-- returns for an empty queue, or a division by `n - 1` at `n` equal to 1.
pub data Fault : Type 0 where
  null_pointer division_by_zero : Fault

pub data Outcome {ℓ} (A : Type ℓ) : Type ℓ where
  done : A → Outcome A
  fault : Fault → Outcome A

-- the conversion of an `int64_t` to an unsigned 64-bit number and back
abbrev pub to_u64 : ℤ → ℕ
to_u64 (pos n) = n % 2 ^ 64
to_u64 (negsuc n) = 2 ^ 64 - 1 - n % 2 ^ 64

abbrev pub of_u64 : ℕ → ℤ
of_u64 n = if ltb n (2 ^ 63) then pos n else negsuc (2 ^ 64 - 1 - n)

-- the entry that a `TimeInfo*` points to
unfoldable pub entry : BoundedQueue TimeInfo → Option ℕ → Option TimeInfo
entry q none = none
entry q (some p) = q.items p

-- The sample that a successful call adds to the queue.
unfoldable pub sample : ℤ → ℤ → BoundedQueue TimeInfo → BoundedQueue TimeInfo
sample latency end_time_us q = elim (entry q (bottom q)) [
  | none ↦ elim_push (record { latency_sum = latency; end_time_us = end_time_us }) q
  | some last ↦
      elim_push (record { latency_sum = latency +ℤ last.latency_sum; end_time_us = end_time_us }) q
]

-- `scaled_qps`, when the clock has moved since the oldest sample
unfoldable pub scaled_qps : ℕ → ℕ → ℤ → ℤ → ℤ
scaled_qps n cap end_time_us top_time_us =
    if n == cap
    then qps
    else if leb_ℤ (top_time_us +ℤ pos 1000000) end_time_us
    then qps
    else pos weight_scale
  where
    measured : ℤ
    measured =
        of_u64 (
          ((n + 2 ^ 64 - 1) * 1000000 * weight_scale)
          % 2 ^ 64
          / to_u64 (end_time_us -ℤ top_time_us))

    qps : ℤ
    qps = if ltb_ℤ measured (pos weight_scale) then pos weight_scale else measured

-- The last lines of `Update`: the base weight from the average latency, then `ResetWeight`.
unfoldable pub rebase : ℕ → ℤ → ℤ → Weight → ℤ × Weight
rebase index qps end_time_us w =
    if eqb_ℤ w.avg_latency (pos 0)
    then (pos 0, w)
    else reset_weight index end_time_us (record w { base_weight = qps /ℤ w.avg_latency })

-- `Update` from the reading of `_time_q.top()` on, with what `top()` and `bottom()` point to
unfoldable pub measure_at :
    Option TimeInfo → Option TimeInfo → ℕ → ℤ → Weight → Outcome (ℤ × Weight)
measure_at none last? index end_time_us w = fault null_pointer
measure_at (some first) none index end_time_us w = fault null_pointer
measure_at (some first) (some last) index end_time_us w =
    let n = size w.time_q in
    if ltb_ℤ first.end_time_us end_time_us
    then if n == 1
      then fault division_by_zero
      else done (
          rebase index (scaled_qps n (capacity w.time_q) end_time_us first.end_time_us) end_time_us
            (record w {
              avg_latency = of_u64 (to_u64 (last.latency_sum -ℤ first.latency_sum) / (n - 1));
            }))
    else if n == 1
    then done
        (rebase index (pos weight_scale) end_time_us (record w { avg_latency = last.latency_sum }))
    else done (pos 0, w)

unfoldable pub measure : ℕ → ℤ → Weight → Outcome (ℤ × Weight)
measure index end_time_us w =
    measure_at (entry w.time_q (top w.time_q)) (entry w.time_q (bottom w.time_q)) index end_time_us
      w

-- `Update`; the clock's reading and the fields of `CallInfo` are arguments.
unfoldable pub update : ℤ → ℤ → ℤ → ℕ → Weight → Outcome (ℤ × Weight)
update end_time_us begin_time_us error_code index w =
    let latency = end_time_us -ℤ begin_time_us in
    let w' = record w {
      begin_time_sum = w.begin_time_sum -ℤ begin_time_us;
      begin_time_count = w.begin_time_count -ℤ pos 1;
    } in
    if disabled w
    then done (pos 0, w)
    else if leb_ℤ latency (pos 0)
    then done (pos 0, w')
    else if eqb_ℤ error_code (pos 0)
    then measure index end_time_us (record w' { time_q = sample latency end_time_us w.time_q })
    else measure index end_time_us w'
