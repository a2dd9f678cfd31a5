-- ===== src/Runtime/Selector.antt =====
-- `ProcessorSelector` of include/processor_selector.h and src/processor_selector.cc. The processors
-- are given by their `getCoCnt()`.
pub mod Laws
pub mod Fair
use lib_net_co_rpc.Prelude.{
  ℕ, zero, suc, ◌+◌, Bool, true, false, Option, none, some, List, [], ◌∷◌, ltb, leb, ◌==◌,
  if◌then◌else◌, length,
}
use lib_net_co_rpc.Prelude.Int.{ℤ, pos, negsuc, ◌+ℤ◌, leb_ℤ}

-- `scheduleStrategy`; any other value goes round robin.
pub data ScheduleStrategy : Type 0 where
  min_event_first round_robin : ScheduleStrategy

pub record ProcessorSelector : Type 0 where
  pub cur_pro : ℤ
  pub strategy : ScheduleStrategy

-- `ProcessorSelector(processors)`
abbrev pub init : ProcessorSelector
init = record { cur_pro = negsuc 0; strategy = ScheduleStrategy.round_robin }

-- The loop over the processors from number `i` on, with `minCoCnt` and `minCoProIdx` so far.
unfoldable pub min_loop : List ℕ → ℕ → ℕ → ℕ → ℕ
min_loop [] i min_co_cnt min_co_pro_idx = min_co_pro_idx
min_loop (co_cnt ∷ counts) i min_co_cnt min_co_pro_idx =
    if ltb co_cnt min_co_cnt
    then min_loop counts (i + 1) co_cnt i
    else min_loop counts (i + 1) min_co_cnt min_co_pro_idx

-- `ProcessorSelector::next`; the result is the number of the processor.
unfoldable pub next : List ℕ → ProcessorSelector → Option ℤ × ProcessorSelector
next [] s = (none, s)
next (first ∷ counts) s = elim s.strategy [
  | min_event_first ↦
      let cur = pos (min_loop counts 1 first 0) in (some cur, record s { cur_pro = cur })
  | round_robin ↦
      let up = s.cur_pro +ℤ pos 1 in
      let cur = if leb_ℤ (pos (length (first ∷ counts))) up then pos 0 else up in
      (some cur, record s { cur_pro = cur })
]
