-- ===== src/Runtime/Processor.antt =====
-- `Processor` and `Coroutine` of include/processor.h, src/processor.cc, include/coroutine.h and
-- src/coroutine.cc, on the processor's own thread: the queues and the rounds of the loop. A coroutine
-- is named by its address. What its function does, from the switch to it until control is back in
-- the loop, is the parameter `run`; it ends in `yield`, `wait`, `blocked_yield` or `kill_cur_co`.
use lib_net_co_rpc.Prelude.{
  ℕ, zero, suc, ◌-◌, Bool, true, false, not, Option, none, some, List, [], ◌∷◌, ◌++◌, ◌==◌,
  if◌then◌else◌, length,
}
use lib_net_co_rpc.Clock.{Time}
use lib_net_co_rpc.Runtime.Timer
use lib_net_co_rpc.Runtime.Timer.{Timer, Entry, get_expired_coroutines, run_after, wake_up}

-- `coStatus`
pub data CoStatus : Type 0 where
  co_ready co_running co_waiting co_dead : CoStatus

-- `processerStatus`
pub data ProcesserStatus : Type 0 where
  pro_running pro_stopping pro_stopped : ProcesserStatus

-- Arrays of two are pairs of fields; their indices are Booleans.
pub record Processor : Type 0 where
  pub status : ProcesserStatus
  pub running_new_que : Bool
  pub new_coroutines_0 : List ℕ
  pub new_coroutines_1 : List ℕ
  pub act_coroutines : List ℕ
  pub co_set : List ℕ
  pub timer_expired_co : List ℕ
  pub blocked_co_0 : List ℕ
  pub blocked_co_1 : List ℕ
  pub blocking_co_idx : Bool
  pub removed_co : List ℕ
  pub timer : Timer
  pub cur_coroutine : Option ℕ
  pub co_status : ℕ → CoStatus

-- `Processor(int)`
abbrev pub init : Processor
init = record {
  status = ProcesserStatus.pro_stopped;
  running_new_que = false;
  new_coroutines_0 = [];
  new_coroutines_1 = [];
  act_coroutines = [];
  co_set = [];
  timer_expired_co = [];
  blocked_co_0 = [];
  blocked_co_1 = [];
  blocking_co_idx = false;
  removed_co = [];
  timer = Timer.init;
  cur_coroutine = none;
  co_status = λ co. CoStatus.co_ready;
}

abbrev pub new_queue : Bool → Processor → List ℕ
new_queue i p = if i then p.new_coroutines_1 else p.new_coroutines_0

abbrev pub set_new_queue : Bool → List ℕ → Processor → Processor
set_new_queue i q p =
    if i then record p { new_coroutines_1 = q } else record p { new_coroutines_0 = q }

abbrev pub blocked : Bool → Processor → List ℕ
blocked i p = if i then p.blocked_co_1 else p.blocked_co_0

abbrev pub set_blocked : Bool → List ℕ → Processor → Processor
set_blocked i q p = if i then record p { blocked_co_1 = q } else record p { blocked_co_0 = q }

abbrev pub member : ℕ → List ℕ → Bool
member co [] = false
member co (x ∷ xs) = if x == co then true else member co xs

-- `coSet_.insert`, `coSet_.erase`
abbrev pub insert : ℕ → List ℕ → List ℕ
insert co xs = if member co xs then xs else co ∷ xs

abbrev pub erase : ℕ → List ℕ → List ℕ
erase co [] = []
erase co (x ∷ xs) = if x == co then erase co xs else x ∷ erase co xs

abbrev pub set_status : ℕ → CoStatus → Processor → Processor
set_status co v p = record p { co_status = λ c. if co == c then v else p.co_status c }

-- `Coroutine::yield` of the current coroutine
abbrev pub set_waiting : Option ℕ → Processor → Processor
set_waiting none p = p
set_waiting (some co) p = set_status co CoStatus.co_waiting p

-- `Processor::yield`, up to the switch back to the loop
unfoldable pub yield : Processor → Processor
yield p = set_waiting p.cur_coroutine p

-- `Processor::wait`, up to the switch
unfoldable pub wait : Time → Time → Time → Processor → Processor
wait now later time p = elim p.cur_coroutine [
  | none ↦ p
  | some co ↦ (let q = yield p in record q { timer = run_after now later time co q.timer })
]

abbrev pub append_cur : Option ℕ → List ℕ → List ℕ
append_cur none xs = xs
append_cur (some co) xs = xs ++ co ∷ []

-- `Processor::blocked_yield`, up to the switch
unfoldable pub blocked_yield : Processor → Processor
blocked_yield p =
    yield
      (set_blocked p.blocking_co_idx (append_cur p.cur_coroutine (blocked p.blocking_co_idx p)) p)

-- `Processor::killCurCo`
unfoldable pub kill_cur_co : Processor → Processor
kill_cur_co p = record p { removed_co = append_cur p.cur_coroutine p.removed_co }

-- `Processor::goCo`
unfoldable pub go_co : Time → Time → ℕ → Processor → Processor
go_co now later co p =
    let i = not p.running_new_que in
    let q = set_new_queue i (new_queue i p ++ co ∷ []) p in
    record q { timer = wake_up now later q.timer }

-- `Processor::goCoBatch`
unfoldable pub go_co_batch : Time → Time → List ℕ → Processor → Processor
go_co_batch now later cos p =
    let i = not p.running_new_que in
    let q = set_new_queue i (new_queue i p ++ cos) p in
    record q { timer = wake_up now later q.timer }

-- `Processor::getCoCnt`
abbrev pub get_co_cnt : Processor → ℕ
get_co_cnt p = length p.co_set - length p.removed_co

-- `Processor::stop`
unfoldable pub stop : Processor → Processor
stop p = record p { status = ProcesserStatus.pro_stopping }

module _ (run : ℕ → Processor → Processor) where
  -- `Coroutine::resume`
  unfoldable pub co_resume : ℕ → Processor → Processor
  co_resume co p = elim (p.co_status co) [
    | co_ready ↦ run co (set_status co CoStatus.co_running p)
    | co_running ↦ p
    | co_waiting ↦ run co (set_status co CoStatus.co_running p)
    | co_dead ↦ p
  ]

  -- `Processor::resume` of a coroutine that is not null
  unfoldable pub resume : ℕ → Processor → Processor
  resume co p =
      if member co p.co_set then co_resume co (record p { cur_coroutine = some co }) else p

  unfoldable pub resume_all : List ℕ → Processor → Processor
  resume_all [] p = p
  resume_all (co ∷ cos) p = resume_all cos (resume co p)

  -- The loop that runs the new coroutines, on fuel. A coroutine that it runs adds to the other queue,
  -- so the length of the queue is enough.
  unfoldable pub drain : ℕ → Bool → Processor → Processor
  drain zero i p = p
  drain (suc fuel) i p = elim (new_queue i p) [
    | [] ↦ p
    | co ∷ cos ↦
        (let q = set_new_queue i cos p in
          drain fuel i (resume co (record q { co_set = insert co q.co_set })))
  ]

  -- The loop over the coroutines that have ended.
  unfoldable pub remove_all : List ℕ → Processor → Processor
  remove_all [] p = record p { removed_co = [] }
  remove_all (co ∷ cos) p = remove_all cos (record p { co_set = erase co p.co_set })

  -- the first part of a round: the coroutines that epoll woke, and those that are blocked
  unfoldable pub run_blocked : List ℕ → Processor → Processor
  run_blocked events p =
      let q = record p {
        act_coroutines = events;
        timer_expired_co = [];
        blocking_co_idx = not p.blocking_co_idx;
      } in
      resume_all (blocked (not q.blocking_co_idx) q) q

  unfoldable pub run_expired : Time → Time → Processor → Processor
  run_expired now later p =
      let (expired, t) = get_expired_coroutines now later p.timer in
      let cos = coroutines expired in
      resume_all cos (record p { timer = t; timer_expired_co = cos })
    where
      coroutines : List Entry → List ℕ
      coroutines [] = []
      coroutines (e ∷ es) = e.coroutine ∷ coroutines es

  unfoldable pub run_new : Processor → Processor
  run_new p =
      let running_que = not p.running_new_que in
      let q = record p { running_new_que = not p.running_new_que } in
      drain (length (new_queue running_que q)) running_que q

  -- A round of the loop of `Processor::loop`, with the events that `getActEvServ` gave.
  unfoldable pub round : List ℕ → Time → Time → Processor → Processor
  round events now later p =
      let p_1 = run_new (run_expired now later (run_blocked events p)) in
      let p_2 = resume_all p_1.act_coroutines p_1 in remove_all p_2.removed_co p_2
