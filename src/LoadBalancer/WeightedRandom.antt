-- ===== src/LoadBalancer/WeightedRandom.antt =====
-- `WeightedRandomLoadBalancer` of include/rpc_proto/weighted_random_load_balancer.h and
-- src/rpc_proto/weighted_random_load_balancer.cc. The file repeats the tree, the copies, `Add`,
-- `Remove` and most of `Weight` of the locality-aware balancer word for word, and these definitions
-- are that balancer's. What differs: a selection does not touch the weight, and `Update` sets the
-- base weight alone. Its log line, once a second, and `last_time_us` are left out.
pub mod Select
use Prim.Native.String.{String}
use lib_net_co_rpc.Prelude.{
  ℕ, zero, suc, ◌+◌, ◌-◌, ◌/◌, Bool, true, false, Option, none, some, List, ◌==◌, if◌then◌else◌,
  length, get_elem?,
}
use lib_net_co_rpc.Prelude.Int.{ℤ, pos, ◌+ℤ◌, ◌-ℤ◌, ◌/ℤ◌, ltb_ℤ, leb_ℤ, eqb_ℤ}
use lib_net_co_rpc.BoundedQueue.{top, bottom, size, capacity}
use lib_net_co_rpc.DoublyBuffered.{modify, plain, with_fg_2, closure_2, unsafe_read}
use lib_net_co_rpc.LoadBalancer.Weight
use lib_net_co_rpc.LoadBalancer.Weight.{
  Weight, TimeInfo, Outcome, done, fault, null_pointer, division_by_zero, weight_scale, to_u64,
  of_u64, disabled, sample, entry,
}
use lib_net_co_rpc.LoadBalancer.Tree
use lib_net_co_rpc.LoadBalancer.Tree.{
  ServerInfo, Servers, Landing, landed, passed, no_node, out_of_fuel,
}
use lib_net_co_rpc.LoadBalancer.LocalityAware
use lib_net_co_rpc.LoadBalancer.LocalityAware.{
  Store, Balancer, Selected, chosen, failed, undefined, begin_walk, Round, stop, again, retry,
  set_weight, or_zero, map_set, count_of,
}

abbrev pub mark_old : ℕ → Weight → ℤ × Weight
mark_old = Weight.mark_old

abbrev pub clear_old : Weight → (ℤ × ℤ) × Weight
clear_old = Weight.clear_old

abbrev pub disable : Weight → ℤ × Weight
disable = Weight.disable

abbrev pub update_parent_weight : List ServerInfo → ℤ → ℕ → (ℕ → ℤ) → ℕ → ℤ
update_parent_weight = Tree.update_parent_weight

abbrev pub add : Servers → Servers → String → Unit {0} → Store → ℕ × Servers × Store
add = LocalityAware.add

abbrev pub remove : Servers → String → Unit {0} → Store → ℕ × Servers × Store
remove = LocalityAware.remove

abbrev pub add_server : String → Balancer → Balancer
add_server = LocalityAware.add_server

abbrev pub remove_server : String → Balancer → Balancer
remove_server = LocalityAware.remove_server

-- the base weight from the average latency, unless that is 0
unfoldable pub set_base : ℤ → ℤ → Weight → Weight
set_base qps average w =
    if eqb_ℤ average (pos 0)
    then record w { avg_latency = average }
    else record w { avg_latency = average; base_weight = qps /ℤ average }

-- `Update` from the reading of `_time_q.top()` on; it returns 0 on every path.
unfoldable pub measure_at : Option TimeInfo → Option TimeInfo → ℤ → Weight → Outcome (ℤ × Weight)
measure_at none last? end_time_us w = fault null_pointer
measure_at (some first) none end_time_us w = fault null_pointer
measure_at (some first) (some last) end_time_us w =
    let n = size w.time_q in
    if ltb_ℤ first.end_time_us end_time_us
    then if n == 1
      then fault division_by_zero
      else done (
        pos 0,
        set_base (Weight.scaled_qps n (capacity w.time_q) end_time_us first.end_time_us)
            (of_u64 (to_u64 (last.latency_sum -ℤ first.latency_sum) / (n - 1))) w,
      )
    else if n == 1
    then done (pos 0, set_base (pos weight_scale) last.latency_sum w)
    else done (pos 0, w)

unfoldable pub measure : ℤ → Weight → Outcome (ℤ × Weight)
measure end_time_us w =
    measure_at (entry w.time_q (top w.time_q)) (entry w.time_q (bottom w.time_q)) end_time_us w

-- `Update`
unfoldable pub update : ℤ → ℤ → ℤ → Weight → Outcome (ℤ × Weight)
update end_time_us begin_time_us error_code w =
    let latency = end_time_us -ℤ begin_time_us in
    let w' = record w {
      begin_time_sum = w.begin_time_sum -ℤ begin_time_us;
      begin_time_count = w.begin_time_count -ℤ pos 1;
    } in
    if disabled w
    then done (pos 0, w)
    else if leb_ℤ latency (pos 0)
    then done (pos 0, w')
    else if eqb_ℤ error_code (pos 0)
    then measure end_time_us (record w' { time_q = sample latency end_time_us w.time_q })
    else measure end_time_us w'

abbrev pub take_found : Option ServerInfo → Store → Round
take_found none s = stop undefined s
take_found (some node) s = stop (chosen node.server_name) s

abbrev pub land : List ServerInfo → Landing → ℕ → Store → Round
land tree out_of_fuel n_try s = stop undefined s
land tree no_node n_try s = stop undefined s
land tree passed n_try s = retry (length tree) n_try s
land tree (landed index rest) n_try s = take_found (get_elem? tree index) s

-- The rounds of the loop of `select_server`; `n + 1` of them are enough.
unfoldable pub select_loop : ℕ → List ServerInfo → (ℕ → ℤ) → ℕ → ℤ → Store → Selected × Store
select_loop zero tree dice n_try total s = (undefined, s)
select_loop (suc rounds) tree dice n_try total s =
    if leb_ℤ total (pos 0)
    then (failed, s)
    else elim (land tree (begin_walk tree s (dice 0)) n_try s) [
      | stop r t ↦ (r, t)
      | again m t ↦ select_loop rounds tree (λ k. dice (suc k)) m t.total_weight t
    ]

-- `select_server`
unfoldable pub select_server : (ℕ → ℤ) → Balancer → Selected × Store
select_server dice b =
    let tree = (unsafe_read b.servers_dbd).weight_tree in
    select_loop (length tree + 1) tree dice 0 b.store.total_weight b.store

-- what `Update` leaves in the store
abbrev pub store_of : ℕ → Store → Outcome (ℤ × Weight) → Outcome Store
store_of cell s (fault f) = fault f
store_of cell s (done (diff, w)) = done (set_weight cell w s)

abbrev pub feed_found : ℤ → ℤ → ℤ → Option ServerInfo → Store → Outcome Store
feed_found now begin error none s = done s
feed_found now begin error (some node) s =
    store_of node.weight s (update now begin error (s.weights node.weight))

-- `Feedback`, which drops what `Update` returns. For a name that is counted and that the tree's map has
-- not, and for an index outside the tree, the source's behaviour is undefined: here the first is index
-- 0, and the second changes nothing.
unfoldable pub feedback : ℤ → ℤ → String → ℤ → Balancer → Outcome Store
feedback now begin name error b = elim (b.server_map name) [
  | none ↦ done b.store
  | some count ↦
      let servers = unsafe_read b.servers_dbd in
      feed_found now begin error (get_elem? servers.weight_tree (or_zero (servers.server_map name)))
        b.store
]
