-- ===== src/LoadBalancer/WeightedRandom/Select.antt =====
-- The weighted-random choice: the selected server is the one a scan of the weights finds, and
-- neither a selection nor a feedback changes a weight.
use lib_net_co_rpc.Prelude.{
  ℕ, suc, ◌+◌, ◌<◌, ◌≡◌, refl, ap, ◌∙◌, false, Option, none, some, arith, ◌==◌, inl, inr,
  Bool-cases, length, get_elem?,
}
use mathlib.Core.Path.{subst}
use Prim.Native.String.{String}
use lib_net_co_rpc.Prelude.Int.{ℤ, pos, ◌-ℤ◌, ◌≤ℤ◌, ◌<ℤ◌, leb_ℤ, ltb_ℤ, eqb_ℤ, int_laws}
use lib_net_co_rpc.BoundedQueue.{size}
use lib_net_co_rpc.DoublyBuffered.{unsafe_read}
use lib_net_co_rpc.LoadBalancer.Weight.{Weight, TimeInfo, Outcome, done, fault, disabled}
use lib_net_co_rpc.LoadBalancer.Tree.{ServerInfo, write}
use lib_net_co_rpc.LoadBalancer.Tree.Inorder.{inorder, scan}
use lib_net_co_rpc.LoadBalancer.LocalityAware.{Store, Balancer, chosen, left_at, weight_at, or_zero}
use lib_net_co_rpc.LoadBalancer.LocalityAware.Nodes.{get-lt}
use lib_net_co_rpc.LoadBalancer.LocalityAware.Consistent.{Consistent}
use lib_net_co_rpc.LoadBalancer.LocalityAware.Finish.{Nonnegative, begin_walk-scan}
use lib_net_co_rpc.LoadBalancer.WeightedRandom.{
  set_base, measure_at, measure, update, select_loop, select_server, store_of, feed_found, feedback,
}

leb_false : (x y : ℤ) → x <ℤ y → leb_ℤ y x ≡ false
leb_false x y h = ground arith

-- For sums that are right, no negative weight and at least one server, a first dice of at least 0 and
-- below `total_weight_` selects the server that a scan of the weights in order finds, and the store
-- stays as it is.
pub select_server-scan :
    (dice : ℕ → ℤ) (b : Balancer)
    → let tree = (unsafe_read b.servers_dbd).weight_tree in
      Consistent tree b.store
      → Nonnegative b.store
      → 0 < length tree
      → pos 0 ≤ℤ dice 0
      → dice 0 <ℤ b.store.total_weight
      → (j : ℕ) × (rest : ℤ) × (node : ServerInfo) × (scan
            (weight_at tree b.store)
            (inorder (length tree + 1) (length tree) 0)
            (dice 0)
          ≡ some (j, rest))
        × (get_elem? tree j ≡ some node)
        × (select_server dice b ≡ (chosen node.server_name, b.store))
unfolding select_server select_loop
select_server-scan dice b c h inside low high =
    let tree = (unsafe_read b.servers_dbd).weight_tree in
    let (j, d, jl, e, f) = begin_walk-scan tree b.store (dice 0) c h inside low high in
    let (node, g) = get-lt tree j jl in
    let go : leb_ℤ b.store.total_weight (pos 0) ≡ false =
      leb_false (pos 0) b.store.total_weight (omega int_laws) in
    let rounds : suc (length tree) ≡ length tree + 1 = omega arith in
    (
      j,
      d -ℤ left_at tree b.store j,
      node,
      f,
      g,
      subst
          (λ r.
            select_loop r tree dice 0 b.store.total_weight b.store
            ≡ (chosen node.server_name, b.store))
          rounds (rw go (rw e (rw g))),
    )

-- what `Update` leaves: it returns 0, and the weight is the old one
abbrev pub Untouched : Weight → Outcome (ℤ × Weight) → Type 0
Untouched w (done (diff, w')) = (diff ≡ pos 0) × (w'.weight ≡ w.weight)
Untouched w (fault f) = Unit

weight-set_base : (qps average : ℤ) (w : Weight) → (set_base qps average w).weight ≡ w.weight
unfolding set_base
weight-set_base qps average w = elim (Bool-cases (eqb_ℤ average (pos 0))) [
  | inl e ↦ rw e
  | inr e ↦ rw e
]

measure_at-Untouched :
    (first last : Option TimeInfo) (end : ℤ) (w : Weight)
    → Untouched w (measure_at first last end w)
unfolding measure_at
measure_at-Untouched none last end w = tt
measure_at-Untouched (some first) none end w = tt
measure_at-Untouched (some first) (some last) end w =
    elim (Bool-cases (ltb_ℤ first.end_time_us end)) [
      | inl moved ↦ elim (Bool-cases (size w.time_q == 1)) [
        | inl one ↦ rw (moved, one) tt
        | inr more ↦ rw (moved, more) (refl, weight-set_base _ _ w)
      ]
      | inr still ↦ elim (Bool-cases (size w.time_q == 1)) [
        | inl one ↦ rw (still, one) (refl, weight-set_base _ _ w)
        | inr more ↦ rw (still, more) (refl, refl)
      ]
    ]

update-Untouched : (end begin error : ℤ) (w : Weight) → Untouched w (update end begin error w)
unfolding update measure
update-Untouched end begin error w = elim (Bool-cases (disabled w)) [
  | inl off ↦ rw off (refl, refl)
  | inr on ↦ elim (Bool-cases (leb_ℤ (end -ℤ begin) (pos 0))) [
    | inl skewed ↦ rw (on, skewed) (refl, refl)
    | inr sampled ↦ elim (Bool-cases (eqb_ℤ error (pos 0))) [
      | inl good ↦ rw (on, sampled, good) (measure_at-Untouched _ _ end _)
      | inr bad ↦ rw (on, sampled, bad) (measure_at-Untouched _ _ end _)
    ]
  ]
]

-- what a feedback leaves: every weight, the sums of the tree and the total
abbrev pub StoreUntouched : Store → Outcome Store → Type 0
StoreUntouched s (done t) =
    ((c : ℕ) → (t.weights c).weight ≡ (s.weights c).weight)
    × (t.lefts ≡ s.lefts)
    × (t.total_weight ≡ s.total_weight)
StoreUntouched s (fault f) = Unit

store_of-Untouched :
    (s : Store) (cell : ℕ) (o : Outcome (ℤ × Weight))
    → Untouched (s.weights cell) o
    → StoreUntouched s (store_of cell s o)
store_of-Untouched s cell (fault f) u = tt
store_of-Untouched s cell (done (diff, w)) (_, same) = (at_cell, refl, refl)
  where
    at_cell : (c : ℕ) → (write s.weights cell w c).weight ≡ (s.weights c).weight
    at_cell c = elim (Bool-cases (cell == c)) [
      | inl e ↦ let eq : cell ≡ c = ground arith in rw e (same ∙ ap (λ x. (s.weights x).weight) eq)
      | inr e ↦ rw e
    ]

feed_found-Untouched :
    (now begin error : ℤ) (o : Option ServerInfo) (s : Store)
    → StoreUntouched s (feed_found now begin error o s)
feed_found-Untouched now begin error none s = (λ c. refl, refl, refl)
feed_found-Untouched now begin error (some node) s =
    store_of-Untouched s node.weight (update now begin error (s.weights node.weight))
      (update-Untouched now begin error (s.weights node.weight))

-- A feedback that does not fault changes no weight, no sum of the tree and not the total.
pub feedback-Untouched :
    (now begin : ℤ) (name : String) (error : ℤ) (b : Balancer)
    → StoreUntouched b.store (feedback now begin name error b)
unfolding feedback
feedback-Untouched now begin name error b = go (b.server_map name)
  where
    go :
        (o : Option ℕ)
        → StoreUntouched b.store (elim o as (λ _. Outcome Store) [
          | none ↦ done b.store
          | some count ↦
              feed_found now begin error
                (get_elem?
                  (unsafe_read b.servers_dbd).weight_tree
                  (or_zero ((unsafe_read b.servers_dbd).server_map name)))
                b.store
        ])
    go none = (λ c. refl, refl, refl)
    go (some count) = feed_found-Untouched now begin error _ b.store
