-- ===== src/LoadBalancer/LocalityAware/Finish.antt =====
-- What `select_server` finds and returns: the dice below `total_weight_` fall on the node that a scan
-- of the weights in order finds, and the loop ends within its rounds.
use mathlib.Core.Path.{subst}
use Prim.Native.String.{String}
use lib_net_co_rpc.Prelude.{
  ℕ, zero, suc, ◌+◌, ◌≤◌, ◌<◌, ◌≡◌, ◌≢◌, refl, sym, ◌∙◌, true, List, [], ◌∷◌, arith, ◌==◌, leb, inl,
  inr, Bool-cases, length,
}
use lib_net_co_rpc.Prelude.Int.{
  ℤ, pos, ◌-ℤ◌, ◌≤ℤ◌, ◌<ℤ◌, leb_ℤ, ltb_ℤ, int_laws, lt_of_ltb_ℤ, le_of_ltb_ℤ,
}
use lib_net_co_rpc.DoublyBuffered.{unsafe_read}
use lib_net_co_rpc.LoadBalancer.Weight.{
  Weight, add_inflight, reset_weight, disabled, at_least_min, punished, min_weight,
}
use lib_net_co_rpc.LoadBalancer.Weight.Bounds.{weight-reset_weight}
use lib_net_co_rpc.LoadBalancer.Tree.{ServerInfo, passed}
use lib_net_co_rpc.LoadBalancer.Tree.Totals.{weight_under-root, sum_below-zero}
use lib_net_co_rpc.LoadBalancer.Tree.Inorder.{Finds, inorder, scan, walk-scan, walk-passed}
use lib_net_co_rpc.LoadBalancer.LocalityAware.{
  Store, Balancer, Selected, chosen, failed, undefined, left_at, weight_at, set_weight, apply_diff,
  begin_walk, Round, stop, again, retry, take_node, land, select_loop, select_server,
}
use lib_net_co_rpc.LoadBalancer.LocalityAware.Nodes.{get-lt}
use lib_net_co_rpc.LoadBalancer.LocalityAware.Consistent.{Consistent, apply_diff-keeps}
use lib_net_co_rpc.LoadBalancer.LocalityAware.Select.{land-Consistent, RoundConsistent}

-- No weight is negative.
abbrev pub Nonnegative : Store → Type 0
Nonnegative s = (c : ℕ) → pos 0 ≤ℤ (s.weights c).weight

weight_at-nonneg :
    (tree : List ServerInfo) (s : Store) → Nonnegative s → (k : ℕ) → pos 0 ≤ℤ weight_at tree s k
weight_at-nonneg [] s h k = omega arith
weight_at-nonneg (x ∷ tree) s h zero = h x.weight
weight_at-nonneg (x ∷ tree) s h (suc k) = weight_at-nonneg tree s h k

-- For sums that are right, no negative weight and at least one node, a dice of at least 0 and below
-- `total_weight_` falls on the node that a scan of the weights in order finds, with the same rest.
pub begin_walk-scan :
    (tree : List ServerInfo) (s : Store) (dice : ℤ)
    → Consistent tree s
    → Nonnegative s
    → 0 < length tree
    → pos 0 ≤ℤ dice
    → dice <ℤ s.total_weight
    → Finds
        (begin_walk tree s dice)
        (scan (weight_at tree s) (inorder (length tree + 1) (length tree) 0) dice)
        (length tree)
        (left_at tree s)
begin_walk-scan tree s dice c nonneg inside low high =
    walk-scan (length tree) (left_at tree s) (weight_at tree s) c.sums
      (weight_at-nonneg tree s nonneg) (length tree + 1) 0 dice (omega arith) inside low
      (subst (λ x. dice <ℤ x) (c.total ∙ sym (weight_under-root (length tree) (weight_at tree s)))
        high)

-- A dice that is not below the sum falls on no node.
pub begin_walk-passed :
    (tree : List ServerInfo) (s : Store) (dice : ℤ)
    → Consistent tree s
    → Nonnegative s
    → 0 < length tree
    → s.total_weight ≤ℤ dice
    → begin_walk tree s dice ≡ passed
begin_walk-passed tree s dice c nonneg inside high =
    walk-passed (length tree) (left_at tree s) (weight_at tree s) c.sums
      (weight_at-nonneg tree s nonneg) (length tree + 1) 0 dice (omega arith) inside
      (subst (λ x. x ≤ℤ dice) (c.total ∙ sym (weight_under-root (length tree) (weight_at tree s)))
        high)

at_least_min-nonneg : (x : ℤ) → pos 0 ≤ℤ at_least_min x
at_least_min-nonneg x = elim (Bool-cases (ltb_ℤ x min_weight)) [
  | inl low ↦ rw low (omega arith)
  | inr high ↦ rw high (let h = le_of_ltb_ℤ x min_weight high in omega (int_laws, h))
]

add_inflight-nonneg :
    (begin : ℤ) (index : ℕ) (dice : ℤ) (w : Weight)
    → pos 0 ≤ℤ w.weight
    → pos 0 ≤ℤ (add_inflight begin index dice w).1.weight
unfolding add_inflight
add_inflight-nonneg begin index dice w h =
    let reset : pos 0 ≤ℤ (reset_weight index begin w).1.weight =
      subst (λ x. pos 0 ≤ℤ x) (sym (weight-reset_weight index begin w))
        (at_least_min-nonneg (punished w begin)) in
    elim (Bool-cases (disabled w)) [
      | inl off ↦ rw off h
      | inr on ↦ elim (Bool-cases (ltb_ℤ (reset_weight index begin w).1.weight dice)) [
        | inl small ↦ rw (on, small) reset
        | inr large ↦ rw (on, large) reset
      ]
    ]

set_weight-Nonnegative :
    (tree : List ServerInfo) (s : Store) (diff : ℤ) (index cell : ℕ) (w : Weight)
    → Nonnegative s
    → pos 0 ≤ℤ w.weight
    → Nonnegative (apply_diff tree diff index (set_weight cell w s))
set_weight-Nonnegative tree s diff index cell w h p c =
    let (_, same) = apply_diff-keeps tree diff index (set_weight cell w s) in
    subst (λ f. pos 0 ≤ℤ (f c).weight) (sym same)
      (elim (Bool-cases (cell == c)) [ inl e ↦ rw e p | inr e ↦ rw e (h c) ])

-- A round that goes on has raised `n_try`, still below `n`; one that returns has not failed to read.
abbrev pub Goes : ℕ → ℕ → Round → Type 0
Goes n n_try (stop r t) = r ≢ undefined
Goes n n_try (again m t) = (n_try < m) × (m < n) × Nonnegative t

failed-defined : failed ≢ undefined
failed-defined e = cc

chosen-defined : (name : String) → chosen name ≢ undefined
chosen-defined name e = cc

retry-Goes :
    (n n_try low : ℕ) (s : Store) → Nonnegative s → low ≤ n_try → Goes n low (retry n n_try s)
unfolding retry
retry-Goes n n_try low s h l = elim (Bool-cases (leb n (n_try + 1))) [
  | inl e ↦ rw e failed-defined
  | inr e ↦ rw e (omega arith, ground arith, h)
]

take_node-Goes :
    (begin : ℤ) (tree : List ServerInfo) (index : ℕ) (rest : ℤ) (node : ServerInfo) (n_try : ℕ)
    (s : Store)
    → Nonnegative s
    → Goes (length tree) n_try (take_node begin tree index rest node n_try s)
unfolding take_node
take_node-Goes begin tree index rest node n_try s h =
    let d = rest -ℤ left_at tree s index in
    let r = add_inflight begin index d (s.weights node.weight) in
    let h' =
      set_weight-Nonnegative tree s r.0.weight_diff index node.weight r.1 h
        (add_inflight-nonneg begin index d (s.weights node.weight) (h node.weight)) in
    elim (Bool-cases r.0.chosen) [
      | inl yes_chosen ↦ rw yes_chosen (chosen-defined node.server_name)
      | inr not_chosen ↦ elim (Bool-cases (leb (length tree) (n_try + 1))) [
        | inl last ↦ rw (not_chosen, last) failed-defined
        | inr more ↦
            rw (not_chosen, more) (retry-Goes (length tree) (n_try + 1) n_try _ h' (omega arith))
      ]
    ]

land-Goes :
    (begin : ℤ) (tree : List ServerInfo) (dice : ℤ) (n_try : ℕ) (s : Store)
    → Consistent tree s
    → Nonnegative s
    → 0 < length tree
    → pos 0 ≤ℤ dice
    → Goes (length tree) n_try (land begin tree (begin_walk tree s dice) n_try s)
land-Goes begin tree dice n_try s c h inside low = elim (Bool-cases (ltb_ℤ dice s.total_weight)) [
  | inl below ↦
      let (j, d, jl, e, _) =
        begin_walk-scan tree s dice c h inside low (lt_of_ltb_ℤ dice s.total_weight below) in
      let (node, f) = get-lt tree j jl in rw e (rw f (take_node-Goes begin tree j d node n_try s h))
  | inr beyond ↦
      rw (begin_walk-passed tree s dice c h inside (le_of_ltb_ℤ dice s.total_weight beyond))
        (retry-Goes (length tree) n_try n_try s h (omega arith))
]

-- With `n + 1` rounds less those done, the loop returns.
select_loop-defined :
    (rounds : ℕ) (begin : ℤ) (tree : List ServerInfo) (dice : ℕ → ℤ) (n_try : ℕ) (total : ℤ)
    (s : Store)
    → Consistent tree s
    → Nonnegative s
    → 0 < length tree
    → ((k : ℕ) → pos 0 ≤ℤ dice k)
    → n_try < length tree
    → length tree < rounds + n_try
    → (select_loop rounds begin tree dice n_try total s).0 ≢ undefined
unfolding select_loop
select_loop-defined zero begin tree dice n_try total s c h inside low below enough =
    absurd (omega arith)
select_loop-defined (suc rounds) begin tree dice n_try total s c h inside low below enough =
    elim (Bool-cases (leb_ℤ total (pos 0))) [
      | inl empty ↦ rw empty failed-defined
      | inr weighted ↦ rw weighted (
          go
            (λ m total' t c' h' l l'.
              select_loop-defined rounds begin tree (λ k. dice (suc k)) m total' t c' h' inside
                (λ k. low (suc k)) l' (omega arith))
            (land begin tree (begin_walk tree s (dice 0)) n_try s)
            (land-Consistent begin tree (begin_walk tree s (dice 0)) n_try s c)
            (land-Goes begin tree (dice 0) n_try s c h inside (low 0)))
    ]
  where
    go :
        ((m : ℕ) (total' : ℤ) (t : Store)
          → Consistent tree t
          → Nonnegative t
          → n_try < m
          → m < length tree
          → (select_loop rounds begin tree (λ k. dice (suc k)) m total' t).0 ≢ undefined)
        → (r : Round) → RoundConsistent tree r
        → Goes (length tree) n_try r
        → (elim r as (λ _. Selected × Store) [
          | stop x t ↦ (x, t)
          | again m t ↦ select_loop rounds begin tree (λ k. dice (suc k)) m t.total_weight t
        ]).0
          ≢ undefined
    go later (stop x t) c' g = g
    go later (again m t) c' (l, l', h') = later m t.total_weight t c' h' l l'

select_loop-starts :
    (begin : ℤ) (tree : List ServerInfo) (dice : ℕ → ℤ) (s : Store)
    → Consistent tree s
    → Nonnegative s
    → ((k : ℕ) → pos 0 ≤ℤ dice k)
    → (select_loop (length tree + 1) begin tree dice 0 s.total_weight s).0 ≢ undefined
unfolding select_loop
select_loop-starts begin [] dice s c h low =
    let empty : leb_ℤ s.total_weight (pos 0) ≡ true =
      subst (λ x. leb_ℤ x (pos 0) ≡ true)
        (sym (c.total ∙ sum_below-zero 0 _ (λ i l. absurd (omega arith)))) refl in
    rw empty failed-defined
select_loop-starts begin (x ∷ tree) dice s c h low =
    select_loop-defined (length (x ∷ tree) + 1) begin (x ∷ tree) dice 0 s.total_weight s c h
      (omega arith) low (omega arith) (omega arith)

-- For sums that are right, no negative weight and dice of at least 0, `select_server` returns 0 or -1
-- within its rounds, and never reads outside the tree.
pub select_server-defined :
    (begin : ℤ) (dice : ℕ → ℤ) (b : Balancer)
    → Consistent (unsafe_read b.servers_dbd).weight_tree b.store
    → Nonnegative b.store
    → ((k : ℕ) → pos 0 ≤ℤ dice k)
    → (select_server begin dice b).0 ≢ undefined
unfolding select_server
select_server-defined begin dice b c h low =
    select_loop-starts begin (unsafe_read b.servers_dbd).weight_tree dice b.store c h low

-- A server that is alone is never selected by the dice that equals `total_weight_`.
pub select_server-misses :
    (begin : ℤ) (dice : ℕ → ℤ) (b : Balancer)
    → Consistent (unsafe_read b.servers_dbd).weight_tree b.store
    → Nonnegative b.store
    → length (unsafe_read b.servers_dbd).weight_tree ≡ 1
    → dice 0 ≡ b.store.total_weight
    → select_server begin dice b ≡ (failed, b.store)
unfolding select_server select_loop retry
select_server-misses begin dice b c h one top =
    let tree = (unsafe_read b.servers_dbd).weight_tree in
    let missed : begin_walk tree b.store (dice 0) ≡ passed =
      subst (λ d. begin_walk tree b.store d ≡ passed) (sym top)
        (begin_walk-passed tree b.store b.store.total_weight c h (omega arith) (omega int_laws)) in
    elim (Bool-cases (leb_ℤ b.store.total_weight (pos 0))) [
      | inl empty ↦ rw (one, empty)
      | inr weighted ↦ rw (one, weighted, missed, one)
    ]
