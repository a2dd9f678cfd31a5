-- ===== src/LoadBalancer/LocalityAware/Select.antt =====
-- `select_server` and `Feedback` keep the sums of the tree, and what the dice selects.
use lib_net_co_rpc.Prelude.{
  ℕ, zero, suc, ◌+◌, ◌≡◌, refl, List, Option, none, some, leb, inl, inr, Bool-cases, length,
  get_elem?,
}
use Prim.Native.String.{String}
use lib_net_co_rpc.Prelude.Int.{ℤ, pos, ◌-ℤ◌, leb_ℤ}
use lib_net_co_rpc.DoublyBuffered.{unsafe_read}
use lib_net_co_rpc.LoadBalancer.Weight.{Weight, add_inflight, update, Outcome, done, fault}
use lib_net_co_rpc.LoadBalancer.Weight.Laws.{add_inflight-Tracked, update-Tracked, TrackedOutcome}
use lib_net_co_rpc.LoadBalancer.Tree.{ServerInfo, Landing, landed, passed, no_node, out_of_fuel}
use lib_net_co_rpc.LoadBalancer.LocalityAware.{
  Store, Balancer, Selected, left_at, set_weight, apply_diff, begin_walk, Round, stop, again, retry,
  take_node, take_found, land, select_loop, select_server, feedback, or_zero,
}
use lib_net_co_rpc.LoadBalancer.LocalityAware.Consistent.{Consistent, set_weight-Consistent}

abbrev pub RoundConsistent : List ServerInfo → Round → Type 0
RoundConsistent tree (stop r t) = Consistent tree t
RoundConsistent tree (again m t) = Consistent tree t

pub retry-Consistent :
    (tree : List ServerInfo) (n n_try : ℕ) (s : Store)
    → Consistent tree s
    → RoundConsistent tree (retry n n_try s)
unfolding retry
retry-Consistent tree n n_try s c = elim (Bool-cases (leb n (n_try + 1))) [
  | inl e ↦ rw e c
  | inr e ↦ rw e c
]

pub take_node-Consistent :
    (begin : ℤ) (tree : List ServerInfo) (index : ℕ) (rest : ℤ) (node : ServerInfo) (n_try : ℕ)
    (s : Store)
    → Consistent tree s
    → get_elem? tree index ≡ some node
    → RoundConsistent tree (take_node begin tree index rest node n_try s)
unfolding take_node
take_node-Consistent begin tree index rest node n_try s c e =
    let d = rest -ℤ left_at tree s index in
    let r = add_inflight begin index d (s.weights node.weight) in
    let t = add_inflight-Tracked begin index d (s.weights node.weight) in
    let c' = set_weight-Consistent tree s index node r.1 r.0.weight_diff c e t.change in
    elim (Bool-cases r.0.chosen) [
      | inl yes_chosen ↦ rw yes_chosen c'
      | inr not_chosen ↦ elim (Bool-cases (leb (length tree) (n_try + 1))) [
        | inl last ↦ rw (not_chosen, last) c'
        | inr more ↦ rw (not_chosen, more) (retry-Consistent tree (length tree) (n_try + 1) _ c')
      ]
    ]

pub land-Consistent :
    (begin : ℤ) (tree : List ServerInfo) (l : Landing) (n_try : ℕ) (s : Store)
    → Consistent tree s
    → RoundConsistent tree (land begin tree l n_try s)
land-Consistent begin tree out_of_fuel n_try s c = c
land-Consistent begin tree no_node n_try s c = c
land-Consistent begin tree passed n_try s c = retry-Consistent tree (length tree) n_try s c
land-Consistent begin tree (landed index rest) n_try s c = go (get_elem? tree index) refl
  where
    go :
        (o : Option ServerInfo)
        → get_elem? tree index ≡ o
        → RoundConsistent tree (take_found begin tree index rest o n_try s)
    go none e = c
    go (some node) e = take_node-Consistent begin tree index rest node n_try s c e

-- Whatever the dice, the rounds of a selection keep the sums right.
pub select_loop-Consistent :
    (rounds : ℕ) (begin : ℤ) (tree : List ServerInfo) (dice : ℕ → ℤ) (n_try : ℕ) (total : ℤ)
    (s : Store)
    → Consistent tree s
    → Consistent tree (select_loop rounds begin tree dice n_try total s).1
unfolding select_loop
select_loop-Consistent zero begin tree dice n_try total s c = c
select_loop-Consistent (suc rounds) begin tree dice n_try total s c =
    elim (Bool-cases (leb_ℤ total (pos 0))) [
      | inl empty ↦ rw empty c
      | inr weighted ↦ rw weighted (
          go (select_loop-Consistent rounds begin tree (λ k. dice (suc k)))
            (land begin tree (begin_walk tree s (dice 0)) n_try s)
            (land-Consistent begin tree (begin_walk tree s (dice 0)) n_try s c))
    ]
  where
    go :
        ((m : ℕ) (total' : ℤ) (t : Store)
          → Consistent tree t
          → Consistent tree (select_loop rounds begin tree (λ k. dice (suc k)) m total' t).1)
        → (r : Round) → RoundConsistent tree r
        → Consistent tree
            (elim r as (λ _. Selected × Store) [
              | stop x t ↦ (x, t)
              | again m t ↦ select_loop rounds begin tree (λ k. dice (suc k)) m t.total_weight t
            ]).1
    go later (stop x t) c' = c'
    go later (again m t) c' = later m t.total_weight t c'

-- A selection on a tree whose sums are right leaves them right, whatever `getRand` returns.
pub select_server-Consistent :
    (begin : ℤ) (dice : ℕ → ℤ) (b : Balancer)
    → Consistent (unsafe_read b.servers_dbd).weight_tree b.store
    → Consistent (unsafe_read b.servers_dbd).weight_tree (select_server begin dice b).1
unfolding select_server
select_server-Consistent begin dice b c =
    select_loop-Consistent _ begin (unsafe_read b.servers_dbd).weight_tree dice 0 _ b.store c

-- what `Feedback` leaves behind, if it does not end the program
abbrev pub FeedbackConsistent : List ServerInfo → Outcome Store → Type 0
FeedbackConsistent tree (done s) = Consistent tree s
FeedbackConsistent tree (fault f) = Unit

-- A feedback on a tree whose sums are right leaves them right, on every path that does not fault.
pub feedback-Consistent :
    (now begin : ℤ) (name : String) (error : ℤ) (b : Balancer)
    → Consistent (unsafe_read b.servers_dbd).weight_tree b.store
    → FeedbackConsistent (unsafe_read b.servers_dbd).weight_tree (feedback now begin name error b)
unfolding feedback
feedback-Consistent now begin name error b c = known (b.server_map name)
  where
    tree : List ServerInfo
    tree = (unsafe_read b.servers_dbd).weight_tree

    index : ℕ
    index = or_zero ((unsafe_read b.servers_dbd).server_map name)

    updated :
        (node : ServerInfo)
        → get_elem? tree index ≡ some node
        → (o : Outcome (ℤ × Weight)) → TrackedOutcome index (b.store.weights node.weight) o
        → FeedbackConsistent tree (elim o as (λ _. Outcome Store) [
          | fault f ↦ fault f
          | done (diff, w) ↦ done (apply_diff tree diff index (set_weight node.weight w b.store))
        ])
    updated node e (fault f) t = tt
    updated node e (done (diff, w)) t =
        set_weight-Consistent tree b.store index node w diff c e t.change

    found :
        (o : Option ServerInfo)
        → get_elem? tree index ≡ o
        → FeedbackConsistent tree (elim o as (λ _. Outcome Store) [
          | none ↦ done b.store
          | some node ↦ elim (update now begin error index (b.store.weights node.weight)) [
            | fault f ↦ fault f
            | done (diff, w) ↦ done (apply_diff tree diff index (set_weight node.weight w b.store))
          ]
        ])
    found none e = c
    found (some node) e =
        updated node e (update now begin error index (b.store.weights node.weight))
          (update-Tracked now begin error index (b.store.weights node.weight))

    known :
        (o : Option ℕ)
        → FeedbackConsistent tree (elim o as (λ _. Outcome Store) [
          | none ↦ done b.store
          | some count ↦ elim (get_elem? tree index) [
            | none ↦ done b.store
            | some node ↦ elim (update now begin error index (b.store.weights node.weight)) [
              | fault f ↦ fault f
              | done (diff, w) ↦
                  done (apply_diff tree diff index (set_weight node.weight w b.store))
            ]
          ]
        ])
    known none = c
    known (some count) = found (get_elem? tree index) refl
