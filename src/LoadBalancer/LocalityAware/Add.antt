-- ===== src/LoadBalancer/LocalityAware/Add.antt =====
-- `Add` and `add_server`: a new server joins both copies of the tree, and the sums stay right.
use mathlib.Core.Path.{subst, ap₂}
use Prim.Native.String.{String}
use text.Mathlib.Text.{◌==◌ as str_eq}
use text.Mathlib.TextPositions.{eq_refl}
use lib_net_co_rpc.Prelude.{
  ℕ, suc, ◌+◌, ◌*◌, ◌≤◌, ◌<◌, ◌≡◌, refl, sym, ap, ◌∙◌, Bool, true, false, not, List, Option, none,
  some, arith, ◌==◌, if◌then◌else◌, ◌⊎◌, inl, inr, Bool-cases, ℕ_discrete, length,
}
use lib_net_co_rpc.Prelude.Int.{ℤ, pos, ◌+ℤ◌, int_laws}
use lib_net_co_rpc.DoublyBuffered.{modify, with_fg_2}
use lib_net_co_rpc.LoadBalancer.Tree.{ServerInfo, Servers}
use lib_net_co_rpc.LoadBalancer.Tree.Sums.{under}
use lib_net_co_rpc.LoadBalancer.Tree.Totals.{
  sum_below, sum_below-pad, share, change_weight, weight_under-outside,
}
use lib_net_co_rpc.LoadBalancer.Tree.Inorder.{LeftSums}
use lib_net_co_rpc.LoadBalancer.Tree.Parents.{left_of}
use lib_net_co_rpc.LoadBalancer.LocalityAware.{
  Store, Balancer, map_set, left_at, weight_at, apply_diff, allocate, new_node, initial_weight, add,
  add_server,
}
use lib_net_co_rpc.LoadBalancer.LocalityAware.Nodes.{left_at-left_of, read_node-outside}
use lib_net_co_rpc.LoadBalancer.LocalityAware.Grown.{
  grown, get-append_last, grown-Distinct, grown-DistinctWeights, grown-Allocated, length-grown,
  grown-left_at, grown-weight_at, grown-left_at_last, grown-weight_at_last,
}
use lib_net_co_rpc.LoadBalancer.LocalityAware.Consistent.{
  Consistent, apply_diff-Restored, Consistent-Restored,
}

share_zero : (b : Bool) → share b (pos 0) ≡ pos 0
share_zero true = refl
share_zero false = refl

nothing_add : (x : ℤ) → pos 0 +ℤ x ≡ x
nothing_add x = omega int_laws

module _ (tree : List ServerInfo) (name : String) (s : Store) (c : Consistent tree s)
    (weight : ℤ) where
  old_weights_last : weight_at tree s (length tree) ≡ pos 0
  old_weights_last = read_node-outside _ tree (length tree) refl

  grown-LeftSums :
      LeftSums
        (suc (length tree))
        (left_of (grown tree name s) (allocate weight s).lefts)
        (weight_at tree s)
  grown-LeftSums k l =
      sym (left_at-left_of (grown tree name s) (allocate weight s) k)
      ∙ elim (ℕ_discrete k (length tree)) [
        | yes last ↦
            ap (left_at (grown tree name s) (allocate weight s)) last
            ∙ grown-left_at_last tree name s c weight
            ∙ sym (
                weight_under-outside (suc (length tree)) (weight_at tree s) (2 * k + 1)
                  (omega arith))
        | no ne ↦
            grown-left_at tree name s c weight k (omega arith)
            ∙ c.sums k (omega arith)
            ∙ sym (
                sum_below-pad (length tree) (λ i. share (under (2 * k + 1) i) (weight_at tree s i))
                  (ap (share (under (2 * k + 1) (length tree))) old_weights_last
                    ∙ share_zero (under (2 * k + 1) (length tree))))
      ]

  grown-weights :
      (k : ℕ)
      → k < suc (length tree)
      → change_weight (weight_at tree s) (length tree) weight k
        ≡ weight_at (grown tree name s) (allocate weight s) k
  grown-weights k l = elim (ℕ_discrete (length tree) k) [
    | yes last ↦
        let hit : (length tree == k) ≡ true = ground arith in
        rw hit (
          ap (λ j. weight_at tree s j +ℤ weight) (sym last)
          ∙ ap (λ x. x +ℤ weight) old_weights_last
          ∙ nothing_add weight
          ∙ sym (grown-weight_at_last tree name s c weight)
          ∙ ap (weight_at (grown tree name s) (allocate weight s)) last)
    | no ne ↦
        let miss : (length tree == k) ≡ false = ground arith in
        rw miss (sym (grown-weight_at tree name s c weight k (omega arith)))
  ]

  -- A new node with its weight passed on keeps the sums right.
  grown-Consistent :
      Consistent
        (grown tree name s)
        (apply_diff (grown tree name s) weight (length tree) (allocate weight s))
  grown-Consistent =
      let lg = length-grown tree name s c in
      let t = allocate weight s in
      Consistent-Restored (grown tree name s) weight (length tree) t (weight_at tree s)
        (grown-Distinct tree name s c) (grown-DistinctWeights tree name s c)
        (grown-Allocated tree name s c) (λ k l. grown-weights k (subst (λ n. k < n) lg l))
        (apply_diff-Restored (grown tree name s) weight (length tree) t (weight_at tree s)
          (grown-Distinct tree name s c) (omega arith)
          (subst (λ n. LeftSums n (left_of (grown tree name s) t.lefts) (weight_at tree s)) (sym lg)
            grown-LeftSums)
          (c.total
            ∙ sym (sum_below-pad (length tree) (weight_at tree s) old_weights_last)
            ∙ ap (λ n. sum_below n (weight_at tree s)) (sym lg)))

module _ (name : String) (x : Servers) (s : Store) where
  -- the tree and the map with the new server
  joined : Servers
  joined = record {
    weight_tree = grown x.weight_tree name s;
    server_map = map_set x.server_map name (some (length x.weight_tree));
  }

  stored : Store
  stored =
      let w = initial_weight (length x.weight_tree) s.total_weight in
      apply_diff (grown x.weight_tree name s) w (length x.weight_tree) (allocate w s)

module _ (name : String) (x : Servers) (s : Store) (new : x.server_map name ≡ none) where
  add_new : add x x name tt s ≡ (0, (joined name x s), (stored name x s))
  unfolding add joined stored
  add_new = rw (new, add)

  add_again : (t : Store) → add x (joined name x s) name tt t ≡ (0, (joined name x s), t)
  unfolding add joined
  add_again t = rw (eq_refl name, add) (rw (get-append_last x.weight_tree (new_node name s)))

  modify-add :
      (i : Bool)
      → let m = modify (with_fg_2 add name tt) (record { data_0 = x; data_1 = x; index = i }) s in
        (m.assertion ≡ true)
        × (m.buffers
            ≡ record { data_0 = (joined name x s); data_1 = (joined name x s); index = not i })
        × (m.state ≡ (stored name x s))
  unfolding modify
  modify-add true = rw (add_new, add_again (stored name x s)) (refl, refl, refl)
  modify-add false = rw (add_new, add_again (stored name x s)) (refl, refl, refl)

-- Both copies are the same, the sums are right, and the balancer has counted every server of theirs.
pub record Settled (b : Balancer) : Type 0 where
  pub same : b.servers_dbd.data_0 ≡ b.servers_dbd.data_1
  pub consistent : Consistent b.servers_dbd.data_0.weight_tree b.store
  pub known :
      (name : String) → b.server_map name ≡ none → b.servers_dbd.data_0.server_map name ≡ none
  pub counted : (name : String) (n : ℕ) → b.server_map name ≡ some n → 1 ≤ n

map_set-none :
    (m : String → Option ℕ) (k j : String) (v : ℕ)
    → map_set m k (some v) j ≡ none
    → (str_eq k j ≡ false) × (m j ≡ none)
map_set-none m k j v e = elim (Bool-cases (str_eq k j)) [
  | inr o ↦ (o, sym (ap (λ t. if t then some v else m j) o) ∙ e)
  | inl h ↦ let f : some v ≡ none = sym (ap (λ t. if t then some v else m j) h) ∙ e in cc
]

map_set-some :
    (m : String → Option ℕ) (k j : String) (v n : ℕ)
    → map_set m k (some v) j ≡ some n
    → (v ≡ n) ⊎ (m j ≡ some n)
map_set-some m k j v n e = elim (Bool-cases (str_eq k j)) [
  | inr o ↦ inr (sym (ap (λ t. if t then some v else m j) o) ∙ e)
  | inl h ↦ let f : some v ≡ some n = sym (ap (λ t. if t then some v else m j) h) ∙ e in inl cc
]

map_set-off :
    (m : String → Option ℕ) (k j : String) (v : Option ℕ)
    → str_eq k j ≡ false
    → map_set m k v j ≡ m j
map_set-off m k j v o = rw o

module _ (name : String) (b : Balancer) (ok : Settled b) where
  -- what `add_server` leaves for a server that is not there
  added : Balancer
  added = record {
    servers_dbd = record {
      data_0 = joined name b.servers_dbd.data_0 b.store;
      data_1 = joined name b.servers_dbd.data_0 b.store;
      index = not b.servers_dbd.index;
    };
    server_map = map_set b.server_map name (some 1);
    store = stored name b.servers_dbd.data_0 b.store;
  }

  add_server_new : b.server_map name ≡ none → add_server name b ≡ added
  unfolding add_server added
  add_server_new e =
      let x = b.servers_dbd.data_0 in
      let d : b.servers_dbd ≡ record { data_0 = x; data_1 = x; index = b.servers_dbd.index } =
        ap (λ y. record { data_0 = x; data_1 = y; index = b.servers_dbd.index }) (sym ok.same) in
      let (_, f, g) = modify-add name x b.store (ok.known name e) b.servers_dbd.index in
      rw e (
        ap
          (λ d'.
            let m = modify (with_fg_2 add name tt) d' b.store in
            record {
              servers_dbd = m.buffers;
              server_map = map_set b.server_map name (some 1);
              store = m.state;
            })
          d
        ∙ ap₂
            (λ p q. record {
              servers_dbd = p;
              server_map = map_set b.server_map name (some 1);
              store = q;
            })
            f g)

  added-Settled : b.server_map name ≡ none → Settled added
  unfolding joined stored added
  added-Settled e = record {
    same = refl;
    consistent = grown-Consistent b.servers_dbd.data_0.weight_tree name b.store ok.consistent _;
    known = λ j f.
        let (off, g) = map_set-none b.server_map name j 1 f in
        map_set-off b.servers_dbd.data_0.server_map name j _ off ∙ ok.known j g;
    counted = λ j n f. elim (map_set-some b.server_map name j 1 n f) [
      | inl one ↦ omega arith
      | inr old ↦ ok.counted j n old
    ];
  }

-- From a balancer whose copies are equal, whose sums are right and that has counted every server of
-- its tree, `add_server` leaves such a balancer, whether or not the server is there already.
pub add_server-Settled : (name : String) (b : Balancer) → Settled b → Settled (add_server name b)
unfolding add_server
add_server-Settled name b ok = go (b.server_map name) refl
  where
    go : (o : Option ℕ) → b.server_map name ≡ o → Settled (add_server name b)
    go none e = subst Settled (sym (add_server_new name b ok e)) (added-Settled name b ok e)
    go (some n) e =
        let positive = ok.counted name n e in
        let again : (n + 1 == 1) ≡ false = ground arith in
        rw e (
          rw again (record {
            same = ok.same;
            consistent = ok.consistent;
            known = λ j f. ok.known j (map_set-none b.server_map name j (n + 1) f).1;
            counted = λ j k f. elim (map_set-some b.server_map name j (n + 1) k f) [
              | inl one ↦ omega arith
              | inr old ↦ ok.counted j k old
            ];
          }))
