-- ===== src/LoadBalancer/LocalityAware/Remove.antt =====
-- `Remove` and `remove_server`: a server leaves both copies of the tree, and the sums stay right.
use mathlib.Core.Path.{subst}
use Prim.Native.String.{String}
use text.Mathlib.TextPositions.{eq_refl}
use lib_net_co_rpc.Prelude.{
  ℕ, suc, ◌+◌, ◌-◌, ◌<◌, ◌≡◌, ◌≢◌, refl, sym, ap, ◌∙◌, Bool, true, false, not, List, Option, none,
  some, arith, ◌==◌, ℕ_discrete, length, get_elem?,
}
use lib_net_co_rpc.Prelude.Int.{pos}
use lib_net_co_rpc.DoublyBuffered.{modify, plain, closure_2}
use lib_net_co_rpc.LoadBalancer.Tree.{ServerInfo, Servers}
use lib_net_co_rpc.LoadBalancer.LocalityAware.{
  Store, Balancer, map_set, or_zero, remove_at, remove, remove_server,
}
use lib_net_co_rpc.LoadBalancer.LocalityAware.Nodes.{get-inside, get-lt}
use lib_net_co_rpc.LoadBalancer.LocalityAware.Consistent.{Consistent}
use lib_net_co_rpc.LoadBalancer.LocalityAware.Add.{Settled}
use lib_net_co_rpc.LoadBalancer.LocalityAware.Calls.{
  swapped_servers, popped_servers, remove_at_first, remove_at_second, remove_at_last,
}
use lib_net_co_rpc.LoadBalancer.LocalityAware.Replace.{
  after_first, after_second, first_call, second_call, removed_first, both_calls-Consistent,
}
use lib_net_co_rpc.LoadBalancer.LocalityAware.Drop.{
  drop_first, drop_second, second_nothing, dropped_calls-Consistent,
}

-- What two calls of `Remove` on copies of the same servers leave: the same servers, and a store
-- in which their sums are right.
record Removed (call : Store → Servers × Store) (s : Store) : Type 0 where
  pub servers : Servers
  pub store_1 : Store
  pub store_2 : Store
  pub first : call s ≡ (servers, store_1)
  pub second : call store_1 ≡ (servers, store_2)
  pub consistent : Consistent servers.weight_tree store_2

module _ (index : ℕ) (node last : ServerInfo) (names : String → Option ℕ) (tree : List ServerInfo)
    (s : Store) (c : Consistent tree s) (m : ℕ) (size : length tree ≡ suc m)
    (at : get_elem? tree index ≡ some node) (at_last : get_elem? tree m ≡ some last)
    (weighs : (s.weights node.weight).weight ≢ pos 0) where
  remove_at-inner : index < m → Removed (remove_at index node last names tree) s
  remove_at-inner before =
      let inner : (index + 1 == length tree) ≡ false = ground arith in
      let s_1 = after_first tree s c m index node last size at at_last before in
      record {
        servers = swapped_servers index node last names tree s;
        store_1 = s_1;
        store_2 = after_second tree s c m index node last size at at_last before;
        first =
            remove_at_first index node last names tree s inner weighs
            ∙ ap (λ t. (swapped_servers index node last names tree s, t))
                (first_call tree s c m index node last size at at_last before);
        second =
            remove_at_second index node last names tree s_1 inner
              (removed_first tree s c m index node last size at at_last before)
            ∙ ap (λ t. (swapped_servers index node last names tree s, t))
                (second_call tree s c m index node last size at at_last before);
        consistent = both_calls-Consistent tree s c m index node last size at at_last before;
      }

module _ (node last : ServerInfo) (names : String → Option ℕ) (tree : List ServerInfo) (s : Store)
    (c : Consistent tree s) (m : ℕ) (size : length tree ≡ suc m)
    (at : get_elem? tree m ≡ some node) where
  remove_at-outer : Removed (remove_at m node last names tree) s
  remove_at-outer =
      let outer : (m + 1 == length tree) ≡ true = ground arith in
      let s_1 = drop_first tree s c m node size at in
      record {
        servers = popped_servers m node last names tree s;
        store_1 = s_1;
        store_2 = drop_second tree s c m node size at;
        first = remove_at_last m node last names tree s outer;
        second =
            remove_at_last m node last names tree s_1 outer
            ∙ ap (λ t. (popped_servers m node last names tree s, t))
                (second_nothing tree s c m node size at);
        consistent = dropped_calls-Consistent tree s c m node size at;
      }

module _ (x : Servers) (name : String) (s : Store) (c : Consistent x.weight_tree s)
    (node : ServerInfo) (at : get_elem? x.weight_tree (or_zero (x.server_map name)) ≡ some node)
    (weighs : (s.weights node.weight).weight ≢ pos 0) where
  -- `Remove` on the tree's part of the state
  abbrev tree_call : ServerInfo → Store → Servers × Store
  tree_call last =
      remove_at (or_zero (x.server_map name)) node last (map_set x.server_map name none)
        x.weight_tree

  remove-tree_call :
      (last : ServerInfo)
      → get_elem? x.weight_tree (length x.weight_tree - 1) ≡ some last
      → (t t' : Store) (y : Servers) → tree_call last t ≡ (y, t')
      → remove x name tt t ≡ (0, y, t')
  unfolding remove
  remove-tree_call last at_last t t' y e = rw (at, at_last, e, remove)

  tree_call-Removed :
      (m : ℕ)
      → length x.weight_tree ≡ suc m
      → (last : ServerInfo) → get_elem? x.weight_tree m ≡ some last
      → Removed (tree_call last) s
  tree_call-Removed m size last at_last =
      let index = or_zero (x.server_map name) in
      let names = map_set x.server_map name none in
      elim (ℕ_discrete index m) [
        | yes e ↦
            subst (λ i. Removed (remove_at i node last names x.weight_tree) s) (sym e)
              (remove_at-outer node last names x.weight_tree s c m size
                (ap (get_elem? x.weight_tree) (sym e) ∙ at))
        | no ne ↦
            let l = get-inside x.weight_tree index node at in
            remove_at-inner index node last names x.weight_tree s c m size at at_last weighs
              (omega arith)
      ]

  modify-Removed :
      (i : Bool) (last : ServerInfo)
      → get_elem? x.weight_tree (length x.weight_tree - 1) ≡ some last
      → (r : Removed (tree_call last) s)
      → let m =
          modify
            (plain (closure_2 remove name tt))
            (record { data_0 = x; data_1 = x; index = i })
            s in
        (m.buffers ≡ record { data_0 = r.servers; data_1 = r.servers; index = not i })
        × (m.state ≡ r.store_2)
  unfolding modify
  modify-Removed true last at_last r =
      rw
        (
          remove-tree_call last at_last s r.store_1 r.servers r.first,
          remove-tree_call last at_last r.store_1 r.store_2 r.servers r.second,
        )
        (refl, refl)
  modify-Removed false last at_last r =
      rw
        (
          remove-tree_call last at_last s r.store_1 r.servers r.first,
          remove-tree_call last at_last r.store_1 r.store_2 r.servers r.second,
        )
        (refl, refl)

remove_server_counted :
    (name : String) (b : Balancer) (n : ℕ)
    → b.server_map name ≡ some n
    → let m = modify (plain (closure_2 remove name tt)) b.servers_dbd b.store in
      remove_server name b ≡ record {
        servers_dbd = m.buffers;
        server_map = map_set b.server_map name none;
        store = m.state;
      }
unfolding remove_server
remove_server_counted name b n e = rw (e, remove_server)

-- Both copies are the same, and the sums are right.
pub record Agreed (b : Balancer) : Type 0 where
  pub same : b.servers_dbd.data_0 ≡ b.servers_dbd.data_1
  pub consistent : Consistent b.servers_dbd.data_0.weight_tree b.store

-- From a balancer whose copies are equal and whose sums are right, for a name that it has counted,
-- whose node is in the tree and has a weight other than 0, `remove_server` leaves a balancer whose
-- copies are equal, whose sums are right and that has not counted the name.
pub remove_server-Agreed :
    (name : String) (b : Balancer) (n : ℕ) (node : ServerInfo)
    → Settled b
    → b.server_map name ≡ some n
    → get_elem? b.servers_dbd.data_0.weight_tree (or_zero (b.servers_dbd.data_0.server_map name))
      ≡ some node
    → (b.store.weights node.weight).weight ≢ pos 0
    → Agreed (remove_server name b) × ((remove_server name b).server_map name ≡ none)
remove_server-Agreed name b n node ok e at weighs =
    let x = b.servers_dbd.data_0 in
    let i = b.servers_dbd.index in
    let inside = get-inside x.weight_tree (or_zero (x.server_map name)) node at in
    let (last, at_last) = get-lt x.weight_tree (length x.weight_tree - 1) (omega arith) in
    let r =
      tree_call-Removed x name b.store ok.consistent node at weighs (length x.weight_tree - 1)
        (omega arith) last at_last in
    let d : b.servers_dbd ≡ record { data_0 = x; data_1 = x; index = i } =
      ap (λ y. record { data_0 = x; data_1 = y; index = i }) (sym ok.same) in
    let (f, g) = modify-Removed x name b.store ok.consistent node at weighs i last at_last r in
    let m = modify (plain (closure_2 remove name tt)) b.servers_dbd b.store in
    let buffers : m.buffers ≡ record { data_0 = r.servers; data_1 = r.servers; index = not i } =
      ap (λ d'. (modify (plain (closure_2 remove name tt)) d' b.store).buffers) d ∙ f in
    let state : m.state ≡ r.store_2 =
      ap (λ d'. (modify (plain (closure_2 remove name tt)) d' b.store).state) d ∙ g in
    subst (λ q. Agreed q × (q.server_map name ≡ none)) (sym (remove_server_counted name b n e))
      (
        record {
          same = ap (λ p. p.data_0) buffers ∙ sym (ap (λ p. p.data_1) buffers);
          consistent =
              subst (λ p. Consistent p.data_0.weight_tree m.state) (sym buffers)
                (subst (Consistent r.servers.weight_tree) (sym state) r.consistent);
        },
        rw (eq_refl name),
      )
