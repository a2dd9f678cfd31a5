-- ===== src/NameService/Listing.antt =====
-- `RunNS`: after it, the action of a method lists each of the children once, and the actions stay
-- ready for the next call.
use mathlib.Core.Path.{subst}
use Prim.Native.Nat.{min}
use lib_net_co_rpc.Prelude.{
  ℕ, ◌+◌, ◌≤◌, ◌≡◌, refl, sym, ap, ◌∙◌, true, false, List, [], ◌∷◌, ◌++◌, Option, none, some, arith,
  ltb, if◌then◌else◌, inl, inr, Bool-cases,
}
use lib_net_co_rpc.DoublyBuffered.{init}
use lib_net_co_rpc.NameService.{
  ServerNode, bytes_eq, node_eq, LoadBalancer, NameServiceActionImpl, reset_servers, new_action,
}
use lib_net_co_rpc.NameService.Order.{bytes_eq_refl}
use lib_net_co_rpc.NameService.Counts.{hit, count, count-append, node_eq_correct}
use lib_net_co_rpc.NameService.Reset.{Same, Idle}
use lib_net_co_rpc.NameService.Update.{reset_servers-Same}
use lib_net_co_rpc.NameService.Service.{
  contains, collect, Actions, set_action, action_key, method_path, get_servers, run_ns,
}

-- the children as servers, one for each name
abbrev pub nodes_of : List (List ℕ) → List ServerNode
nodes_of [] = []
nodes_of (child ∷ children) = record { ip_port = child } ∷ nodes_of children

contains-count :
    (a : ServerNode) (servers : List ServerNode) → contains a servers ≡ ltb 0 (count a servers)
unfolding contains
contains-count a [] = refl
contains-count a (b ∷ bs) = elim (Bool-cases (node_eq a b)) [
  | inl e ↦ rw e (ground arith)
  | inr e ↦ rw e (contains-count a bs ∙ ap (ltb 0) (omega arith))
]

-- What is not there yet and is added stands in the list once.
add_once :
    (a child : ServerNode) (servers : List ServerNode)
    → ((b : ServerNode) → count b servers ≤ 1)
    → count a (if contains child servers then servers else servers ++ child ∷ [])
      ≡ min 1 (count a servers + hit a child)
add_once a child servers once =
    let o = once a in
    let c = contains-count child servers in
    elim (Bool-cases (contains child servers)) [
      | inl there ↦
          let n = once child in
          let positive : ltb 0 (count child servers) ≡ true = sym c ∙ there in
          rw there (elim (Bool-cases (node_eq a child)) [
            | inr off ↦ rw off (omega arith)
            | inl e ↦
                let same = ap (λ s. count s servers) (node_eq_correct a child e) in
                rw e (ground arith)
          ])
      | inr absent ↦
          let h = count-append a servers (child ∷ []) in
          let zero_there : ltb 0 (count child servers) ≡ false = sym c ∙ absent in
          rw absent (elim (Bool-cases (node_eq a child)) [
            | inr off ↦ (let z : hit a child ≡ 0 = rw off in omega arith)
            | inl e ↦
                let same = ap (λ s. count s servers) (node_eq_correct a child e) in
                let z : hit a child ≡ 1 = rw e in
                let zero_child : count child servers ≡ 0 = ground arith in omega arith
          ])
    ]

pub count-collect :
    (a : ServerNode) (children : List (List ℕ)) (servers : List ServerNode)
    → ((b : ServerNode) → count b servers ≤ 1)
    → count a (collect children servers) ≡ min 1 (count a servers + count a (nodes_of children))
unfolding collect
count-collect a [] servers once = let o = once a in omega arith
count-collect a (child ∷ children) servers once =
    let node : ServerNode = record { ip_port = child } in
    let next = if contains node servers then servers else servers ++ node ∷ [] in
    let still : (b : ServerNode) → count b next ≤ 1 =
      λ b. (let h = add_once b node servers once in omega arith) in
    let r = count-collect a children next still in
    let h = add_once a node servers once in omega arith

-- An action between two calls: its copies have the same servers, and nothing is left to be done.
pub record ReadyAction {ℓ} {L : Type ℓ} (action : NameServiceActionImpl L) : Type ℓ where
  pub same : Same action.servers_data.data_0 action.servers_data.data_1
  pub idle : Idle action.pending

pub new_action-ReadyAction {ℓ} :
    {L : Type ℓ} (lb : LoadBalancer L) (o : Option L) → ReadyAction (new_action lb o)
unfolding init
new_action-ReadyAction lb o = record {
  same = λ a. refl;
  idle = record { to_add = refl; to_remove = refl; unchanged = refl };
}

-- every action is one between two calls
abbrev pub Ready {ℓ} : {L : Type ℓ} → Actions L → Type ℓ
Ready {L = L} actions =
    (key : List ℕ) (action : NameServiceActionImpl L)
    → actions key ≡ some action
    → ReadyAction action

pub set_action-Ready {ℓ} :
    {L : Type ℓ} (actions : Actions L) (key : List ℕ) (action : NameServiceActionImpl L)
    → Ready actions
    → ReadyAction action
    → Ready (set_action actions key action)
set_action-Ready actions key action ready new k a e = elim (Bool-cases (bytes_eq key k)) [
  | inr off ↦ ready k a (sym (ap (λ t. if t then some action else actions k) off) ∙ e)
  | inl h ↦
      let f : some action ≡ some a = sym (ap (λ t. if t then some action else actions k) h) ∙ e in
      let same : action ≡ a = cc in subst ReadyAction same new
]

-- the servers of both copies are these, each once
pub record ListsOnce {ℓ} {L : Type ℓ} (children : List (List ℕ)) (action : NameServiceActionImpl L)
    : Type ℓ where
  pub first :
      (a : ServerNode) → count a action.servers_data.data_0 ≡ min 1 (count a (nodes_of children))
  pub second :
      (a : ServerNode) → count a action.servers_data.data_1 ≡ min 1 (count a (nodes_of children))

module _ {ℓ} {L : Type ℓ} (lb : LoadBalancer L) (list_children : List ℕ → List (List ℕ)) where
  refreshed :
      (service method : List ℕ) (action : NameServiceActionImpl L)
      → ReadyAction action
      → let after = reset_servers lb (get_servers lb list_children service method []) action in
        ReadyAction after × ListsOnce (list_children (method_path service method)) after
  unfolding get_servers
  refreshed service method action ready =
      let children = list_children (method_path service method) in
      let (f, s, i) = reset_servers-Same lb (collect children []) action ready.idle ready.same in
      let once : (a : ServerNode)
          → count a (collect children []) ≡ min 1 (count a (nodes_of children)) =
        λ a. (count-collect a children [] (λ b. omega arith) ∙ omega arith) in
      (
        record { same = λ a. f a ∙ sym (s a); idle = i },
        record { first = λ a. f a ∙ once a; second = λ a. s a ∙ once a },
      )

  -- the action that `RunNS` resets
  abbrev current : Option (NameServiceActionImpl L) → NameServiceActionImpl L
  current none = new_action lb none
  current (some action) = action

  abbrev renewed : List ℕ → List ℕ → NameServiceActionImpl L → NameServiceActionImpl L
  renewed service method action =
      reset_servers lb (get_servers lb list_children service method []) action

  run_ns_sets :
      (service method : List ℕ) (actions : Actions L)
      → let key = action_key service method in
        run_ns lb list_children service method actions
        ≡ set_action actions key (renewed service method (current (actions key)))
  unfolding run_ns
  run_ns_sets service method actions = go (actions (action_key service method)) refl
    where
      go :
          (o : Option (NameServiceActionImpl L))
          → actions (action_key service method) ≡ o
          → run_ns lb list_children service method actions
            ≡ set_action actions
                (action_key service method)
                (renewed service method (current (actions (action_key service method))))
      go none e = rw (e, run_ns)
      go (some action) e = rw (e, run_ns)

  current-ReadyAction :
      (actions : Actions L) (key : List ℕ) → Ready actions → ReadyAction (current (actions key))
  current-ReadyAction actions key ready = go (actions key) refl
    where
      go :
          (o : Option (NameServiceActionImpl L))
          → actions key ≡ o
          → ReadyAction (current (actions key))
      go none e = subst (λ o. ReadyAction (current o)) (sym e) (new_action-ReadyAction lb none)
      go (some action) e = subst (λ o. ReadyAction (current o)) (sym e) (ready key action e)

  pub run_ns-Ready :
      (service method : List ℕ) (actions : Actions L)
      → Ready actions
      → Ready (run_ns lb list_children service method actions)
  run_ns-Ready service method actions ready =
      let key = action_key service method in
      subst Ready (sym (run_ns_sets service method actions)) (
        set_action-Ready actions key _ ready
          (refreshed service method (current (actions key))
            (current-ReadyAction actions key ready)).0)

  -- From actions between two calls, `RunNS` leaves an action for the method whose copies both list
  -- each of the children that ZooKeeper has, once.
  pub run_ns-ListsOnce :
      (service method : List ℕ) (actions : Actions L)
      → Ready actions
      → (after : NameServiceActionImpl L) × (run_ns lb list_children service method actions
            (action_key service method)
          ≡ some after)
        × ListsOnce (list_children (method_path service method)) after
  run_ns-ListsOnce service method actions ready =
      let key = action_key service method in
      (
        renewed service method (current (actions key)),
        ap (λ f. f key) (run_ns_sets service method actions) ∙ rw (bytes_eq_refl key),
        (refreshed service method (current (actions key))
            (current-ReadyAction actions key ready)).1,
      )
