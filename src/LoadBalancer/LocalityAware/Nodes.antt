-- ===== src/LoadBalancer/LocalityAware/Nodes.antt =====
-- What the tree reads from the store: the nodes by index, and how writes to the cells change it.
use lib_net_co_rpc.Prelude.{
  ℕ, zero, suc, ◌<◌, ◌≡◌, ◌≢◌, refl, sym, ap, ◌∙◌, true, false, List, [], ◌∷◌, some, arith, ◌==◌,
  ℕ_discrete, length, get_elem?,
}
use lib_net_co_rpc.Prelude.Int.{ℤ, pos, ◌+ℤ◌}
use lib_net_co_rpc.LoadBalancer.Weight.{Weight}
use lib_net_co_rpc.LoadBalancer.Tree.{ServerInfo, write}
use lib_net_co_rpc.LoadBalancer.Tree.Totals.{change_weight}
use lib_net_co_rpc.LoadBalancer.Tree.Parents.{left_cell, left_of}
use lib_net_co_rpc.LoadBalancer.LocalityAware.{Store, read_node, left_at, weight_at, set_weight}

-- No two nodes share a weight.
abbrev pub DistinctWeights : List ServerInfo → Type 0
DistinctWeights tree =
    (i j : ℕ) (a b : ServerInfo)
    → get_elem? tree i ≡ some a
    → get_elem? tree j ≡ some b
    → a.weight ≡ b.weight
    → i ≡ j

-- The nodes' cells are in use.
abbrev pub Allocated : List ServerInfo → ℕ → Type 0
Allocated tree next =
    (i : ℕ) (a : ServerInfo) → get_elem? tree i ≡ some a → (a.left < next) × (a.weight < next)

pub get-lt :
    (tree : List ServerInfo) (k : ℕ)
    → k < length tree
    → (node : ServerInfo) × (get_elem? tree k ≡ some node)
get-lt [] k h = absurd (omega arith)
get-lt (node ∷ tree) zero h = (node, refl)
get-lt (node ∷ tree) (suc k) h = get-lt tree k (omega arith)

pub get-inside :
    (tree : List ServerInfo) (k : ℕ) (node : ServerInfo)
    → get_elem? tree k ≡ some node
    → k < length tree
get-inside [] k node e = cc
get-inside (x ∷ tree) zero node e = omega arith
get-inside (x ∷ tree) (suc k) node e = let h = get-inside tree k node e in omega arith

pub read_node-get :
    (f : ServerInfo → ℤ) (tree : List ServerInfo) (k : ℕ) (node : ServerInfo)
    → get_elem? tree k ≡ some node
    → read_node f tree k ≡ f node
read_node-get f [] k node e = cc
read_node-get f (x ∷ tree) zero node e = let same : x ≡ node = cc in ap f same
read_node-get f (x ∷ tree) (suc k) node e = read_node-get f tree k node e

pub read_node-outside :
    (f : ServerInfo → ℤ) (tree : List ServerInfo) (k : ℕ)
    → length tree ≡ k
    → read_node f tree k ≡ pos 0
read_node-outside f [] k e = refl
read_node-outside f (x ∷ tree) zero e = absurd (omega arith)
read_node-outside f (x ∷ tree) (suc k) e = read_node-outside f tree k (omega arith)

pub left_at-left_of :
    (tree : List ServerInfo) (s : Store) (k : ℕ) → left_at tree s k ≡ left_of tree s.lefts k
left_at-left_of [] s k = refl
left_at-left_of (x ∷ tree) s zero = refl
left_at-left_of (x ∷ tree) s (suc k) = left_at-left_of tree s k

pub left_cell-some :
    (tree : List ServerInfo) (k : ℕ) (node : ServerInfo)
    → get_elem? tree k ≡ some node
    → left_cell tree k ≡ some node.left
left_cell-some [] k node e = cc
left_cell-some (x ∷ tree) zero node e = let same : x ≡ node = cc in ap (λ y. some y.left) same
left_cell-some (x ∷ tree) (suc k) node e = left_cell-some tree k node e

pub write-same : (f : ℕ → Weight) (c d : ℕ) (w : Weight) → c ≡ d → write f c w d ≡ w
write-same f c d w e = let hit : (c == d) ≡ true = ground arith in rw hit

pub write-other {ℓ} : {A : Type ℓ} (f : ℕ → A) (c d : ℕ) (w : A) → c ≢ d → write f c w d ≡ f d
write-other f c d w ne = let miss : (c == d) ≡ false = ground arith in rw miss

-- A write of a weight that is `diff` higher changes the weight of its node alone.
pub weight_at-set :
    (tree : List ServerInfo) (s : Store) (index : ℕ) (node : ServerInfo) (w : Weight) (diff : ℤ)
    → DistinctWeights tree
    → get_elem? tree index ≡ some node
    → w.weight ≡ (s.weights node.weight).weight +ℤ diff
    → (k : ℕ) → k < length tree
    → weight_at tree (set_weight node.weight w s) k ≡ change_weight (weight_at tree s) index diff k
weight_at-set tree s index node w diff distinct e change k h =
    let (a, f) = get-lt tree k h in
    rw (read_node-get (λ x. (write s.weights node.weight w x.weight).weight) tree k a f)
      (elim (ℕ_discrete node.weight a.weight) [
        | yes same ↦
            let here : index ≡ k = distinct index k node a e f same in
            let hit : (index == k) ≡ true = ground arith in
            rw hit (
              ap (λ v. v.weight) (write-same s.weights node.weight a.weight w same)
              ∙ change
              ∙ ap (λ c. (s.weights c).weight +ℤ diff) same
              ∙ ap (λ x. x +ℤ diff)
                  (sym (read_node-get (λ x. (s.weights x.weight).weight) tree k a f)))
        | no other ↦
            let off : (index == k) ≡ false = elim (ℕ_discrete index k) [
              | no ne ↦ ground arith
              | yes eq ↦ absurd (
                  other (ap (λ x. x.weight) (some_inj node a (sym e ∙ ap (get_elem? tree) eq ∙ f))))
            ] in
            rw off (
              ap (λ v. v.weight) (write-other s.weights node.weight a.weight w other)
              ∙ sym (read_node-get (λ x. (s.weights x.weight).weight) tree k a f))
      ])
  where
    some_inj : (x y : ServerInfo) → some x ≡ some y → x ≡ y
    some_inj x y p = cc
