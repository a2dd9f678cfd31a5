-- ===== src/LoadBalancer/Tree.antt =====
-- The weight tree: `ServerInfo`, `Servers` and `UpdateParentWeight` of
-- include/rpc_proto/locality_aware_load_balancer.h, and the walk of `select_server` down the tree.
-- The atomics and the weights that the nodes share are cells of a store, named by numbers.
pub mod Sums
pub mod Totals
pub mod Inorder
pub mod Parents
use Prim.Native.String.{String}
use lib_net_co_rpc.Prelude.{
  ℕ, zero, suc, ◌+◌, ◌-◌, ◌*◌, ◌/◌, Bool, true, false, Option, none, some, List, ltb, ◌==◌,
  if◌then◌else◌, length, get_elem?,
}
use lib_net_co_rpc.Prelude.Int.{ℤ, pos, ◌+ℤ◌, ◌-ℤ◌, leb_ℤ, ltb_ℤ}

pub record ServerInfo : Type 0 where
  pub server_name : String
  pub left : ℕ  -- the cell of the `std::atomic<int64_t>`
  pub weight : ℕ  -- the cell of the `Weight`

pub record Servers : Type 0 where
  pub weight_tree : List ServerInfo
  pub server_map : String → Option ℕ

abbrev pub parent : ℕ → ℕ
parent index = (index - 1) / 2

-- what the store's cells hold once `v` is written to one
abbrev pub write {ℓ} : {A : Type ℓ} → (ℕ → A) → ℕ → A → ℕ → A
write f cell v c = if cell == c then v else f c

-- `weight_tree[at].left->fetch_add(diff)`, for sums within 64 bits: the atomic's wrap modulo 2 ^ 64 is
-- left out.
unfoldable pub add_left : List ServerInfo → ℕ → ℤ → (ℕ → ℤ) → ℕ → ℤ
add_left tree at diff lefts = elim (get_elem? tree at) [
  | none ↦ lefts
  | some node ↦ write lefts node.left (lefts node.left +ℤ diff)
]

-- The loop of `UpdateParentWeight`, on fuel. The index falls in each round.
unfoldable pub parents_loop : ℕ → List ServerInfo → ℤ → ℕ → (ℕ → ℤ) → ℕ → ℤ
parents_loop zero tree diff index lefts = lefts
parents_loop (suc fuel) tree diff index lefts =
    let rest =
      parents_loop fuel tree diff (parent index) (
        if parent index * 2 + 1 == index then add_left tree (parent index) diff lefts else lefts) in
    if index == 0 then lefts else rest

-- `UpdateParentWeight`
unfoldable pub update_parent_weight : List ServerInfo → ℤ → ℕ → (ℕ → ℤ) → ℕ → ℤ
update_parent_weight tree diff index lefts = parents_loop index tree diff index lefts

-- Where a walk down the tree ends: at a node, with what is left of the dice; to the right of the
-- last node; at an index outside the tree.
pub data Landing : Type 0 where
  landed : ℕ → ℤ → Landing
  passed : Landing
  no_node : Landing
  out_of_fuel : Landing

-- The rounds of the loop of `select_server` up to the first that does not `continue`. `left` and
-- `weight` read the nodes by index, of which there are `n`.
unfoldable pub walk : ℕ → (n : ℕ) → (left weight : ℕ → ℤ) → ℕ → ℤ → Landing
walk zero n left weight index dice = out_of_fuel
walk (suc fuel) n left weight index dice =
    let to_left = walk fuel n left weight (2 * index + 1) dice in
    let to_right = walk fuel n left weight (2 * index + 2) (dice -ℤ (left index +ℤ weight index)) in
    if ltb index n
    then if ltb_ℤ dice (left index)
      then to_left
      else if leb_ℤ (left index +ℤ weight index) dice
      then (if ltb (2 * index + 2) n then to_right else passed)
      else landed index dice
    else no_node
