-- ===== src/LoadBalancer/Tree/Sums.antt =====
-- Which nodes lie under a node of the tree, and the sum of their weights.
use lib_net_co_rpc.Prelude.{
  ℕ, zero, suc, ◌+◌, ◌*◌, ◌≤◌, ◌<◌, ◌≡◌, ◌≢◌, refl, Bool, true, false, ◌||◌, arith, ◌==◌,
  if◌then◌else◌, ℕ_discrete,
}
use lib_net_co_rpc.LoadBalancer.Tree.{parent}

-- whether climbing from `i` meets `m`
unfoldable pub under_at : ℕ → ℕ → ℕ → Bool
under_at zero m i = i == m
under_at (suc fuel) m i = (i == m) || (if i == 0 then false else under_at fuel m (parent i))

unfoldable pub under : ℕ → ℕ → Bool
under m i = under_at i m i

-- more fuel than needed changes nothing
under_at-more : (f g m i : ℕ) → i ≤ f → i ≤ g → under_at f m i ≡ under_at g m i
unfolding under_at
under_at-more zero zero m i hf hg = refl
under_at-more zero (suc g) m i hf hg = ground arith
under_at-more (suc f) zero m i hf hg = ground arith
under_at-more (suc f) (suc g) m i hf hg = elim (ℕ_discrete i 0) [
  | yes e ↦ ground arith
  | no ne ↦ ground (arith, under_at-more f g m (parent i) (omega arith) (omega arith))
]

-- one step of the climb
pub under-step : (m i : ℕ) → i ≢ 0 → under m i ≡ ((i == m) || under m (parent i))
unfolding under under_at
under-step m zero h = absurd (h refl)
under-step m (suc i) h =
    ground (arith, under_at-more i (parent (suc i)) m (parent (suc i)) (omega arith) (omega arith))

pub under-zero : (m : ℕ) → under m 0 ≡ (0 == m)
unfolding under under_at
under-zero m = refl

-- a node lies under nodes of smaller index only
pub under-le : (fuel m i : ℕ) → i < m → under_at fuel m i ≡ false
unfolding under_at
under-le zero m i h = ground arith
under-le (suc fuel) m i h = elim (ℕ_discrete i 0) [
  | yes e ↦ ground arith
  | no ne ↦ ground (arith, under-le fuel m (parent i) (omega arith))
]

pub under_of_lt : (m i : ℕ) → i < m → under m i ≡ false
unfolding under
under_of_lt m i h = under-le i m i h

under_at-root : (fuel i : ℕ) → i ≤ fuel → under_at fuel 0 i ≡ true
unfolding under_at
under_at-root zero i h = ground arith
under_at-root (suc fuel) i h = elim (ℕ_discrete i 0) [
  | yes e ↦ ground arith
  | no ne ↦ ground (arith, under_at-root fuel (parent i) (omega arith))
]

-- every node lies under the root
pub under-root : (i : ℕ) → under 0 i ≡ true
unfolding under
under-root i = under_at-root i i (omega arith)

abbrev pub ind : Bool → ℕ
ind true = 1
ind false = 0

root_split :
    (k : ℕ) → ind (under k 0) ≡ ind (0 == k) + ind (under (2 * k + 1) 0) + ind (under (2 * k + 2) 0)
root_split k = ground (arith, under-zero k, under-zero (2 * k + 1), under-zero (2 * k + 2))

-- A node under `k` is `k`, or lies under one of its children, and only one of these.
pub split_at :
    (fuel k i : ℕ)
    → i ≤ fuel
    → ind (under k i) ≡ ind (i == k) + ind (under (2 * k + 1) i) + ind (under (2 * k + 2) i)
split_at zero k i h = let e : i ≡ 0 = omega arith in rw e (root_split k)
split_at (suc fuel) k zero h = root_split k
split_at (suc fuel) k (suc i) h =
    let ih = split_at fuel k (parent (suc i)) (omega arith) in
    ground (
      arith,
      ih,
      under-step k (suc i),
      under-step (2 * k + 1) (suc i),
      under-step (2 * k + 2) (suc i),
      under_of_lt (2 * k + 1) k,
      under_of_lt (2 * k + 2) k,
      under_of_lt (2 * k + 1) (parent (suc i)),
      under_of_lt (2 * k + 2) (parent (suc i)),
    )
