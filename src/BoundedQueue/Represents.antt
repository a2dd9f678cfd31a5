-- ===== src/BoundedQueue/Represents.antt =====
-- When the slots of a `BoundedQueue` hold a deque, and how slots are numbered round the end.
use lib_net_co_rpc.Prelude.{
  ℕ, zero, suc, ◌+◌, ◌-◌, ◌%◌, ◌^◌, ◌≤◌, ◌<◌, ◌≡◌, List, arith, length, get_elem?, dec_lt,
}
use native.Mathlib.Nat.{mod-eq_of_lt, mod-eq-sub-mod}
use lib_net_co_rpc.BoundedQueue.{BoundedQueue, mod_loop, mod_cap}

mod_loop-mod : (fuel off cap : ℕ) → 0 < cap → off ≤ fuel → mod_loop fuel off cap ≡ off % cap
unfolding mod_loop
mod_loop-mod zero off cap h e = let z : off ≡ 0 = omega arith in rw z (omega arith)
mod_loop-mod (suc fuel) off cap h e = elim (dec_lt off cap) [
  | yes lt ↦ ground (arith, mod-eq_of_lt {n = off} {m = cap} lt)
  | no ge ↦
      ground
        (arith, mod_loop-mod fuel (off - cap) cap, mod-eq-sub-mod {n = off} {m = cap} (omega arith))
]

-- The subtraction loop ends, and computes the remainder.
pub mod_cap-mod : (off cap : ℕ) → 0 < cap → mod_cap off cap ≡ off % cap
unfolding mod_cap
mod_cap-mod off cap h = mod_loop-mod off off cap h (omega arith)

-- The slots, from `start` on and round the end, hold the items of `xs`; the others are raw memory.
-- Up to `2 ^ 31` items the `uint32_t` sums do not wrap.
pub record Represents {ℓ} {A : Type ℓ} (q : BoundedQueue A) (xs : List A) : Type ℓ where
  pub small : q.cap ≤ 2 ^ 31
  pub start_in : q.start < q.cap
  pub counts : q.count ≡ length xs
  pub fits : length xs ≤ q.cap
  pub slots : (i : ℕ) → i < q.cap → q.items ((q.start + i) % q.cap) ≡ get_elem? xs i

-- a round past `cap` comes back
pub round-lt : (cap s i : ℕ) → s + i < cap → (s + i) % cap ≡ s + i
round-lt cap s i h = mod-eq_of_lt h

pub round-ge : (cap s i : ℕ) → s < cap → i ≤ cap → cap ≤ s + i → (s + i) % cap ≡ s + i - cap
round-ge cap s i hs hi h = elim (dec_lt (s + i - cap) cap) [
  | yes p ↦
      omega
        (arith, mod-eq-sub-mod {n = s + i} {m = cap} h, mod-eq_of_lt {n = s + i - cap} {m = cap} p)
  | no p ↦ absurd (omega arith)
]

-- Fewer than `cap` steps apart, slots are distinct.
pub round_injective :
    (cap s i j : ℕ) → s < cap → i < cap → j < cap → (s + i) % cap ≡ (s + j) % cap → i ≡ j
round_injective cap s i j hs hi hj e = elim (dec_lt (s + i) cap) [
  | yes p ↦ elim (dec_lt (s + j) cap) [
    | yes q ↦ omega (arith, round-lt cap s i p, round-lt cap s j q)
    | no q ↦ omega (arith, round-lt cap s i p, round-ge cap s j hs (omega arith) (omega arith))
  ]
  | no p ↦ elim (dec_lt (s + j) cap) [
    | yes q ↦ omega (arith, round-ge cap s i hs (omega arith) (omega arith), round-lt cap s j q)
    | no q ↦ omega (
      arith,
      round-ge cap s i hs (omega arith) (omega arith),
      round-ge cap s j hs (omega arith) (omega arith),
    )
  ]
]

-- One step on, then `i` steps, are `suc i` steps.
pub round-suc : (cap s i : ℕ) → s < cap → i < cap → ((s + 1) % cap + i) % cap ≡ (s + suc i) % cap
round-suc cap s i hs hi = elim (dec_lt (s + 1) cap) [
  | yes p ↦ rw (round-lt cap s 1 p) (let e : s + 1 + i ≡ s + suc i = omega arith in rw e)
  | no p ↦ rw (round-ge cap s 1 hs (omega arith) (omega arith)) (
      let e : s + 1 - cap + i ≡ i = omega arith in
      rw (e, round-ge cap s (suc i) hs (omega arith) (omega arith))
        (omega (arith, mod-eq_of_lt {n = i} {m = cap} hi)))
]
