-- ===== src/LoadBalancer/Weight/Bounds.antt =====
-- The range of a weight after `ResetWeight`, and when the inflight delay lowers it.
use lib_net_co_rpc.Prelude.{ℕ, ◌*◌, ◌/◌, ◌≤◌, ◌≡◌, refl, ◌⊎◌, true, arith, inl, inr, Bool-cases}
use lib_net_co_rpc.Prelude.Int.{ℤ, pos, negsuc, ◌-ℤ◌, ◌*ℤ◌, ◌/ℤ◌, ◌≤ℤ◌, leb_ℤ, ltb_ℤ}
use native.Mathlib.Nat.{div-le_of_le-mul}
use lib_net_co_rpc.LoadBalancer.Weight.{Weight, min_weight, punished, at_least_min, reset_weight}

-- the weight that `ResetWeight` leaves
pub weight-reset_weight :
    (index : ℕ) (now : ℤ) (w : Weight)
    → (reset_weight index now w).1.weight ≡ at_least_min (punished w now)
unfolding reset_weight
weight-reset_weight index now w = ground arith

le_of_leb : (x y : ℕ) → leb_ℤ (pos x) (pos y) ≡ true → x ≤ y
le_of_leb x y h = ground arith

not_leb : (x y : ℕ) → leb_ℤ (pos (x * 1)) (negsuc y) ≡ true → ⊥
not_leb x y h = ground arith

mul-pos : (b c : ℕ) → pos b *ℤ pos c ≡ pos (b * c)
unfolding ◌*ℤ◌
mul-pos b c = ground arith

mul-div-le_of_le : (b a i : ℕ) → a ≤ i → b * (a * 1) / i ≤ b
mul-div-le_of_le b a i h = div-le_of_le-mul i (grind arith)

abbrev Within : ℕ → ℤ → Type 0
Within b x = (pos 0 ≤ℤ x) × (x ≤ℤ pos b)

-- Scaling by the ratio of the average latency to a longer delay stays between 0 and the value.
scaled-Within :
    (b : ℕ) (avg delay : ℤ)
    → leb_ℤ (avg *ℤ pos 1) delay ≡ true
    → ltb_ℤ (pos 0) avg ≡ true
    → Within b (pos b *ℤ (avg *ℤ pos 1) /ℤ delay)
unfolding ◌/ℤ◌
scaled-Within b (pos a) (pos i) h p =
    let le : a ≤ i = omega (arith, le_of_leb (a * 1) i (rw (mul-pos a 1) at h)) in
    rw (mul-pos a 1, mul-pos b (a * 1)) (omega arith, omega (arith, mul-div-le_of_le b a i le))
scaled-Within b (pos a) (negsuc i) h p = absurd (not_leb a i (rw (mul-pos a 1) at h))
scaled-Within b (negsuc a) delay h p = ground arith

-- The weight before the lower bound lies between 0 and the base weight.
punished-Within : (b : ℕ) (now : ℤ) (w : Weight) → w.base_weight ≡ pos b → Within b (punished w now)
punished-Within b now w e = elim (Bool-cases (ltb_ℤ (pos 0) w.begin_time_count)) [
  | inr idle ↦ rw (idle, e) (omega arith, omega arith)
  | inl busy ↦
      elim (Bool-cases
        (leb_ℤ (w.avg_latency *ℤ pos 1) (now -ℤ w.begin_time_sum /ℤ w.begin_time_count))) [
          | inr fast ↦ rw (busy, fast, e) (omega arith, omega arith)
          | inl slow ↦ elim (Bool-cases (ltb_ℤ (pos 0) w.avg_latency)) [
            | inr unknown ↦ rw (busy, slow, unknown, e) (omega arith, omega arith)
            | inl known ↦ rw (busy, slow, known, e) (scaled-Within b w.avg_latency _ slow known)
          ]
        ]
]

at_least_min-bounds :
    (b : ℕ) (x : ℤ)
    → Within b x
    → (min_weight ≤ℤ at_least_min x) × ((at_least_min x ≤ℤ pos b) ⊎ (at_least_min x ≡ min_weight))
at_least_min-bounds b x h = elim (Bool-cases (ltb_ℤ x min_weight)) [
  | inl low ↦ rw low (omega arith, inr refl)
  | inr high ↦ rw high (ground arith, inl h.1)
]

-- For a weight that is not disabled, with base weight `b`, `ResetWeight` leaves a weight of at
-- least the minimum, and of at most `b` or else exactly the minimum.
pub reset_weight_bounds :
    (index b : ℕ) (now : ℤ) (w : Weight)
    → w.base_weight ≡ pos b
    → let w' = (reset_weight index now w).1 in
      (min_weight ≤ℤ w'.weight) × ((w'.weight ≤ℤ pos b) ⊎ (w'.weight ≡ min_weight))
reset_weight_bounds index b now w e =
    rw (weight-reset_weight index now w)
      (at_least_min-bounds b (punished w now) (punished-Within b now w e))
