-- ===== src/Runtime/Selector/Laws.antt =====
-- The selector picks a processor that exists: the next one round robin, or one with the fewest
-- coroutines.
use lib_net_co_rpc.Prelude.{
  ℕ, zero, suc, ◌+◌, ◌<◌, ◌≤◌, ◌≡◌, refl, sym, ap, ◌∙◌, some, List, [], ◌∷◌, arith, ltb, inl, inr,
  Bool-cases, ◌⊎◌, length, get_or,
}
use mathlib.Core.Path.{subst}
use lib_net_co_rpc.Prelude.Int.{ℤ, pos}
use lib_net_co_rpc.Runtime.Selector.{min_event_first, ProcessorSelector, min_loop, next}

-- The loop ends at a processor of the rest with a count below all before it, or keeps the one it has.
min_loop_least :
    (counts : List ℕ) (i least idx : ℕ)
    → let k = min_loop counts i least idx in
      (v : ℕ) × ((k ≡ idx) × (v ≡ least)
        ⊎ ((j : ℕ) × (k ≡ i + j) × (j < length counts) × (get_or counts j 0 ≡ v)))
      × (v ≤ least)
      × ((j : ℕ) → j < length counts → v ≤ get_or counts j 0)
unfolding min_loop
min_loop_least [] i least idx = (least, inl (refl, refl), omega arith, λ j h. absurd (omega arith))
min_loop_least (c ∷ counts) i least idx = elim (Bool-cases (ltb c least)) [
  | inl lower ↦
      let (v, where_, low, all) = min_loop_least counts (i + 1) c i in
      rw lower (
        v,
        inr (elim where_ [
          | inl (k, e) ↦ (0, k ∙ (omega arith), omega arith, sym e)
          | inr (j, k, l, e) ↦ (suc j, k ∙ (omega arith), omega arith, e)
        ]),
        ground arith,
        λ j h. bounded c counts v low all j h,
      )
  | inr higher ↦
      let (v, where_, low, all) = min_loop_least counts (i + 1) least idx in
      rw higher (
        v,
        elim where_ [
          | inl p ↦ inl p
          | inr (j, k, l, e) ↦ inr (suc j, k ∙ (omega arith), omega arith, e)
        ],
        low,
        λ j h. bounded c counts v (ground arith) all j h,
      )
]
  where
    bounded :
        (c : ℕ) (counts : List ℕ) (v : ℕ)
        → v ≤ c
        → ((j : ℕ) → j < length counts → v ≤ get_or counts j 0)
        → (j : ℕ) → j < suc (length counts)
        → v ≤ get_or (c ∷ counts) j 0
    bounded c counts v low all zero h = low
    bounded c counts v low all (suc j) h = all j (omega arith)

-- With `MIN_EVENT_FIRST`, `next` picks a processor of the list, and none has fewer coroutines.
pub next_least :
    (first : ℕ) (counts : List ℕ) (cur : ℤ)
    → let s : ProcessorSelector = record { cur_pro = cur; strategy = min_event_first } in
      (k : ℕ) × ((next (first ∷ counts) s).0 ≡ some (pos k))
      × (k < length (first ∷ counts))
      × ((j : ℕ)
          → j < length (first ∷ counts)
          → get_or (first ∷ counts) k 0 ≤ get_or (first ∷ counts) j 0)
unfolding next
next_least first counts cur =
    let (v, place, low, all) = min_loop_least counts 1 first 0 in
    let k = min_loop counts 1 first 0 in
    let (inside, value) = at place in
    (
      k,
      refl,
      inside,
      λ j h. subst (λ x. x ≤ get_or (first ∷ counts) j 0) (sym value) (below v low all j h),
    )
  where
    below :
        (v : ℕ)
        → v ≤ first
        → ((j : ℕ) → j < length counts → v ≤ get_or counts j 0)
        → (j : ℕ) → j < length (first ∷ counts)
        → v ≤ get_or (first ∷ counts) j 0
    below v low all zero h = low
    below v low all (suc j) h = all j (omega arith)

    at :
        {k v : ℕ}
        → ((k ≡ 0) × (v ≡ first)
            ⊎ ((j : ℕ) × (k ≡ 1 + j) × (j < length counts) × (get_or counts j 0 ≡ v)))
        → (k < length (first ∷ counts)) × (get_or (first ∷ counts) k 0 ≡ v)
    at (inl (e, f)) = (omega arith, ap (λ x. get_or (first ∷ counts) x 0) e ∙ sym f)
    at (inr (j, e, l, f)) =
        let e' : _ ≡ suc j = e ∙ (omega arith) in
        (omega arith, ap (λ x. get_or (first ∷ counts) x 0) e' ∙ f)
