-- ===== src/Runtime/Selector/Fair.antt =====
-- Round robin is fair.
use lib_net_co_rpc.Prelude.{
  ℕ, zero, suc, ◌+◌, ◌-◌, ◌≤◌, ◌<◌, ◌≡◌, refl, ap, ◌∙◌, Option, some, List, [], ◌∷◌, All, arith,
  leb, inl, inr, Bool-cases, length, get_elem?, if◌then◌else◌, true, false,
}
use lib_net_co_rpc.Prelude.Int.{ℤ, pos, negsuc, ◌+ℤ◌, leb_ℤ}
use lib_net_co_rpc.Runtime.Selector.{ProcessorSelector, round_robin, next}

-- One call after the other, each with the counts of coroutines at its time: the processors picked.
abbrev pub picks : List (List ℕ) → ProcessorSelector → List (Option ℤ)
picks [] s = []
picks (counts ∷ later) s = (next counts s).0 ∷ picks later (next counts s).1

-- what comes after the current processor, before the test for the end
abbrev after : ℕ → ProcessorSelector
after zero = record { cur_pro = negsuc 0; strategy = round_robin }
after (suc c) = record { cur_pro = pos c; strategy = round_robin }

turn : ℕ → ℕ → ℕ
turn n c = if leb n c then 0 else c

up_after : (c : ℕ) → (after c).cur_pro +ℤ pos 1 ≡ pos c
unfolding ◌+ℤ◌
up_after zero = refl
up_after (suc c) = ground arith

-- The loop's choice, from the number that comes next.
next_at :
    (first c : ℕ) (counts : List ℕ) (s : ProcessorSelector)
    → s.strategy ≡ round_robin
    → s.cur_pro +ℤ pos 1 ≡ pos c
    → next (first ∷ counts) s
      ≡ (some (pos (turn (suc (length counts)) c)), after (suc (turn (suc (length counts)) c)))
unfolding next turn
next_at first c counts s robin up = elim (Bool-cases (leb (suc (length counts)) c)) [
  | inl end ↦
      let end' : leb_ℤ (pos (suc (length counts))) (pos c) ≡ true = ground arith in
      rw (robin, up, end', end) refl
  | inr inside ↦
      let inside' : leb_ℤ (pos (suc (length counts))) (pos c) ≡ false = ground arith in
      rw (robin, up, inside', inside) refl
]

-- The place that is `i` places on, counted round the end.
abbrev place : ℕ → ℕ → ℕ → ℕ
place n c i = if leb n (c + i) then c + i - n else c + i

turn-place : (m n c : ℕ) → m ≡ n → c ≤ n → turn m c ≡ place n c 0
unfolding turn
turn-place m n c e l = elim (Bool-cases (leb n c)) [
  | inl end ↦
      let end' : leb m c ≡ true = ground arith in
      let end'' : leb n (c + 0) ≡ true = ground arith in rw (end', end'') (ground arith)
  | inr before ↦
      let before' : leb m c ≡ false = ground arith in
      let before'' : leb n (c + 0) ≡ false = ground arith in rw (before', before'') (omega arith)
]

turn-le : (m n c : ℕ) → m ≡ n → 1 ≤ n → c ≤ n → suc (turn m c) ≤ n
unfolding turn
turn-le m n c e h l = elim (Bool-cases (leb m c)) [
  | inl end ↦ rw end (omega arith)
  | inr before ↦ rw before (ground arith)
]

place-turn :
    (m n c i : ℕ) → m ≡ n → c ≤ n → suc i < n → place n (suc (turn m c)) i ≡ place n c (suc i)
unfolding turn
place-turn m n c i e l h = elim (Bool-cases (leb m c)) [
  | inl end ↦ rw end (ground arith)
  | inr before ↦ rw before (ground arith)
]

pick_at :
    (n c i : ℕ) (calls : List (List ℕ)) (s : ProcessorSelector)
    → s.strategy ≡ round_robin
    → s.cur_pro +ℤ pos 1 ≡ pos c
    → c ≤ n
    → i < n
    → All (λ counts. length counts ≡ n) calls
    → i < length calls
    → get_elem? (picks calls s) i ≡ some (some (pos (place n c i)))
pick_at n c i [] s robin up l h all inside = absurd (omega arith)
pick_at n c i ([] ∷ calls) s robin up l h (e, all) inside = absurd (omega arith)
pick_at n c zero ((first ∷ counts) ∷ calls) s robin up l h (e, all) inside =
    rw (next_at first c counts s robin up)
      (ap (λ k. some (some (pos k))) (turn-place (suc (length counts)) n c e l))
pick_at n c (suc i) ((first ∷ counts) ∷ calls) s robin up l h (e, all) inside =
    rw (next_at first c counts s robin up) (
      pick_at n (suc (turn (suc (length counts)) c)) i calls
        (after (suc (turn (suc (length counts)) c))) refl (up_after _)
        (turn-le (suc (length counts)) n c e (omega arith) l) (omega arith) all (omega arith)
      ∙ ap (λ k. some (some (pos k))) (place-turn (suc (length counts)) n c i e l h))

-- Of as many calls one after the other as there are processors, round robin picks each processor in
-- one, whatever their counts of coroutines are at the time. The selector is new, or at one of the
-- processors.
pub round_robin_fair :
    (n c j : ℕ) (calls : List (List ℕ)) (s : ProcessorSelector)
    → s.strategy ≡ round_robin
    → s.cur_pro +ℤ pos 1 ≡ pos c
    → c ≤ n
    → All (λ counts. length counts ≡ n) calls
    → length calls ≡ n
    → j < n
    → (i : ℕ) × (i < n) × (get_elem? (picks calls s) i ≡ some (some (pos j)))
round_robin_fair n c j calls s robin up l all many h = elim (Bool-cases (leb c j)) [
  | inl ahead ↦
      let d : j - c < n = omega arith in
      let p : place n c (j - c) ≡ j = ground arith in
      (
        j - c,
        d,
        pick_at n c (j - c) calls s robin up l d all (omega arith)
            ∙ ap (λ k. some (some (pos k))) p,
      )
  | inr round ↦
      let b : j < c = ground arith in
      let d : j + n - c < n = omega arith in
      let p : place n c (j + n - c) ≡ j = ground arith in
      (
        j + n - c,
        d,
        pick_at n c (j + n - c) calls s robin up l d all (omega arith)
            ∙ ap (λ k. some (some (pos k))) p,
      )
]
