-- ===== src/Locks/Exclusion.antt =====
-- At most one thread is inside, and one that waits can get in.
use lib_net_co_rpc.Prelude.{ℕ, ◌≡◌, ◌≢◌, refl, sym, ap, ◌∙◌, true, false, arith, ◌==◌, ℕ_discrete}
use lib_net_co_rpc.Locks.{Lock}
use lib_net_co_rpc.Locks.Protocol.{
  Place, outside, waiting, inside, State, put, after_round, Step, enter, attempt, leave, Reachable,
  here, next,
}

put-same : (i j : ℕ) (p : Place) (f : ℕ → Place) → i ≡ j → put i p f j ≡ p
put-same i j p f e = let hit : (i == j) ≡ true = ground arith in rw hit

put-other : (i j : ℕ) (p : Place) (f : ℕ → Place) → i ≢ j → put i p f j ≡ f j
put-other i j p f ne = let miss : (i == j) ≡ false = ground arith in rw miss

-- A thread that is put elsewhere than inside is not inside.
not_put_inside :
    (i j : ℕ) (p : Place) (f : ℕ → Place)
    → p ≢ inside
    → put i p f j ≡ inside
    → (i ≢ j) × (f j ≡ inside)
not_put_inside i j p f off e = elim (ℕ_discrete i j) [
  | yes same ↦ absurd (off (sym (put-same i j p f same) ∙ e))
  | no other ↦ (other, sym (put-other i j p f other) ∙ e)
]

waiting-outside : waiting ≢ inside
waiting-outside e = cc

outside-inside : outside ≢ inside
outside-inside e = cc

module _ {ℓ} {M : Type ℓ} (lock : Lock M) where
  -- The atomic tells whether a thread is inside.
  data Tells (s : State M) : Type ℓ where
    open_lock : s.memory ≡ lock.free → ((i : ℕ) → s.place i ≢ inside) → Tells s
    closed_lock :
        (k : ℕ)
        → s.memory ≡ lock.held
        → s.place k ≡ inside
        → ((i : ℕ) → s.place i ≡ inside → i ≡ k)
        → Tells s

  -- the state after a round of the loop
  abbrev tried : (s : State M) → ℕ → State M
  tried s i = record {
    memory = (lock.take_round s.memory).1;
    place = put i (after_round (lock.take_round s.memory).0) s.place;
  }

  enter-Tells :
      (s : State M) (i : ℕ) (p : Place)
      → p ≢ inside
      → s.place i ≢ inside
      → Tells s
      → Tells (record s { place = put i p s.place })
  enter-Tells s i p off was (open_lock m none_in) =
      open_lock m (λ j e. none_in j (not_put_inside i j p s.place off e).1)
  enter-Tells s i p off was (closed_lock k m in_k only) =
      closed_lock k m (put-other i k p s.place (λ e. was (ap s.place e ∙ in_k)) ∙ in_k)
        (λ j e. only j (not_put_inside i j p s.place off e).1)

  attempt-Tells : (s : State M) (i : ℕ) → s.place i ≡ waiting → Tells s → Tells (tried s i)
  attempt-Tells s i w (open_lock m none_in) =
      let r : lock.take_round s.memory ≡ (true, lock.held) =
        ap lock.take_round m ∙ lock.round_free in
      closed_lock i (ap (λ x. x.1) r) (put-same i i _ s.place refl ∙ ap (λ x. after_round x.0) r)
        (λ j e. elim (ℕ_discrete i j) [
          | yes same ↦ sym same
          | no other ↦ absurd (none_in j (sym (put-other i j _ s.place other) ∙ e))
        ])
  attempt-Tells s i w (closed_lock k m in_k only) =
      let r : lock.take_round s.memory ≡ (false, lock.held) =
        ap lock.take_round m ∙ lock.round_held in
      let off : after_round (lock.take_round s.memory).0 ≢ inside =
        λ e. waiting-outside (sym (ap (λ x. after_round x.0) r) ∙ e) in
      let was : s.place i ≢ inside = λ e. waiting-outside (sym w ∙ e) in
      closed_lock k (ap (λ x. x.1) r)
        (put-other i k _ s.place (λ e. was (ap s.place e ∙ in_k)) ∙ in_k)
        (λ j e. only j (not_put_inside i j _ s.place off e).1)

  leave-Tells :
      (s : State M) (i : ℕ)
      → s.place i ≡ inside
      → Tells s
      → Tells (record { memory = lock.release s.memory; place = put i outside s.place })
  leave-Tells s i in_i (open_lock m none_in) = absurd (none_in i in_i)
  leave-Tells s i in_i (closed_lock k m in_k only) =
      open_lock (ap lock.release m ∙ lock.release_held) (λ j e.
        let (other, in_j) = not_put_inside i j outside s.place outside-inside e in
        other (only i in_i ∙ sym (only j in_j)))

  Reachable-Tells : (s : State M) → Reachable lock s → Tells s
  Reachable-Tells s here = open_lock refl (λ i. outside-inside)
  Reachable-Tells t (next {s = s} r (enter i e)) =
      enter-Tells s i waiting waiting-outside (λ f. outside-inside (sym e ∙ f))
        (Reachable-Tells s r)
  Reachable-Tells t (next {s = s} r (attempt i e)) = attempt-Tells s i e (Reachable-Tells s r)
  Reachable-Tells t (next {s = s} r (leave i e)) = leave-Tells s i e (Reachable-Tells s r)

  -- In every state that the threads' steps can reach, in any order, two threads that are between
  -- `lock` and `unlock` are the same.
  pub mutual_exclusion :
      (s : State M) → Reachable lock s → (i j : ℕ) → s.place i ≡ inside → s.place j ≡ inside → i ≡ j
  mutual_exclusion s r i j in_i in_j = go (Reachable-Tells s r)
    where
      go : Tells s → i ≡ j
      go (open_lock m none_in) = absurd (none_in i in_i)
      go (closed_lock k m in_k only) = only i in_i ∙ sym (only j in_j)

  -- what a state can become
  pub data Leads : State M → State M → Type ℓ where
    stay : {s : State M} → Leads s s
    then_step : {s t u : State M} → Step lock s t → Leads t u → Leads s u

  get_in_free : (s : State M) (i : ℕ) → s.memory ≡ lock.free → (tried s i).place i ≡ inside
  get_in_free s i m =
      put-same i i _ s.place refl
      ∙ ap (λ x. after_round (lock.take_round x).0) m
      ∙ ap (λ x. after_round x.0) lock.round_free

  -- From every state that can be reached, a thread that waits can get inside: at once, or after the
  -- one that is inside has left.
  pub waiting_gets_in :
      (s : State M) (i : ℕ)
      → Reachable lock s
      → s.place i ≡ waiting
      → (t : State M) × Leads s t × (t.place i ≡ inside)
  waiting_gets_in s i r w = go (Reachable-Tells s r)
    where
      go : Tells s → (t : State M) × Leads s t × (t.place i ≡ inside)
      go (open_lock m none_in) = (tried s i, then_step (attempt i w) stay, get_in_free s i m)
      go (closed_lock k m in_k only) =
          let left : State M = record {
            memory = lock.release s.memory;
            place = put k outside s.place;
          } in
          let other : k ≢ i = λ e. waiting-outside (sym w ∙ ap s.place (sym e) ∙ in_k) in
          let still : left.place i ≡ waiting = put-other k i outside s.place other ∙ w in
          (
            tried left i,
            then_step (leave k in_k) (then_step (attempt i still) stay),
            get_in_free left i (ap lock.release m ∙ lock.release_held),
          )
