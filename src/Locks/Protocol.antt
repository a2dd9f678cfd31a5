-- ===== src/Locks/Protocol.antt =====
-- Threads, or coroutines, that take a lock and release it, in any order of their atomic steps. One
-- that finds the lock held goes on with the next round of its loop; `CoMutex` yields in between,
-- which changes nothing here.
use lib_net_co_rpc.Prelude.{ℕ, ◌≡◌, Bool, true, false, ◌==◌, if◌then◌else◌}
use lib_net_co_rpc.Locks.{Lock}

-- Where a thread stands: outside, in the loop of `lock`, or between `lock` and `unlock`.
pub data Place : Type 0 where
  outside waiting inside : Place

pub record State {ℓ} (M : Type ℓ) : Type ℓ where
  pub memory : M
  pub place : ℕ → Place

abbrev pub put : ℕ → Place → (ℕ → Place) → ℕ → Place
put i p f j = if i == j then p else f j

-- where a round of the loop leads
abbrev pub after_round : Bool → Place
after_round true = inside
after_round false = waiting

module _ {ℓ} {M : Type ℓ} (lock : Lock M) where
  abbrev pub begin : State M
  begin = record { memory = lock.free; place = λ i. outside }

  -- The guard's constructor enters the loop of `lock`, a round of it, and the guard's destructor.
  pub data Step : State M → State M → Type ℓ where
    enter :
        {s : State M} (i : ℕ)
        → s.place i ≡ outside
        → Step s (record s { place = put i waiting s.place })
    attempt :
        {s : State M} (i : ℕ)
        → s.place i ≡ waiting
        → Step s (record {
          memory = (lock.take_round s.memory).1;
          place = put i (after_round (lock.take_round s.memory).0) s.place;
        })
    leave :
        {s : State M} (i : ℕ)
        → s.place i ≡ inside
        → Step s (record { memory = lock.release s.memory; place = put i outside s.place })

  pub data Reachable : State M → Type ℓ where
    here : Reachable begin
    next : {s t : State M} → Reachable s → Step s t → Reachable t
