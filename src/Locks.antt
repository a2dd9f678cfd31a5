-- ===== src/Locks.antt =====
-- `Spinlock` with `SpinlockGuard` and `CoMutex` with `GuardCoMutex`: include/spinlock.h,
-- include/spinlock_guard.h and include/comutex.h. An atomic operation is one step. `MutexLock` only
-- calls the mutex of the system's threads.
pub mod Protocol
pub mod Exclusion
mod Tests
use lib_net_co_rpc.Prelude.{ℕ, zero, suc, ◌≡◌, refl, Bool, true, false, ◌==◌, if◌then◌else◌}

-- `compare_exchange_strong`: whether it has exchanged, the expected value afterwards, and the atomic's
abbrev pub compare_exchange : ℕ → ℕ → ℕ → Bool × ℕ × ℕ
compare_exchange expected desired sem =
    if sem == expected then (true, expected, desired) else (false, sem, sem)

-- `sem_(1)`, a round of the loop of `lock`, which starts with `exp` equal to 1, and `unlock`
abbrev pub spin_unlocked : ℕ
spin_unlocked = 1

abbrev pub spin_round : ℕ → Bool × ℕ
spin_round sem = let (done, _, after) = compare_exchange 1 0 sem in (done, after)

abbrev pub spin_unlock : ℕ → ℕ
spin_unlock sem = 1

-- `ATOMIC_FLAG_INIT`, a round of the loop of `lock`, where `test_and_set` returns what the flag was,
-- and `unlock`
abbrev pub mutex_unlocked : Bool
mutex_unlocked = false

abbrev pub mutex_round : Bool → Bool × Bool
mutex_round locked = (if locked then false else true, true)

abbrev pub mutex_unlock : Bool → Bool
mutex_unlock locked = false

-- What a lock promises of its atomic.
pub record Lock {ℓ} (M : Type ℓ) : Type ℓ where
  pub free : M
  pub held : M
  pub take_round : M → Bool × M
  pub release : M → M
  pub round_free : take_round free ≡ (true, held)
  pub round_held : take_round held ≡ (false, held)
  pub release_held : release held ≡ free

abbrev pub spinlock : Lock ℕ
spinlock = record {
  free = spin_unlocked;
  held = 0;
  take_round = spin_round;
  release = spin_unlock;
  round_free = refl;
  round_held = refl;
  release_held = refl;
}

abbrev pub co_mutex : Lock Bool
co_mutex = record {
  free = mutex_unlocked;
  held = true;
  take_round = mutex_round;
  release = mutex_unlock;
  round_free = refl;
  round_held = refl;
  release_held = refl;
}
