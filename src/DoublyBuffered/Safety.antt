-- ===== src/DoublyBuffered/Safety.antt =====
-- No reader holds a pointer to the copy that the writer is changing.
use lib_net_co_rpc.Prelude.{ℕ, ◌<◌, ◌≡◌, ◌≢◌, refl, Bool, true, false, not, arith, ℕ_discrete}
use mathlib.Core.Path.{subst, sym}
use lib_net_co_rpc.DoublyBuffered.Protocol.{
  outside, reading, Writer, resting, first_write, stored, waiting, second_write, System, Step,
  get_wrapper, start_read, load_index, end_read, lock_modify, store_index, lock_wrappers,
  wait_read_done, skip_key, unlock_wrappers, unlock_modify, start, Reach, here, next,
}

-- Up to which key the readers are known to see the published copy.
abbrev pub Settled : Writer → ℕ → Type 0
Settled stored i = ⊥
Settled (waiting k) i = i < k
Settled resting i = Unit
Settled first_write i = Unit
Settled second_write i = Unit

pub record Inv (n : ℕ) (s : System) : Type 0 where
  pub known : (i : ℕ) → s.reader i ≢ outside → s.registered i ≡ true
  pub in_range : (i : ℕ) → s.reader i ≢ outside → i < n
  pub current : (i : ℕ) (b : Bool) → s.reader i ≡ reading b → Settled s.writer i → b ≡ s.index

-- the copy that the writer is changing
abbrev pub target : System → Bool
target s = not s.index

abbrev pub writes : Writer → Bool
writes first_write = true
writes second_write = true
writes resting = false
writes stored = false
writes (waiting k) = false

Inv-start : (n : ℕ) → Inv n start
Inv-start n = record {
  known = λ i h. absurd (h refl);
  in_range = λ i h. absurd (h refl);
  current = λ i b h. cc;
}

Step-known :
    {n : ℕ} {s t : System}
    → Step n s t
    → Inv n s
    → (i : ℕ) → t.reader i ≢ outside
    → t.registered i ≡ true
Step-known (get_wrapper i lt out free) inv j h = ground (arith, inv.known j)
Step-known (start_read i e) inv j h = ground (arith, inv.known j)
Step-known (load_index i e) inv j h = ground (arith, inv.known j)
Step-known (end_read i b e) inv j h = ground (arith, inv.known j)
Step-known (lock_modify e) inv j h = inv.known j h
Step-known (store_index e) inv j h = inv.known j h
Step-known (lock_wrappers e) inv j h = inv.known j h
Step-known (wait_read_done k e lt reg free) inv j h = inv.known j h
Step-known (skip_key k e lt reg) inv j h = inv.known j h
Step-known (unlock_wrappers e) inv j h = inv.known j h
Step-known (unlock_modify e) inv j h = inv.known j h

Step-in_range :
    {n : ℕ} {s t : System} → Step n s t → Inv n s → (i : ℕ) → t.reader i ≢ outside → i < n
Step-in_range (get_wrapper i lt out free) inv j h = ground (arith, inv.in_range j)
Step-in_range (start_read i e) inv j h = ground (arith, inv.in_range j)
Step-in_range (load_index i e) inv j h = ground (arith, inv.in_range j)
Step-in_range (end_read i b e) inv j h = ground (arith, inv.in_range j)
Step-in_range (lock_modify e) inv j h = inv.in_range j h
Step-in_range (store_index e) inv j h = inv.in_range j h
Step-in_range (lock_wrappers e) inv j h = inv.in_range j h
Step-in_range (wait_read_done k e lt reg free) inv j h = inv.in_range j h
Step-in_range (skip_key k e lt reg) inv j h = inv.in_range j h
Step-in_range (unlock_wrappers e) inv j h = inv.in_range j h
Step-in_range (unlock_modify e) inv j h = inv.in_range j h

-- `Settled` follows the writer's place.
settle : {w w' : Writer} (i : ℕ) → w ≡ w' → Settled w' i → Settled w i
settle i e h = subst (λ v. Settled v i) (sym e) h

Step-current :
    {n : ℕ} {s t : System}
    → Step n s t
    → Inv n s
    → (i : ℕ) (b : Bool) → t.reader i ≡ reading b
    → Settled t.writer i
    → b ≡ t.index
Step-current (get_wrapper i lt out free) inv j b h w = inv.current j b (ground arith) w
Step-current (start_read i e) inv j b h w = inv.current j b (ground arith) w
Step-current {s} (load_index i e) inv j b h w = elim (ℕ_discrete i j) [
  | yes same ↦ ground arith
  | no other ↦ inv.current j b (ground arith) w
]
Step-current (end_read i c e) inv j b h w = inv.current j b (ground arith) w
Step-current (lock_modify e) inv j b h w = inv.current j b h (settle j e tt)
Step-current (store_index e) inv j b h w = absurd w
Step-current (lock_wrappers e) inv j b h w = absurd (omega arith)
Step-current (wait_read_done k e lt reg free) inv j b h w = elim (ℕ_discrete j k) [
  | yes same ↦ ground arith
  | no other ↦ inv.current j b h (settle j e (omega arith))
]
Step-current (skip_key k e lt reg) inv j b h w = elim (ℕ_discrete j k) [
  | yes same ↦ ground (arith, inv.known j)
  | no other ↦ inv.current j b h (settle j e (omega arith))
]
Step-current (unlock_wrappers e) inv j b h w =
    inv.current j b h (settle j e (inv.in_range j (λ o. ground arith)))
Step-current (unlock_modify e) inv j b h w = inv.current j b h (settle j e tt)

-- Every step of a reader or of the writer keeps the invariant.
pub Step-Inv : {n : ℕ} {s t : System} → Step n s t → Inv n s → Inv n t
Step-Inv st inv = record {
  known = Step-known st inv;
  in_range = Step-in_range st inv;
  current = Step-current st inv;
}

pub Reach-Inv : {n : ℕ} {s : System} → Reach n s → Inv n s
Reach-Inv {n} here = Inv-start n
Reach-Inv (next r st) = Step-Inv st (Reach-Inv r)

quiet_of_writes : (w : Writer) (i : ℕ) → writes w ≡ true → Settled w i
quiet_of_writes resting i h = tt
quiet_of_writes first_write i h = tt
quiet_of_writes stored i h = cc
quiet_of_writes (waiting k) i h = cc
quiet_of_writes second_write i h = tt

-- In every reachable state in which the writer runs `fn`, on the first or on the second copy, no
-- reader of any thread holds a pointer to the copy that it changes.
pub no_torn_read :
    {n : ℕ} {s : System}
    → Reach n s
    → writes s.writer ≡ true
    → (i : ℕ) → s.reader i ≢ reading (target s)
no_torn_read {s} r w i h =
    let e = (Reach-Inv r).current i (target s) h (quiet_of_writes s.writer i w) in ground arith
