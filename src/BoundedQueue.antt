-- ===== src/BoundedQueue.antt =====
-- include/container/bounded_queue.h: a ring of at most `cap` items in memory of fixed size.
-- `_items` is a function from the slot's index to the object that lives there (`none` is raw
-- memory); a `T*` into the queue is the slot's index. Sizes are `uint32_t`.
pub mod Deque
pub mod Represents
pub mod Slots
pub mod Ends
pub mod Refine
mod Tests
use lib_net_co_rpc.Prelude.{
  ℕ, zero, suc, ◌+◌, ◌-◌, ◌%◌, ◌/◌, ◌^◌, Bool, true, false, Option, none, some, ltb, leb, ◌==◌,
  if◌then◌else◌,
}

pub data StorageOwnership : Type 0 where
  owns_storage not_own_storage : StorageOwnership

pub record BoundedQueue {ℓ} (A : Type ℓ) : Type ℓ where
  pub count : ℕ
  pub cap : ℕ
  pub start : ℕ
  pub ownership : StorageOwnership
  pub items : ℕ → Option A
  pub allocated : Bool  -- `_items != NULL`

abbrev pub u32 : ℕ → ℕ
u32 n = n % 2 ^ 32

-- `while (off >= cap) off -= cap;` on fuel
mod_loop : ℕ → ℕ → ℕ → ℕ
mod_loop zero off cap = off
mod_loop (suc fuel) off cap =
    let rest = mod_loop fuel (off - cap) cap in if leb cap off then rest else off

-- `_mod`: a round takes at least 1 from `off` if `cap` is positive, so `off` rounds are enough.
unfoldable pub mod_cap : ℕ → ℕ → ℕ
unfolding mod_loop
mod_cap off cap = mod_loop off off cap

module _ {ℓ} {A : Type ℓ} where
  -- writes one slot: an object, or `none` when its destructor has run
  abbrev pub write : (ℕ → Option A) → ℕ → Option A → ℕ → Option A
  write f i v j = if i == j then v else f j

  abbrev pub is_some : Option A → Bool
  is_some none = false
  is_some (some a) = true

  -- The constructor over the caller's memory; `size` is `sizeof(T)`.
  unfoldable pub init_mem : ℕ → ℕ → StorageOwnership → BoundedQueue A
  init_mem memsize size ownership = record {
    count = 0;
    cap = u32 (memsize / size);
    start = 0;
    ownership = ownership;
    items = λ i. none;
    allocated = true;
  }

  -- The constructor that calls `malloc`; the Boolean says whether it succeeds.
  unfoldable pub init_capacity : ℕ → Bool → BoundedQueue A
  init_capacity capacity ok = record {
    count = 0;
    cap = u32 capacity;
    start = 0;
    ownership = owns_storage;
    items = λ i. none;
    allocated = ok;
  }

  -- the default constructor
  unfoldable pub init_default : BoundedQueue A
  init_default = record {
    count = 0;
    cap = 0;
    start = 0;
    ownership = not_own_storage;
    items = λ i. none;
    allocated = false;
  }

  -- `push(const T&)`
  unfoldable pub push : A → BoundedQueue A → Bool × BoundedQueue A
  push x q =
      if ltb q.count q.cap
      then (
        true,
        record q {
          items = write q.items (mod_cap (u32 (q.start + q.count)) q.cap) (some x);
          count = u32 (q.count + 1);
        },
      )
      else (false, q)

  unfoldable pub elim_push : A → BoundedQueue A → BoundedQueue A
  elim_push x q =
      if ltb q.count q.cap
      then record q {
        items = write q.items (mod_cap (u32 (q.start + q.count)) q.cap) (some x);
        count = u32 (q.count + 1);
      }
      else record q {
        items = write q.items q.start (some x);
        start = mod_cap (u32 (q.start + 1)) q.cap;
      }

  -- `push()`: `default` is `T()`; the slot's index is returned
  unfoldable pub push_default : A → BoundedQueue A → Option ℕ × BoundedQueue A
  push_default default q =
      if ltb q.count q.cap
      then (
        some (mod_cap (u32 (q.start + q.count)) q.cap),
        record q {
          items = write q.items (mod_cap (u32 (q.start + q.count)) q.cap) (some default);
          count = u32 (q.count + 1);
        },
      )
      else (none, q)

  -- the slot before `start`
  abbrev pub top_slot : BoundedQueue A → ℕ
  top_slot q = if q.start == 0 then u32 (q.cap + 2 ^ 32 - 1) else q.start - 1

  -- `push_top(const T&)`
  unfoldable pub push_top : A → BoundedQueue A → Bool × BoundedQueue A
  push_top x q =
      if ltb q.count q.cap
      then (
        true,
        record q {
          start = top_slot q;
          count = u32 (q.count + 1);
          items = write q.items (top_slot q) (some x);
        },
      )
      else (false, q)

  -- `push_top()`
  unfoldable pub push_top_default : A → BoundedQueue A → Option ℕ × BoundedQueue A
  push_top_default default q =
      if ltb q.count q.cap
      then (
        some (top_slot q),
        record q {
          start = top_slot q;
          count = u32 (q.count + 1);
          items = write q.items (top_slot q) (some default);
        },
      )
      else (none, q)

  -- `pop()`
  unfoldable pub pop : BoundedQueue A → Bool × BoundedQueue A
  pop q = if q.count == 0 then (false, q) else (
    true,
    record q {
      count = q.count - 1;
      items = write q.items q.start none;
      start = mod_cap (u32 (q.start + 1)) q.cap;
    },
  )

  -- `pop(T*)`: the option is what is copied out
  unfoldable pub pop_item : BoundedQueue A → Bool × Option A × BoundedQueue A
  pop_item q = if q.count == 0 then (false, none, q) else (
    true,
    q.items q.start,
    record q {
      count = q.count - 1;
      items = write q.items q.start none;
      start = mod_cap (u32 (q.start + 1)) q.cap;
    },
  )

  -- the last slot in use, after `--_count`
  abbrev pub bottom_slot : BoundedQueue A → ℕ
  bottom_slot q = mod_cap (u32 (q.start + (q.count - 1))) q.cap

  -- `pop_bottom()`
  unfoldable pub pop_bottom : BoundedQueue A → Bool × BoundedQueue A
  pop_bottom q =
      if q.count == 0
      then (false, q)
      else (true, record q { count = q.count - 1; items = write q.items (bottom_slot q) none })

  -- `pop_bottom(T*)`
  unfoldable pub pop_bottom_item : BoundedQueue A → Bool × Option A × BoundedQueue A
  pop_bottom_item q = if q.count == 0 then (false, none, q) else (
    true,
    q.items (bottom_slot q),
    record q { count = q.count - 1; items = write q.items (bottom_slot q) none },
  )

  -- the loop of `clear`, from round `i` with `n` rounds left
  clear_loop : ℕ → ℕ → BoundedQueue A → ℕ → Option A
  clear_loop zero i q = q.items
  clear_loop (suc n) i q =
      clear_loop n (i + 1)
        (record q { items = write q.items (mod_cap (u32 (q.start + i)) q.cap) none })

  unfoldable pub clear : BoundedQueue A → BoundedQueue A
  unfolding clear_loop
  clear q = record q { items = clear_loop q.count 0 q; count = 0; start = 0 }

  -- `top()`, and `top(size_t)`
  unfoldable pub top : BoundedQueue A → Option ℕ
  top q = if q.count == 0 then none else some q.start

  unfoldable pub top_at : ℕ → BoundedQueue A → Option ℕ
  top_at index q = if ltb index q.count then some (mod_cap (u32 (q.start + index)) q.cap) else none

  -- `bottom()`, and `bottom(size_t)`
  unfoldable pub bottom : BoundedQueue A → Option ℕ
  bottom q =
      if q.count == 0
      then none
      else some (mod_cap (u32 (u32 (q.start + q.count) + 2 ^ 32 - 1)) q.cap)

  unfoldable pub bottom_at : ℕ → BoundedQueue A → Option ℕ
  bottom_at index q =
      if ltb index q.count
      then some (mod_cap (u32 (u32 (q.start + q.count) + 2 ^ 64 - index - 1)) q.cap)
      else none

  unfoldable pub empty : BoundedQueue A → Bool
  empty q = q.count == 0

  unfoldable pub full : BoundedQueue A → Bool
  full q = q.cap == q.count

  unfoldable pub size : BoundedQueue A → ℕ
  size q = q.count

  unfoldable pub capacity : BoundedQueue A → ℕ
  capacity q = q.cap

  unfoldable pub initialized : BoundedQueue A → Bool
  initialized q = q.allocated

  unfoldable pub swap : BoundedQueue A → BoundedQueue A → BoundedQueue A × BoundedQueue A
  swap q rhs = (rhs, q)

  -- `~BoundedQueue`: `free` leaves no memory behind `_items`
  unfoldable pub destroy : BoundedQueue A → BoundedQueue A
  unfolding clear
  destroy q = elim q.ownership [
    | owns_storage ↦ record (clear q) { allocated = false }
    | not_own_storage ↦ clear q
  ]
