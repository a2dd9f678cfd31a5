-- ===== src/DoublyBuffered/Protocol.antt =====
-- The locking of include/container/doubly_buffered_data.h as steps of a system: any number of
-- reader threads, told apart by the key of `_wrappers_map` (`threadIdx`), and the one writer that
-- `_modify_mutex` lets in. Atomic loads and stores are taken in the order of the steps.
use lib_net_co_rpc.Prelude.{ℕ, suc, ◌<◌, ◌≡◌, Bool, true, false, not, ◌==◌, if◌then◌else◌}

-- Where a reader stands in `Read`, up to the destructor of its `ScopePtr`.
pub data Reader : Type 0 where
  outside : Reader
  has_wrapper : Reader  -- `create_or_get_wrapper` has returned
  locked : Reader  -- in `StartRead`'s lock, before `UnsafeRead`
  reading : Bool → Reader  -- with a pointer to `_data[i]`

-- Where the writer stands in `Modify`.
pub data Writer : Type 0 where
  resting : Writer
  first_write : Writer  -- `fn(_data[bg_idx])`
  stored : Writer  -- `_index` is stored
  waiting : ℕ → Writer  -- in the loop over `_wrappers_map`: the keys below have been waited for
  second_write : Writer  -- `fn` on the old foreground

pub record System : Type 0 where
  pub index : Bool
  pub registered : ℕ → Bool  -- the keys of `_wrappers_map`
  pub reader : ℕ → Reader
  pub writer : Writer

-- The thread's own mutex is held from `StartRead` to `EndRead`.
abbrev pub holds_mutex : Reader → Bool
holds_mutex outside = false
holds_mutex has_wrapper = false
holds_mutex locked = true
holds_mutex (reading i) = true

-- `_wrappers_mutex` is held in the loop.
abbrev pub holds_wrappers : Writer → Bool
holds_wrappers (waiting k) = true
holds_wrappers resting = false
holds_wrappers first_write = false
holds_wrappers stored = false
holds_wrappers second_write = false

abbrev pub update {ℓ} : {A : Type ℓ} → (ℕ → A) → ℕ → A → ℕ → A
update f i a j = if i == j then a else f j

-- One step, with `n` keys in all. A premise says that a lock is free.
pub data Step (n : ℕ) (s : System) : System → Type 0 where
  get_wrapper :
      (i : ℕ)
      → i < n
      → s.reader i ≡ outside
      → holds_wrappers s.writer ≡ false
      → Step n s (record s {
        registered = update s.registered i true;
        reader = update s.reader i has_wrapper;
      })
  start_read :
      (i : ℕ) → s.reader i ≡ has_wrapper → Step n s (record s { reader = update s.reader i locked })
  load_index :
      (i : ℕ)
      → s.reader i ≡ locked
      → Step n s (record s { reader = update s.reader i (reading s.index) })
  end_read :
      (i : ℕ) (b : Bool)
      → s.reader i ≡ reading b
      → Step n s (record s { reader = update s.reader i outside })
  lock_modify : s.writer ≡ resting → Step n s (record s { writer = first_write })
  store_index :
      s.writer ≡ first_write → Step n s (record s { writer = stored; index = not s.index })
  lock_wrappers : s.writer ≡ stored → Step n s (record s { writer = waiting 0 })
  wait_read_done :
      (k : ℕ)
      → s.writer ≡ waiting k
      → k < n
      → s.registered k ≡ true
      → holds_mutex (s.reader k) ≡ false
      → Step n s (record s { writer = waiting (suc k) })
  skip_key :
      (k : ℕ)
      → s.writer ≡ waiting k
      → k < n
      → s.registered k ≡ false
      → Step n s (record s { writer = waiting (suc k) })
  unlock_wrappers : s.writer ≡ waiting n → Step n s (record s { writer = second_write })
  unlock_modify : s.writer ≡ second_write → Step n s (record s { writer = resting })

abbrev pub start : System
start = record { index = false; registered = λ i. false; reader = λ i. outside; writer = resting }

pub data Reach (n : ℕ) : System → Type 0 where
  here : Reach n start
  next : {s t : System} → Reach n s → Step n s t → Reach n t
