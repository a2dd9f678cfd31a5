-- ===== src/DoublyBuffered.antt =====
-- include/container/doubly_buffered_data.h: two copies of a value, one read while the other is
-- written. This file is `Modify` and its wrappers as a writer sees them; `Protocol` is the
-- interleaving of readers and the writer. A `Fn` that also changes other state carries it along.
pub mod Laws
pub mod Protocol
pub mod Safety
mod Tests
use lib_net_co_rpc.Prelude.{ℕ, Bool, true, false, not, ◌==◌, if◌then◌else◌}

-- `_data[2]`, and `_index` as a Boolean
pub record DoublyBufferedData {ℓ} (T : Type ℓ) : Type ℓ where
  pub data_0 : T
  pub data_1 : T
  pub index : Bool

module _ {ℓ} {T : Type ℓ} where
  abbrev pub get_data : Bool → DoublyBufferedData T → T
  get_data i d = if i then d.data_1 else d.data_0

  abbrev pub set_data : Bool → T → DoublyBufferedData T → DoublyBufferedData T
  set_data i x d = if i then record d { data_1 = x } else record d { data_0 = x }

  -- the constructor
  unfoldable pub init : T → DoublyBufferedData T
  init default = record { data_0 = default; data_1 = default; index = false }

  -- `UnsafeRead`
  abbrev pub unsafe_read : DoublyBufferedData T → T
  unsafe_read d = get_data d.index d

-- What `Modify` leaves: whether its assertion held, the two copies, and the state that `fn` carries.
pub record Modified {ℓ κ} (T : Type ℓ) (S : Type κ) : Type (ℓ ⊔ κ) where
  pub assertion : Bool
  pub buffers : DoublyBufferedData T
  pub state : S

module _ {ℓ κ} {T : Type ℓ} {S : Type κ} where
  -- `Modify(fn)`; the function is also told which copy `bg` is, as `&bg` tells the code.
  unfoldable pub modify :
      (Bool → T → DoublyBufferedData T → S → ℕ × T × S) → DoublyBufferedData T → S → Modified T S
  modify fn d s =
      let bg_idx = not d.index in
      let (ret_0, bg, s_1) = fn bg_idx (get_data bg_idx d) d s in
      let d_1 = record (set_data bg_idx bg d) { index = bg_idx } in
      let fg_idx = not bg_idx in
      let (ret_1, fg, s_2) = fn fg_idx (get_data fg_idx d_1) d_1 s_1 in
      record { assertion = ret_0 == ret_1; buffers = set_data fg_idx fg d_1; state = s_2 }

  -- `Modify` of a function of the data alone, and with arguments bound (`Closure1`, `Closure2`)
  abbrev pub plain : (T → S → ℕ × T × S) → Bool → T → DoublyBufferedData T → S → ℕ × T × S
  plain fn i bg d s = fn bg s

  abbrev pub closure_1 {ν} : {B : Type ν} → (T → B → S → ℕ × T × S) → B → T → S → ℕ × T × S
  closure_1 fn arg_1 bg s = fn bg arg_1 s

  abbrev pub closure_2 {ν ξ} :
      {B : Type ν} {C : Type ξ} → (T → B → C → S → ℕ × T × S) → B → C → T → S → ℕ × T × S
  closure_2 fn arg_1 arg_2 bg s = fn bg arg_1 arg_2 s

  -- `WithFg0` and `WithFg1` pass `_data[&bg != _data]`; `&bg != _data` holds for `_data[1]`.
  abbrev pub with_fg_0 : (T → T → S → ℕ × T × S) → Bool → T → DoublyBufferedData T → S → ℕ × T × S
  with_fg_0 fn i bg d s = fn bg (get_data i d) s

  abbrev pub with_fg_1 {ν} :
      {B : Type ν}
      → (T → T → B → S → ℕ × T × S)
      → B
      → Bool
      → T
      → DoublyBufferedData T
      → S
      → ℕ × T × S
  with_fg_1 fn arg_1 i bg d s = fn bg (get_data i d) arg_1 s

  -- `WithFg2` passes `_data[&bg == _data]`.
  abbrev pub with_fg_2 {ν ξ} :
      {B : Type ν} {C : Type ξ}
      → (T → T → B → C → S → ℕ × T × S)
      → B
      → C
      → Bool
      → T
      → DoublyBufferedData T
      → S
      → ℕ × T × S
  with_fg_2 fn arg_1 arg_2 i bg d s = fn bg (get_data (not i) d) arg_1 arg_2 s
