-- ===== src/DoublyBuffered/Laws.antt =====
-- What one call of `Modify` does to the two copies.
use lib_net_co_rpc.Prelude.{ℕ, ◌≡◌, not, ◌==◌, arith}
use lib_net_co_rpc.DoublyBuffered.{
  DoublyBufferedData, get_data, unsafe_read, modify, plain, with_fg_2,
}

module _ {ℓ κ} {T : Type ℓ} {S : Type κ} (d : DoublyBufferedData T) (s : S) where
  -- `Modify(fn)` calls `fn` on the copy that readers do not see, makes that copy the one they see,
  -- and calls `fn` again on the other copy, with the state that the first call left.
  pub modify_order :
      (fn : T → S → ℕ × T × S)
      → let first = fn (get_data (not d.index) d) s in
        let second = fn (get_data d.index d) first.2 in
        let m = modify (plain fn) d s in
        (m.buffers.index ≡ not d.index)
        × (unsafe_read m.buffers ≡ first.1)
        × (get_data d.index m.buffers ≡ second.1)
        × (m.state ≡ second.2)
        × (m.assertion ≡ (first.0 == second.0))
  unfolding modify
  modify_order fn = ground arith

  -- `ModifyWithForeground` with two arguments hands the first call the copy that readers see, and
  -- the second call the copy that the first has just written.
  pub with_fg_2_order {ν ξ} :
      {B : Type ν} {C : Type ξ} (fn : T → T → B → C → S → ℕ × T × S) (b : B) (c : C)
      → let first = fn (get_data (not d.index) d) (get_data d.index d) b c s in
        let second = fn (get_data d.index d) first.1 b c first.2 in
        let m = modify (with_fg_2 fn b c) d s in
        (unsafe_read m.buffers ≡ first.1)
        × (get_data d.index m.buffers ≡ second.1)
        × (m.state ≡ second.2)
        × (m.buffers.index ≡ not d.index)
  unfolding modify
  with_fg_2_order fn b c = ground arith
