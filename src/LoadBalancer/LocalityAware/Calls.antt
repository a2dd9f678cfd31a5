-- ===== src/LoadBalancer/LocalityAware/Calls.antt =====
-- The two calls of `Remove`: what each does to the store, for the last node and for another one.
use Prim.Native.String.{String}
use lib_net_co_rpc.Prelude.{
  ℕ, ◌+◌, ◌≤◌, ◌≡◌, ◌≢◌, ap, ◌∙◌, true, false, List, Option, some, arith, ◌==◌, inl, inr,
  Bool-cases, length,
}
use lib_net_co_rpc.Prelude.Int.{ℤ, pos, neg, ◌+ℤ◌, ◌-ℤ◌, eqb_ℤ, int_laws}
use lib_net_co_rpc.LoadBalancer.Weight.{disable, mark_old, clear_old}
use lib_net_co_rpc.LoadBalancer.Tree.{ServerInfo, Servers}
use lib_net_co_rpc.LoadBalancer.Tree.Parents.{Distinct}
use lib_net_co_rpc.LoadBalancer.LocalityAware.{
  Store, pop_back, map_set, set_weight, apply_diff, replace_first, replace_second, remove_at,
}
use lib_net_co_rpc.LoadBalancer.LocalityAware.Effects.{
  Shifted, apply_diff-Shifted, update_parents-Shifted, zero_of_eqb,
}
use lib_net_co_rpc.LoadBalancer.LocalityAware.Shrunk.{swapped}

pub eqb_of_ne : (x : ℤ) → x ≢ pos 0 → eqb_ℤ x (pos 0) ≡ false
eqb_of_ne x ne = elim (Bool-cases (eqb_ℤ x (pos 0))) [
  | inl e ↦ absurd (ne (zero_of_eqb x e))
  | inr e ↦ e
]

module _ (tree : List ServerInfo) (index cell : ℕ) (s : Store) (distinct : Distinct tree) where
  pub replace_first-Shifted :
      (w_rm : ℤ)
      → index ≤ length tree
      → let diff = (s.weights cell).weight -ℤ w_rm in
        Shifted tree index diff diff
          (set_weight cell (mark_old (length tree) (s.weights cell)).1 s)
          (replace_first tree index cell w_rm s)
  unfolding replace_first mark_old
  replace_first-Shifted w_rm inside = apply_diff-Shifted tree index _ _ distinct inside

  -- nothing has changed since `MarkOld`
  pub replace_second-Shifted :
      (w_last : ℤ)
      → (s.weights cell).old_weight ≡ w_last
      → (s.weights cell).old_diff_sum ≡ pos 0
      → Shifted tree
          (length tree)
          (neg w_last -ℤ pos 0)
          (neg w_last)
          (set_weight cell (clear_old (s.weights cell)).1 s)
          (replace_second tree index cell s)
  unfolding replace_second clear_old
  replace_second-Shifted w_last e_old e_sum =
      let t = set_weight cell (clear_old (s.weights cell)).1 s in
      let sh =
        update_parents-Shifted tree (length tree) (neg w_last -ℤ pos 0) t distinct (omega arith) in
      rw (e_old, e_sum)
        (record {
          lefts = sh.lefts;
          weights = sh.weights;
          next = sh.next;
          total_weight = ap (λ x. x +ℤ neg w_last) (sh.total_weight ∙ add_zero s.total_weight);
        })
    where
      add_zero : (x : ℤ) → x +ℤ pos 0 ≡ x
      add_zero x = omega int_laws

module _ (index : ℕ) (node last : ServerInfo) (names : String → Option ℕ) (tree : List ServerInfo)
    (s : Store) where
  -- the store when the removed weight is set to 0
  abbrev pub disabled_store : Store
  disabled_store = set_weight node.weight (disable (s.weights node.weight)).1 s

  abbrev pub swapped_servers : Servers
  swapped_servers = record {
    weight_tree = swapped tree index node last;
    server_map = map_set names last.server_name (some index);
  }

  abbrev pub popped_servers : Servers
  popped_servers = record { weight_tree = pop_back tree; server_map = names }

  pub remove_at_first :
      (index + 1 == length tree) ≡ false
      → (s.weights node.weight).weight ≢ pos 0
      → remove_at index node last names tree s ≡ (
        swapped_servers,
        replace_first
            (swapped tree index node last)
            index
            last.weight
            (s.weights node.weight).weight
            disabled_store,
      )
  unfolding remove_at disable
  remove_at_first inner ne = let e = eqb_of_ne (s.weights node.weight).weight ne in rw inner (rw e)

  pub remove_at_second :
      (index + 1 == length tree) ≡ false
      → (s.weights node.weight).weight ≡ pos 0
      → remove_at index node last names tree s ≡ (
        swapped_servers,
        replace_second (swapped tree index node last) index last.weight disabled_store,
      )
  unfolding remove_at disable
  remove_at_second inner e = rw inner (rw e)

  pub remove_at_last :
      (index + 1 == length tree) ≡ true
      → remove_at index node last names tree s ≡ (
        popped_servers,
        apply_diff (pop_back tree) (neg (s.weights node.weight).weight) index disabled_store,
      )
  unfolding remove_at disable
  remove_at_last outer = rw outer
