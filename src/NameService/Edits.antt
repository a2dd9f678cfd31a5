-- ===== src/NameService/Edits.antt =====
-- The loops that add and remove servers, by how often a server stands in what they leave.
use mathlib.Core.Path.{subst}
use lib_net_co_rpc.Prelude.{
  ℕ, zero, suc, ◌+◌, ◌-◌, ◌<◌, ◌≡◌, refl, sym, ap, ◌∙◌, true, false, List, [], ◌∷◌, ◌++◌, none,
  some, arith, inl, inr, Bool-cases, ℕ_discrete, length, get_elem?, set, take, length-set,
  get_elem?-set_self, get_elem?-set_ne,
}
use lib_net_co_rpc.NameService.{
  ServerNode, node_eq, find, swap_pop, push_all, remove_one, remove_each,
}
use lib_net_co_rpc.NameService.Counts.{hit, count, node_eq_refl, node_eq_correct, count-append}

pub count-push_all :
    (a : ServerNode) (to_add servers : List ServerNode)
    → count a (push_all to_add servers) ≡ count a servers + count a to_add
unfolding push_all
count-push_all a [] servers = omega arith
count-push_all a (b ∷ to_add) servers =
    let r = count-push_all a to_add (servers ++ b ∷ []) in
    let h = count-append a servers (b ∷ []) in omega arith

-- what the search past a server that is another one finds
find-other :
    (a b : ServerNode) (bs : List ServerNode)
    → node_eq b a ≡ false
    → find a (b ∷ bs) ≡ elim (find a bs) [ none ↦ none | some i ↦ some (suc i) ]
unfolding find
find-other a b bs off = rw off

find-here :
    (a b : ServerNode) (bs : List ServerNode) → node_eq b a ≡ true → find a (b ∷ bs) ≡ some 0
unfolding find
find-here a b bs e = rw e

hit_other : (a b : ServerNode) → node_eq b a ≡ false → hit a b ≡ 0
hit_other a b off = elim (Bool-cases (node_eq a b)) [
  | inr e ↦ rw e
  | inl e ↦
      let same = node_eq_correct a b e in
      let f : node_eq b a ≡ true = ap (λ n. node_eq n a) (sym same) ∙ node_eq_refl a in cc
]

-- What `find` returns for a list: the item is where it says, or nowhere.
pub data Found (a : ServerNode) (servers : List ServerNode) : Type 0 where
  at : (i : ℕ) → find a servers ≡ some i → get_elem? servers i ≡ some a → Found a servers
  nowhere : find a servers ≡ none → count a servers ≡ 0 → Found a servers

pub find-Found : (a : ServerNode) (servers : List ServerNode) → Found a servers
unfolding find
find-Found a [] = nowhere refl refl
find-Found a (b ∷ bs) = elim (Bool-cases (node_eq b a)) [
  | inl same ↦ at 0 (find-here a b bs same) (ap some (node_eq_correct b a same))
  | inr off ↦ elim (find-Found a bs) [
    | at i e f ↦
        at (suc i)
          (find-other a b bs off ∙ ap (λ o. elim o [ none ↦ none | some j ↦ some (suc j) ]) e) f
    | nowhere e f ↦
        nowhere (find-other a b bs off ∙ ap (λ o. elim o [ none ↦ none | some j ↦ some (suc j) ]) e)
          (let h = hit_other a b off in omega arith)
  ]
]

count-set :
    (a b v : ServerNode) (servers : List ServerNode) (i : ℕ)
    → get_elem? servers i ≡ some b
    → count a (set servers i v) + hit a b ≡ count a servers + hit a v
count-set a b v [] i e = cc
count-set a b v (x ∷ xs) zero e = let same : x ≡ b = cc in rw same (omega arith)
count-set a b v (x ∷ xs) (suc i) e = let r = count-set a b v xs i e in omega arith

count-take :
    (a b : ServerNode) (n : ℕ) (servers : List ServerNode)
    → length servers ≡ suc n
    → get_elem? servers n ≡ some b
    → count a (take n servers) + hit a b ≡ count a servers
count-take a b n [] l e = cc
count-take a b zero (x ∷ []) l e = let same : x ≡ b = cc in rw same (omega arith)
count-take a b zero (x ∷ y ∷ ys) l e = absurd (omega arith)
count-take a b (suc n) (x ∷ xs) l e = let r = count-take a b n xs (omega arith) e in omega arith

get-last :
    (n : ℕ) (servers : List ServerNode)
    → length servers ≡ suc n
    → (b : ServerNode) × (get_elem? servers n ≡ some b)
get-last n [] l = absurd (omega arith)
get-last zero (x ∷ xs) l = (x, refl)
get-last (suc n) (x ∷ xs) l = get-last n xs (omega arith)

get-length :
    (i : ℕ) (servers : List ServerNode) (b : ServerNode)
    → get_elem? servers i ≡ some b
    → suc (length servers - 1) ≡ length servers
get-length i [] b e = cc
get-length i (x ∷ xs) b e = omega arith

get-lt :
    (i : ℕ) (servers : List ServerNode) (b : ServerNode)
    → get_elem? servers i ≡ some b
    → i < length servers
get-lt i [] b e = cc
get-lt zero (x ∷ xs) b e = omega arith
get-lt (suc i) (x ∷ xs) b e = let h = get-lt i xs b e in omega arith

swap_pop-some :
    (i : ℕ) (servers : List ServerNode) (last : ServerNode)
    → get_elem? servers (length servers - 1) ≡ some last
    → swap_pop i servers ≡ take (length servers - 1) (set servers i last)
unfolding swap_pop
swap_pop-some i servers last e = rw (e, swap_pop)

-- Swapping an item to the end and dropping it takes that item away.
pub count-swap_pop :
    (a b : ServerNode) (i : ℕ) (servers : List ServerNode)
    → get_elem? servers i ≡ some b
    → count a (swap_pop i servers) + hit a b ≡ count a servers
count-swap_pop a b i servers e =
    let n = length servers - 1 in
    let size = get-length i servers b e in
    let (last, at_last) = get-last n servers (sym size) in
    let ls = length-set servers i last in
    let still : get_elem? (set servers i last) n ≡ some last = elim (ℕ_discrete i n) [
      | yes same ↦
          subst (λ j. get_elem? (set servers i last) j ≡ some last) same
            (get_elem?-set_self servers i last (get-lt i servers b e))
      | no ne ↦ get_elem?-set_ne servers last ne ∙ at_last
    ] in
    let s = count-set a b last servers i e in
    let t = count-take a last n (set servers i last) (ls ∙ sym size) still in
    let same = swap_pop-some i servers last at_last in omega (arith, ap (count a) same)

remove_one_found :
    (b : ServerNode) (servers : List ServerNode) (i : ℕ)
    → find b servers ≡ some i
    → remove_one b servers ≡ swap_pop i servers
unfolding remove_one
remove_one_found b servers i e = rw (e, remove_one)

remove_one_absent :
    (b : ServerNode) (servers : List ServerNode)
    → find b servers ≡ none
    → remove_one b servers ≡ servers
unfolding remove_one
remove_one_absent b servers e = rw (e, remove_one)

-- Where `b` is not, there is nothing to count that is equal to it.
hit_absent :
    (a b : ServerNode) (servers : List ServerNode)
    → count b servers ≡ 0
    → count a servers - hit a b ≡ count a servers
hit_absent a b servers f = elim (Bool-cases (node_eq a b)) [
  | inr off ↦ rw off (omega arith)
  | inl e ↦
      let same = node_eq_correct a b e in
      let z : count a servers ≡ 0 = ap (λ n. count n servers) same ∙ f in omega arith
]

pub count-remove_one :
    (a b : ServerNode) (servers : List ServerNode)
    → count a (remove_one b servers) ≡ count a servers - hit a b
count-remove_one a b servers = elim (find-Found b servers) [
  | at i e f ↦
      let r = count-swap_pop a b i servers f in
      let same = remove_one_found b servers i e in omega (arith, ap (count a) same)
  | nowhere e f ↦
      let h = hit_absent a b servers f in
      let same = remove_one_absent b servers e in omega (arith, ap (count a) same)
]

pub count-remove_each :
    (a : ServerNode) (to_remove servers : List ServerNode)
    → count a (remove_each to_remove servers) ≡ count a servers - count a to_remove
unfolding remove_each
count-remove_each a [] servers = omega arith
count-remove_each a (b ∷ to_remove) servers =
    let r = count-remove_each a to_remove (remove_one b servers) in
    let h = count-remove_one a b servers in omega arith
