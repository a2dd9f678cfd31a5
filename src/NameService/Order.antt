-- ===== src/NameService/Order.antt =====
-- The order of `std::string` is a total order, and equality decides it.
use lib_net_co_rpc.Prelude.{ℕ, ◌≡◌, refl, true, false, List, [], ◌∷◌, arith}
use lib_net_co_rpc.NameService.{bytes_eq, bytes_less}

pub bytes_eq_refl : (xs : List ℕ) → bytes_eq xs xs ≡ true
unfolding bytes_eq
bytes_eq_refl [] = refl
bytes_eq_refl (x ∷ xs) = let h = bytes_eq_refl xs in ground arith

pub bytes_eq_correct : (xs ys : List ℕ) → bytes_eq xs ys ≡ true → xs ≡ ys
unfolding bytes_eq
bytes_eq_correct [] [] e = refl
bytes_eq_correct [] (y ∷ ys) e = cc
bytes_eq_correct (x ∷ xs) [] e = cc
bytes_eq_correct (x ∷ xs) (y ∷ ys) e =
    let a : x ≡ y = ground arith in
    let b : bytes_eq xs ys ≡ true = ground arith in let c = bytes_eq_correct xs ys b in cc

pub bytes_less_irrefl : (xs : List ℕ) → bytes_less xs xs ≡ false
unfolding bytes_less
bytes_less_irrefl [] = refl
bytes_less_irrefl (x ∷ xs) = let h = bytes_less_irrefl xs in ground arith

pub bytes_less_trans :
    (xs ys zs : List ℕ)
    → bytes_less xs ys ≡ true
    → bytes_less ys zs ≡ true
    → bytes_less xs zs ≡ true
unfolding bytes_less
bytes_less_trans xs [] zs e f = cc
bytes_less_trans xs (y ∷ ys) [] e f = cc
bytes_less_trans [] (y ∷ ys) (z ∷ zs) e f = refl
bytes_less_trans (x ∷ xs) (y ∷ ys) (z ∷ zs) e f = let h = bytes_less_trans xs ys zs in ground arith

-- Two strings of which neither is less are equal.
pub bytes_less_total :
    (xs ys : List ℕ) → bytes_less xs ys ≡ false → bytes_less ys xs ≡ false → xs ≡ ys
unfolding bytes_less
bytes_less_total [] [] e f = refl
bytes_less_total [] (y ∷ ys) e f = cc
bytes_less_total (x ∷ xs) [] e f = cc
bytes_less_total (x ∷ xs) (y ∷ ys) e f =
    let a : x ≡ y = ground arith in
    let b : bytes_less xs ys ≡ false = ground arith in
    let c : bytes_less ys xs ≡ false = ground arith in let d = bytes_less_total xs ys b c in cc
