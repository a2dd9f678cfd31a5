-- ===== src/MemPool/Chain.antt =====
-- The free list as a list of addresses.
use mathlib.Core.Path.{subst}
use lib_net_co_rpc.Prelude.{
  All, ◌≡◌, sym, ap, true, false, Option, none, some, List, [], ◌∷◌, ◌++◌, arith, if◌then◌else◌,
}
use lib_net_co_rpc.MemPool.{Address, same_address, set_next}

-- From `head`, the `next` pointers go through the addresses and end.
abbrev pub Chain : (Address → Option Address) → Option Address → List Address → Type 0
Chain next head [] = head ≡ none
Chain next head (a ∷ xs) = (head ≡ some a) × Chain next (next a) xs

abbrev pub Absent : Address → List Address → Type 0
Absent a = All (λ b. same_address a b ≡ false)

abbrev pub NoRepeat : List Address → Type 0
NoRepeat [] = Unit
NoRepeat (a ∷ xs) = Absent a xs × NoRepeat xs

-- no address of the one list is in the other
abbrev pub Apart : List Address → List Address → Type 0
Apart xs bs = All (λ a. Absent a bs) xs

pub same_address-sym : (a b : Address) → same_address a b ≡ false → same_address b a ≡ false
same_address-sym a b h = ground arith

-- A write to an address that is not in the chain keeps the chain.
pub Chain-set_next :
    (next : Address → Option Address) (a : Address) (v head : Option Address) (xs : List Address)
    → Chain next head xs
    → Absent a xs
    → Chain (set_next a v next) head xs
Chain-set_next next a v head [] c n = c
Chain-set_next next a v head (b ∷ bs) (e, c) (off, n) = (
  e,
  subst (λ h. Chain (set_next a v next) h bs) (sym (ap (λ t. if t then v else next b) off))
      (Chain-set_next next a v (next b) bs c n),
)

pub set_next-same :
    (next : Address → Option Address) (a : Address) (v : Option Address) → set_next a v next a ≡ v
set_next-same next a v = let e : same_address a a ≡ true = ground arith in rw e

-- The first address of one list moves to the other.
pub Apart-take :
    (a : Address) (xs bs : List Address) → Absent a xs → Apart xs bs → Apart xs (a ∷ bs)
Apart-take a [] bs n h = tt
Apart-take a (b ∷ xs) bs (off, n) (p, h) = ((same_address-sym a b off, p), Apart-take a xs bs n h)

Absent-drop :
    (a b : Address) (us vs : List Address)
    → Absent a (us ++ b ∷ vs)
    → Absent a (us ++ vs) × (same_address a b ≡ false)
Absent-drop a b [] vs (off, n) = (n, off)
Absent-drop a b (u ∷ us) vs (off, n) = let (m, o) = Absent-drop a b us vs n in ((off, m), o)

-- An address of the one list, taken out of the middle, joins the other.
pub NoRepeat-drop :
    (a : Address) (us vs : List Address)
    → NoRepeat (us ++ a ∷ vs)
    → NoRepeat (us ++ vs) × Absent a (us ++ vs)
NoRepeat-drop a [] vs (n, r) = (r, n)
NoRepeat-drop a (u ∷ us) vs (n, r) =
    let (m, off) = Absent-drop u a us vs n in
    let (r', n') = NoRepeat-drop a us vs r in ((m, r'), (same_address-sym u a off, n'))

pub Apart-drop :
    (a : Address) (xs us vs : List Address)
    → Apart xs (us ++ a ∷ vs)
    → Apart xs (us ++ vs) × Absent a xs
Apart-drop a [] us vs h = (tt, tt)
Apart-drop a (b ∷ xs) us vs (n, h) =
    let (m, off) = Absent-drop b a us vs n in
    let (h', n') = Apart-drop a xs us vs h in ((m, h'), (same_address-sym b a off, n'))
