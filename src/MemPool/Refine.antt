-- ===== src/MemPool/Refine.antt =====
-- The pool hands out blocks that are not in use, each inside an allocation, and frees them all.
use mathlib.Core.Path.{subst}
use lib_net_co_rpc.Prelude.{
  All-append, All-both, ℕ, zero, suc, ◌+◌, ◌≡◌, refl, sym, ap, ◌∙◌, Option, none, some, List, [],
  ◌∷◌, ◌++◌, arith, ℕ_discrete,
}
use lib_net_co_rpc.MemPool.{
  Address, MemPool, set_next, set_at, push_free, malloc_cnt, refill, take_block, alloc_block,
  free_block, free_loop, destroy,
}
use lib_net_co_rpc.MemPool.Chain.{Chain, Chain-set_next, set_next-same, NoRepeat-drop, Apart-drop}
use lib_net_co_rpc.MemPool.Refill.{
  Within, Headers, Pool, take_block-Pool, threaded, threaded-first, refill-Pool, set_at-same,
  set_at-other,
}

alloc_block-cases :
    (p : MemPool) (o : Option Address)
    → p.free_list_head ≡ o
    → alloc_block p ≡ (elim o as (λ _. Option Address × MemPool) [
      | none ↦ take_block (refill p)
      | some a ↦ take_block p
    ])
unfolding alloc_block
alloc_block-cases p o e =
    ap
      (λ h. elim h as (λ _. Option Address × MemPool) [
        | none ↦ take_block (refill p)
        | some a ↦ take_block p
      ])
      e

-- On a pool whose free list and whose blocks in use are as `Pool` says, `AllocAMemBlock` returns a
-- block that was not in use, and leaves a pool where it is in use and not free.
pub alloc_block-Pool :
    (p : MemPool) (free used : List Address)
    → Pool p free used
    → (a : Address) × (rest : List Address) × ((alloc_block p).0 ≡ some a)
      × Pool (alloc_block p).1 rest (a ∷ used)
alloc_block-Pool p [] used h =
    let (a, rest, e) = threaded-first (39 + p.malloc_times) p.malloc_times 0 [] in
    let count : malloc_cnt p ≡ suc (39 + p.malloc_times) = omega arith in
    let first : threaded (malloc_cnt p) p.malloc_times 0 [] ≡ a ∷ rest =
      ap (λ k. threaded k p.malloc_times 0 []) count ∙ e in
    let full = subst (λ free. Pool (refill p) free used) first (refill-Pool p used h) in
    let (r, next) = take_block-Pool (refill p) a rest used full in
    let e = alloc_block-cases p none h.chain in
    (
      a,
      rest,
      subst (λ v. v.0 ≡ some a) (sym e) r,
      subst (λ v. Pool v.1 rest (a ∷ used)) (sym e) next,
    )
alloc_block-Pool p (a ∷ free) used h =
    let (r, next) = take_block-Pool p a free used h in
    let e = alloc_block-cases p (some a) h.chain.0 in
    (
      a,
      free,
      subst (λ v. v.0 ≡ some a) (sym e) r,
      subst (λ v. Pool v.1 free (a ∷ used)) (sym e) next,
    )

-- `FreeAMemBlock` of a block in use, of a pool as `Pool` says, puts it at the front of the free list.
pub free_block-Pool :
    (p : MemPool) (a : Address) (free us vs : List Address)
    → Pool p free (us ++ a ∷ vs)
    → Pool (free_block (some a) p) (a ∷ free) (us ++ vs)
unfolding free_block push_free
free_block-Pool p a free us vs h =
    let (once, off) = NoRepeat-drop a us vs h.used_once in
    let (apart, n) = Apart-drop a free us vs h.separate in
    let (wu, (w, wv)) = All-append (Within p.malloc_times) us (a ∷ vs) h.used_within in
    record {
      chain = (
        refl,
        subst (λ x. Chain (set_next a p.free_list_head p.next) x free)
            (sym (set_next-same p.next a p.free_list_head))
            (Chain-set_next p.next a p.free_list_head p.free_list_head free h.chain n),
      );
      free_once = (n, h.free_once);
      used_once = once;
      separate = (off, apart);
      free_within = (w, h.free_within);
      used_within = All-both (Within p.malloc_times) us vs wu wv;
      headers = record {
        head = h.headers.head;
        links = h.headers.links;
        live = h.headers.live;
        dead = h.headers.dead;
      };
    }

-- The destructor's loop goes through the headers.
free_loop-frees :
    (n : ℕ) (p : MemPool)
    → Headers n p
    → ((i : ℕ) → (free_loop n p).allocated i ≡ none) × ((free_loop n p).malloc_list_head ≡ none)
unfolding free_loop
free_loop-frees zero p h = (λ i. h.dead i (omega arith), h.head)
free_loop-frees (suc n) p h = rw h.head (
    free_loop-frees n
      (record p { malloc_list_head = p.header_next n; allocated = set_at n none p.allocated })
      (record {
        head = h.links n (omega arith);
        links = λ i l. h.links i (omega arith);
        live = λ i l. set_at-other n i none p.allocated (λ e. omega arith) ∙ h.live i (omega arith);
        dead = λ i l. elim (ℕ_discrete n i) [
          | yes e ↦ set_at-same n i none p.allocated e
          | no ne ↦ set_at-other n i none p.allocated ne ∙ h.dead i (omega arith)
        ];
      }))

-- The destructor of a pool as `Pool` says frees every allocation, whatever blocks are in use.
pub destroy-frees :
    (p : MemPool) (free used : List Address)
    → Pool p free used
    → ((i : ℕ) → (destroy p).allocated i ≡ none) × ((destroy p).malloc_list_head ≡ none)
unfolding destroy
destroy-frees p free used h = free_loop-frees p.malloc_times p h.headers
