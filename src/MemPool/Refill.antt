-- ===== src/MemPool/Refill.antt =====
-- What a pool is: its free list, the blocks in use and its allocations; and how it is refilled.
use mathlib.Core.Path.{subst}
use lib_net_co_rpc.Prelude.{
  All, All-map, ℕ, zero, suc, ◌+◌, ◌*◌, ◌<◌, ◌≤◌, ◌≡◌, ◌≢◌, refl, sym, ap, ◌∙◌, true, false, Option,
  none, some, List, [], ◌∷◌, arith, ◌==◌, ℕ_discrete,
}
use lib_net_co_rpc.MemPool.{
  Address, MemPool, set_next, set_at, init, push_free, thread_blocks, malloc_cnt, add_malloc,
  refill, take_block,
}
use lib_net_co_rpc.MemPool.Chain.{
  Chain, Absent, NoRepeat, Apart, Chain-set_next, set_next-same, Apart-take,
}

-- The block lies in one of the first `n` allocations.
abbrev pub Within : ℕ → Address → Type 0
Within n a = (a.allocation < n) × (a.block < 40 + a.allocation)

abbrev pub before : ℕ → Option ℕ
before zero = none
before (suc k) = some k

-- The headers: each of the first `n` allocations is live with its size, and the headers list them backwards.
pub record Headers (n : ℕ) (p : MemPool) : Type 0 where
  pub head : p.malloc_list_head ≡ before n
  pub links : (i : ℕ) → i < n → p.header_next i ≡ before i
  pub live : (i : ℕ) → i < n → p.allocated i ≡ some ((40 + i) * p.obj_size + 8)
  pub dead : (i : ℕ) → n ≤ i → p.allocated i ≡ none

-- The free list is `free` and the blocks handed out are `used`, with no block twice.
pub record Pool (p : MemPool) (free used : List Address) : Type 0 where
  pub chain : Chain p.next p.free_list_head free
  pub free_once : NoRepeat free
  pub used_once : NoRepeat used
  pub separate : Apart free used
  pub free_within : All (Within p.malloc_times) free
  pub used_within : All (Within p.malloc_times) used
  pub headers : Headers p.malloc_times p

pub init-Pool : (size : ℕ) → Pool (init size) [] []
unfolding init
init-Pool size = record {
  chain = refl;
  free_once = tt;
  used_once = tt;
  separate = tt;
  free_within = tt;
  used_within = tt;
  headers = record {
    head = refl;
    links = λ i l. absurd (omega arith);
    live = λ i l. absurd (omega arith);
    dead = λ i l. refl;
  };
}

-- Taking the first block.
pub take_block-Pool :
    (p : MemPool) (a : Address) (free used : List Address)
    → Pool p (a ∷ free) used
    → ((take_block p).0 ≡ some a) × Pool (take_block p).1 free (a ∷ used)
unfolding take_block
take_block-Pool p a free used h =
    let (e, c) = h.chain in
    let (n, once) = h.free_once in
    let (off, apart) = h.separate in
    let (w, ws) = h.free_within in
    rw e (
      refl,
      record {
        chain = c;
        free_once = once;
        used_once = (off, h.used_once);
        separate = Apart-take a free used n apart;
        free_within = ws;
        used_within = (w, h.used_within);
        headers = record {
          head = h.headers.head;
          links = h.headers.links;
          live = h.headers.live;
          dead = h.headers.dead;
        };
      },
    )

-- the blocks that the loop threads, the last first
pub threaded : ℕ → ℕ → ℕ → List Address → List Address
threaded zero m i free = free
threaded (suc n) m i free = threaded n m (i + 1) (record { allocation = m; block = i } ∷ free)

-- What the loop has threaded so far: blocks of allocation `m` below `i`.
pub record Threading (m i : ℕ) (p : MemPool) (free : List Address) : Type 0 where
  pub chain : Chain p.next p.free_list_head free
  pub once : NoRepeat free
  pub below : All (λ a. (a.allocation ≡ m) × (a.block < i)) free

below-Absent :
    (m i : ℕ) (free : List Address)
    → All (λ a. (a.allocation ≡ m) × (a.block < i)) free
    → Absent (record { allocation = m; block = i }) free
below-Absent m i [] h = tt
below-Absent m i (a ∷ free) ((e, l), h) = (ground arith, below-Absent m i free h)

push_free-Threading :
    (m i : ℕ) (p : MemPool) (free : List Address)
    → Threading m i p free
    → Threading m
        (i + 1)
        (push_free (record { allocation = m; block = i }) p)
        (record { allocation = m; block = i } ∷ free)
unfolding push_free
push_free-Threading m i p free t =
    let a : Address = record { allocation = m; block = i } in
    let n = below-Absent m i free t.below in
    record {
      chain = (
        refl,
        subst (λ h. Chain (set_next a p.free_list_head p.next) h free)
            (sym (set_next-same p.next a p.free_list_head))
            (Chain-set_next p.next a p.free_list_head p.free_list_head free t.chain n),
      );
      once = (n, t.once);
      below = ((refl, omega arith), All-map (λ b (e, l). (e, omega arith)) free t.below);
    }

thread_blocks-Threading :
    (n m i : ℕ) (p : MemPool) (free : List Address)
    → Threading m i p free
    → Threading m (i + n) (thread_blocks n m i p) (threaded n m i free)
unfolding thread_blocks threaded
thread_blocks-Threading zero m i p free t = subst (λ k. Threading m k p free) (omega arith) t
thread_blocks-Threading (suc n) m i p free t =
    subst (λ k. Threading m k (thread_blocks (suc n) m i p) (threaded (suc n) m i free))
      (omega arith) (thread_blocks-Threading n m (i + 1) _ _ (push_free-Threading m i p free t))

thread_blocks-keeps :
    (n m i k : ℕ) (p : MemPool)
    → Headers k p
    → Headers k (thread_blocks n m i p) × ((thread_blocks n m i p).malloc_times ≡ p.malloc_times)
unfolding thread_blocks push_free
thread_blocks-keeps zero m i k p h = (h, refl)
thread_blocks-keeps (suc n) m i k p h =
    thread_blocks-keeps n m (i + 1) k (push_free (record { allocation = m; block = i }) p)
      (record { head = h.head; links = h.links; live = h.live; dead = h.dead })

pub set_at-same {ℓ} : {A : Type ℓ} (i j : ℕ) (v : A) (f : ℕ → A) → i ≡ j → set_at i v f j ≡ v
set_at-same i j v f e = let hit : (i == j) ≡ true = ground arith in rw hit

pub set_at-other {ℓ} : {A : Type ℓ} (i j : ℕ) (v : A) (f : ℕ → A) → i ≢ j → set_at i v f j ≡ f j
set_at-other i j v f ne = let miss : (i == j) ≡ false = ground arith in rw miss

add_malloc-Headers :
    (p : MemPool) → Headers p.malloc_times p → Headers (suc p.malloc_times) (add_malloc p)
unfolding add_malloc
add_malloc-Headers p h = record {
  head = refl;
  links = λ i l. elim (ℕ_discrete p.malloc_times i) [
    | yes e ↦ set_at-same p.malloc_times i p.malloc_list_head p.header_next e ∙ h.head ∙ ap before e
    | no ne ↦
        set_at-other p.malloc_times i p.malloc_list_head p.header_next ne ∙ h.links i (omega arith)
  ];
  live = λ i l. elim (ℕ_discrete p.malloc_times i) [
    | yes e ↦
        set_at-same p.malloc_times i (some (malloc_cnt p * p.obj_size + 8)) p.allocated e
        ∙ ap (λ k. some ((40 + k) * p.obj_size + 8)) e
    | no ne ↦ set_at-other p.malloc_times i _ p.allocated ne ∙ h.live i (omega arith)
  ];
  dead = λ i l.
      set_at-other p.malloc_times i _ p.allocated (λ e. omega arith) ∙ h.dead i (omega arith);
}

pub threaded-first :
    (n m i : ℕ) (free : List Address)
    → (a : Address) × (rest : List Address) × (threaded (suc n) m i free ≡ a ∷ rest)
unfolding threaded
threaded-first zero m i free = (record { allocation = m; block = i }, free, refl)
threaded-first (suc n) m i free =
    threaded-first n m (i + 1) (record { allocation = m; block = i } ∷ free)

below-Apart :
    (m : ℕ) (k : ℕ) (free used : List Address)
    → All (λ a. (a.allocation ≡ m) × (a.block < k)) free
    → All (Within m) used
    → Apart free used
below-Apart m k [] used h w = tt
below-Apart m k (a ∷ free) used ((e, l), h) w =
    (All-map (λ b (lt, _). ground arith) used w, below-Apart m k free used h w)

-- A refill leaves a pool whose free list is the new allocation's blocks.
pub refill-Pool :
    (p : MemPool) (used : List Address)
    → Pool p [] used
    → Pool (refill p) (threaded (malloc_cnt p) p.malloc_times 0 []) used
unfolding refill add_malloc
refill-Pool p used h =
    let m = p.malloc_times in
    let k = malloc_cnt p in
    let q = add_malloc p in
    let t =
      thread_blocks-Threading k m 0 q [] (record { chain = h.chain; once = tt; below = tt }) in
    let (hd, same) = thread_blocks-keeps k m 0 (suc m) q (add_malloc-Headers p h.headers) in
    let grown : suc m ≡ (thread_blocks k m 0 q).malloc_times + 1 = omega arith in
    let r = refill p in
    record {
      chain = t.chain;
      free_once = t.once;
      used_once = h.used_once;
      separate = below-Apart m _ _ used t.below h.used_within;
      free_within = All-map (λ a (e, l). (omega arith, omega arith)) _ t.below;
      used_within = All-map (λ a (l, b). (omega arith, b)) used h.used_within;
      headers =
          subst (λ n. Headers n r) grown
            (record { head = hd.head; links = hd.links; live = hd.live; dead = hd.dead });
    }
