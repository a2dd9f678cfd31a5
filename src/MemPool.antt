-- ===== src/MemPool.antt =====
-- include/mempool.h and include/objpool.h: a pool of blocks of one size with a free list threaded
-- through the blocks, and the object pool above it. An address is a pair of the allocation (the
-- `malloc` call, numbered from 0) and the block in it; block 0 of the data stands after the header
-- node, and the header is the address that `malloc` returns.
pub mod Chain
pub mod Refill
pub mod Refine
mod Tests
use lib_net_co_rpc.Prelude.{
  ℕ, zero, suc, ◌+◌, ◌*◌, Bool, true, false, Option, none, some, List, [], ◌∷◌, ltb, ◌==◌, ◌&&◌,
  if◌then◌else◌,
}

-- `parameter::memPoolMallocObjCnt`
abbrev pub mem_pool_malloc_obj_cnt : ℕ
mem_pool_malloc_obj_cnt = 40

-- `sizeof(MemBlockNode)`, a pointer
abbrev pub node_size : ℕ
node_size = 8

-- The address of a block, the `block`-th after the header of an allocation.
pub record Address : Type 0 where
  pub allocation : ℕ
  pub block : ℕ

abbrev pub same_address : Address → Address → Bool
same_address a b = (a.allocation == b.allocation) && (a.block == b.block)

-- The pool and the memory that it uses: the `next` of every block, that of every header, and the
-- sizes in bytes of the allocations that are not freed.
pub record MemPool : Type 0 where
  pub free_list_head : Option Address
  pub malloc_list_head : Option ℕ
  pub malloc_times : ℕ
  pub obj_size : ℕ
  pub next : Address → Option Address
  pub header_next : ℕ → Option ℕ
  pub allocated : ℕ → Option ℕ

-- `MemPool()`
unfoldable pub init : ℕ → MemPool
init size = record {
  free_list_head = none;
  malloc_list_head = none;
  malloc_times = 0;
  obj_size = if ltb size node_size then node_size else size;
  next = λ a. none;
  header_next = λ i. none;
  allocated = λ i. none;
}

-- `node->next = v`
abbrev pub set_next :
    Address → Option Address → (Address → Option Address) → Address → Option Address
set_next a v next b = if same_address a b then v else next b

abbrev pub set_at {ℓ} : {A : Type ℓ} → ℕ → A → (ℕ → A) → ℕ → A
set_at i v f j = if i == j then v else f j

-- `newNode->next = _freeListHead; _freeListHead = newNode;`
unfoldable pub push_free : Address → MemPool → MemPool
push_free a p = record p { next = set_next a p.free_list_head p.next; free_list_head = some a }

-- The loop that threads the new blocks: `n` more, from block `i` on.
unfoldable pub thread_blocks : ℕ → ℕ → ℕ → MemPool → MemPool
thread_blocks zero allocation i p = p
thread_blocks (suc n) allocation i p =
    thread_blocks n allocation (i + 1) (push_free (record { allocation = allocation; block = i }) p)

-- `mallocCnt`
abbrev pub malloc_cnt : MemPool → ℕ
malloc_cnt p = mem_pool_malloc_obj_cnt + p.malloc_times

-- The header of a new allocation, put before the others. The allocation is numbered by `_mallocTimes`.
unfoldable pub add_malloc : MemPool → MemPool
add_malloc p =
    let i = p.malloc_times in
    record p {
      allocated = set_at i (some (malloc_cnt p * p.obj_size + node_size)) p.allocated;
      header_next = set_at i p.malloc_list_head p.header_next;
      malloc_list_head = some i;
    }

-- What `AllocAMemBlock` does when the free list is empty.
unfoldable pub refill : MemPool → MemPool
refill p =
    let q = thread_blocks (malloc_cnt p) p.malloc_times 0 (add_malloc p) in
    record q { malloc_times = q.malloc_times + 1 }

-- Taking the first block of the free list; with none, the source reads through a null pointer.
unfoldable pub take_block : MemPool → Option Address × MemPool
take_block p = elim p.free_list_head [
  | none ↦ (none, p)
  | some a ↦ (some a, record p { free_list_head = p.next a })
]

-- `AllocAMemBlock`, where `malloc` succeeds
unfoldable pub alloc_block : MemPool → Option Address × MemPool
alloc_block p = elim p.free_list_head [ none ↦ take_block (refill p) | some a ↦ take_block p ]

-- `FreeAMemBlock`
unfoldable pub free_block : Option Address → MemPool → MemPool
free_block none p = p
free_block (some a) p = push_free a p

-- The destructor's loop, on fuel: `_mallocTimes` rounds are enough.
unfoldable pub free_loop : ℕ → MemPool → MemPool
free_loop zero p = p
free_loop (suc fuel) p = elim p.malloc_list_head [
  | none ↦ p
  | some i ↦
      free_loop fuel
        (record p { malloc_list_head = p.header_next i; allocated = set_at i none p.allocated })
]

-- `~MemPool`
unfoldable pub destroy : MemPool → MemPool
destroy p = free_loop p.malloc_times p

-- `ObjPool::new_obj`. `construct` is the constructor, which runs unless the type's is trivial.
abbrev pub new_obj {ℓ} :
    {M : Type ℓ} → Bool → (Address → M → M) → MemPool × M → Option Address × (MemPool × M)
new_obj trivial construct (p, m) =
    let (a, q) = alloc_block p in
    elim a [ none ↦ (none, (q, m)) | some b ↦ (some b, (q, if trivial then m else construct b m)) ]

-- `ObjPool::delete_obj`
abbrev pub delete_obj {ℓ} :
    {M : Type ℓ} → Bool → (Address → M → M) → Option Address → MemPool × M → MemPool × M
delete_obj trivial destruct none (p, m) = (p, m)
delete_obj trivial destruct (some a) (p, m) =
    (free_block (some a) p, if trivial then m else destruct a m)
