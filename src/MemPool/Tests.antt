-- ===== src/MemPool/Tests.antt =====
-- The pool of 16-byte objects from its start on.
use lib_net_co_rpc.Prelude.{ℕ, ◌≡◌, refl, none, some, List, [], ◌∷◌}
use lib_net_co_rpc.MemPool.{
  Address, MemPool, init, alloc_block, free_block, destroy, refill, thread_blocks, push_free,
  add_malloc, take_block,
}
use lib_net_co_rpc.MemPool.Refill.{Pool, init-Pool}
use lib_net_co_rpc.MemPool.Refine.{alloc_block-Pool, free_block-Pool, destroy-frees}

abbrev pool : MemPool
pool = init 16

abbrev first_block : Address
first_block = record { allocation = 0; block = 39 }

-- The last block of the first allocation comes first.
first_alloc : (alloc_block pool).0 ≡ some first_block
unfolding init alloc_block refill thread_blocks push_free add_malloc take_block
first_alloc = refl

alloc_block-Pool_example :
    (a : Address) × (rest : List Address) × ((alloc_block pool).0 ≡ some a)
    × Pool (alloc_block pool).1 rest (a ∷ [])
alloc_block-Pool_example = alloc_block-Pool pool [] [] (init-Pool 16)

free_block-Pool_example :
    let (a, rest, _, _) = alloc_block-Pool pool [] [] (init-Pool 16) in
    Pool (free_block (some a) (alloc_block pool).1) (a ∷ rest) []
free_block-Pool_example =
    free_block-Pool (alloc_block pool).1 (alloc_block-Pool pool [] [] (init-Pool 16)).0
      (alloc_block-Pool pool [] [] (init-Pool 16)).1 [] []
      (alloc_block-Pool pool [] [] (init-Pool 16)).3

destroy-frees_example :
    ((i : ℕ) → (destroy pool).allocated i ≡ none) × ((destroy pool).malloc_list_head ≡ none)
destroy-frees_example = destroy-frees pool [] [] (init-Pool 16)
