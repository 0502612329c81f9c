-- ===== src/Memory/Pool.antt =====
-- The shared memory pool of src/memory/memory.c and memory.h. Messages on the console are left out.
pub mod View
pub mod Space
pub mod Create
pub mod Exclusive
mod Examples
use nextgen.Base.{
  ℕ, zero, suc, Option, none, some, ◌==◌, if◌then◌else◌, Outcome, done, fault, blocked, ◌>>=◌,
}
use nextgen.Memory.External.{Slist, Spinlock, Mmap}

-- `struct mem_pool_shared`. A block is known by its address; `ptr` is the field of that name in
-- the block at an address, `none` where no block has been set up.
pub record MemPoolShared (sl : Slist) (sp : Spinlock) : Type 0 where
  pub lock : sp.Lock
  pub block_size : ℕ
  pub block_count : ℕ
  pub free_list : sl.Head
  pub allocated_list : sl.Head
  pub ptr : ℕ → Option ℕ

-- The sizes of `struct mem_pool_shared` and `struct memory_block` on a 64-bit machine.
abbrev pub sizeof_pool : ℕ
sizeof_pool = 32

abbrev pub sizeof_block : ℕ
sizeof_block = 16

abbrev pub write_ptr : (ℕ → Option ℕ) → ℕ → ℕ → ℕ → Option ℕ
write_ptr f a v b = if b == a then some v else f b

-- MAP_FAILED becomes NULL.
unfoldable pub default_mem_alloc_shared : (mm : Mmap) → ℕ → mm.World → Option ℕ × mm.World
default_mem_alloc_shared mm nbytes w = mm.mmap nbytes w

module _ (sl : Slist) (sp : Spinlock) where
  -- The pool structure before its blocks are made.
  abbrev pub s_pool : ℕ → ℕ → MemPoolShared sl sp
  s_pool block_size block_count = record {
    lock = sp.initializer;
    block_size = block_size;
    block_count = block_count;
    free_list = sl.init;
    allocated_list = sl.init;
    ptr = λ _. none;
  }

  module _ (mm : Mmap) where
    unfoldable pub create_blocks :
        ℕ → MemPoolShared sl sp → mm.World → Option (MemPoolShared sl sp) × mm.World
    create_blocks zero pool w = (some pool, w)
    create_blocks (suc n) pool w =
        let (block, w₁) = default_mem_alloc_shared mm sizeof_block w in
        elim block [
          | none ↦ (none, w₁)
          | some a ↦
              let (space, w₂) = default_mem_alloc_shared mm pool.block_size w₁ in
              elim space [
                | none ↦ (none, w₂)
                | some v ↦
                    create_blocks n
                      (record pool {
                        ptr = write_ptr pool.ptr a v;
                        free_list = sl.insert_head a pool.free_list;
                      })
                      w₂
              ]
        ]

    -- `mem_create_shared_pool`; `none` is NULL.
    unfoldable pub mem_create_shared_pool :
        ℕ → ℕ → mm.World → Option (MemPoolShared sl sp) × mm.World
    mem_create_shared_pool block_size block_count w =
        if block_size == 0
        then (none, w)
        else if block_count == 0
        then (none, w)
        else let (place, w₁) = default_mem_alloc_shared mm sizeof_pool w in
          elim place [
            | none ↦ (none, w₁)
            | some _ ↦ create_blocks block_count (s_pool block_size block_count) w₁
          ]

  -- One round of the loop of `mem_get_shared_block`: `none` if the free list was empty.
  unfoldable pub get_round : MemPoolShared sl sp → Outcome (Option ℕ × MemPoolShared sl sp)
  get_round pool = elim (sp.lock pool.lock) [
    | none ↦ blocked
    | some l ↦ elim (sl.first pool.free_list) [
      | none ↦ done (none, record pool { lock = sp.unlock l })
      | some block ↦ elim (sl.remove block pool.free_list) [
        | none ↦ fault
        | some rest ↦ done (
          some block,
          record pool {
            lock = sp.unlock l;
            free_list = rest;
            allocated_list = sl.insert_head block pool.allocated_list;
          },
        )
      ]
    ]
  ]

  -- `mem_get_shared_block`, which spins until a block is free. The number bounds the rounds; when
  -- they are used up the call is still spinning.
  unfoldable pub mem_get_shared_block : ℕ → MemPoolShared sl sp → Outcome (ℕ × MemPoolShared sl sp)
  unfolding get_round
  mem_get_shared_block zero pool = blocked
  mem_get_shared_block (suc rounds) pool = get_round pool >>= λ r. elim r.0 [
    | none ↦ mem_get_shared_block rounds r.1
    | some block ↦ done (block, r.1)
  ]

  -- The part of `mem_free_shared_block` behind the checks for NULL.
  unfoldable pub free_block : ℕ → MemPoolShared sl sp → Outcome (MemPoolShared sl sp)
  free_block block pool = elim (sp.lock pool.lock) [
    | none ↦ blocked
    | some l ↦ elim (sl.remove block pool.allocated_list) [
      | none ↦ fault
      | some rest ↦ done (record pool {
        lock = sp.unlock l;
        allocated_list = rest;
        free_list = sl.insert_head block pool.free_list;
      })
    ]
  ]

  -- `mem_free_shared_block`: NULL arguments change nothing.
  unfoldable pub mem_free_shared_block :
      Option ℕ → Option (MemPoolShared sl sp) → Outcome (Option (MemPoolShared sl sp))
  unfolding free_block
  mem_free_shared_block none pool = done pool
  mem_free_shared_block (some block) none = done none
  mem_free_shared_block (some block) (some pool) = free_block block pool >>= λ p. done (some p)
