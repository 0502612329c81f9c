-- ===== src/Resource/Clean.antt =====
-- The cleanup of the file pool in src/resource/resource.c. Messages on the console are left out.
pub mod Stuck
use nextgen.Base.{
  ℕ, Option, none, some, List, [], ◌∷◌, Outcome, done, fault, blocked, ◌>>=◌, Status, success,
  failure,
}
use nextgen.Memory.External.{Slist, Spinlock}
use nextgen.Memory.Pool.{sizeof_block}
use nextgen.Memory.Alloc.{Heap, MemoryAllocator, get_default_allocator}
use nextgen.Resource.Cached.{ResourcePool, PathPool}

-- PATH_MAX + 1 and the size of `struct resource_ctx`.
abbrev pub path_size : ℕ
path_size = 4097

abbrev pub sizeof_resource : ℕ
sizeof_resource = 16

-- The system's unlink, and where the text of the path of a block is kept (`resource->ptr`).
pub record Files (h : Heap) : Type 0 where
  pub unlink : List ℕ → h.World → Status × h.World
  pub path_place : ℕ → Option ℕ

-- The end of a call of the cleanup: its return code, the pool it leaves, and the heap.
abbrev pub Cleaned : Slist → Spinlock → Heap → Type 0
Cleaned sl sp h = Status × PathPool sl sp × h.World

module _ (sl : Slist) (sp : Spinlock) (h : Heap) (f : Files h) where
  -- One block: its file, its path, its context and the block itself. The result has the value that
  -- `m_blk` is left with; the addresses of contexts are `pool->ptr`.
  unfoldable pub clean_block :
      MemoryAllocator h.World
      → ResourcePool sl sp (List ℕ)
      → ℕ
      → h.World
      → Outcome (Option (Option ℕ) × h.World)
  clean_block allocator p b w = elim (p.pool.ptr b) [
    | none ↦ fault
    | some resource ↦
        let (rtrn, w₁) = f.unlink (p.content b) w in
        elim rtrn [
          | failure ↦ done (none, w₁)
          | success ↦
              let (_, w₂) = allocator.free_shared (f.path_place b) path_size w₁ in
              let (_, w₃) = allocator.free_shared (some resource) sizeof_resource w₂ in
              let (m_blk, w₄) = allocator.free_shared (some b) sizeof_block w₃ in
              done (some m_blk, w₄)
        ]
  ]

  -- The loop over the allocated list. After a block the loop reads the successor of `m_blk`.
  unfoldable pub clean_loop :
      MemoryAllocator h.World
      → ResourcePool sl sp (List ℕ)
      → List ℕ
      → h.World
      → Outcome (Status × h.World)
  clean_loop allocator p [] w = done (success, w)
  clean_loop allocator p (b ∷ bs) w = clean_block allocator p b w >>= λ r. elim r.0 [
    | none ↦ done (failure, r.1)
    | some m_blk ↦ elim m_blk [ none ↦ fault | some _ ↦ clean_loop allocator p bs r.1 ]
  ]

  unfoldable pub clean_allocated_file_list :
      ResourcePool sl sp (List ℕ) → h.World → Outcome (Status × h.World)
  clean_allocated_file_list p w =
      let (allocator, w₁) = get_default_allocator h w in
      elim allocator [
        | none ↦ done (failure, w₁)
        | some a ↦ clean_loop a p (sl.to_list p.pool.allocated_list) w₁
      ]

  -- The part of `clean_file_pool` behind the lock, which `p` holds.
  unfoldable pub clean_locked : ResourcePool sl sp (List ℕ) → h.World → Outcome (Cleaned sl sp h)
  clean_locked p w =
      let unlocked = some (record p { pool = record p.pool { lock = sp.unlock p.pool.lock } }) in
      elim (sl.first p.pool.allocated_list) [
        | none ↦ done (success, unlocked, w)
        | some _ ↦ clean_allocated_file_list p w >>= λ r. elim r.0 [
          | failure ↦ done (failure, some p, r.1)
          | success ↦ done (success, unlocked, r.1)
        ]
      ]

  -- `clean_file_pool`. mem_clean_shared_pool, which it ends with, has no effect.
  unfoldable pub clean_file_pool : PathPool sl sp → h.World → Outcome (Cleaned sl sp h)
  clean_file_pool none w = done (failure, none, w)
  clean_file_pool (some p) w = elim (sp.lock p.pool.lock) [
    | none ↦ blocked
    | some l ↦ clean_locked (record p { pool = record p.pool { lock = l } }) w
  ]

  unfoldable pub cleanup_resource_pools : PathPool sl sp → h.World → Outcome (Cleaned sl sp h)
  cleanup_resource_pools file_pool w = clean_file_pool file_pool w
