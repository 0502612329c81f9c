-- ===== src/Resource/Cached.antt =====
-- The cached get and free functions of src/resource/resource.c, over the shared memory pools.
pub mod Laws
mod Examples
use nextgen.Base.{
  ℕ, Bool, true, false, Option, none, some, List, [], ◌∷◌, ◌&&◌, ◌==◌, if◌then◌else◌, Outcome, done,
  fault, ◌>>=◌,
}
use nextgen.Memory.External.{Slist, Spinlock}
use nextgen.Memory.Pool.{MemPoolShared, mem_get_shared_block, mem_free_shared_block}

-- A pool whose blocks have their resources: `content b` is what `m_blk->ptr->ptr` leads to.
pub record ResourcePool (sl : Slist) (sp : Spinlock) (C : Type 0) : Type 0 where
  pub pool : MemPoolShared sl sp
  pub content : ℕ → C

-- memcmp over the length of the second text: whether it is a prefix of the first.
unfoldable pub memcmp_prefix : List ℕ → List ℕ → Bool
memcmp_prefix path [] = true
memcmp_prefix [] (c ∷ cs) = false
memcmp_prefix (d ∷ ds) (c ∷ cs) = d == c && memcmp_prefix ds cs

-- strcmp, whether it is 0.
unfoldable pub strcmp_eq : List ℕ → List ℕ → Bool
strcmp_eq [] [] = true
strcmp_eq [] (c ∷ cs) = false
strcmp_eq (d ∷ ds) [] = false
strcmp_eq (d ∷ ds) (c ∷ cs) = d == c && strcmp_eq ds cs

-- The first block of a list that passes a test.
unfoldable pub find_block : (ℕ → Bool) → List ℕ → Option ℕ
find_block p [] = none
find_block p (b ∷ bs) = if p b then some b else find_block p bs

module _ (sl : Slist) (sp : Spinlock) {C : Type 0} where
  -- The common text of the five `get_*_cached`: take a block and read its resource. `rounds` bounds
  -- the wait for a free block; a pool that is NULL is read through.
  unfoldable pub get_cached :
      ℕ → Option (ResourcePool sl sp C) → Outcome (C × Option (ResourcePool sl sp C))
  get_cached rounds none = fault
  get_cached rounds (some p) = mem_get_shared_block sl sp rounds p.pool >>= λ r.
      done (p.content r.0, some (record p { pool = r.1 }))

  -- The common text of the five `free_*_cached`, by the test that they make on a resource: the first
  -- allocated block that passes goes back to the pool. They return 0 in any case.
  unfoldable pub free_cached :
      (C → Bool) → Option (ResourcePool sl sp C) → Outcome (Option (ResourcePool sl sp C))
  free_cached test none = fault
  free_cached test (some p) =
      elim (find_block (λ b. test (p.content b)) (sl.to_list p.pool.allocated_list)) [
        | none ↦ done (some p)
        | some b ↦ mem_free_shared_block sl sp (some b) (some p.pool) >>= λ q. elim q [
          | none ↦ done (some p)
          | some pool ↦ done (some (record p { pool = pool }))
        ]
      ]

module _ (sl : Slist) (sp : Spinlock) where
  abbrev pub PathPool : Type 0
  PathPool = Option (ResourcePool sl sp (List ℕ))

  -- Descriptors are kept as the numbers of their bit patterns.
  abbrev pub DescPool : Type 0
  DescPool = Option (ResourcePool sl sp ℕ)

  unfoldable pub get_filepath_cached : ℕ → PathPool → Outcome (List ℕ × PathPool)
  get_filepath_cached rounds file_pool = get_cached sl sp rounds file_pool

  unfoldable pub get_dirpath_cached : ℕ → PathPool → Outcome (List ℕ × PathPool)
  get_dirpath_cached rounds dirpath_pool = get_cached sl sp rounds dirpath_pool

  unfoldable pub get_mountpath_cached : ℕ → PathPool → Outcome (List ℕ × PathPool)
  get_mountpath_cached rounds mount_pool = get_cached sl sp rounds mount_pool

  unfoldable pub get_socket_cached : ℕ → DescPool → Outcome (ℕ × DescPool)
  get_socket_cached rounds socket_pool = get_cached sl sp rounds socket_pool

  unfoldable pub get_desc_cached : ℕ → DescPool → Outcome (ℕ × DescPool)
  get_desc_cached rounds desc_pool = get_cached sl sp rounds desc_pool

  unfoldable pub free_filepath_cached : List ℕ → PathPool → Outcome PathPool
  free_filepath_cached path file_pool = free_cached sl sp (memcmp_prefix path) file_pool

  unfoldable pub free_mountpath_cached : List ℕ → PathPool → Outcome PathPool
  free_mountpath_cached path mount_pool = free_cached sl sp (strcmp_eq path) mount_pool

  unfoldable pub free_dirpath_cached : List ℕ → PathPool → Outcome PathPool
  free_dirpath_cached path dirpath_pool = free_cached sl sp (strcmp_eq path) dirpath_pool

  unfoldable pub free_socket_cached : ℕ → DescPool → Outcome DescPool
  free_socket_cached sock_fd socket_pool = free_cached sl sp (λ s. s == sock_fd) socket_pool

  unfoldable pub free_desc_cached : ℕ → DescPool → Outcome DescPool
  free_desc_cached fd desc_pool = free_cached sl sp (λ d. fd == d) desc_pool
