-- ===== src/Memory/Pool/Create.antt =====
-- What mem_create_shared_pool of src/memory/memory.c hands out.
use nextgen.Base.{
  ℕ, zero, suc, ◌+◌, ◌≤◌, ◌<◌, ◌≡◌, ◌≢◌, ◌↔◌, refl, ap, true, false, none, some, [], arith, count,
  length, inl, inr, Option-cases,
}
use nextgen.Memory.External.{Slist, Spinlock, Mmap}
use nextgen.Memory.Pool.{
  MemPoolShared, default_mem_alloc_shared, create_blocks, mem_create_shared_pool, sizeof_block,
  sizeof_pool, write_ptr, s_pool,
}
use nextgen.Memory.Pool.Exclusive.{Distinct}
use nextgen.Memory.Pool.Space.{Sizes, create-Own}

module _ (sl : Slist) (sp : Spinlock) (mm : Mmap) where
  -- The loop has put `made` distinct blocks of mapped memory on the free list, each with its space.
  record Built (w : mm.World) (made : ℕ) (pool : MemPoolShared sl sp) : Type 0 where
    free_length : length (sl.to_list pool.free_list) ≡ made
    none_allocated : sl.to_list pool.allocated_list ≡ []
    distinct : (a : ℕ) → count a (sl.to_list pool.free_list) ≤ 1
    is_mapped : (a : ℕ) → mm.mapped w a ≡ false → count a (sl.to_list pool.free_list) ≡ 0
    has_space : (a : ℕ) → pool.ptr a ≡ none → count a (sl.to_list pool.free_list) ≡ 0
    is_open : sp.held pool.lock ≡ false

  keeps-unmapped :
      (n a : ℕ) (w : mm.World) → mm.mapped (mm.mmap n w).1 a ≡ false → mm.mapped w a ≡ false
  keeps-unmapped n a w e = ground (arith, mm.mmap_keeps n a w)

  Built-insert :
      (w : mm.World) (made n v b : ℕ) (pool : MemPoolShared sl sp)
      → Built w made pool
      → (mm.mmap sizeof_block w).0 ≡ some b
      → Built (mm.mmap n (mm.mmap sizeof_block w).1).1 (suc made) (record pool {
        ptr = write_ptr pool.ptr b v;
        free_list = sl.insert_head b pool.free_list;
      })
  Built-insert w made n v b pool i e =
      let fresh = mm.mmap_fresh sizeof_block b w e in
      let maps = mm.mmap_maps sizeof_block b w e in
      record {
        free_length = rw (sl.to_list-insert_head b pool.free_list) (ap suc i.free_length);
        none_allocated = i.none_allocated;
        distinct = λ a.
            rw (sl.to_list-insert_head b pool.free_list)
              (ground (arith, i.distinct a, i.is_mapped b fresh));
        is_mapped = λ a u. rw (sl.to_list-insert_head b pool.free_list) (
            ground (
              arith,
              maps,
              keeps-unmapped n a (mm.mmap sizeof_block w).1 u,
              keeps-unmapped sizeof_block a w,
              i.is_mapped a,
            ));
        has_space =
            λ a u. rw (sl.to_list-insert_head b pool.free_list) (ground (arith, i.has_space a));
        is_open = i.is_open;
      }

  create_blocks-Built :
      (n made total : ℕ) (w w' : mm.World) (pool q : MemPoolShared sl sp)
      → n + made ≡ total
      → Built w made pool
      → create_blocks sl sp mm n pool w ≡ (some q, w')
      → Built w' total q
  unfolding create_blocks default_mem_alloc_shared
  create_blocks-Built zero made total w w' pool q t i e =
      let whole : made ≡ total = omega arith in
      let same : pool ≡ q = cc (ap (λ r. r.0) e) in rw (← whole, ← same, ← ap (λ r. r.1) e) i
  create_blocks-Built (suc n) made total w w' pool q t i e =
      elim (Option-cases (mm.mmap sizeof_block w).0) [
        | inl h ↦ ground (arith, h)
        | inr (b, h) ↦ elim (Option-cases (mm.mmap pool.block_size (mm.mmap sizeof_block w).1).0) [
          | inl k ↦ ground (arith, h, k)
          | inr (v, k) ↦
              create_blocks-Built n (suc made) total
                (mm.mmap pool.block_size (mm.mmap sizeof_block w).1).1 w' _ q (omega arith)
                (Built-insert w made pool.block_size v b pool i h) (ground (arith, h, k))
        ]
      ]

  Built-s_pool : (w : mm.World) (m n : ℕ) → Built w 0 (s_pool sl sp m n)
  Built-s_pool w m n = record {
    free_length = rw sl.to_list-init refl;
    none_allocated = sl.to_list-init;
    distinct = λ a. rw sl.to_list-init (omega arith);
    is_mapped = λ a u. rw sl.to_list-init refl;
    has_space = λ a u. rw sl.to_list-init refl;
    is_open = sp.held-initializer;
  }

  create-Built :
      (block_size block_count : ℕ) (w w' : mm.World) (pool : MemPoolShared sl sp)
      → mem_create_shared_pool sl sp mm block_size block_count w ≡ (some pool, w')
      → Built w' block_count pool
  unfolding mem_create_shared_pool default_mem_alloc_shared
  create-Built m n w w' pool e = ground (
    arith,
    create_blocks-Built n 0 n (mm.mmap sizeof_pool w).1 w' (s_pool sl sp m n) pool (omega arith)
        (Built-s_pool (mm.mmap sizeof_pool w).1 m n),
  )

  pub create-all_free :
      (block_size block_count : ℕ) (w w' : mm.World) (pool : MemPoolShared sl sp)
      → mem_create_shared_pool sl sp mm block_size block_count w ≡ (some pool, w')
      → (length (sl.to_list pool.free_list) ≡ block_count)
        × (sl.to_list pool.allocated_list ≡ [])
        × Distinct sl sp pool
        × (sp.held pool.lock ≡ false)
  create-all_free m n w w' pool e =
      let b = create-Built m n w w' pool e in
      (
        b.free_length,
        b.none_allocated,
        λ a. rw b.none_allocated (omega (arith, b.distinct a)),
        b.is_open,
      )

  -- A pool that mem_create_shared_pool returns has exactly `block_count` blocks, all free, no two
  -- of them the same, and its lock is open. Each of them has a mapping of `block_size` bytes of its
  -- own as its space: no two blocks have the same.
  pub create-ready :
      (sizes : Sizes mm) (block_size block_count : ℕ) (w w' : mm.World) (pool : MemPoolShared sl sp)
      → mem_create_shared_pool sl sp mm block_size block_count w ≡ (some pool, w')
      → (length (sl.to_list pool.free_list) ≡ block_count)
        × (sl.to_list pool.allocated_list ≡ [])
        × Distinct sl sp pool
        × (sp.held pool.lock ≡ false)
        × ((a : ℕ)
            → count a (sl.to_list pool.free_list) ≢ 0
            → (v : ℕ) × (pool.ptr a ≡ some v)
              × (mm.mapped w' v ≡ true)
              × (sizes.size w' v ≡ block_size))
        × ((a b v : ℕ) → pool.ptr a ≡ some v → pool.ptr b ≡ some v → a ≡ b)
  create-ready sizes m n w w' pool e =
      let b = create-Built m n w w' pool e in
      let (free, taken, distinct, is_open) = create-all_free m n w w' pool e in
      let own = create-Own sl sp mm sizes m n w w' pool e in
      (
        free,
        taken,
        distinct,
        is_open,
        λ a there. elim (Option-cases (pool.ptr a)) [
          | inl h ↦ absurd (there (b.has_space a h))
          | inr (v, h) ↦ (v, h, own.is_mapped a v h, own.is_whole a v h)
        ],
        own.apart,
      )

  -- The system never refuses a mapping that is not empty.
  abbrev pub NeverRefuses : Type 0
  NeverRefuses = (n : ℕ) (w : mm.World) → 0 < n → (mm.mmap n w).0 ≢ none

  create_blocks-some :
      NeverRefuses
      → (n : ℕ) (w : mm.World) (pool : MemPoolShared sl sp) → 0 < pool.block_size
      → (create_blocks sl sp mm n pool w).0 ≢ none
  unfolding create_blocks default_mem_alloc_shared
  create_blocks-some never zero w pool z = ground arith
  create_blocks-some never (suc n) w pool z = elim (Option-cases (mm.mmap sizeof_block w).0) [
    | inl h ↦ absurd (never sizeof_block w (omega arith) h)
    | inr (b, h) ↦ elim (Option-cases (mm.mmap pool.block_size (mm.mmap sizeof_block w).1).0) [
      | inl k ↦ absurd (never pool.block_size _ z k)
      | inr (v, k) ↦ ground (
        arith,
        h,
        k,
        create_blocks-some never n (mm.mmap pool.block_size (mm.mmap sizeof_block w).1).1
            (record pool {
              ptr = write_ptr pool.ptr b v;
              free_list = sl.insert_head b pool.free_list;
            })
            z,
      )
    ]
  ]

  -- Where the system refuses no mapping, mem_create_shared_pool returns a pool exactly when neither
  -- the block size nor the block count is zero.
  create-some :
      NeverRefuses
      → (block_size block_count : ℕ) (w : mm.World)
      → ((mem_create_shared_pool sl sp mm block_size block_count w).0 ≢ none)
        ↔ ((0 < block_size) × (0 < block_count))
  unfolding mem_create_shared_pool default_mem_alloc_shared
  create-some never m n w = (
    λ h. ground arith,
    λ p. elim (Option-cases (mm.mmap sizeof_pool w).0) [
      | inl h ↦ absurd (never sizeof_pool w (omega arith) h)
      | inr (b, h) ↦
          ground
            (arith, h, create_blocks-some never n (mm.mmap sizeof_pool w).1 (s_pool sl sp m n) p.0)
    ],
  )
