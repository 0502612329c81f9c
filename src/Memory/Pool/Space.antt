-- ===== src/Memory/Pool/Space.antt =====
-- The space that mem_create_shared_pool of src/memory/memory.c maps for each block.
use nextgen.Base.{
  ℕ, zero, suc, ◌≡◌, ap, sym, ◌∙◌, true, some, arith, inl, inr, Option-cases, Bool-cases, ◌==◌,
}
use nextgen.Memory.External.{Slist, Spinlock, Mmap}
use nextgen.Memory.Pool.{
  MemPoolShared, default_mem_alloc_shared, create_blocks, mem_create_shared_pool, sizeof_block,
  sizeof_pool, write_ptr, s_pool,
}

-- The length of a mapping, as mmap(2) makes it: that asked for, and no later call changes it.
pub record Sizes (mm : Mmap) : Type 0 where
  pub size : mm.World → ℕ → ℕ
  pub size_given : (n a : ℕ) (w : mm.World) → (mm.mmap n w).0 ≡ some a → size (mm.mmap n w).1 a ≡ n
  pub size_kept :
      (n a : ℕ) (w : mm.World) → mm.mapped w a ≡ true → size (mm.mmap n w).1 a ≡ size w a

module _ (sl : Slist) (sp : Spinlock) (mm : Mmap) (sizes : Sizes mm) where
  -- Every block that is set up has a mapping of n bytes as its space, and no two have the same.
  pub record Own (n : ℕ) (w : mm.World) (pool : MemPoolShared sl sp) : Type 0 where
    pub sized : pool.block_size ≡ n
    pub is_mapped : (a v : ℕ) → pool.ptr a ≡ some v → mm.mapped w v ≡ true
    pub is_whole : (a v : ℕ) → pool.ptr a ≡ some v → sizes.size w v ≡ n
    pub apart : (a b v : ℕ) → pool.ptr a ≡ some v → pool.ptr b ≡ some v → a ≡ b

  Own-insert :
      (n b v : ℕ) (w : mm.World) (pool : MemPoolShared sl sp)
      → Own n w pool
      → (mm.mmap n (mm.mmap sizeof_block w).1).0 ≡ some v
      → Own n (mm.mmap n (mm.mmap sizeof_block w).1).1 (record pool {
        ptr = write_ptr pool.ptr b v;
        free_list = sl.insert_head b pool.free_list;
      })
  Own-insert n b v w pool i e =
      let w₁ = (mm.mmap sizeof_block w).1 in
      let fresh = mm.mmap_fresh n v w₁ e in
      let kept =
        λ (a u : ℕ) (h : pool.ptr a ≡ some u). mm.mmap_keeps sizeof_block u w (i.is_mapped a u h) in
      record {
        sized = i.sized;
        is_mapped = λ a u h. elim (Bool-cases (b == a)) [
          | inl s ↦ ground (arith, s, mm.mmap_maps n v w₁ e)
          | inr s ↦
              let was : pool.ptr a ≡ some u = ground (arith, s) in
              mm.mmap_keeps n u w₁ (kept a u was)
        ];
        is_whole = λ a u h. elim (Bool-cases (b == a)) [
          | inl s ↦ ground (arith, s, sizes.size_given n v w₁ e)
          | inr s ↦
              let was : pool.ptr a ≡ some u = ground (arith, s) in
              sizes.size_kept n u w₁ (kept a u was)
              ∙ sizes.size_kept sizeof_block u w (i.is_mapped a u was)
              ∙ i.is_whole a u was
        ];
        apart = λ a c u h k. elim (Bool-cases (b == a)) [
          | inl s ↦ elim (Bool-cases (b == c)) [
            | inl t ↦ ground (arith, s, t)
            | inr t ↦
                let was : pool.ptr c ≡ some u = ground (arith, t) in
                ground (arith, s, fresh, kept c u was)
          ]
          | inr s ↦ elim (Bool-cases (b == c)) [
            | inl t ↦
                let was : pool.ptr a ≡ some u = ground (arith, s) in
                ground (arith, t, fresh, kept a u was)
            | inr t ↦ i.apart a c u (ground (arith, s)) (ground (arith, t))
          ]
        ];
      }

  create_blocks-Own :
      (n size : ℕ) (w w' : mm.World) (pool q : MemPoolShared sl sp)
      → Own size w pool
      → create_blocks sl sp mm n pool w ≡ (some q, w')
      → Own size w' q
  unfolding create_blocks default_mem_alloc_shared
  create_blocks-Own zero size w w' pool q i e =
      let same : pool ≡ q = cc (ap (λ r. r.0) e) in rw (← same, ← ap (λ r. r.1) e) i
  create_blocks-Own (suc n) size w w' pool q i e = elim (Option-cases (mm.mmap sizeof_block w).0) [
    | inl h ↦ ground (arith, h)
    | inr (b, h) ↦ elim (Option-cases (mm.mmap pool.block_size (mm.mmap sizeof_block w).1).0) [
      | inl k ↦ ground (arith, h, k)
      | inr (v, k) ↦
          let k' = ap (λ (s : ℕ). (mm.mmap s (mm.mmap sizeof_block w).1).0) (sym i.sized) ∙ k in
          create_blocks-Own n size (mm.mmap size (mm.mmap sizeof_block w).1).1 w' _ q
            (Own-insert size b v w pool i k') (ground (arith, h, k, i.sized))
    ]
  ]

  pub create-Own :
      (block_size block_count : ℕ) (w w' : mm.World) (pool : MemPoolShared sl sp)
      → mem_create_shared_pool sl sp mm block_size block_count w ≡ (some pool, w')
      → Own block_size w' pool
  unfolding mem_create_shared_pool default_mem_alloc_shared
  create-Own m n w w' pool e =
      let empty : Own m (mm.mmap sizeof_pool w).1 (s_pool sl sp m n) = record {
        sized = ground arith;
        is_mapped = λ a v h. ground arith;
        is_whole = λ a v h. ground arith;
        apart = λ a b v h k. ground arith;
      } in
      ground
        (arith, create_blocks-Own n m (mm.mmap sizeof_pool w).1 w' (s_pool sl sp m n) pool empty)
