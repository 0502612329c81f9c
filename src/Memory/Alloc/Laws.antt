-- ===== src/Memory/Alloc/Laws.antt =====
-- What the allocation functions of src/memory/memory.c leave behind, leak or write.
use nextgen.Base.{
  ℕ, ◌+◌, ◌≤◌, ◌<◌, ◌≡◌, refl, false, Option, none, some, arith, Option-cases, inl, inr,
}
use nextgen.Memory.Alloc.{
  Heap, mem_alloc, mem_calloc, mem_alloc_shared, mem_calloc_shared, mem_free, mem_free_shared,
}

module _ (h : Heap) where
  open h use {World, live, byte}

  -- mem_alloc followed by mem_free on the pointer that it gave, NULL or not, leaves exactly the
  -- regions live that were live before, and the pointer is NULL.
  alloc-free :
      (nbytes b : ℕ) (w : World)
      → let r = mem_alloc h nbytes w in
        let s = mem_free h r.0 r.1 in (s.0 ≡ none) × (live s.1 b ≡ live w b)
  unfolding mem_alloc mem_free
  alloc-free n b w = elim (Option-cases (h.malloc n w).0) [
    | inl e ↦ ground (arith, e, h.live-malloc_none n b w e)
    | inr (a, e) ↦ ground (
      arith,
      e,
      h.live-malloc n a b w e,
      h.malloc_fresh n a w e,
      h.live-free a b (h.malloc n w).1,
    )
  ]

  -- The same for shared memory.
  alloc_shared-free_shared :
      (nbytes b : ℕ) (w : World)
      → let r = mem_alloc_shared h nbytes w in
        let s = mem_free_shared h r.0 nbytes r.1 in (s.0 ≡ none) × (live s.1 b ≡ live w b)
  unfolding mem_alloc_shared mem_free_shared
  alloc_shared-free_shared n b w = elim (Option-cases (h.mmap n w).0) [
    | inl e ↦ ground (arith, e, h.live-mmap_none n b w e)
    | inr (a, e) ↦
        ground (
          arith,
          e,
          h.live-mmap n a b w e,
          h.mmap_fresh n a w e,
          h.live-munmap a n b (h.mmap n w).1,
        )
  ]

  -- Freeing twice through one pointer is freeing once.
  mem_free-mem_free : (p : Option ℕ) (w : World) → let r = mem_free h p w in mem_free h r.0 r.1 ≡ r
  unfolding mem_free
  mem_free-mem_free none w = refl
  mem_free-mem_free (some a) w = refl

  -- What mem_calloc gives is not empty, was not live before and is zero in every byte.
  calloc-zero :
      (nbytes a i : ℕ) (w : World)
      → (mem_calloc h nbytes w).0 ≡ some a
      → a ≤ i
      → i < a + nbytes
      → (0 < nbytes) × (live w a ≡ false) × (byte (mem_calloc h nbytes w).1 i ≡ 0)
  unfolding mem_calloc mem_alloc
  calloc-zero n a i w r lo hi = elim (Option-cases (h.malloc n w).0) [
    | inl e ↦ ground (arith, e)
    | inr (b, e) ↦ ground (arith, e, h.malloc_fresh n b w e, h.byte-memset b 0 n i (h.malloc n w).1)
  ]

  -- The same of mem_calloc_shared.
  calloc_shared-zero :
      (nbytes a i : ℕ) (w : World)
      → (mem_calloc_shared h nbytes w).0 ≡ some a
      → a ≤ i
      → i < a + nbytes
      → (0 < nbytes) × (live w a ≡ false) × (byte (mem_calloc_shared h nbytes w).1 i ≡ 0)
  unfolding mem_calloc_shared
  calloc_shared-zero n a i w r lo hi = elim (Option-cases (h.mmap n w).0) [
    | inl e ↦ ground (arith, e)
    | inr (b, e) ↦ ground (arith, e, h.mmap_fresh n b w e, h.byte-memset b 0 n i (h.mmap n w).1)
  ]
