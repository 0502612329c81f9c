-- ===== src/Memory/Alloc.antt =====
-- The allocation functions of src/memory/memory.c and the allocator structure of memory.h, over the
-- system's malloc, free, mmap, munmap and memset. `none` is NULL, or MAP_FAILED where mmap gives it.
pub mod Laws
use nextgen.Base.{ℕ, ◌+◌, ◌≤◌, ◌<◌, ◌≡◌, Bool, true, false, Option, none, some, ◌==◌, if◌then◌else◌}

-- `live w a`: a region begins at `a`. `byte w i`: the byte at address `i`.
pub record Heap : Type 1 where
  pub World : Type 0
  pub malloc : ℕ → World → Option ℕ × World
  pub free : ℕ → World → World
  pub mmap : ℕ → World → Option ℕ × World
  pub munmap : ℕ → ℕ → World → World
  pub memset : ℕ → ℕ → ℕ → World → World
  pub live : World → ℕ → Bool
  pub byte : World → ℕ → ℕ
  pub malloc_fresh : (n a : ℕ) (w : World) → (malloc n w).0 ≡ some a → live w a ≡ false
  pub live-malloc :
      (n a b : ℕ) (w : World)
      → (malloc n w).0 ≡ some a
      → live (malloc n w).1 b ≡ (if a == b then true else live w b)
  pub live-malloc_none :
      (n b : ℕ) (w : World) → (malloc n w).0 ≡ none → live (malloc n w).1 b ≡ live w b
  pub mmap_fresh : (n a : ℕ) (w : World) → (mmap n w).0 ≡ some a → live w a ≡ false
  pub live-mmap :
      (n a b : ℕ) (w : World)
      → (mmap n w).0 ≡ some a
      → live (mmap n w).1 b ≡ (if a == b then true else live w b)
  pub live-mmap_none : (n b : ℕ) (w : World) → (mmap n w).0 ≡ none → live (mmap n w).1 b ≡ live w b
  pub live-free : (a b : ℕ) (w : World) → live (free a w) b ≡ (if a == b then false else live w b)
  pub live-munmap :
      (a n b : ℕ) (w : World) → live (munmap a n w) b ≡ (if a == b then false else live w b)
  pub live-memset : (a v n b : ℕ) (w : World) → live (memset a v n w) b ≡ live w b
  pub byte-memset : (a v n i : ℕ) (w : World) → a ≤ i → i < a + n → byte (memset a v n w) i ≡ v

module _ (h : Heap) where
  open h use {World, malloc, free, mmap, munmap, memset}

  unfoldable pub default_mem_alloc : ℕ → World → Option ℕ × World
  default_mem_alloc nbytes w = if nbytes == 0 then (none, w) else malloc nbytes w

  unfoldable pub default_mem_alloc_shared : ℕ → World → Option ℕ × World
  default_mem_alloc_shared nbytes w = mmap nbytes w

  unfoldable pub mem_alloc : ℕ → World → Option ℕ × World
  mem_alloc nbytes w = if nbytes == 0 then (none, w) else malloc nbytes w

  -- memset returns its first argument, which is not NULL here, so the check of its result passes.
  unfoldable pub mem_calloc : ℕ → World → Option ℕ × World
  unfolding mem_alloc
  mem_calloc nbytes w =
      if nbytes == 0
      then (none, w)
      else let (ptr, w₁) = mem_alloc nbytes w in
        elim ptr [ none ↦ (none, w₁) | some a ↦ (some a, memset a 0 nbytes w₁) ]

  unfoldable pub mem_alloc_shared : ℕ → World → Option ℕ × World
  mem_alloc_shared nbytes w = mmap nbytes w

  unfoldable pub mem_calloc_shared : ℕ → World → Option ℕ × World
  mem_calloc_shared nbytes w =
      if nbytes == 0
      then (none, w)
      else let (pointer, w₁) = mmap nbytes w in
        elim pointer [ none ↦ (none, w₁) | some a ↦ (some a, memset a 0 nbytes w₁) ]

  -- The functions that free take the address of a pointer: the result holds its new value.
  pub mem_free : Option ℕ → World → Option ℕ × World
  mem_free none w = (none, w)
  mem_free (some a) w = (none, free a w)

  pub mem_free_shared : Option ℕ → ℕ → World → Option ℕ × World
  mem_free_shared none nbytes w = (none, w)
  mem_free_shared (some a) nbytes w = (none, munmap a nbytes w)

  unfoldable pub default_mem_free : Option ℕ → World → Option ℕ × World
  default_mem_free none w = (none, w)
  default_mem_free (some a) w = (none, free a w)

  unfoldable pub default_mem_free_shared : Option ℕ → ℕ → World → Option ℕ × World
  default_mem_free_shared none nbytes w = (none, w)
  default_mem_free_shared (some a) nbytes w = (none, munmap a nbytes w)

-- `struct memory_allocator`, over the state that its functions change.
pub record MemoryAllocator (World : Type 0) : Type 0 where
  pub alloc : ℕ → World → Option ℕ × World
  pub shared : ℕ → World → Option ℕ × World
  pub free : Option ℕ → World → Option ℕ × World
  pub free_shared : Option ℕ → ℕ → World → Option ℕ × World

abbrev pub sizeof_allocator : ℕ
sizeof_allocator = 32

-- The structure itself is allocated too; `none` is NULL.
unfoldable pub get_default_allocator :
    (h : Heap) → h.World → Option (MemoryAllocator h.World) × h.World
unfolding default_mem_alloc
get_default_allocator h w =
    let (place, w₁) = default_mem_alloc h sizeof_allocator w in
    elim place [
      | none ↦ (none, w₁)
      | some _ ↦ (
        some (record {
          alloc = default_mem_alloc h;
          shared = default_mem_alloc_shared h;
          free = default_mem_free h;
          free_shared = default_mem_free_shared h;
        }),
        w₁,
      )
    ]
