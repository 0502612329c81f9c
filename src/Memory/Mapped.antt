-- ===== src/Memory/Mapped.antt =====
-- The mmap that the shared pools of src/memory/memory.c are made with, as a part of the memory that
-- its allocators use.
use nextgen.Base.{ℕ, ◌≡◌, true, some, arith, Option-cases, inl, inr}
use nextgen.Memory.External.{Mmap}
use nextgen.Memory.Alloc.{Heap}

pub live_kept :
    (h : Heap) (n a : ℕ) (w : h.World) → h.live w a ≡ true → h.live (h.mmap n w).1 a ≡ true
live_kept h n a w e = elim (Option-cases (h.mmap n w).0) [
  | inl refused ↦ ground (arith, h.live-mmap_none n a w refused)
  | inr (b, given) ↦ ground (arith, h.live-mmap n b a w given)
]

pub live_given :
    (h : Heap) (n a : ℕ) (w : h.World) → (h.mmap n w).0 ≡ some a → h.live (h.mmap n w).1 a ≡ true
live_given h n a w e = ground (arith, h.live-mmap n a a w e)

abbrev pub heap_mmap : Heap → Mmap
heap_mmap h = record {
  World = h.World;
  mmap = h.mmap;
  mapped = h.live;
  mmap_fresh = h.mmap_fresh;
  mmap_maps = live_given h;
  mmap_keeps = live_kept h;
}
