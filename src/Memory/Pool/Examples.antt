-- ===== src/Memory/Pool/Examples.antt =====
-- The theorems about the pool of src/memory/memory.c at concrete pools.
use nextgen.Base.{
  ℕ, zero, suc, ◌+◌, ◌≡◌, refl, false, none, some, [], ◌∷◌, arith, done, map_outcome, count, length,
  if◌then◌else◌, ◌==◌, ltb, ◌≢◌, true, Option,
}
use nextgen.Memory.Instances.{list_slist, flag_lock, counter_mmap}
use nextgen.Memory.Pool.{
  MemPoolShared, mem_create_shared_pool, mem_get_shared_block, free_block, create_blocks, get_round,
  default_mem_alloc_shared, write_ptr,
}
use nextgen.Memory.Pool.View.{view, get_view, free_view, get-refines, free-refines}
use nextgen.Memory.External.{Mmap}
use nextgen.Memory.Pool.Space.{Sizes}
use nextgen.Memory.Pool.Create.{create-ready, NeverRefuses}
use nextgen.Memory.Pool.Exclusive.{frees, step, run, owned, Distinct, owned-run, run-get-exclusive}

-- Three blocks, 10, 11 and 12, of which 12 is handed out.
abbrev three : MemPoolShared list_slist flag_lock
three = record {
  lock = false;
  block_size = 8;
  block_count = 3;
  free_list = 10 ∷ 11 ∷ [];
  allocated_list = 12 ∷ [];
  ptr = λ a. some (a + 90);
}

abbrev three_got : MemPoolShared list_slist flag_lock
three_got = record three { free_list = 11 ∷ []; allocated_list = 10 ∷ 12 ∷ [] }

abbrev three_freed : MemPoolShared list_slist flag_lock
three_freed = record three { free_list = 12 ∷ 10 ∷ 11 ∷ []; allocated_list = [] }

three_get : mem_get_shared_block list_slist flag_lock 1 three ≡ done (10, three_got)
unfolding mem_get_shared_block get_round
three_get = refl

three_free : free_block list_slist flag_lock 12 three ≡ done three_freed
unfolding free_block
three_free = refl

Distinct-three : Distinct list_slist flag_lock three
Distinct-three a = ground arith

get-refines_example :
    map_outcome
      (λ r. (r.0, view list_slist flag_lock r.1))
      (mem_get_shared_block list_slist flag_lock (0 + 1) three)
    ≡ get_view (view list_slist flag_lock three)
get-refines_example = get-refines list_slist flag_lock 0 three

free-refines_example :
    map_outcome (view list_slist flag_lock) (free_block list_slist flag_lock 99 three)
    ≡ free_view 99 (view list_slist flag_lock three)
free-refines_example = free-refines list_slist flag_lock 99 three

owned-run_example :
    owned 12 (view list_slist flag_lock three_freed) ≡ owned 12 (view list_slist flag_lock three)
unfolding run step free_block
owned-run_example = owned-run list_slist flag_lock (frees 12 ∷ []) three three_freed 12 refl

run-get-exclusive_example : (count 10 (12 ∷ []) ≡ 0) × (count 10 (10 ∷ 12 ∷ []) ≡ 1)
unfolding run
run-get-exclusive_example =
    run-get-exclusive list_slist flag_lock [] three three three_got 0 10 Distinct-three refl
      three_get

-- Regions are numbered, and the length of each is written down.
record Regions : Type 0 where
  next : ℕ
  size : ℕ → ℕ

abbrev map_region : ℕ → Regions → Option ℕ × Regions
map_region zero w = (none, w)
map_region (suc n) w =
    (some w.next, record { next = suc w.next; size = λ a. if w.next == a then suc n else w.size a })

map_region-fresh : (n a : ℕ) (w : Regions) → (map_region n w).0 ≡ some a → ltb a w.next ≡ false
map_region-fresh zero a w e = cc
map_region-fresh (suc n) a w e = ground arith

map_region-maps :
    (n a : ℕ) (w : Regions) → (map_region n w).0 ≡ some a → ltb a (map_region n w).1.next ≡ true
map_region-maps zero a w e = cc
map_region-maps (suc n) a w e = ground arith

map_region-keeps :
    (n a : ℕ) (w : Regions) → ltb a w.next ≡ true → ltb a (map_region n w).1.next ≡ true
map_region-keeps zero a w e = e
map_region-keeps (suc n) a w e = ground arith

map_region-given :
    (n a : ℕ) (w : Regions) → (map_region n w).0 ≡ some a → (map_region n w).1.size a ≡ n
map_region-given zero a w e = cc
map_region-given (suc n) a w e = ground arith

map_region-kept :
    (n a : ℕ) (w : Regions) → ltb a w.next ≡ true → (map_region n w).1.size a ≡ w.size a
map_region-kept zero a w e = refl
map_region-kept (suc n) a w e = ground arith

abbrev region_mmap : Mmap
region_mmap = record {
  World = Regions;
  mmap = map_region;
  mapped = λ w a. ltb a w.next;
  mmap_fresh = map_region-fresh;
  mmap_maps = map_region-maps;
  mmap_keeps = map_region-keeps;
}

abbrev region_sizes : Sizes region_mmap
region_sizes = record {
  size = λ w a. w.size a;
  size_given = map_region-given;
  size_kept = map_region-kept;
}

abbrev no_regions : Regions
no_regions = record { next = 100; size = λ a. 0 }

abbrev two_pool : Option (MemPoolShared list_slist flag_lock) × Regions
two_pool = mem_create_shared_pool list_slist flag_lock region_mmap 8 2 no_regions

abbrev two_made : MemPoolShared list_slist flag_lock
two_made = record {
  lock = false;
  block_size = 8;
  block_count = 2;
  free_list = 103 ∷ 101 ∷ [];
  allocated_list = [];
  ptr = write_ptr (write_ptr (λ b. none) 101 102) 103 104;
}

create-ready_example :
    (length (list_slist.to_list two_made.free_list) ≡ 2)
    × (list_slist.to_list two_made.allocated_list ≡ [])
    × Distinct list_slist flag_lock two_made
    × (flag_lock.held two_made.lock ≡ false)
    × ((a : ℕ)
        → count a (list_slist.to_list two_made.free_list) ≢ 0
        → (v : ℕ) × (two_made.ptr a ≡ some v)
          × (region_mmap.mapped two_pool.1 v ≡ true)
          × (region_sizes.size two_pool.1 v ≡ 8))
    × ((a b v : ℕ) → two_made.ptr a ≡ some v → two_made.ptr b ≡ some v → a ≡ b)
unfolding mem_create_shared_pool create_blocks default_mem_alloc_shared
create-ready_example =
    create-ready list_slist flag_lock region_mmap region_sizes 8 2 no_regions two_pool.1 two_made
      refl

never_refuses : NeverRefuses list_slist flag_lock counter_mmap
never_refuses zero w h = elim h [ ]
never_refuses (suc n) w h = λ e. cc
