-- ===== src/Resource/Cached/Examples.antt =====
-- The theorems about the cached resources of src/resource/resource.c at concrete pools.
use nextgen.Base.{
  ℕ, ◌+◌, ◌≡◌, refl, false, some, List, [], ◌∷◌, ◌==◌, if◌then◌else◌, done, map_outcome,
}
use nextgen.Memory.Instances.{list_slist, flag_lock}
use nextgen.Memory.Pool.{MemPoolShared, mem_get_shared_block, get_round}
use nextgen.Resource.Cached.{ResourcePool, get_cached, get_filepath_cached, free_filepath_cached}
use nextgen.Resource.Cached.Laws.{pool_view, get_filepath-free_filepath}

-- Blocks 10 and 11 are free, 12 is handed out.
abbrev blocks : MemPoolShared list_slist flag_lock
blocks = record {
  lock = false;
  block_size = 8;
  block_count = 3;
  free_list = 10 ∷ 11 ∷ [];
  allocated_list = 12 ∷ [];
  ptr = λ a. some (a + 90);
}

abbrev blocks_got : MemPoolShared list_slist flag_lock
blocks_got = record blocks { free_list = 11 ∷ []; allocated_list = 10 ∷ 12 ∷ [] }

-- The path of block 12 is "/a", those of the others are "/ab".
abbrev paths : ResourcePool list_slist flag_lock (List ℕ)
paths = record { pool = blocks; content = λ b. if b == 12 then 47 ∷ 97 ∷ [] else 47 ∷ 97 ∷ 98 ∷ [] }

get_filepath-free_filepath_example :
    map_outcome (pool_view list_slist flag_lock) (
      free_filepath_cached list_slist flag_lock
        (47 ∷ 97 ∷ 98 ∷ [])
        (some (record paths { pool = blocks_got })))
    ≡ done (pool_view list_slist flag_lock (some paths))
unfolding get_filepath_cached get_cached mem_get_shared_block get_round
get_filepath-free_filepath_example =
    get_filepath-free_filepath list_slist flag_lock 0 paths
      (some (record paths { pool = blocks_got })) (47 ∷ 97 ∷ 98 ∷ []) refl
