-- ===== src/Resource/Cached/Laws.antt =====
-- Which block the cached functions of src/resource/resource.c give back.
use nextgen.Base.{
  ℕ, suc, ◌≡◌, refl, ap, ◌∙◌, Bool, true, false, Option, none, some, List, [], ◌∷◌, ◌++◌, arith,
  ◌==◌, All, ==-refl, Outcome-cases, map_outcome, done, ◌>>=◌, inl, inr,
}
use nextgen.Memory.External.{Slist, Spinlock}
use nextgen.Memory.Pool.{mem_get_shared_block, free_block, mem_free_shared_block}
use nextgen.Memory.Pool.View.{PoolView, view}
use nextgen.Memory.Pool.Exclusive.{get-free, get-handed}
use nextgen.Resource.Cached.{
  ResourcePool, PathPool, DescPool, memcmp_prefix, strcmp_eq, find_block, get_cached, free_cached,
  get_filepath_cached, free_filepath_cached, get_dirpath_cached, free_dirpath_cached,
  get_desc_cached, free_desc_cached,
}

memcmp_prefix_refl : (t : List ℕ) → memcmp_prefix t t ≡ true
unfolding memcmp_prefix
memcmp_prefix_refl [] = refl
memcmp_prefix_refl (c ∷ cs) = rw (==-refl c) (memcmp_prefix_refl cs)

memcmp_prefix-append : (s t : List ℕ) → memcmp_prefix (s ++ t) s ≡ true
unfolding memcmp_prefix
memcmp_prefix-append [] [] = refl
memcmp_prefix-append [] (c ∷ t) = refl
memcmp_prefix-append (c ∷ s) t = rw (==-refl c) (memcmp_prefix-append s t)

find_block-none : (p : ℕ → Bool) (bs : List ℕ) → All (λ b. p b ≡ false) bs → find_block p bs ≡ none
unfolding find_block
find_block-none p [] h = refl
find_block-none p (b ∷ bs) h = ground (arith, h.0, find_block-none p bs h.1)

module _ (sl : Slist) (sp : Spinlock) {C : Type 0} where
  -- The two lists and the lock of a resource pool, NULL or not.
  abbrev pub pool_view : Option (ResourcePool sl sp C) → Option PoolView
  pool_view none = none
  pool_view (some p) = some (view sl sp p.pool)

  get-free_cached :
      (test : C → Bool) (n : ℕ) (p : ResourcePool sl sp C) (q : Option (ResourcePool sl sp C))
      (c : C)
      → get_cached sl sp (suc n) (some p) ≡ done (c, q)
      → test c ≡ true
      → map_outcome pool_view (free_cached sl sp test q) ≡ done (pool_view (some p))
  unfolding get_cached free_cached mem_free_shared_block find_block
  get-free_cached test n p q c e t =
      elim (Outcome-cases (mem_get_shared_block sl sp (suc n) p.pool)) [
        | inl ((b, r), h) ↦
            ground (arith, h, get-handed sl sp p.pool r n b h, get-free sl sp p.pool r n b h)
        | inr h ↦ ground (arith, h)
      ]

  -- The test is made on the blocks that are handed out only; where none passes, nothing is freed, the
  -- lock is not taken and the pool is unchanged.
  free_cached-unknown :
      (test : C → Bool) (p : ResourcePool sl sp C)
      → All (λ b. test (p.content b) ≡ false) (sl.to_list p.pool.allocated_list)
      → free_cached sl sp test (some p) ≡ done (some p)
  unfolding free_cached
  free_cached-unknown test p h =
      ground (arith, find_block-none (λ b. test (p.content b)) (sl.to_list p.pool.allocated_list) h)

strcmp_eq_refl : (t : List ℕ) → strcmp_eq t t ≡ true
unfolding strcmp_eq
strcmp_eq_refl [] = refl
strcmp_eq_refl (c ∷ cs) = rw (==-refl c) (strcmp_eq_refl cs)

module _ (sl : Slist) (sp : Spinlock) where
  -- If get_filepath_cached returns a path, free_filepath_cached of that path returns and leaves both
  -- lists and the lock of the pool as they were before.
  pub get_filepath-free_filepath :
      (n : ℕ) (p : ResourcePool sl sp (List ℕ)) (q : PathPool sl sp) (path : List ℕ)
      → get_filepath_cached sl sp (suc n) (some p) ≡ done (path, q)
      → map_outcome (pool_view sl sp) (free_filepath_cached sl sp path q)
        ≡ done (pool_view sl sp (some p))
  unfolding get_filepath_cached free_filepath_cached
  get_filepath-free_filepath n p q path e =
      get-free_cached sl sp (memcmp_prefix path) n p q path e (memcmp_prefix_refl path)

  -- If get_dirpath_cached returns a path, free_dirpath_cached of that path returns and leaves both
  -- lists and the lock of the pool as they were before.
  get_dirpath-free_dirpath :
      (n : ℕ) (p : ResourcePool sl sp (List ℕ)) (q : PathPool sl sp) (path : List ℕ)
      → get_dirpath_cached sl sp (suc n) (some p) ≡ done (path, q)
      → map_outcome (pool_view sl sp) (free_dirpath_cached sl sp path q)
        ≡ done (pool_view sl sp (some p))
  unfolding get_dirpath_cached free_dirpath_cached
  get_dirpath-free_dirpath n p q path e =
      get-free_cached sl sp (strcmp_eq path) n p q path e (strcmp_eq_refl path)

  -- If get_desc_cached returns a descriptor, free_desc_cached of that descriptor returns and leaves
  -- both lists and the lock of the pool as they were before.
  get_desc-free_desc :
      (n : ℕ) (p : ResourcePool sl sp ℕ) (q : DescPool sl sp) (fd : ℕ)
      → get_desc_cached sl sp (suc n) (some p) ≡ done (fd, q)
      → map_outcome (pool_view sl sp) (free_desc_cached sl sp fd q)
        ≡ done (pool_view sl sp (some p))
  unfolding get_desc_cached free_desc_cached
  get_desc-free_desc n p q fd e = get-free_cached sl sp (λ d. fd == d) n p q fd e (==-refl fd)

  -- Where the path of the block handed out last is a prefix of the path to be freed,
  -- free_filepath_cached frees that block, whichever block the path belongs to.
  free_filepath-prefix :
      (p : ResourcePool sl sp (List ℕ)) (s t : List ℕ) (b : ℕ) (bs : List ℕ)
      → sl.to_list p.pool.allocated_list ≡ b ∷ bs
      → p.content b ≡ s
      → free_filepath_cached sl sp (s ++ t) (some p)
        ≡ (free_block sl sp b p.pool >>= λ r. done (some (record p { pool = r })))
  unfolding free_filepath_cached free_cached mem_free_shared_block find_block
  free_filepath-prefix p s t b bs e c =
      let found : memcmp_prefix (s ++ t) (p.content b) ≡ true =
        ap (memcmp_prefix (s ++ t)) c ∙ memcmp_prefix-append s t in
      elim (Outcome-cases (free_block sl sp b p.pool)) [
        | inl (r, h) ↦ ground (arith, e, found, h)
        | inr h ↦ ground (arith, e, found, h)
      ]
