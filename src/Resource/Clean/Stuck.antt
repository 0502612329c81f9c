-- ===== src/Resource/Clean/Stuck.antt =====
-- What the cleanup of src/resource/resource.c leaves behind when a file is still handed out.
use nextgen.Base.{
  ℕ, zero, suc, ◌≡◌, ◌≢◌, refl, ap, ◌∙◌, ◌⊎◌, Bool-cases, true, Option, none, some, List, [], ◌∷◌,
  arith, done, blocked, Status, success, failure, Outcome-cases, Option-cases, List-cases, inl, inr,
}
use nextgen.Memory.External.{Slist, Spinlock}
use nextgen.Memory.Pool.{MemPoolShared, mem_get_shared_block, get_round, sizeof_block}
use nextgen.Memory.Alloc.{
  Heap, MemoryAllocator, get_default_allocator, default_mem_alloc, sizeof_allocator,
  default_mem_free_shared,
}
use nextgen.Resource.Cached.{ResourcePool, PathPool, get_cached, get_filepath_cached}
use nextgen.Resource.Clean.{
  Files, path_size, sizeof_resource, clean_block, clean_loop, clean_allocated_file_list,
  clean_locked, clean_file_pool,
}

Status-cases : (s : Status) → (s ≡ success) ⊎ (s ≡ failure)
Status-cases success = inl refl
Status-cases failure = inr refl

-- A lock that has been taken is held.
lock-held : (sp : Spinlock) (k l : sp.Lock) → sp.lock k ≡ some l → sp.held l ≡ true
lock-held sp k l e = elim (Bool-cases (sp.held k)) [
  | inl c ↦ ground (arith, sp.lock_held k c)
  | inr c ↦ ground (arith, sp.lock_free k c)
]

get-held :
    (sl : Slist) (sp : Spinlock) (n : ℕ) (pool : MemPoolShared sl sp)
    → sp.held pool.lock ≡ true
    → mem_get_shared_block sl sp n pool ≡ blocked
unfolding mem_get_shared_block get_round
get-held sl sp zero pool k = refl
get-held sl sp (suc n) pool k = ground (arith, sp.lock_held pool.lock k)

module _ (sl : Slist) (sp : Spinlock) (h : Heap) (f : Files h) where
  -- The default allocator leaves NULL in a pointer that it frees.
  abbrev Nulls : MemoryAllocator h.World → Type 0
  Nulls a = (m : Option ℕ) (n : ℕ) (w : h.World) → (a.free_shared m n w).0 ≡ none

  default-Nulls :
      (w v : h.World) (a : MemoryAllocator h.World)
      → get_default_allocator h w ≡ (some a, v)
      → Nulls a
  unfolding get_default_allocator default_mem_free_shared
  default-Nulls w v a e m n u =
      let null : (default_mem_free_shared h m n u).0 ≡ none = elim (Option-cases m) [
        | inl c ↦ rw c refl
        | inr (_, c) ↦ rw c refl
      ] in
      elim (Option-cases (default_mem_alloc h sizeof_allocator w).0) [
        | inl o ↦ ground (arith, o)
        | inr (x, o) ↦
            let same : a.free_shared ≡ default_mem_free_shared h = ground (arith, o) in
            ap (λ g. (g m n u).0) same ∙ null
      ]

  clean_block-null :
      (p : ResourcePool sl sp (List ℕ)) (a : MemoryAllocator h.World) (b : ℕ) (m : Option ℕ)
      (w v : h.World)
      → Nulls a
      → clean_block sl sp h f a p b w ≡ done (some m, v)
      → m ≡ none
  unfolding clean_block
  clean_block-null p a b m w v s e = elim (Option-cases (p.pool.ptr b)) [
    | inl n ↦ ground (arith, n)
    | inr (r, n) ↦ elim (Status-cases (f.unlink (p.content b) w).0) [
      | inl u ↦
          let w₁ = (f.unlink (p.content b) w).1 in
          let w₂ = (a.free_shared (f.path_place b) path_size w₁).1 in
          let w₃ = (a.free_shared (some r) sizeof_resource w₂).1 in
          ground (arith, n, u, s (some b) sizeof_block w₃)
      | inr u ↦ ground (arith, n, u)
    ]
  ]

  clean_loop-stuck :
      (p : ResourcePool sl sp (List ℕ)) (a : MemoryAllocator h.World) (b : ℕ) (bs : List ℕ)
      (w v : h.World)
      → Nulls a
      → clean_loop sl sp h f a p (b ∷ bs) w ≢ done (success, v)
  unfolding clean_loop
  clean_loop-stuck p a b bs w v s e = elim (Outcome-cases (clean_block sl sp h f a p b w)) [
    | inl ((none, r), n) ↦ ground (arith, n)
    | inl ((some m, r), n) ↦ ground (arith, n, clean_block-null p a b m w r s n)
    | inr n ↦ ground (arith, n)
  ]

  clean_list-stuck :
      (p : ResourcePool sl sp (List ℕ)) (b : ℕ) (bs : List ℕ) (w v : h.World)
      → sl.to_list p.pool.allocated_list ≡ b ∷ bs
      → clean_allocated_file_list sl sp h f p w ≢ done (success, v)
  unfolding clean_allocated_file_list
  clean_list-stuck p b bs w v n e = elim (Option-cases (get_default_allocator h w).0) [
    | inl o ↦ ground (arith, o)
    | inr (a, o) ↦
        let w₁ = (get_default_allocator h w).1 in
        ground (arith, o, n, clean_loop-stuck p a b bs w₁ v (default-Nulls w w₁ a (rw (← o) refl)))
  ]

  -- If clean_file_pool returns 0, no file was handed out; so cleanup_resource_module never cleans a
  -- pool of which one is.
  clean_file_pool-empty :
      (p : ResourcePool sl sp (List ℕ)) (q : PathPool sl sp) (w v : h.World)
      → clean_file_pool sl sp h f (some p) w ≡ done (success, q, v)
      → sl.to_list p.pool.allocated_list ≡ []
  unfolding clean_file_pool clean_locked
  clean_file_pool-empty p q w v e = elim (List-cases (sl.to_list p.pool.allocated_list)) [
    | inl n ↦ n
    | inr (b, bs, n) ↦ elim (Option-cases (sp.lock p.pool.lock)) [
      | inl k ↦ ground (arith, k)
      | inr (l, k) ↦
          let locked = record p { pool = record p.pool { lock = l } } in
          elim (Outcome-cases (clean_allocated_file_list sl sp h f locked w)) [
            | inl ((s, u), c) ↦
                ground (arith, k, c, n, sl.first-cons _ b bs n, clean_list-stuck locked b bs w u n)
            | inr c ↦ ground (arith, k, c, n, sl.first-cons _ b bs n)
          ]
    ]
  ]

  -- If clean_file_pool returns -1 on a pool, the pool is left locked: each later call of
  -- get_filepath_cached spins, whatever the number of rounds it is given.
  clean_file_pool-locked :
      (p : ResourcePool sl sp (List ℕ)) (q : PathPool sl sp) (w v : h.World) (n : ℕ)
      → clean_file_pool sl sp h f (some p) w ≡ done (failure, q, v)
      → get_filepath_cached sl sp n q ≡ blocked
  unfolding clean_file_pool clean_locked get_filepath_cached get_cached
  clean_file_pool-locked p q w v n e = elim (Option-cases (sp.lock p.pool.lock)) [
    | inl k ↦ ground (arith, k)
    | inr (l, k) ↦
        let locked = record p { pool = record p.pool { lock = l } } in
        let spins = get-held sl sp n locked.pool (lock-held sp p.pool.lock l k) in
        elim (Option-cases (sl.first p.pool.allocated_list)) [
          | inl o ↦ ground (arith, k, o)
          | inr (b, o) ↦ elim (Outcome-cases (clean_allocated_file_list sl sp h f locked w)) [
            | inl ((s, u), c) ↦ ground (arith, k, o, c, spins)
            | inr c ↦ ground (arith, k, o, c)
          ]
        ]
  ]
