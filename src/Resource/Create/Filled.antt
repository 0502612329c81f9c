-- ===== src/Resource/Create/Filled.antt =====
-- What the functions of src/resource/resource.c that make the pools hand out.
use nextgen.Base.{
  true, none, ℕ, ◌≡◌, refl, ap, sym, false, Option, some, List, [], ◌∷◌, count, length, arith,
  Outcome, done, Outcome-cases, Option-cases, Bool-cases, ◌≢◌, ◌==◌, if◌then◌else◌, subst, inl, inr,
}
use nextgen.Memory.External.{Slist, Spinlock}
use nextgen.Memory.Mapped.{heap_mmap}
use nextgen.Memory.Pool.{MemPoolShared, mem_create_shared_pool, write_ptr}
use nextgen.Memory.Pool.Create.{create-all_free}
use nextgen.Memory.Alloc.{Heap, get_default_allocator, default_mem_alloc, MemoryAllocator}
use nextgen.Resource.Cached.{ResourcePool}
use nextgen.Resource.Create.{
  Makers, Made, fill, create_filled, with_generator, create_file_pool, make_file,
  create_socket_pool, GeneratorFields, get_default_random_generator, sizeof_generator,
  init_resource_ctx, move_path, make_socket,
}
use nextgen.Resource.Clean.{path_size}

module _ (sl : Slist) (sp : Spinlock) (h : Heap) (os : Makers h) {C : Type 0} where
  -- A resource that the body of a loop has made.
  abbrev pub IsMade : (h.World → Made sl sp h os C) → C → Type 0
  IsMade make c = (v : h.World) × (r : ℕ) × (v' : h.World) × (make v ≡ done (some (r, c), v'))

  -- The loop changes no list and no lock. It leaves blocks alone that it does not visit, and each
  -- block that it visits once has a resource that was made.
  record IsFilled (make : h.World → Made sl sp h os C) (bs : List ℕ) (p q : ResourcePool sl sp C)
      : Type 0 where
    same_free : q.pool.free_list ≡ p.pool.free_list
    same_allocated : q.pool.allocated_list ≡ p.pool.allocated_list
    same_lock : q.pool.lock ≡ p.pool.lock
    kept : (a : ℕ) → count a bs ≡ 0 → q.content a ≡ p.content a
    is_made : (a : ℕ) → count a bs ≡ 1 → IsMade make (q.content a)

  -- The pool once a block has its resource.
  abbrev stocked : ResourcePool sl sp C → ℕ → ℕ → C → ResourcePool sl sp C
  stocked p b r c = record {
    pool = record p.pool { ptr = write_ptr p.pool.ptr b r };
    content = λ a. if a == b then c else p.content a;
  }

  cons-IsFilled :
      (make : h.World → Made sl sp h os C) (b r : ℕ) (c : C) (bs : List ℕ)
      (p q : ResourcePool sl sp C) (v v' : h.World)
      → make v ≡ done (some (r, c), v')
      → IsFilled make bs (stocked p b r c) q
      → IsFilled make (b ∷ bs) p q
  cons-IsFilled make b r c bs p q v v' made i = record {
    same_free = i.same_free;
    same_allocated = i.same_allocated;
    same_lock = i.same_lock;
    kept = λ a none_of. ground (arith, i.kept a);
    is_made = λ a one_of. elim (Bool-cases (b == a)) [
      | inl same ↦
          let here : q.content a ≡ c = ground (arith, i.kept a) in
          subst (IsMade make) (sym here) (v, r, v', made)
      | inr other ↦ i.is_made a (ground arith)
    ];
  }

  fill-IsFilled :
      (make : h.World → Made sl sp h os C) (bs : List ℕ) (p q : ResourcePool sl sp C)
      (w w' : h.World)
      → fill sl sp h os make bs p w ≡ done (some q, w')
      → IsFilled make bs p q
  unfolding fill
  fill-IsFilled make [] p q w w' e =
      let same : p ≡ q = cc e in
      record {
        same_free = rw same refl;
        same_allocated = rw same refl;
        same_lock = rw same refl;
        kept = λ a z. rw same refl;
        is_made = λ a z. absurd (omega arith);
      }
  fill-IsFilled make (b ∷ bs) p q w w' e = elim (Outcome-cases (make w)) [
    | inr (inl x) ↦ ground (arith, x)
    | inr (inr x) ↦ ground (arith, x)
    | inl (x, made) ↦ elim (Option-cases x.0) [
      | inl z ↦ ground (arith, made, z)
      | inr (rc, z) ↦
          let there : make w ≡ done (some (rc.0, rc.1), x.1) = ground (arith, made, z) in
          cons-IsFilled make b rc.0 rc.1 bs p q w x.1 there
            (fill-IsFilled make bs (stocked p b rc.0 rc.1) q x.1 w' (ground (arith, there)))
    ]
  ]

  -- A pool that create_filled gives is stocked.
  pub record IsStocked (make : h.World → Made sl sp h os C) (n : ℕ) (p : ResourcePool sl sp C)
      : Type 0 where
    pub blocks : length (sl.to_list p.pool.free_list) ≡ n
    pub none_allocated : sl.to_list p.pool.allocated_list ≡ []
    pub is_open : sp.held p.pool.lock ≡ false
    pub is_made : (a : ℕ) → count a (sl.to_list p.pool.free_list) ≢ 0 → IsMade make (p.content a)

  pub fill-IsStocked :
      (make : h.World → Made sl sp h os C) (size n : ℕ) (c : C) (pool : MemPoolShared sl sp)
      (u v w w' : h.World) (q : ResourcePool sl sp C)
      → mem_create_shared_pool sl sp (heap_mmap h) size n u ≡ (some pool, v)
      → fill sl sp h os make
          (sl.to_list pool.free_list)
          (record { pool = pool; content = λ a. c })
          w
        ≡ done (some q, w')
      → IsStocked make n q
  fill-IsStocked make size n c pool u v w w' q created filled =
      let (len, alloc, dist, held) = create-all_free sl sp (heap_mmap h) size n u v pool created in
      let i =
        fill-IsFilled make (sl.to_list pool.free_list) (record { pool = pool; content = λ a. c }) q
          w w' filled in
      record {
        blocks = rw i.same_free len;
        none_allocated = rw i.same_allocated alloc;
        is_open = rw i.same_lock held;
        is_made = λ a some_of.
            i.is_made a
              (omega (arith, dist a, subst (λ l. count a (sl.to_list l) ≢ 0) i.same_free some_of));
      }

  create_filled-IsStocked :
      (make : h.World → Made sl sp h os C) (size n : ℕ) (c : C) (q : ResourcePool sl sp C)
      (w w' : h.World)
      → create_filled sl sp h os size n c make w ≡ done (some q, w')
      → IsStocked make n q
  unfolding create_filled
  create_filled-IsStocked make size n c q w w' e =
      let r = mem_create_shared_pool sl sp (heap_mmap h) size n w in
      elim (Option-cases r.0) [
        | inl z ↦ ground (arith, z)
        | inr (pool, z) ↦
            let created : mem_create_shared_pool sl sp (heap_mmap h) size n w ≡ (some pool, r.1) =
              ap (λ o. (o, r.1)) z in
            fill-IsStocked make size n c pool w r.1 r.1 w' q created (ground (arith, z))
      ]

  with_generator-runs :
      (create : GeneratorFields → h.World → Outcome (Option (ResourcePool sl sp C) × h.World))
      (q : ResourcePool sl sp C) (w w' : h.World)
      → with_generator sl sp h os create w ≡ done (some q, w')
      → (g : GeneratorFields) × (u : h.World) × (create g u ≡ done (some q, w'))
  unfolding with_generator get_default_random_generator get_default_allocator default_mem_alloc
  with_generator-runs create q w w' e = elim (Bool-cases (os.get_console_writter w).0) [
    | inr no_output ↦ ground (arith, no_output)
    | inl output ↦
        let a = get_default_allocator h (os.get_console_writter w).1 in
        elim (Option-cases a.0) [
          | inl z ↦ ground (arith, output, z)
          | inr (al, z) ↦ elim (Option-cases (al.alloc sizeof_generator a.1).0) [
            | inl y ↦ ground (arith, output, z, y)
            | inr (g, y) ↦ (
              record { range = true; seed = true; bytes = false },
              (al.alloc sizeof_generator a.1).1,
              ground (arith, output, z, y),
            )
          ]
        ]
  ]

module _ (sl : Slist) (sp : Spinlock) (h : Heap) (os : Makers h) where
  make_file-path :
      (path c : List ℕ) (g : GeneratorFields) (r : ℕ) (v v' : h.World)
      → make_file sl sp h os path g v ≡ done (some (r, c), v')
      → (u u' : h.World) × (os.create_random_file g path u ≡ done (some c, u'))
  unfolding make_file move_path
  make_file-path path c g r v v' e =
      let i = init_resource_ctx h path_size v in
      elim (Option-cases i.0) [
        | inl z ↦ ground (arith, z)
        | inr (x, z) ↦ elim (Outcome-cases (os.create_random_file g path i.1)) [
          | inr y ↦ ground (arith, z, y)
          | inl ((none, u), y) ↦ ground (arith, z, y)
          | inl ((some f, u), y) ↦ (i.1, u, ground (arith, z, y))
        ]
      ]

  -- If create_file_pool makes a pool, its lock is open, it has as many free blocks as were asked for
  -- and none that is handed out, and each leads to a path that create_random_file gave.
  create_file_pool-paths :
      (n : ℕ) (path : List ℕ) (q : ResourcePool sl sp (List ℕ)) (w w' : h.World)
      → create_file_pool sl sp h os n path w ≡ done (some q, w')
      → (length (sl.to_list q.pool.free_list) ≡ n)
        × (sl.to_list q.pool.allocated_list ≡ [])
        × (sp.held q.pool.lock ≡ false)
        × ((b : ℕ)
            → count b (sl.to_list q.pool.free_list) ≢ 0
            → (g : GeneratorFields) × (u u' : h.World) × (os.create_random_file g path u
                ≡ done (some (q.content b), u')))
  unfolding create_file_pool
  create_file_pool-paths n path q w w' e =
      let (g, u, made) = with_generator-runs sl sp h os _ q w w' e in
      let s = create_filled-IsStocked sl sp h os (make_file sl sp h os path g) 8 n [] q u w' made in
      (
        s.blocks,
        s.none_allocated,
        s.is_open,
        λ b some_of.
            let (v, r, v', m) = s.is_made b some_of in
            let (u₁, u₂, x) = make_file-path path (q.content b) g r v v' m in (g, u₁, u₂, x),
      )

  make_socket-connected :
      (al : MemoryAllocator h.World) (c r : ℕ) (v v' : h.World)
      → make_socket sl sp h os al v ≡ done (some (r, c), v')
      → (u : h.World) × ((os.connect_ipv6 u).0 ≡ some c)
  unfolding make_socket
  make_socket-connected al c r v v' e =
      let i = init_resource_ctx h 4 v in
      elim (Option-cases i.0) [
        | inl z ↦ ground (arith, z)
        | inr (x, z) ↦ elim (Option-cases (al.alloc 4 i.1).0) [
          | inl y ↦ ground (arith, z, y)
          | inr (s, y) ↦ elim (Option-cases (os.connect_ipv6 (al.alloc 4 i.1).1).0) [
            | inl k ↦ ground (arith, z, y, k)
            | inr (f, k) ↦ ((al.alloc 4 i.1).1, ground (arith, z, y, k))
          ]
        ]
      ]

  -- If create_socket_pool makes a pool, its lock is open, it has as many free blocks as were asked
  -- for and none that is handed out, and each leads to a socket that connect_ipv6 gave.
  create_socket_pool-sockets :
      (n : ℕ) (q : ResourcePool sl sp ℕ) (w w' : h.World)
      → create_socket_pool sl sp h os n w ≡ done (some q, w')
      → (length (sl.to_list q.pool.free_list) ≡ n)
        × (sl.to_list q.pool.allocated_list ≡ [])
        × (sp.held q.pool.lock ≡ false)
        × ((b : ℕ)
            → count b (sl.to_list q.pool.free_list) ≢ 0
            → (u : h.World) × ((os.connect_ipv6 u).0 ≡ some (q.content b)))
  unfolding create_socket_pool
  create_socket_pool-sockets n q w w' e =
      let r = mem_create_shared_pool sl sp (heap_mmap h) 4 n w in
      elim (Option-cases r.0) [
        | inl z ↦ ground (arith, z)
        | inr (pool, z) ↦
            let a = get_default_allocator h r.1 in
            elim (Option-cases a.0) [
              | inl y ↦ ground (arith, z, y)
              | inr (al, y) ↦
                  let created : mem_create_shared_pool sl sp (heap_mmap h) 4 n w
                      ≡ (some pool, r.1) =
                    ap (λ o. (o, r.1)) z in
                  let s =
                    fill-IsStocked sl sp h os (make_socket sl sp h os al) 4 n 0 pool w r.1 a.1 w' q
                      created (ground (arith, z, y)) in
                  (
                    s.blocks,
                    s.none_allocated,
                    s.is_open,
                    λ b some_of.
                        let (v, x, v', m) = s.is_made b some_of in
                        make_socket-connected al (q.content b) x v v' m,
                  )
            ]
      ]
