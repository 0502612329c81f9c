-- ===== src/Resource/Create.antt =====
-- The functions of src/resource/resource.c that make the pools and fill them, and the generator
-- structure of src/crypto/crypto.c that two of them ask for. Messages on the console are left out.
pub mod Filled
mod Examples
use nextgen.Base.{
  ℕ, Bool, true, false, Option, none, some, List, [], ◌∷◌, ltb, ◌==◌, ◌++◌, length, if◌then◌else◌,
  Outcome, done, fault, ◌>>=◌,
}
use nextgen.Memory.External.{Slist, Spinlock}
use nextgen.Memory.Mapped.{heap_mmap}
use nextgen.Memory.Pool.{mem_create_shared_pool, write_ptr}
use nextgen.Memory.Alloc.{Heap, MemoryAllocator, get_default_allocator}
use nextgen.Resource.Cached.{ResourcePool, PathPool, DescPool}
use nextgen.Resource.Clean.{path_size, sizeof_resource}

-- The size of `struct random_generator`.
abbrev pub sizeof_generator : ℕ
sizeof_generator = 24

-- `struct random_generator`: which of its pointers to functions are set.
pub record GeneratorFields : Type 0 where
  pub range : Bool
  pub seed : Bool
  pub bytes : Bool

-- What the system and the functions that write files answer: `none` is the return code -1. The text
-- of a path has no NUL. `create_random_file`, of src/utils/utils.c, calls functions of the generator
-- that it is given, and may fault where one is not set; how it makes a file is in File.Random.
pub record Makers (h : Heap) : Type 0 where
  pub get_console_writter : h.World → Bool × h.World
  pub create_random_file : GeneratorFields → List ℕ → h.World → Outcome (Option (List ℕ) × h.World)
  pub open_rdwr : List ℕ → h.World → Option ℕ × h.World
  pub generate_directory_name : h.World → Option (List ℕ) × h.World
  pub asprintf : List ℕ → h.World → Bool × h.World
  pub connect_ipv6 : h.World → Option ℕ × h.World

module _ (h : Heap) where
  -- The structure, if there is memory for it: nothing sets `bytes`.
  unfoldable pub get_default_random_generator :
      MemoryAllocator h.World → h.World → Option GeneratorFields × h.World
  get_default_random_generator allocator w =
      let (random, w₁) = allocator.alloc sizeof_generator w in
      elim random [
        | none ↦ (none, w₁)
        | some _ ↦ (some (record { range = true; seed = true; bytes = false }), w₁)
      ]

  -- The context and the space for the resource: the address of the context.
  unfoldable pub init_resource_ctx : ℕ → h.World → Option ℕ × h.World
  init_resource_ctx size w =
      let (allocator, w₁) = get_default_allocator h w in
      elim allocator [
        | none ↦ (none, w₁)
        | some al ↦
            let (resource, w₂) = al.shared sizeof_resource w₁ in
            elim resource [
              | none ↦ (none, w₂)
              | some r ↦
                  let (ptr, w₃) = al.shared size w₂ in
                  elim ptr [ none ↦ (none, w₃) | some _ ↦ (some r, w₃) ]
            ]
      ]

module _ (sl : Slist) (sp : Spinlock) (h : Heap) (os : Makers h) where
  -- A resource with the address of its context, or NULL for the whole pool.
  abbrev pub Made : Type 0 → Type 0
  Made C = Outcome (Option (ℕ × C) × h.World)

  -- memmove of a path to the space of its context.
  unfoldable pub move_path : ℕ → List ℕ → h.World → Made (List ℕ)
  move_path resource path w =
      if ltb path_size (length path) then fault else done (some (resource, path), w)

  -- The bodies of the four loops.
  unfoldable pub make_fd : List ℕ → GeneratorFields → h.World → Made ℕ
  make_fd path random w =
      let (resource, w₁) = init_resource_ctx h 4 w in
      elim resource [
        | none ↦ done (none, w₁)
        | some r ↦ os.create_random_file random path w₁ >>= λ (file_path, w₂). elim file_path [
          | none ↦ done (none, w₂)
          | some f ↦
              let (fd, w₃) = os.open_rdwr f w₂ in
              elim fd [ none ↦ done (none, w₃) | some d ↦ done (some (r, d), w₃) ]
        ]
      ]

  unfoldable pub make_file : List ℕ → GeneratorFields → h.World → Made (List ℕ)
  make_file path random w =
      let (resource, w₁) = init_resource_ctx h path_size w in
      elim resource [
        | none ↦ done (none, w₁)
        | some r ↦ os.create_random_file random path w₁ >>= λ (file_path, w₂). elim file_path [
          | none ↦ done (none, w₂)
          | some f ↦ move_path r f w₂
        ]
      ]

  unfoldable pub make_dirpath : List ℕ → MemoryAllocator h.World → h.World → Made (List ℕ)
  make_dirpath path allocator w =
      let (resource, w₁) = allocator.shared sizeof_resource w in
      elim resource [
        | none ↦ done (none, w₁)
        | some r ↦
            let (ptr, w₂) = allocator.shared path_size w₁ in
            elim ptr [
              | none ↦ done (none, w₂)
              | some _ ↦
                  let (dir_name, w₃) = os.generate_directory_name w₂ in
                  elim dir_name [
                    | none ↦ done (none, w₃)
                    | some d ↦
                        let dir_path = path ++ 47 ∷ d in
                        let (joined, w₄) = os.asprintf dir_path w₃ in
                        if joined then move_path r dir_path w₄ else done (none, w₄)
                  ]
            ]
      ]

  unfoldable pub make_socket : MemoryAllocator h.World → h.World → Made ℕ
  make_socket allocator w =
      let (resource, w₁) = init_resource_ctx h 4 w in
      elim resource [
        | none ↦ done (none, w₁)
        | some r ↦
            let (sock, w₂) = allocator.alloc 4 w₁ in
            elim sock [
              | none ↦ done (none, w₂)
              | some s ↦
                  let (fd, w₃) = os.connect_ipv6 w₂ in
                  elim fd [
                    | none ↦ done (none, (allocator.free (some s) w₃).1)
                    | some d ↦ done (some (r, d), w₃)
                  ]
            ]
      ]

  -- The loops over the free list: each block gets the context of a new resource.
  unfoldable pub fill :
      {C : Type 0}
      → (h.World → Made C)
      → List ℕ
      → ResourcePool sl sp C
      → h.World
      → Outcome (Option (ResourcePool sl sp C) × h.World)
  fill make [] p w = done (some p, w)
  fill make (b ∷ bs) p w = make w >>= λ r. elim r.0 [
    | none ↦ done (none, r.1)
    | some (resource, c) ↦
        fill make bs
          (record {
            pool = record p.pool { ptr = write_ptr p.pool.ptr b resource };
            content = λ a. if a == b then c else p.content a;
          })
          r.1
  ]

  -- A pool of `count` blocks, and the loop over it. What a block leads to before it has a resource is
  -- not read; `unset` stands for it.
  unfoldable pub create_filled :
      {C : Type 0}
      → ℕ
      → ℕ
      → C
      → (h.World → Made C)
      → h.World
      → Outcome (Option (ResourcePool sl sp C) × h.World)
  create_filled size count unset make w =
      let (pool, w₁) = mem_create_shared_pool sl sp (heap_mmap h) size count w in
      elim pool [
        | none ↦ done (none, w₁)
        | some p ↦ fill make (sl.to_list p.free_list) (record { pool = p; content = λ a. unset }) w₁
      ]

  -- What create_fd_pool and create_file_pool ask for first.
  unfoldable pub with_generator :
      {C : Type 0}
      → (GeneratorFields → h.World → Outcome (Option (ResourcePool sl sp C) × h.World))
      → h.World
      → Outcome (Option (ResourcePool sl sp C) × h.World)
  with_generator create w =
      let (output, w₁) = os.get_console_writter w in
      if output
      then (let (allocator, w₂) = get_default_allocator h w₁ in
          elim allocator [
            | none ↦ done (none, w₂)
            | some al ↦
                let (random, w₃) = get_default_random_generator h al w₂ in
                elim random [ none ↦ done (none, w₃) | some g ↦ create g w₃ ]
          ])
      else done (none, w₁)

  -- `create_fd_pool` and the others, by the number of blocks, which is POOL_SIZE in the source.
  unfoldable pub create_fd_pool : ℕ → List ℕ → h.World → Outcome (DescPool sl sp × h.World)
  create_fd_pool pool_size path =
      with_generator (λ random. create_filled 8 pool_size 0 (make_fd path random))

  unfoldable pub create_file_pool : ℕ → List ℕ → h.World → Outcome (PathPool sl sp × h.World)
  create_file_pool pool_size path =
      with_generator (λ random. create_filled 8 pool_size [] (make_file path random))

  unfoldable pub create_dirpath_pool : ℕ → List ℕ → h.World → Outcome (PathPool sl sp × h.World)
  create_dirpath_pool pool_size path w =
      let (output, w₁) = os.get_console_writter w in
      if output
      then (let (pool, w₂) = mem_create_shared_pool sl sp (heap_mmap h) 8 pool_size w₁ in
          elim pool [
            | none ↦ done (none, w₂)
            | some p ↦
                let (allocator, w₃) = get_default_allocator h w₂ in
                elim allocator [
                  | none ↦ done (none, w₃)
                  | some al ↦
                      fill (make_dirpath path al) (sl.to_list p.free_list)
                        (record { pool = p; content = λ a. [] }) w₃
                ]
          ])
      else done (none, w₁)

  unfoldable pub create_socket_pool : ℕ → h.World → Outcome (DescPool sl sp × h.World)
  create_socket_pool pool_size w =
      let (pool, w₁) = mem_create_shared_pool sl sp (heap_mmap h) 4 pool_size w in
      elim pool [
        | none ↦ done (none, w₁)
        | some p ↦
            let (allocator, w₂) = get_default_allocator h w₁ in
            elim allocator [
              | none ↦ done (none, w₂)
              | some al ↦
                  fill (make_socket al) (sl.to_list p.free_list)
                    (record { pool = p; content = λ a. 0 }) w₂
            ]
      ]
