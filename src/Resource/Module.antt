-- ===== src/Resource/Module.antt =====
-- The state of src/resource/resource.c as a module: its setup, its interfaces, its cleanup. The
-- functions that make single resources from the system (the *_nocached functions, the socket
-- server) are parameters.
pub mod Lifecycle
mod Examples
use nextgen.Base.{
  ℕ, Bool, true, false, Option, none, some, List, if◌then◌else◌, Outcome, done, fault, ◌>>=◌,
  Status, success, failure,
}
use nextgen.Memory.External.{Slist, Spinlock}
use nextgen.Memory.Alloc.{Heap}
use nextgen.Resource.Cached.{
  PathPool, DescPool, get_filepath_cached, get_dirpath_cached, get_mountpath_cached,
  get_socket_cached, get_desc_cached, free_filepath_cached, free_dirpath_cached,
  free_mountpath_cached, free_socket_cached, free_desc_cached,
}
use nextgen.Resource.Clean.{Files, cleanup_resource_pools}
use nextgen.Resource.Create.{
  Makers, create_file_pool, create_socket_pool, create_fd_pool, create_dirpath_pool,
}

-- `enum rsrc_gen_type`.
pub data RsrcGenType : Type 0 where
  cache no_cache : RsrcGenType

-- What a resource is made of and given back to: `none` is the code -1, or NULL for a path.
pub record Nocached (h : Heap) (R : Type 0) : Type 0 where
  pub get_nocached : h.World → Option R × h.World
  pub free_nocached : R → h.World → Status × h.World

pub record System (sl : Slist) (sp : Spinlock) (h : Heap) : Type 0 where
  pub files : Files h
  pub descs : Nocached h ℕ
  pub sockets : Nocached h ℕ
  pub mountpaths : Nocached h (List ℕ)
  pub dirpaths : Nocached h (List ℕ)
  pub filepaths : Nocached h (List ℕ)
  pub setup_network_module : h.World → Status × h.World
  pub makers : Makers h
  pub pool_size : ℕ

-- The functions that an interface pointer for numbers may lead to, and those that one for paths
-- may lead to: those of a resource, with the cache or without.
pub data DescKind : Type 0 where
  a_desc a_socket : DescKind

pub data PathKind : Type 0 where
  a_mountpath a_filepath a_dirpath : PathKind

-- The ten interface pointers, `none` before they are set.
pub record Interface : Type 0 where
  pub get_desc_interface : Option (DescKind × RsrcGenType)
  pub get_socket_interface : Option (DescKind × RsrcGenType)
  pub get_mountpath_interface : Option (PathKind × RsrcGenType)
  pub get_filepath_interface : Option (PathKind × RsrcGenType)
  pub get_dirpath_interface : Option (PathKind × RsrcGenType)
  pub free_desc_interface : Option (DescKind × RsrcGenType)
  pub free_socket_interface : Option (DescKind × RsrcGenType)
  pub free_mountpath_interface : Option (PathKind × RsrcGenType)
  pub free_filepath_interface : Option (PathKind × RsrcGenType)
  pub free_dirpath_interface : Option (PathKind × RsrcGenType)

-- The file-scope variables.
pub record ResourceModule (sl : Slist) (sp : Spinlock) (h : Heap) : Type 0 where
  pub setup : Bool
  pub interface : Interface
  pub desc_pool : DescPool sl sp
  pub socket_pool : DescPool sl sp
  pub mount_pool : PathPool sl sp
  pub dirpath_pool : PathPool sl sp
  pub file_pool : PathPool sl sp
  pub world : h.World

module _ (sl : Slist) (sp : Spinlock) (h : Heap) (sys : System sl sp h) where
  unfoldable pub setup_nocache_interface : ResourceModule sl sp h → ResourceModule sl sp h
  setup_nocache_interface m = record m {
    interface = record {
      get_desc_interface = some (a_desc, no_cache);
      get_socket_interface = some (a_socket, no_cache);
      get_mountpath_interface = some (a_mountpath, no_cache);
      get_filepath_interface = some (a_filepath, no_cache);
      get_dirpath_interface = some (a_dirpath, no_cache);
      free_desc_interface = some (a_desc, no_cache);
      free_socket_interface = some (a_socket, no_cache);
      free_mountpath_interface = some (a_mountpath, no_cache);
      free_filepath_interface = some (a_filepath, no_cache);
      free_dirpath_interface = some (a_dirpath, no_cache);
    };
  }

  unfoldable pub setup_cached_interface : ResourceModule sl sp h → ResourceModule sl sp h
  setup_cached_interface m = record m {
    interface = record {
      get_desc_interface = some (a_desc, cache);
      get_socket_interface = some (a_socket, cache);
      get_mountpath_interface = some (a_mountpath, cache);
      get_filepath_interface = some (a_filepath, cache);
      get_dirpath_interface = some (a_dirpath, cache);
      free_desc_interface = some (a_desc, cache);
      free_socket_interface = some (a_socket, cache);
      free_mountpath_interface = some (a_mountpath, cache);
      free_filepath_interface = some (a_filepath, cache);
      free_dirpath_interface = some (a_dirpath, cache);
    };
  }

  -- The pools that were made stay where a later one fails.
  unfoldable pub create_resource_pools :
      List ℕ → ResourceModule sl sp h → Outcome (Status × ResourceModule sl sp h)
  create_resource_pools path m =
      create_file_pool sl sp h sys.makers sys.pool_size path m.world >>= λ f.
      let m₁ = record m { file_pool = f.0; world = f.1 } in
      elim f.0 [
        | none ↦ done (failure, m₁)
        | some _ ↦ create_socket_pool sl sp h sys.makers sys.pool_size m₁.world >>= λ s.
            let m₂ = record m₁ { socket_pool = s.0; world = s.1 } in
            elim s.0 [
              | none ↦ done (failure, m₂)
              | some _ ↦ create_fd_pool sl sp h sys.makers sys.pool_size path m₂.world >>= λ d.
                  let m₃ = record m₂ { desc_pool = d.0; world = d.1 } in
                  elim d.0 [
                    | none ↦ done (failure, m₃)
                    | some _ ↦
                        create_dirpath_pool sl sp h sys.makers sys.pool_size path m₃.world >>= λ q.
                        let m₄ = record m₃ { dirpath_pool = q.0; world = q.1 } in
                        elim q.0 [ none ↦ done (failure, m₄) | some _ ↦ done (success, m₄) ]
                  ]
            ]
      ]

  -- The switch of `setup_resource_module`, and the flag that it ends with.
  unfoldable pub setup_interface :
      RsrcGenType → List ℕ → ResourceModule sl sp h → Outcome (Status × ResourceModule sl sp h)
  setup_interface cache path m = create_resource_pools path m >>= λ r. elim r.0 [
    | failure ↦ done (failure, r.1)
    | success ↦ done (success, record (setup_cached_interface r.1) { setup = true })
  ]
  setup_interface no_cache path m =
      done (success, record (setup_nocache_interface m) { setup = true })

  unfoldable pub setup_resource_module :
      RsrcGenType
      → Option (List ℕ)
      → ResourceModule sl sp h
      → Outcome (Status × ResourceModule sl sp h)
  setup_resource_module type path m = if m.setup then done (failure, m) else elim path [
    | none ↦ done (failure, m)
    | some p ↦
        let (rtrn, w₁) = sys.setup_network_module m.world in
        let m₁ = record m { world = w₁ } in
        elim rtrn [ failure ↦ done (failure, m₁) | success ↦ setup_interface type p m₁ ]
  ]

  -- `cleanup_resource_module` returns 0 in both cases.
  unfoldable pub cleanup_resource_module :
      ResourceModule sl sp h → Outcome (Status × ResourceModule sl sp h)
  cleanup_resource_module m = cleanup_resource_pools sl sp h sys.files m.file_pool m.world >>= λ r.
      let m₁ = record m { file_pool = r.1; world = r.2 } in
      elim r.0 [
        | failure ↦ done (success, m₁)
        | success ↦ done (success, record m₁ { setup = false })
      ]

  unfoldable pub get_nocached_by :
      {R : Type 0}
      → Nocached h R
      → ResourceModule sl sp h
      → Outcome (Option R × ResourceModule sl sp h)
  get_nocached_by n m = let (r, w) = n.get_nocached m.world in done (r, record m { world = w })

  unfoldable pub free_nocached_by :
      {R : Type 0}
      → Nocached h R
      → R
      → ResourceModule sl sp h
      → Outcome (Status × ResourceModule sl sp h)
  free_nocached_by n r m =
      let (s, w) = n.free_nocached r m.world in done (s, record m { world = w })

  -- The functions of a resource that is a number, by which a pointer tells them apart.
  unfoldable pub desc_getter :
      ℕ
      → DescKind × RsrcGenType
      → ResourceModule sl sp h
      → Outcome (Option ℕ × ResourceModule sl sp h)
  desc_getter rounds (a_desc, cache) m = get_desc_cached sl sp rounds m.desc_pool >>= λ r.
      done (some r.0, record m { desc_pool = r.1 })
  desc_getter rounds (a_desc, no_cache) m = get_nocached_by sys.descs m
  desc_getter rounds (a_socket, cache) m = get_socket_cached sl sp rounds m.socket_pool >>= λ r.
      done (some r.0, record m { socket_pool = r.1 })
  desc_getter rounds (a_socket, no_cache) m = get_nocached_by sys.sockets m

  unfoldable pub desc_freer :
      ℕ
      → DescKind × RsrcGenType
      → ResourceModule sl sp h
      → Outcome (Status × ResourceModule sl sp h)
  desc_freer r (a_desc, cache) m =
      free_desc_cached sl sp r m.desc_pool >>= λ q. done (success, record m { desc_pool = q })
  desc_freer r (a_desc, no_cache) m = free_nocached_by sys.descs r m
  desc_freer r (a_socket, cache) m =
      free_socket_cached sl sp r m.socket_pool >>= λ q. done (success, record m { socket_pool = q })
  desc_freer r (a_socket, no_cache) m = free_nocached_by sys.sockets r m

  -- The functions of a resource that is a path, by which a pointer tells them apart.
  unfoldable pub path_getter :
      ℕ
      → PathKind × RsrcGenType
      → ResourceModule sl sp h
      → Outcome (Option (List ℕ) × ResourceModule sl sp h)
  path_getter rounds (a_mountpath, cache) m =
      get_mountpath_cached sl sp rounds m.mount_pool >>= λ r.
      done (some r.0, record m { mount_pool = r.1 })
  path_getter rounds (a_mountpath, no_cache) m = get_nocached_by sys.mountpaths m
  path_getter rounds (a_filepath, cache) m = get_filepath_cached sl sp rounds m.file_pool >>= λ r.
      done (some r.0, record m { file_pool = r.1 })
  path_getter rounds (a_filepath, no_cache) m = get_nocached_by sys.filepaths m
  path_getter rounds (a_dirpath, cache) m = get_dirpath_cached sl sp rounds m.dirpath_pool >>= λ r.
      done (some r.0, record m { dirpath_pool = r.1 })
  path_getter rounds (a_dirpath, no_cache) m = get_nocached_by sys.dirpaths m

  unfoldable pub path_freer :
      List ℕ
      → PathKind × RsrcGenType
      → ResourceModule sl sp h
      → Outcome (Status × ResourceModule sl sp h)
  path_freer r (a_mountpath, cache) m = free_mountpath_cached sl sp r m.mount_pool >>= λ q.
      done (success, record m { mount_pool = q })
  path_freer r (a_mountpath, no_cache) m = free_nocached_by sys.mountpaths r m
  path_freer r (a_filepath, cache) m =
      free_filepath_cached sl sp r m.file_pool >>= λ q. done (success, record m { file_pool = q })
  path_freer r (a_filepath, no_cache) m = free_nocached_by sys.filepaths r m
  path_freer r (a_dirpath, cache) m = free_dirpath_cached sl sp r m.dirpath_pool >>= λ q.
      done (success, record m { dirpath_pool = q })
  path_freer r (a_dirpath, no_cache) m = free_nocached_by sys.dirpaths r m

  -- The common text of the ten wrappers: nothing before the setup, then the function that the
  -- interface pointer leads to. A call through a pointer that is not set faults.
  unfoldable pub dispatch :
      {A F : Type 0}
      → A
      → (F → ResourceModule sl sp h → Outcome (A × ResourceModule sl sp h))
      → Option F
      → ResourceModule sl sp h
      → Outcome (A × ResourceModule sl sp h)
  dispatch refused call pointer m =
      if m.setup then elim pointer [ none ↦ fault | some f ↦ call f m ] else done (refused, m)

  unfoldable pub get_desc : ℕ → ResourceModule sl sp h → Outcome (Option ℕ × ResourceModule sl sp h)
  get_desc rounds m = dispatch none (desc_getter rounds) m.interface.get_desc_interface m

  unfoldable pub free_desc : ℕ → ResourceModule sl sp h → Outcome (Status × ResourceModule sl sp h)
  free_desc fd m = dispatch failure (desc_freer fd) m.interface.free_desc_interface m

  unfoldable pub get_socket :
      ℕ → ResourceModule sl sp h → Outcome (Option ℕ × ResourceModule sl sp h)
  get_socket rounds m = dispatch none (desc_getter rounds) m.interface.get_socket_interface m

  unfoldable pub free_socket :
      ℕ → ResourceModule sl sp h → Outcome (Status × ResourceModule sl sp h)
  free_socket sock_fd m = dispatch failure (desc_freer sock_fd) m.interface.free_socket_interface m

  unfoldable pub get_mountpath :
      ℕ → ResourceModule sl sp h → Outcome (Option (List ℕ) × ResourceModule sl sp h)
  get_mountpath rounds m = dispatch none (path_getter rounds) m.interface.get_mountpath_interface m

  unfoldable pub free_mountpath :
      List ℕ → ResourceModule sl sp h → Outcome (Status × ResourceModule sl sp h)
  free_mountpath path m = dispatch failure (path_freer path) m.interface.free_mountpath_interface m

  unfoldable pub get_filepath :
      ℕ → ResourceModule sl sp h → Outcome (Option (List ℕ) × ResourceModule sl sp h)
  get_filepath rounds m = dispatch none (path_getter rounds) m.interface.get_filepath_interface m

  unfoldable pub free_filepath :
      List ℕ → ResourceModule sl sp h → Outcome (Status × ResourceModule sl sp h)
  free_filepath path m = dispatch failure (path_freer path) m.interface.free_filepath_interface m

  unfoldable pub get_dirpath :
      ℕ → ResourceModule sl sp h → Outcome (Option (List ℕ) × ResourceModule sl sp h)
  get_dirpath rounds m = dispatch none (path_getter rounds) m.interface.get_dirpath_interface m

  unfoldable pub free_dirpath :
      List ℕ → ResourceModule sl sp h → Outcome (Status × ResourceModule sl sp h)
  free_dirpath path m = dispatch failure (path_freer path) m.interface.free_dirpath_interface m
