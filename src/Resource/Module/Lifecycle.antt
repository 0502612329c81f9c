-- ===== src/Resource/Module/Lifecycle.antt =====
-- When the functions of src/resource/resource.c serve, and what its setup and cleanup leave.
use nextgen.Base.{
  ℕ, ◌≡◌, refl, ap, Outcome, ◌∙◌, true, false, Option, none, some, List, arith, done, fault,
  success, failure, Bool-cases, Option-cases, Outcome-cases, answer-cases, inl, inr,
}
use nextgen.Memory.External.{Slist, Spinlock}
use nextgen.Memory.Alloc.{Heap}
use nextgen.Resource.Create.{
  create_file_pool, create_socket_pool, create_fd_pool, create_dirpath_pool,
}
use nextgen.Resource.Cached.{ResourcePool, get_cached, get_mountpath_cached}
use nextgen.Resource.Clean.{clean_file_pool, cleanup_resource_pools}
use nextgen.Resource.Module.{
  RsrcGenType, cache, no_cache, System, ResourceModule, setup_nocache_interface,
  setup_cached_interface, create_resource_pools, setup_interface, setup_resource_module,
  cleanup_resource_module, dispatch, Interface, a_desc, a_socket, a_mountpath, a_filepath,
  a_dirpath, get_desc, free_desc, get_socket, free_socket, get_mountpath, free_mountpath,
  get_filepath, free_filepath, get_dirpath, free_dirpath, desc_getter, desc_freer, path_getter,
  path_freer,
}

module _ (sl : Slist) (sp : Spinlock) (h : Heap) (sys : System sl sp h) where
  -- Making the pools leaves the pool of mount paths alone; if it succeeds, the file pool is one that
  -- create_file_pool made.
  record HasFiles (path : List ℕ) (w : h.World) (r : ResourceModule sl sp h) : Type 0 where
    files : ResourcePool sl sp (List ℕ)
    after : h.World
    is_files : r.file_pool ≡ some files
    is_created : create_file_pool sl sp h sys.makers sys.pool_size path w ≡ done (some files, after)

  pools-HasFiles :
      (path : List ℕ) (m r : ResourceModule sl sp h)
      → create_resource_pools sl sp h sys path m ≡ done (success, r)
      → HasFiles path m.world r × (r.mount_pool ≡ m.mount_pool)
  unfolding create_resource_pools
  pools-HasFiles path m r e =
      elim (answer-cases (create_file_pool sl sp h sys.makers sys.pool_size path m.world)) [
        | inr (inl (v, x)) ↦ ground (arith, x)
        | inr (inr (inl x)) ↦ ground (arith, x)
        | inr (inr (inr x)) ↦ ground (arith, x)
        | inl (f, f_w, f_e) ↦
            elim (answer-cases (create_socket_pool sl sp h sys.makers sys.pool_size f_w)) [
              | inr (inl (v, x)) ↦ ground (arith, f_e, x)
              | inr (inr (inl x)) ↦ ground (arith, f_e, x)
              | inr (inr (inr x)) ↦ ground (arith, f_e, x)
              | inl (s, s_w, s_e) ↦
                  elim (answer-cases (create_fd_pool sl sp h sys.makers sys.pool_size path s_w)) [
                    | inr (inl (v, x)) ↦ ground (arith, f_e, s_e, x)
                    | inr (inr (inl x)) ↦ ground (arith, f_e, s_e, x)
                    | inr (inr (inr x)) ↦ ground (arith, f_e, s_e, x)
                    | inl (d, d_w, d_e) ↦
                        elim (answer-cases
                          (create_dirpath_pool sl sp h sys.makers sys.pool_size path d_w)) [
                            | inr (inl (v, x)) ↦ ground (arith, f_e, s_e, d_e, x)
                            | inr (inr (inl x)) ↦ ground (arith, f_e, s_e, d_e, x)
                            | inr (inr (inr x)) ↦ ground (arith, f_e, s_e, d_e, x)
                            | inl (q, q_w, q_e) ↦ (
                              record {
                                files = f;
                                after = f_w;
                                is_files = ground (arith, f_e, s_e, d_e, q_e);
                                is_created = f_e;
                              },
                              ground (arith, f_e, s_e, d_e, q_e),
                            )
                          ]
                  ]
            ]
      ]

  -- Each of the ten functions runs the one of its own resource, of the type asked for.
  pub record Serves (type : RsrcGenType) (r : ResourceModule sl sp h) : Type 0 where
    pub serves_get_desc :
        (rounds : ℕ)
        → get_desc sl sp h sys rounds r ≡ desc_getter sl sp h sys rounds (a_desc, type) r
    pub serves_free_desc :
        (x : ℕ) → free_desc sl sp h sys x r ≡ desc_freer sl sp h sys x (a_desc, type) r
    pub serves_get_socket :
        (rounds : ℕ)
        → get_socket sl sp h sys rounds r ≡ desc_getter sl sp h sys rounds (a_socket, type) r
    pub serves_free_socket :
        (x : ℕ) → free_socket sl sp h sys x r ≡ desc_freer sl sp h sys x (a_socket, type) r
    pub serves_get_mountpath :
        (rounds : ℕ)
        → get_mountpath sl sp h sys rounds r ≡ path_getter sl sp h sys rounds (a_mountpath, type) r
    pub serves_free_mountpath :
        (x : List ℕ)
        → free_mountpath sl sp h sys x r ≡ path_freer sl sp h sys x (a_mountpath, type) r
    pub serves_get_filepath :
        (rounds : ℕ)
        → get_filepath sl sp h sys rounds r ≡ path_getter sl sp h sys rounds (a_filepath, type) r
    pub serves_free_filepath :
        (x : List ℕ) → free_filepath sl sp h sys x r ≡ path_freer sl sp h sys x (a_filepath, type) r
    pub serves_get_dirpath :
        (rounds : ℕ)
        → get_dirpath sl sp h sys rounds r ≡ path_getter sl sp h sys rounds (a_dirpath, type) r
    pub serves_free_dirpath :
        (x : List ℕ) → free_dirpath sl sp h sys x r ≡ path_freer sl sp h sys x (a_dirpath, type) r

  abbrev interface_of : RsrcGenType → Interface
  interface_of type = record {
    get_desc_interface = some (a_desc, type);
    get_socket_interface = some (a_socket, type);
    get_mountpath_interface = some (a_mountpath, type);
    get_filepath_interface = some (a_filepath, type);
    get_dirpath_interface = some (a_dirpath, type);
    free_desc_interface = some (a_desc, type);
    free_socket_interface = some (a_socket, type);
    free_mountpath_interface = some (a_mountpath, type);
    free_filepath_interface = some (a_filepath, type);
    free_dirpath_interface = some (a_dirpath, type);
  }

  dispatch-some :
      {A F : Type 0} (refused : A)
      (call : F → ResourceModule sl sp h → Outcome (A × ResourceModule sl sp h)) (p : Option F)
      (f : F) (m : ResourceModule sl sp h)
      → m.setup ≡ true
      → p ≡ some f
      → dispatch sl sp h sys refused call p m ≡ call f m
  unfolding dispatch
  dispatch-some refused call p f m s e = ground (arith, s, e)

  Serves-interface_of :
      (type : RsrcGenType) (r : ResourceModule sl sp h)
      → r.setup ≡ true
      → r.interface ≡ interface_of type
      → Serves type r
  unfolding get_desc free_desc get_socket free_socket get_mountpath free_mountpath get_filepath
      free_filepath get_dirpath free_dirpath
  Serves-interface_of type r s e = record {
    serves_get_desc = λ rounds. dispatch-some _ _ _ _ r s (ap (λ i. i.get_desc_interface) e);
    serves_free_desc = λ x. dispatch-some _ _ _ _ r s (ap (λ i. i.free_desc_interface) e);
    serves_get_socket = λ rounds. dispatch-some _ _ _ _ r s (ap (λ i. i.get_socket_interface) e);
    serves_free_socket = λ x. dispatch-some _ _ _ _ r s (ap (λ i. i.free_socket_interface) e);
    serves_get_mountpath =
        λ rounds. dispatch-some _ _ _ _ r s (ap (λ i. i.get_mountpath_interface) e);
    serves_free_mountpath = λ x. dispatch-some _ _ _ _ r s (ap (λ i. i.free_mountpath_interface) e);
    serves_get_filepath =
        λ rounds. dispatch-some _ _ _ _ r s (ap (λ i. i.get_filepath_interface) e);
    serves_free_filepath = λ x. dispatch-some _ _ _ _ r s (ap (λ i. i.free_filepath_interface) e);
    serves_get_dirpath = λ rounds. dispatch-some _ _ _ _ r s (ap (λ i. i.get_dirpath_interface) e);
    serves_free_dirpath = λ x. dispatch-some _ _ _ _ r s (ap (λ i. i.free_dirpath_interface) e);
  }

  interface-serves :
      (type : RsrcGenType) (path : List ℕ) (m r : ResourceModule sl sp h)
      → setup_interface sl sp h sys type path m ≡ done (success, r)
      → (r.setup ≡ true) × (r.interface ≡ interface_of type) × (r.mount_pool ≡ m.mount_pool)
  unfolding setup_interface setup_cached_interface setup_nocache_interface
  interface-serves cache path m r e =
      elim (Outcome-cases (create_resource_pools sl sp h sys path m)) [
        | inr (inl x) ↦ ground (arith, x)
        | inr (inr x) ↦ ground (arith, x)
        | inl ((failure, q), x) ↦ ground (arith, x)
        | inl ((success, q), x) ↦ ground (arith, x, (pools-HasFiles path m q x).1)
      ]
  interface-serves no_cache path m r e = ground arith

  setup-interface :
      (type : RsrcGenType) (path : Option (List ℕ)) (m r : ResourceModule sl sp h)
      → setup_resource_module sl sp h sys type path m ≡ done (success, r)
      → (m.setup ≡ false)
        × (r.setup ≡ true)
        × (r.interface ≡ interface_of type)
        × (r.mount_pool ≡ m.mount_pool)
  unfolding setup_resource_module
  setup-interface type path m r e = elim (Bool-cases m.setup) [
    | inl b ↦ ground (arith, b)
    | inr b ↦ elim (Option-cases path) [
      | inl o ↦ ground (arith, b, o)
      | inr (p, o) ↦
          let m₁ = record m { world = (sys.setup_network_module m.world).1 } in
          ground (arith, b, o, interface-serves type p m₁ r)
    ]
  ]

  -- If setup_resource_module returns 0, the module was not set up before and it is now; each of the
  -- ten functions that get and free runs the one of its own resource, cached or not as was asked
  -- for; and the pool of mount paths is the one that it had before.
  pub setup-serves :
      (type : RsrcGenType) (path : Option (List ℕ)) (m r : ResourceModule sl sp h)
      → setup_resource_module sl sp h sys type path m ≡ done (success, r)
      → (m.setup ≡ false) × (r.setup ≡ true) × Serves type r × (r.mount_pool ≡ m.mount_pool)
  setup-serves type path m r e =
      let (before, after, pointers, mounts) = setup-interface type path m r e in
      (before, after, Serves-interface_of type r after pointers, mounts)

  -- With the cached interface get_mountpath faults: no setup makes the pool of mount paths, so that
  -- it is NULL after a setup from a state in which it is NULL, as it is at the start.
  get_mountpath-fault :
      (path : Option (List ℕ)) (m r : ResourceModule sl sp h) (rounds : ℕ)
      → m.mount_pool ≡ none
      → setup_resource_module sl sp h sys cache path m ≡ done (success, r)
      → get_mountpath sl sp h sys rounds r ≡ fault
  unfolding path_getter get_mountpath_cached get_cached
  get_mountpath-fault path m r rounds c e =
      let (_, _, serves, mounts) = setup-serves cache path m r e in
      serves.serves_get_mountpath rounds ∙ rw (mounts, c) refl

  -- After a setup without a cache, where no file pool was made before, cleanup_resource_module
  -- returns 0 but changes nothing, and each later setup is refused.
  setup-cleanup :
      (path : Option (List ℕ)) (m r : ResourceModule sl sp h) (type : RsrcGenType)
      (again : Option (List ℕ))
      → m.file_pool ≡ none
      → setup_resource_module sl sp h sys no_cache path m ≡ done (success, r)
      → (cleanup_resource_module sl sp h sys r ≡ done (success, r))
        × (setup_resource_module sl sp h sys type again r ≡ done (failure, r))
  unfolding setup_resource_module setup_interface setup_nocache_interface cleanup_resource_module
      cleanup_resource_pools clean_file_pool
  setup-cleanup path m r type again c e =
      let s = setup-interface no_cache path m r e in
      let kept : r.file_pool ≡ none = elim (Option-cases path) [
        | inl o ↦ ground (arith, s, o)
        | inr (p, o) ↦ ground (arith, s, o, c)
      ] in
      (ground (arith, kept), ground (arith, s))
