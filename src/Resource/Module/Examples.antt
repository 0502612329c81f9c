-- ===== src/Resource/Module/Examples.antt =====
-- The module of src/resource/resource.c on a system where every call succeeds.
use nextgen.Base.{
  Outcome, done, fault, blocked, Status, ◌++◌, ◌+◌, ◌≡◌, refl, true, false, none, some, [], ◌∷◌,
  success,
}
use nextgen.Memory.Instances.{list_slist, flag_lock, cells_heap, no_cells}
use nextgen.Resource.Module.{
  cache, no_cache, Nocached, System, Interface, ResourceModule, setup_nocache_interface,
  setup_cached_interface, create_resource_pools, setup_interface, setup_resource_module,
}
use nextgen.Resource.Module.Lifecycle.{Serves, setup-serves}
use nextgen.Resource.Create.{
  Makers, create_file_pool, create_socket_pool, create_fd_pool, create_dirpath_pool, with_generator,
  create_filled, fill, make_file, make_fd, make_socket, make_dirpath, move_path, init_resource_ctx,
  get_default_random_generator,
}
use nextgen.Memory.Alloc.{get_default_allocator, default_mem_alloc, default_mem_alloc_shared}
use nextgen.Memory.Pool.{mem_create_shared_pool, create_blocks}

abbrev always : {R : Type 0} → R → Nocached cells_heap R
always r = record { get_nocached = λ w. (some r, w); free_nocached = λ r w. (success, w) }

-- Files are numbered by the memory that was given before them.
abbrev willing_makers : Makers cells_heap
willing_makers = record {
  get_console_writter = λ w. (true, w);
  create_random_file = λ random path w. done (some (path ++ w.next ∷ []), w);
  open_rdwr = λ path w. (some 3, w);
  generate_directory_name = λ w. (some (100 ∷ []), w);
  asprintf = λ path w. (true, w);
  connect_ipv6 = λ w. (some 4, w);
}

abbrev willing_system : System list_slist flag_lock cells_heap
willing_system = record {
  files = record { unlink = λ path w. (success, w); path_place = λ b. some (b + 200) };
  descs = always 3;
  sockets = always 4;
  mountpaths = always [];
  dirpaths = always [];
  filepaths = always [];
  setup_network_module = λ w. (success, w);
  makers = willing_makers;
  pool_size = 2;
}

abbrev no_pointers : Interface
no_pointers = record {
  get_desc_interface = none;
  get_socket_interface = none;
  get_mountpath_interface = none;
  get_filepath_interface = none;
  get_dirpath_interface = none;
  free_desc_interface = none;
  free_socket_interface = none;
  free_mountpath_interface = none;
  free_filepath_interface = none;
  free_dirpath_interface = none;
}

abbrev fresh_module : ResourceModule list_slist flag_lock cells_heap
fresh_module = record {
  setup = false;
  interface = no_pointers;
  desc_pool = none;
  socket_pool = none;
  mount_pool = none;
  dirpath_pool = none;
  file_pool = none;
  world = no_cells;
}

-- What a set-up leaves.
abbrev left_by :
    Outcome (Status × ResourceModule list_slist flag_lock cells_heap)
    → ResourceModule list_slist flag_lock cells_heap
left_by (done r) = r.1
left_by fault = fresh_module
left_by blocked = fresh_module

abbrev cached_call : Outcome (Status × ResourceModule list_slist flag_lock cells_heap)
cached_call =
    setup_resource_module list_slist flag_lock cells_heap willing_system cache (some (47 ∷ []))
      fresh_module

abbrev cached_module : ResourceModule list_slist flag_lock cells_heap
cached_module = left_by cached_call

cached_setup : cached_call ≡ done (success, cached_module)
unfolding setup_resource_module setup_interface setup_cached_interface create_resource_pools
    create_file_pool create_socket_pool create_fd_pool create_dirpath_pool with_generator
    create_filled fill make_file make_fd make_socket make_dirpath move_path init_resource_ctx
    get_default_random_generator get_default_allocator default_mem_alloc mem_create_shared_pool
    create_blocks nextgen.Memory.Pool.default_mem_alloc_shared default_mem_alloc_shared
cached_setup = refl

abbrev plain_call : Outcome (Status × ResourceModule list_slist flag_lock cells_heap)
plain_call =
    setup_resource_module list_slist flag_lock cells_heap willing_system no_cache (some (47 ∷ []))
      fresh_module

abbrev plain_module : ResourceModule list_slist flag_lock cells_heap
plain_module = left_by plain_call

plain_setup : plain_call ≡ done (success, plain_module)
unfolding setup_resource_module setup_interface setup_nocache_interface
plain_setup = refl

setup-serves_example :
    (fresh_module.setup ≡ false)
    × (plain_module.setup ≡ true)
    × Serves list_slist flag_lock cells_heap willing_system no_cache plain_module
    × (plain_module.mount_pool ≡ fresh_module.mount_pool)
setup-serves_example =
    setup-serves list_slist flag_lock cells_heap willing_system no_cache (some (47 ∷ []))
      fresh_module plain_module plain_setup
