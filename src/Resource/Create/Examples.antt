-- ===== src/Resource/Create/Examples.antt =====
-- The pools of src/resource/resource.c on a system where every call succeeds.
use nextgen.Base.{ℕ, ◌≡◌, refl, true, false, none, some, [], Outcome, done, fault, blocked}
use nextgen.Memory.Instances.{list_slist, flag_lock, cells_heap, no_cells}
use nextgen.Memory.Pool.{mem_create_shared_pool, create_blocks}
use nextgen.Memory.Alloc.{get_default_allocator, default_mem_alloc, default_mem_alloc_shared}
use nextgen.Resource.Cached.{ResourcePool, DescPool}
use nextgen.Resource.Create.{Makers, create_socket_pool, fill, make_socket, init_resource_ctx}

-- A socket has the number of the next address.
abbrev counting_makers : Makers cells_heap
counting_makers = record {
  get_console_writter = λ w. (true, w);
  create_random_file = λ random path w. done (some path, w);
  open_rdwr = λ path w. (some 3, w);
  generate_directory_name = λ w. (some [], w);
  asprintf = λ path w. (true, w);
  connect_ipv6 = λ w. (some w.next, w);
}

abbrev sockets_call : Outcome (DescPool list_slist flag_lock × cells_heap.World)
sockets_call = create_socket_pool list_slist flag_lock cells_heap counting_makers 2 no_cells

abbrev unset_pool : ResourcePool list_slist flag_lock ℕ
unset_pool = record {
  pool = record {
    lock = false;
    block_size = 4;
    block_count = 0;
    free_list = [];
    allocated_list = [];
    ptr = λ a. none;
  };
  content = λ b. 0;
}

-- What the call leaves in its result.
abbrev given :
    Outcome (DescPool list_slist flag_lock × cells_heap.World) → ResourcePool list_slist flag_lock ℕ
given (done (some q, w)) = q
given (done (none, w)) = unset_pool
given fault = unset_pool
given blocked = unset_pool

abbrev memory_left : Outcome (DescPool list_slist flag_lock × cells_heap.World) → cells_heap.World
memory_left (done r) = r.1
memory_left fault = no_cells
memory_left blocked = no_cells

two_sockets : sockets_call ≡ done (some (given sockets_call), memory_left sockets_call)
unfolding create_socket_pool fill make_socket init_resource_ctx get_default_allocator
    default_mem_alloc mem_create_shared_pool create_blocks
    nextgen.Memory.Pool.default_mem_alloc_shared default_mem_alloc_shared
two_sockets = refl
