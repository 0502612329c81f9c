-- ===== src/Runtime/Examples.antt =====
-- parse_cmd_line of src/runtime/nextgen.c on two command lines, with the default allocator.
use nextgen.Base.{
  ℕ, ◌≡◌, refl, true, false, ◌==◌, if◌then◌else◌, Option, none, some, List, [], ◌∷◌, arith,
}
use nextgen.Crypto.Setup.{crypto}
use nextgen.Memory.Alloc.{
  MemoryAllocator, default_mem_alloc, default_mem_alloc_shared, default_mem_free,
  default_mem_free_shared, get_default_allocator,
}
use nextgen.Memory.Instances.{Cells, cells_heap, no_cells}
use nextgen.Runtime.{
  Text, mode_file, Choice, opt_a, opt_e, opt_f, opt_i, opt_n, opt_o, parse_cmd_line,
}
use nextgen.Runtime.Accepted.{parse_cmd_line-described}
use nextgen.Runtime.Letters.{network-refused}
use nextgen.Runtime.Region.{is_some, parse_cmd_line-region}

-- "i" is a directory and "e" can be executed; nothing else exists.
abbrev files : Text → Option ℕ
files [] = none
files (x ∷ path) = if x == 105 then some 16877 else (if x == 101 then some 33261 else none)

abbrev given : Option Text → Text
given none = []
given (some t) = t

abbrev print : Option Text → Cells → Option Text × Cells
print optarg w = (some (given optarg), w)

abbrev allocator : MemoryAllocator Cells
allocator = record {
  alloc = default_mem_alloc cells_heap;
  shared = default_mem_alloc_shared cells_heap;
  free = default_mem_free cells_heap;
  free_shared = default_mem_free_shared cells_heap;
}

abbrev file_line : List (Choice × Option Text)
file_line =
    (opt_f, none)
    ∷ (opt_i, some (105 ∷ []))
    ∷ (opt_o, some (111 ∷ []))
    ∷ (opt_e, some (101 ∷ []))
    ∷ []

abbrev network_line : List (Choice × Option Text)
network_line = (opt_n, none) ∷ (opt_a, some (49 ∷ [])) ∷ (opt_o, some (111 ∷ [])) ∷ []

parse_cmd_line-described_example :
    (parse_cmd_line allocator files print 8 file_line false no_cells).0
    ≡ some (record {
      exec_path = some (101 ∷ []);
      input_path = some (105 ∷ []);
      output_path = some (111 ∷ []);
      args = none;
      smart_mode = some true;
      method = some crypto;
      mode = some mode_file;
    })
unfolding default_mem_alloc
parse_cmd_line-described_example =
    parse_cmd_line-described allocator files print given (λ o w. refl) 8 1 file_line false no_cells
      (λ e. omega arith) refl

network-refused_example :
    (parse_cmd_line allocator files print 6 network_line false no_cells).0 ≡ none
unfolding default_mem_alloc
network-refused_example =
    network-refused allocator files print given (λ o w. refl) 6 1 network_line false no_cells
      (λ e. omega arith) refl (refl, (refl, (refl, tt))) refl

parse_cmd_line-region_example :
    let r = parse_cmd_line allocator files print 6 network_line false no_cells in
    cells_heap.live r.2 1 ≡ is_some r.0
unfolding default_mem_alloc get_default_allocator
parse_cmd_line-region_example =
    parse_cmd_line-region cells_heap files print (λ o a w l. l) allocator no_cells refl 6 1
      network_line false no_cells (λ e. omega arith) refl
