-- ===== src/Syscall/Setup/Examples.antt =====
-- The set-up of src/syscall/syscall.c with two cores and an empty table.
use nextgen.Base.{
  ℕ, zero, suc, ◌+◌, ◌≡◌, refl, true, false, Option, none, some, List, [], ◌∷◌, arith, done,
  success,
}
use nextgen.Memory.Alloc.{MemoryAllocator}
use nextgen.Syscall.Table.{SyscallTable, get_syscall_table, build_syscall_table, set_entries}
use nextgen.Syscall.Child.Context.{Buffer}
use nextgen.Syscall.Setup.{
  SyscallModule, fresh_child, init_buffers, init_child_context, init_children, table_place,
  setup_syscall_module,
}
use nextgen.Syscall.Setup.Fresh.{WellSet, setup-WellSet}

-- Each page is at the next number.
abbrev pages : MemoryAllocator ℕ
pages = record {
  alloc = λ n w. (some w, suc w);
  shared = λ n w. (some w, suc w);
  free = λ p w. (none, w);
  free_shared = λ p n w. (none, w);
}

abbrev no_calls : SyscallTable ℕ
no_calls = record { total_syscalls = 0; sys_entry = none ∷ [] }

abbrev unset : SyscallModule ℕ
unset = record {
  sys_table = none;
  table_set = false;
  state = record { running_children = 0; test_counter = 0 };
  children = [];
}

-- Seven pairs of pages, from a number on.
abbrev pairs : ℕ → ℕ → List (Option Buffer)
pairs zero a = []
pairs (suc n) a = some (a, 0 ∷ 0 ∷ []) ∷ pairs n (a + 2)

abbrev set_up : SyscallModule ℕ
set_up = record {
  sys_table = some no_calls;
  table_set = true;
  state = record { running_children = 0; test_counter = 5 };
  children =
      fresh_child pages 2 (pairs 7 107) (pairs 7 108)
      ∷ fresh_child pages 2 (pairs 7 125) (pairs 7 126)
      ∷ [];
}

sets_up :
    setup_syscall_module pages 2 (some 2) 5 (some no_calls) unset 100 ≡ done (success, set_up, 139)
unfolding setup_syscall_module table_place get_syscall_table build_syscall_table set_entries
    init_children init_child_context init_buffers
sets_up = refl

setup-WellSet_example : WellSet 2 set_up
setup-WellSet_example =
    setup-WellSet pages 2 2 5 (some no_calls) unset set_up 100 139 (omega arith) sets_up
