-- ===== src/Syscall/Child/Examples.antt =====
-- A child of src/syscall/syscall.c with the table of one entry, on a small machine.
use nextgen.Base.{
  ℕ, zero, suc, ◌+◌, ◌-◌, ◌%◌, ◌^◌, ◌<◌, ◌≡◌, length, ◌⊎◌, refl, none, some, done, success, failure,
  arith, ltb,
}
use nextgen.Syscall.ArgTypes.{get_arg_context}
use nextgen.Syscall.SetTest.{vpv_id, set_test_syscall, test_val_ptr_val}
use nextgen.Syscall.SetTest.Passed.{letters}
use nextgen.Syscall.Table.{
  SyscallEntry, get_entry, set_contexts, set_entry, set_entries, build_syscall_table,
}
use nextgen.Syscall.Table.Built.{IsReady, build-IsBuilt, set_entry-IsReady}
use nextgen.Syscall.Child.Context.{
  ChildCtx, memcpy, address, load_word, find_word, word, set_arg_size,
}
use nextgen.Syscall.Child.Run.{
  check_for_failure, pick_syscall, generate_argument, generate_loop, generate_arguments,
  mutate_arguments, generate_test_case, test_syscall,
}
use nextgen.Syscall.Child.Toy.{
  toy, read_entry, ready_entry, raw_table, table, child, generated, counters, tested,
}
use nextgen.Syscall.Child.Copies.{NoSizes, SameCopies, test-SameCopies}
use nextgen.Syscall.Child.Outcomes.{Chosen, Readable, pick-Chosen, test-had_error}

table_built : build_syscall_table (some raw_table) (some 8) ≡ done (some table)
unfolding build_syscall_table set_entries set_entry set_contexts get_arg_context
table_built = refl

case_runs : generate_test_case toy table child 0 ≡ done (success, generated, 3)
unfolding generate_test_case pick_syscall generate_arguments generate_loop generate_argument memcpy
    set_arg_size mutate_arguments get_entry
case_runs = refl

test_runs :
    test_syscall toy table counters generated 3
    ≡ done (success, record counters { test_counter = 6 }, tested, 14)
unfolding test_syscall get_entry set_test_syscall test_val_ptr_val address load_word find_word word
    check_for_failure
test_runs = refl

NoSizes-child : NoSizes child
NoSizes-child zero s e = ground arith
NoSizes-child (suc zero) s e = ground arith
NoSizes-child (suc (suc zero)) s e = ground arith
NoSizes-child (suc (suc (suc i))) s e = ground arith

test-SameCopies_example : SameCopies child tested
test-SameCopies_example =
    test-SameCopies toy table child generated tested counters (record counters { test_counter = 6 })
      0 3 14 success success NoSizes-child case_runs test_runs

pick-Chosen_example :
    (((toy.range 0 0).0 ≡ none)
      × (v : ℕ) × (pick_syscall toy table child 0 ≡ done (failure, child, v)))
    ⊎ ((d : ChildCtx) × (v : ℕ) × (e : SyscallEntry ℕ) × (f : SyscallEntry ℕ) × (pick_syscall toy
            table child 0
          ≡ done (success, d, v))
        × ((toy.range 0 0).0 ≡ some d.syscall_number)
        × (d.syscall_number < 1)
        × IsReady e f
        × Chosen toy table d f)
pick-Chosen_example =
    pick-Chosen toy table raw_table.sys_entry child 0
      (build-IsBuilt raw_table table (some 8) table_built).0 (omega arith) (omega arith)

generated-Chosen : Chosen toy table generated ready_entry
unfolding get_entry
generated-Chosen = record { found = refl; args = refl; symbol = refl; alarm = refl; clean = refl }

ready : IsReady read_entry ready_entry
unfolding set_entry set_contexts get_arg_context
ready = set_entry-IsReady read_entry ready_entry refl

generated-Readable : (i : ℕ) → i < length (letters vpv_id) → Readable toy table generated i
generated-Readable zero l = (100, _, refl, omega arith, omega arith)
generated-Readable (suc zero) l = (101, _, refl, omega arith, omega arith)
generated-Readable (suc (suc zero)) l = (102, _, refl, omega arith, omega arith)
generated-Readable (suc (suc (suc i))) l = absurd (omega arith)

test-had_error_example :
    (d : ChildCtx) × (v : ℕ) × (test_syscall toy table counters generated 3
      ≡ done (success, record counters { test_counter = (5 + 1) % 2 ^ 32 }, d, v))
    × (set_test_syscall toy.kernel vpv_id 3
          (address generated.arg_value_array)
          (load_word generated.arg_value_array)
          13
        ≡ done (d.ret_value, v))
    × (d.had_error ≡ ltb (2 ^ 31 - 1) d.ret_value)
test-had_error_example =
    test-had_error toy table counters generated read_entry ready_entry 3 generated-Chosen ready
      generated-Readable
