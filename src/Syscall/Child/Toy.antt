-- ===== src/Syscall/Child/Toy.antt =====
-- A small machine, a table of one entry and a child, for tests of src/syscall/syscall.c.
use nextgen.Base.{
  ℕ, ◌+◌, ◌≤◌, ◌≡◌, true, false, Option, none, some, List, [], ◌∷◌, done, success, arith,
}
use nextgen.Syscall.ArgTypes.{file_desc, void_buf, size, file_desc_ctx, void_buf_ctx, size_ctx}
use nextgen.Syscall.SetTest.{vpv_id}
use nextgen.Syscall.Table.{on, off, SyscallEntry, SyscallTable}
use nextgen.Syscall.Child.Context.{ChildCtx}
use nextgen.Syscall.Child.Machine.{Machine}
use nextgen.Syscall.Child.Run.{GlobalState}

abbrev pub sum : List ℕ → ℕ
sum [] = 0
sum (x ∷ xs) = x + sum xs

abbrev pub first_of : ℕ → ℕ → Option ℕ × ℕ
first_of r w = (some 0, w)

pub first_of-le : (r n : ℕ) (w : ℕ) → (first_of r w).0 ≡ some n → n ≤ r
first_of-le r n w e = ground arith

abbrev pub word_of : ℕ → List ℕ
word_of b = b ∷ 0 ∷ 0 ∷ 0 ∷ 0 ∷ 0 ∷ 0 ∷ 0 ∷ []

-- A world is a clock. Generator g makes a buffer at address 100 + g that holds 40 + g, and calls
-- set_arg_size with eight.
abbrev pub toy : Machine ℕ
toy = record {
  kernel = record { World = ℕ; syscall = λ symbol args w. (sum args, w + 1) };
  alarm = λ w. w + 10;
  range = first_of;
  range-le = first_of-le;
  generate = λ g c p w. done (success, some (100 + g, word_of (40 + g)), some 8, w + 1);
  log_arguments = λ c contexts w. (success, w);
  log_results = λ had_error ret sig w. (success, w);
  allocator = record {
    alloc = λ n w. (some w, w);
    shared = λ n w. (some w, w);
    free = λ p w. (none, w);
    free_shared = λ p n w. (none, w);
  };
  rsrc_gen = record {
    free_desc = λ p w. done (success, w);
    free_socket = λ p w. done (success, w);
    free_filepath = λ p w. done (success, none, w);
    free_dirpath = λ p w. done (success, none, w);
  };
}

abbrev pub read_entry : SyscallEntry ℕ
read_entry = record {
  syscall_symbol = 3;
  status = off;
  need_alarm = true;
  arg_type_array = file_desc ∷ void_buf ∷ size ∷ [];
  total_args = 3;
  arg_context_array = none ∷ none ∷ none ∷ [];
  get_arg_array = 0 ∷ 1 ∷ 2 ∷ [];
  test_syscall = none;
  id = vpv_id;
}

abbrev pub ready_entry : SyscallEntry ℕ
ready_entry = record read_entry {
  status = on;
  test_syscall = some vpv_id;
  arg_context_array = some file_desc_ctx ∷ some void_buf_ctx ∷ some size_ctx ∷ [];
}

abbrev pub raw_table : SyscallTable ℕ
raw_table = record { total_syscalls = 1; sys_entry = some read_entry ∷ none ∷ [] }

abbrev pub table : SyscallTable ℕ
table = record { total_syscalls = 1; sys_entry = some ready_entry ∷ none ∷ [] }

-- As init_child_context leaves it: buffers of zeros, and no sizes.
abbrev pub child : ChildCtx
child = record {
  pid = 77;
  syscall_number = 0;
  syscall_symbol = 0;
  current_arg = 0;
  total_args = 0;
  arg_value_array = some (1, 0 ∷ []) ∷ some (2, 0 ∷ []) ∷ some (3, 0 ∷ []) ∷ [];
  arg_copy_array = some (4, 0 ∷ []) ∷ some (5, 0 ∷ []) ∷ some (6, 0 ∷ []) ∷ [];
  arg_size_array = 0 ∷ 0 ∷ 0 ∷ [];
  ret_value = 0;
  had_error = false;
  sig_num = 0;
  did_jump = false;
  need_alarm = false;
  test_syscall = none;
}

abbrev pub generated : ChildCtx
generated = record child {
  syscall_symbol = 3;
  current_arg = 2;
  total_args = 3;
  need_alarm = true;
  arg_value_array = some (100, word_of 40) ∷ some (101, word_of 41) ∷ some (102, word_of 42) ∷ [];
}

abbrev pub counters : GlobalState
counters = record { running_children = 1; test_counter = 5 }

-- read(40, 101, 42) of the toy kernel gives the sum of its arguments.
abbrev pub tested : ChildCtx
tested = record generated { test_syscall = some vpv_id; ret_value = 183 }
