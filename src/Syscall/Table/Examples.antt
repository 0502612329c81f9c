-- ===== src/Syscall/Table/Examples.antt =====
-- The table of src/syscall/syscall.c built of one entry, that of read(2) in linux/entry_read.c.
use nextgen.Base.{
  ℕ, ◌≤◌, ◌<◌, ◌≡◌, ◌⊎◌, refl, true, none, some, [], ◌∷◌, get_elem?, replicate, done,
}
use nextgen.Syscall.ArgTypes.{
  file_desc, void_buf, size, file_desc_ctx, void_buf_ctx, size_ctx, get_arg_context,
}
use nextgen.Syscall.SetTest.{vpv_id}
use nextgen.Syscall.Table.{
  on, off, SyscallEntry, SyscallTable, get_entry, set_contexts, set_entry, set_entries,
  build_syscall_table,
}
use nextgen.Syscall.Table.Built.{IsReady, build-get_entry}

abbrev entry_read : SyscallEntry ℕ
entry_read = record {
  syscall_symbol = 0;
  status = off;
  need_alarm = true;
  arg_type_array = file_desc ∷ void_buf ∷ size ∷ replicate 4 file_desc;
  total_args = 3;
  arg_context_array = replicate 7 none;
  get_arg_array = 0 ∷ 1 ∷ 2 ∷ [];
  test_syscall = none;
  id = vpv_id;
}

abbrev one_entry : SyscallTable ℕ
one_entry = record { total_syscalls = 1; sys_entry = some entry_read ∷ none ∷ none ∷ [] }

abbrev ready_read : SyscallEntry ℕ
ready_read = record entry_read {
  status = on;
  test_syscall = some vpv_id;
  arg_context_array = some file_desc_ctx ∷ some void_buf_ctx ∷ some size_ctx ∷ replicate 4 none;
}

abbrev one_built : SyscallTable ℕ
one_built = record one_entry { sys_entry = some ready_read ∷ none ∷ none ∷ [] }

one_builds : build_syscall_table (some one_entry) (some 64) ≡ done (some one_built)
unfolding build_syscall_table set_entries set_entry set_contexts get_arg_context
one_builds = refl

build-get_entry_example :
    ((e : SyscallEntry ℕ) × (f : SyscallEntry ℕ) × (0 < 1)
      × (get_elem? one_entry.sys_entry 0 ≡ some (some e))
      × (get_entry one_built 0 ≡ done (some f))
      × IsReady e f)
    ⊎ ((1 ≤ 0) × (get_entry one_built 0 ≡ done none))
build-get_entry_example = build-get_entry one_entry one_built (some 64) 0 one_builds refl
