-- ===== src/Syscall/Table.antt =====
-- The table of system calls of src/syscall: entry.h, syscall_table.h, and get_entry,
-- build_syscall_table and get_syscall_table of syscall.c. Names of system calls, which only messages
-- and logs use, are left out. A generator (`get_arg_array[i]`) is known by a value of G.
pub mod Built
mod Examples
use nextgen.Base.{
  ℕ, zero, suc, ◌+◌, Bool, Option, none, some, List, [], ◌∷◌, if◌then◌else◌, ltb, length, get_elem?,
  set, Outcome, done, fault, ◌>>=◌,
}
use nextgen.Syscall.ArgTypes.{ArgType, ArgContext, get_arg_context}
use nextgen.Syscall.SetTest.{TestId}

-- `enum syscall_status`
pub data SyscallStatus : Type 0 where
  on off : SyscallStatus

-- `struct syscall_entry`. `test_syscall` is the id whose test function the pointer leads to.
pub record SyscallEntry (G : Type 0) : Type 0 where
  pub syscall_symbol : ℕ
  pub status : SyscallStatus
  pub need_alarm : Bool
  pub arg_type_array : List ArgType
  pub total_args : ℕ
  pub arg_context_array : List (Option ArgContext)
  pub get_arg_array : List G
  pub test_syscall : Option TestId
  pub id : TestId

-- `struct syscall_table`: an array of 56 pointers, some of them NULL.
pub record SyscallTable (G : Type 0) : Type 0 where
  pub total_syscalls : ℕ
  pub sys_entry : List (Option (SyscallEntry G))

module _ {G : Type 0} where
  -- `get_entry`. The outer `none` of a read is outside the array.
  unfoldable pub get_entry : SyscallTable G → ℕ → Outcome (Option (SyscallEntry G))
  get_entry sys_table syscall_number =
      if ltb sys_table.total_syscalls syscall_number
      then done none
      else elim (get_elem? sys_table.sys_entry syscall_number) [ none ↦ fault | some e ↦ done e ]

  -- The loop over the arguments of one entry, `rounds` of them from argument `counter` on; `none`
  -- where build_syscall_table returns NULL.
  unfoldable pub set_contexts : ℕ → ℕ → SyscallEntry G → Outcome (Option (SyscallEntry G))
  set_contexts zero counter entry = done (some entry)
  set_contexts (suc rounds) counter entry = elim (get_elem? entry.arg_type_array counter) [
    | none ↦ fault
    | some type ↦ elim (get_arg_context type) [
      | none ↦ done none
      | some context ↦
          if ltb counter (length entry.arg_context_array)
          then set_contexts rounds (counter + 1) (record entry {
            arg_context_array = set entry.arg_context_array counter (some context);
          })
          else fault
    ]
  ]

  -- The body of the loop over the entries. Storing the test function of an id is set_test_syscall.
  unfoldable pub set_entry : SyscallEntry G → Outcome (Option (SyscallEntry G))
  set_entry entry =
      set_contexts entry.total_args 0 (record entry { test_syscall = some entry.id; status = on })

  unfoldable pub set_entries :
      ℕ → List (Option (SyscallEntry G)) → Outcome (Option (List (Option (SyscallEntry G))))
  set_entries zero es = done (some es)
  set_entries (suc n) [] = fault
  set_entries (suc n) (none ∷ es) = fault
  set_entries (suc n) (some entry ∷ es) = set_entry entry >>= λ r. elim r [
    | none ↦ done none
    | some e ↦ set_entries n es >>= λ q. elim q [
      | none ↦ done none
      | some rest ↦ done (some (some e ∷ rest))
    ]
  ]

  -- `build_syscall_table`: `get_table` and the allocation of the shared copy may give NULL.
  unfoldable pub build_syscall_table :
      Option (SyscallTable G) → Option ℕ → Outcome (Option (SyscallTable G))
  build_syscall_table none table = done none
  build_syscall_table (some syscall_table) none = done none
  build_syscall_table (some syscall_table) (some table) =
      set_entries syscall_table.total_syscalls syscall_table.sys_entry >>= λ r. elim r [
        | none ↦ done none
        | some es ↦ done (some (record syscall_table { sys_entry = es }))
      ]

  -- `get_syscall_table`: the table that was set before, if one was.
  unfoldable pub get_syscall_table :
      Bool
      → Option (SyscallTable G)
      → Option (SyscallTable G)
      → Option ℕ
      → Outcome (Option (SyscallTable G))
  get_syscall_table table_set sys_table syscall_table table =
      if table_set then done sys_table else build_syscall_table syscall_table table
