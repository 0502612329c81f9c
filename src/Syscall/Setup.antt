-- ===== src/Syscall/Setup.antt =====
-- init_child_context and setup_syscall_module of src/syscall/syscall.c. The memory that the shared
-- allocator maps is filled with zeros, as mmap of anonymous memory promises.
pub mod Fresh
mod Examples
use nextgen.Base.{
  ℕ, zero, suc, ◌*◌, Bool, true, false, Option, none, some, List, [], ◌∷◌, replicate, if◌then◌else◌,
  Outcome, done, ◌>>=◌, Status, success, failure,
}
use nextgen.Memory.Alloc.{MemoryAllocator}
use nextgen.Syscall.Table.{SyscallTable, get_syscall_table}
use nextgen.Syscall.Child.Context.{Buffer, ChildCtx, arg_limit}
use nextgen.Syscall.Child.Run.{GlobalState}

-- The sizes of `struct child_ctx`, `struct syscall_table` and `struct global_state`.
abbrev pub sizeof_child : ℕ
sizeof_child = 336

abbrev pub sizeof_table : ℕ
sizeof_table = 456

abbrev pub sizeof_state : ℕ
sizeof_state = 16

-- The file-scope variables that setup_syscall_module sets.
pub record SyscallModule (G : Type 0) : Type 0 where
  pub sys_table : Option (SyscallTable G)
  pub table_set : Bool
  pub state : GlobalState
  pub children : List ChildCtx

module _ {World : Type 0} (allocator : MemoryAllocator World) (arg_buf_len : ℕ) where
  -- The pages of a list of addresses given back, in order.
  unfoldable pub free_all : List (ℕ × ℕ) → World → World
  free_all [] w = w
  free_all ((a, size) ∷ rest) w = free_all rest (allocator.free_shared (some a) size w).1

  -- The loop that allocates the value and the copy of each argument. On failure the buffers that
  -- were allocated before are kept.
  unfoldable pub init_buffers :
      ℕ → World → Option (List (Option Buffer) × List (Option Buffer)) × World
  init_buffers zero w = (some ([], []), w)
  init_buffers (suc n) w =
      let (value, w₁) = allocator.shared arg_buf_len w in
      elim value [
        | none ↦ (none, w₁)
        | some v ↦
            let (copy, w₂) = allocator.shared arg_buf_len w₁ in
            elim copy [
              | none ↦ (none, w₂)
              | some c ↦
                  let (rest, w₃) = init_buffers n w₂ in
                  elim rest [
                    | none ↦ (none, w₃)
                    | some (values, copies) ↦ (
                      some (
                        some (v, replicate arg_buf_len 0) ∷ values,
                        some (c, replicate arg_buf_len 0) ∷ copies,
                      ),
                      w₃,
                    )
                  ]
            ]
      ]

  -- A context in fresh pages.
  abbrev pub fresh_child : List (Option Buffer) → List (Option Buffer) → ChildCtx
  fresh_child values copies = record {
    pid = 0;
    syscall_number = 0;
    syscall_symbol = 0;
    current_arg = 0;
    total_args = 0;
    arg_value_array = values;
    arg_copy_array = copies;
    arg_size_array = replicate arg_limit 0;
    ret_value = 0;
    had_error = false;
    sig_num = 0;
    did_jump = false;
    need_alarm = false;
    test_syscall = none;
  }

  unfoldable pub init_child_context : World → Option ChildCtx × World
  init_child_context w =
      let (child, w₁) = allocator.shared sizeof_child w in
      elim child [
        | none ↦ (none, w₁)
        | some a ↦
            let (values, w₂) = allocator.shared (arg_limit * 8) w₁ in
            elim values [
              | none ↦ (none, free_all ((a, sizeof_child) ∷ []) w₂)
              | some v ↦
                  let (sizes, w₃) = allocator.shared (arg_limit * 8) w₂ in
                  elim sizes [
                    | none ↦ (none, free_all ((v, arg_limit * 8) ∷ (a, sizeof_child) ∷ []) w₃)
                    | some s ↦
                        let (copies, w₄) = allocator.shared (arg_limit * 8) w₃ in
                        let arrays =
                          (s, arg_limit * 8) ∷ (v, arg_limit * 8) ∷ (a, sizeof_child) ∷ [] in
                        elim copies [
                          | none ↦ (none, free_all arrays w₄)
                          | some c ↦
                              let (made, w₅) = init_buffers arg_limit w₄ in
                              elim made [
                                | none ↦ (none, free_all ((c, arg_limit * 8) ∷ arrays) w₅)
                                | some (vs, cs) ↦ (some (fresh_child vs cs), w₅)
                              ]
                        ]
                  ]
            ]
      ]

  -- The loop of setup_syscall_module over the children.
  unfoldable pub init_children : ℕ → World → Option (List ChildCtx) × World
  init_children zero w = (some [], w)
  init_children (suc n) w =
      let (child, w₁) = init_child_context w in
      elim child [
        | none ↦ (none, w₁)
        | some c ↦
            let (rest, w₂) = init_children n w₁ in
            elim rest [ none ↦ (none, w₂) | some cs ↦ (some (c ∷ cs), w₂) ]
      ]

  -- The place for the shared copy of a table, where one is to be built.
  unfoldable pub table_place : {G : Type 0} → Option (SyscallTable G) → World → Option ℕ × World
  table_place none w = (none, w)
  table_place (some t) w = allocator.shared sizeof_table w

  -- `setup_syscall_module`: `cores` is what get_core_count gives, `test_counter` the counter of the
  -- caller. Variables that are set before a failure are not read after it, and are left out.
  unfoldable pub setup_syscall_module :
      {G : Type 0}
      → Option ℕ
      → ℕ
      → Option (SyscallTable G)
      → SyscallModule G
      → World
      → Outcome (Status × SyscallModule G × World)
  setup_syscall_module none test_counter syscall_table m w = done (failure, m, w)
  setup_syscall_module (some cores) test_counter syscall_table m w =
      let (place, w₁) = table_place (if m.table_set then none else syscall_table) w in
      get_syscall_table m.table_set m.sys_table syscall_table place >>= λ t. elim t [
        | none ↦ done (failure, m, w₁)
        | some table ↦
            let (state, w₂) = allocator.shared sizeof_state w₁ in
            elim state [
              | none ↦ done (failure, m, w₂)
              | some _ ↦
                  let (index, w₃) = allocator.shared (cores * 8) w₂ in
                  elim index [
                    | none ↦ done (failure, m, w₃)
                    | some _ ↦
                        let (children, w₄) = init_children cores w₃ in
                        elim children [
                          | none ↦ done (failure, m, w₄)
                          | some cs ↦ done (
                            success,
                            record {
                              sys_table = some table;
                              table_set = true;
                              state = record { running_children = 0; test_counter = test_counter };
                              children = cs;
                            },
                            w₄,
                          )
                        ]
                  ]
            ]
      ]
