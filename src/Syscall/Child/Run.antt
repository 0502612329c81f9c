-- ===== src/Syscall/Child/Run.antt =====
-- pick_syscall, generate_arguments, generate_test_case, test_syscall and free_old_arguments of
-- src/syscall/syscall.c, and mutate_arguments of src/mutate/mutate.c.
use nextgen.Base.{
  ℕ, zero, suc, ◌+◌, ◌-◌, ◌%◌, ◌^◌, Bool, true, false, Option, none, some, List, if◌then◌else◌, ltb,
  get_elem?, set, Outcome, done, fault, ◌>>=◌, Status, success, failure,
}
use nextgen.Syscall.ArgTypes.{ArgType, ArgContext, file_desc, void_buf, file_path, dir_path, socket}
use nextgen.Syscall.SetTest.{set_test_syscall}
use nextgen.Syscall.Table.{SyscallEntry, SyscallTable, get_entry}
use nextgen.Syscall.Child.Context.{Buffer, ChildCtx, set_arg_size, memcpy, address, load_word}
use nextgen.Syscall.Child.Machine.{Machine}

-- `struct global_state`
pub record GlobalState : Type 0 where
  pub running_children : ℕ
  pub test_counter : ℕ

-- `check_for_failure`: the sign of a 32-bit number.
unfoldable pub check_for_failure : ℕ → Bool
check_for_failure ret_value = ltb (2 ^ 31 - 1) ret_value

-- The call of set_arg_size in a generator.
abbrev pub record_size : Option ℕ → ChildCtx → ChildCtx
record_size none ctx = ctx
record_size (some size) ctx = set_arg_size ctx size

module _ {G : Type 0} (m : Machine G) (sys_table : SyscallTable G) where
  abbrev pub World : Type 0
  World = m.kernel.World

  -- `pick_syscall`. total_syscalls - 1 is computed in 32 bits.
  unfoldable pub pick_syscall : ChildCtx → World → Outcome (Status × ChildCtx × World)
  pick_syscall child w =
      let (num, w₁) = m.range ((sys_table.total_syscalls + 2 ^ 32 - 1) % 2 ^ 32) w in
      elim num [
        | none ↦ done (failure, child, w₁)
        | some n ↦ elim (get_elem? sys_table.sys_entry n) [
          | none ↦ fault
          | some p ↦ elim p [
            | none ↦ fault
            | some entry ↦ done (
              success,
              record child {
                syscall_number = n;
                total_args = entry.total_args;
                syscall_symbol = entry.syscall_symbol;
                need_alarm = entry.need_alarm;
                had_error = false;
              },
              w₁,
            )
          ]
        ]
      ]

  -- One round of the loop of `generate_arguments`, behind get_entry: the generator, the call of
  -- set_arg_size that it makes, and the copy.
  unfoldable pub generate_argument :
      SyscallEntry G → ℕ → ChildCtx → World → Outcome (Status × ChildCtx × World)
  generate_argument entry i ctx w = elim (get_elem? entry.get_arg_array i) [
    | none ↦ fault
    | some g ↦ elim (get_elem? ctx.arg_value_array i) [
      | none ↦ fault
      | some value ↦ m.generate g ctx value w >>= λ r.
          let (code, arg, sized, w₁) = r in
          let ctx₁ = record (record_size sized ctx) {
            arg_value_array = set ctx.arg_value_array i arg;
          } in
          elim code [
            | failure ↦ done (failure, ctx₁, w₁)
            | success ↦ elim (get_elem? ctx₁.arg_copy_array i) [
              | none ↦ fault
              | some copy ↦ elim (get_elem? ctx₁.arg_size_array i) [
                | none ↦ fault
                | some size ↦ memcpy copy arg size >>= λ c.
                    done (success, record ctx₁ { arg_copy_array = set ctx₁.arg_copy_array i c }, w₁)
              ]
            ]
          ]
    ]
  ]

  unfoldable pub generate_loop : ℕ → ℕ → ChildCtx → World → Outcome (Status × ChildCtx × World)
  generate_loop zero i ctx w = done (success, ctx, w)
  generate_loop (suc rounds) i ctx w =
      let ctx₀ = record ctx { current_arg = i } in
      get_entry sys_table ctx.syscall_number >>= λ e. elim e [
        | none ↦ done (failure, ctx₀, w)
        | some entry ↦ generate_argument entry i ctx₀ w >>= λ r. elim r.0 [
          | failure ↦ done (failure, r.1, r.2)
          | success ↦ generate_loop rounds (i + 1) r.1 r.2
        ]
      ]

  unfoldable pub generate_arguments : ChildCtx → World → Outcome (Status × ChildCtx × World)
  generate_arguments ctx w = generate_loop ctx.total_args 0 ctx w

  -- `mutate_arguments` changes nothing.
  unfoldable pub mutate_arguments : ChildCtx → World → Status × ChildCtx × World
  mutate_arguments ctx w = (success, ctx, w)

  -- `generate_test_case`: where the code calls exit_child, the result is `failure`.
  unfoldable pub generate_test_case : ChildCtx → World → Outcome (Status × ChildCtx × World)
  generate_test_case child w = pick_syscall child w >>= λ p. elim p.0 [
    | failure ↦ done p
    | success ↦ generate_arguments p.1 p.2 >>= λ g. elim g.0 [
      | failure ↦ done g
      | success ↦
          let (rtrn, child₁, w₁) = mutate_arguments g.1 g.2 in
          elim rtrn [
            | failure ↦ done (failure, child₁, w₁)
            | success ↦ get_entry sys_table child₁.syscall_number >>= λ e. elim e [
              | none ↦ done (failure, child₁, w₁)
              | some entry ↦
                  let (logged, w₂) = m.log_arguments child₁ entry.arg_context_array w₁ in
                  done (logged, child₁, w₂)
            ]
          ]
    ]
  ]

  -- `test_syscall`. The counter and the result are 32-bit numbers.
  unfoldable pub test_syscall :
      GlobalState → ChildCtx → World → Outcome (Status × GlobalState × ChildCtx × World)
  test_syscall state ctx w =
      let w₁ = if ctx.need_alarm then m.alarm w else w in
      get_entry sys_table ctx.syscall_number >>= λ e. elim e [
        | none ↦ done (failure, state, ctx, w₁)
        | some entry ↦
            let state₁ = record state { test_counter = (state.test_counter + 1) % 2 ^ 32 } in
            elim entry.test_syscall [
              | none ↦ fault
              | some id ↦
                  let values = ctx.arg_value_array in
                  set_test_syscall m.kernel id ctx.syscall_symbol (address values)
                    (load_word values) w₁
                  >>= λ r. done (
                    success,
                    state₁,
                    record ctx {
                      test_syscall = some id;
                      ret_value = r.0;
                      had_error = if check_for_failure r.0 then true else ctx.had_error;
                    },
                    r.1,
                  )
            ]
      ]

  -- The switch of `free_old_arguments` on the type of argument i. Return codes are not looked at.
  unfoldable pub free_argument :
      ArgType → ℕ → Option Buffer → ChildCtx → World → Outcome (ChildCtx × World)
  free_argument file_desc i copy ctx w = m.rsrc_gen.free_desc copy w >>= λ r. done (ctx, r.1)
  free_argument file_path i copy ctx w = m.rsrc_gen.free_filepath copy w >>= λ r.
      done (record ctx { arg_copy_array = set ctx.arg_copy_array i r.1 }, r.2)
  free_argument dir_path i copy ctx w = m.rsrc_gen.free_dirpath copy w >>= λ r.
      done (record ctx { arg_copy_array = set ctx.arg_copy_array i r.1 }, r.2)
  free_argument socket i copy ctx w = m.rsrc_gen.free_socket copy w >>= λ r. done (ctx, r.1)
  free_argument void_buf i copy ctx w = elim (get_elem? ctx.arg_value_array i) [
    | none ↦ fault
    | some value ↦ elim (get_elem? ctx.arg_size_array i) [
      | none ↦ fault
      | some size ↦ elim value [
        | none ↦ done (ctx, (m.allocator.free_shared none size w).1)
        | some (a, bytes) ↦
            let (p, w₁) = m.allocator.free_shared (some a) size w in
            done (
              record ctx {
                arg_value_array =
                    set ctx.arg_value_array i (elim p [ none ↦ none | some b ↦ some (b, bytes) ]);
              },
              w₁,
            )
      ]
    ]
  ]
  free_argument _ i copy ctx w = done (ctx, w)

  unfoldable pub free_loop :
      List (Option ArgContext) → ℕ → ℕ → ChildCtx → World → Outcome (ChildCtx × World)
  free_loop contexts zero i ctx w = done (ctx, w)
  free_loop contexts (suc rounds) i ctx w = elim (get_elem? contexts i) [
    | none ↦ fault
    | some p ↦ elim p [
      | none ↦ fault
      | some context ↦ elim (get_elem? ctx.arg_copy_array i) [
        | none ↦ fault
        | some copy ↦ free_argument context.type i copy ctx w >>= λ r.
            free_loop contexts rounds (i + 1) r.0 r.1
      ]
    ]
  ]

  unfoldable pub free_old_arguments : ChildCtx → World → Outcome (Status × ChildCtx × World)
  free_old_arguments ctx w = get_entry sys_table ctx.syscall_number >>= λ e. elim e [
    | none ↦ done (failure, ctx, w)
    | some entry ↦
        free_loop entry.arg_context_array ctx.total_args 0 ctx w >>= λ r. done (success, r.0, r.1)
  ]
