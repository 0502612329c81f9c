-- ===== src/Log/Once.antt =====
-- How often the set-up of src/log/log.c succeeds, and what is ever logged.
use nextgen.Base.{ℕ, ◌≡◌, Bool, true, false, List, arith, success, failure, ◌++◌}
use nextgen.Log.{
  Storage, LogModule, Statement, create_arg_entry, create_syscall_entry, crash_dir, log_nx,
  create_out_directory, create_log_file, execute, setup_tables, open_log, setup_log_module,
  write_arguments_to_log,
}

module _ (s : Storage) where
  execute_keeps :
      (t : Statement) (m : LogModule) (q : List ℕ) (w : s.World)
      → s.exists w q ≡ true
      → s.exists (execute s t m w).1 q ≡ true
  unfolding execute
  execute_keeps t m q w e =
      ground (arith, s.asprintf_keeps q w, s.exec_keeps m.db t q (s.asprintf w).1)

  tables_keep :
      (m : LogModule) (q : List ℕ) (w : s.World)
      → s.exists w q ≡ true
      → s.exists (setup_tables s m w).1 q ≡ true
  unfolding setup_tables
  tables_keep m q w e = ground (
    arith,
    execute_keeps create_arg_entry m q w,
    execute_keeps create_syscall_entry m q (execute s create_arg_entry m w).1,
  )

  directory_made :
      (path : List ℕ) (w : s.World)
      → (create_out_directory s path w).0 ≡ success
      → s.exists (create_out_directory s path w).1 path ≡ true
  unfolding create_out_directory
  directory_made path w e =
      let w₁ = (s.mkdir path w).1 in
      ground (
        arith,
        s.exists-mkdir path w,
        s.asprintf_keeps path w₁,
        s.mkdir_keeps (path ++ crash_dir) path (s.asprintf w₁).1,
      )

  directory_refused :
      (path : List ℕ) (w : s.World)
      → s.exists w path ≡ true
      → (create_out_directory s path w).0 ≡ failure
  unfolding create_out_directory
  directory_refused path w e = ground (arith, s.mkdir-exists path w e)

  open_log-kept :
      (path : List ℕ) (n : ℕ) (m r : LogModule) (w v : s.World)
      → open_log s path n m w ≡ (success, r, v)
      → s.exists w path ≡ true
      → (s.exists v path ≡ true) × (r.set ≡ m.set) × (r.total_syscalls ≡ n)
  unfolding open_log create_log_file
  open_log-kept path n m r w v e x =
      let w₁ = (s.asprintf w).1 in
      let o = s.sqlite3_open (path ++ log_nx) w₁ in
      ground (
        arith,
        s.asprintf_keeps path w,
        s.open_keeps (path ++ log_nx) path w₁,
        tables_keep (record m { db = true }) path o.1,
      )

  -- After setup_log_module has returned 0 for a directory, the largest number of a system call is the
  -- one given and the flag of the set-up is what it was, not set; a second call for the same
  -- directory fails all the same.
  setup_log-setup_log :
      (path : List ℕ) (n k : ℕ) (m r : LogModule) (w v : s.World)
      → setup_log_module s path n m w ≡ (success, r, v)
      → (r.total_syscalls ≡ n) × (r.set ≡ false) × ((setup_log_module s path k r v).0 ≡ failure)
  unfolding setup_log_module
  setup_log-setup_log path n k m r w v e =
      let d = create_out_directory s path w in
      let made = directory_made path w in
      ground (arith, made, open_log-kept path n m r d.1 v, directory_refused path v)

  -- write_arguments_to_log never returns 0, whatever it is given.
  write_arguments-fails :
      (total_args syscall_number : ℕ) (values : Bool) (m : LogModule) (w : s.World)
      → (write_arguments_to_log s total_args values syscall_number m w).0 ≡ failure
  unfolding write_arguments_to_log execute
  write_arguments-fails t n values m w = ground (arith, s.exec_incomplete m.db (s.asprintf w).1)
