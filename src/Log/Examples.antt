-- ===== src/Log/Examples.antt =====
-- The log of src/log/log.c on storage that keeps the names of its directories.
use nextgen.Base.{
  ℕ, ◌≡◌, refl, Bool, true, false, List, [], ◌∷◌, ◌==◌, ◌&&◌, ◌||◌, if◌then◌else◌, success, arith,
}
use nextgen.Log.{
  Storage, LogModule, Statement, create_arg_entry, create_syscall_entry, insert_syscall_entry,
  create_out_directory, create_log_file, execute, setup_tables, open_log, setup_log_module,
  crash_dir,
}

abbrev same_name : List ℕ → List ℕ → Bool
same_name [] [] = true
same_name [] (c ∷ cs) = false
same_name (d ∷ ds) [] = false
same_name (d ∷ ds) (c ∷ cs) = d == c && same_name ds cs

same_name_self : (p : List ℕ) → same_name p p ≡ true
same_name_self [] = refl
same_name_self (c ∷ cs) = ground (arith, same_name_self cs)

abbrev has : List (List ℕ) → List ℕ → Bool
has [] p = false
has (q ∷ qs) p = same_name q p || has qs p

abbrev make : List ℕ → List (List ℕ) → Bool × List (List ℕ)
make p w = if has w p then (false, w) else (true, p ∷ w)

make-has : (p : List ℕ) (w : List (List ℕ)) → has w p ≡ true → (make p w).0 ≡ false
make-has p w e = ground (arith, e)

has-make : (p : List ℕ) (w : List (List ℕ)) → (make p w).0 ≡ true → has (make p w).1 p ≡ true
has-make p w e = ground (arith, same_name_self p)

make_keeps : (p q : List ℕ) (w : List (List ℕ)) → has w q ≡ true → has (make p w).1 q ≡ true
make_keeps p q w e = ground arith

-- Only the statement that is not complete is refused.
abbrev accepts : Statement → Bool
accepts create_arg_entry = true
accepts create_syscall_entry = true
accepts insert_syscall_entry = false

abbrev disk : Storage
disk = record {
  World = List (List ℕ);
  mkdir = make;
  asprintf = λ w. (true, w);
  sqlite3_open = λ p w. (true, w);
  sqlite3_exec = λ db t w. (accepts t, w);
  exists = has;
  mkdir-exists = make-has;
  exists-mkdir = has-make;
  mkdir_keeps = make_keeps;
  asprintf_keeps = λ q w e. e;
  open_keeps = λ p q w e. e;
  exec_keeps = λ db t q w e. e;
  exec_incomplete = λ db w. refl;
}

abbrev closed : LogModule
closed = record { set = false; total_syscalls = 0; db = false }

abbrev opened : LogModule
opened = record { set = false; total_syscalls = 56; db = true }

abbrev after : List (List ℕ)
after = (111 ∷ crash_dir) ∷ (111 ∷ []) ∷ []

first_setup : setup_log_module disk (111 ∷ []) 56 closed [] ≡ (success, opened, after)
unfolding setup_log_module create_out_directory open_log create_log_file setup_tables execute
first_setup = refl
