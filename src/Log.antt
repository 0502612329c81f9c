-- ===== src/Log.antt =====
-- src/log/log.c: the set-up of the log, its tables, and the writes to it. Texts are lists of bytes.
-- The calls of sqlite and of the system are parameters; messages on the console are left out.
pub mod Once
mod Examples
use nextgen.Base.{
  ℕ, ◌≡◌, Bool, true, false, Option, none, some, List, [], ◌∷◌, ◌++◌, if◌then◌else◌, ltb, Status,
  success, failure,
}

-- The body of log_file is a comment.
unfoldable pub log_file : List ℕ → List ℕ → Status
log_file file_path file_extension = success

-- The statements that the code gives to sqlite: the two tables, and the one of
-- write_arguments_to_log, which ends after its opening bracket.
pub data Statement : Type 0 where
  create_arg_entry create_syscall_entry insert_syscall_entry : Statement

-- The calls, by whether they succeed. mkdir fails on a name that is there, and what is there stays;
-- sqlite3_exec refuses a statement that is not complete.
pub record Storage : Type 1 where
  pub World : Type 0
  pub mkdir : List ℕ → World → Bool × World
  pub asprintf : World → Bool × World
  pub sqlite3_open : List ℕ → World → Bool × World
  pub sqlite3_exec : Bool → Statement → World → Bool × World
  pub exists : World → List ℕ → Bool
  pub mkdir-exists : (p : List ℕ) (w : World) → exists w p ≡ true → (mkdir p w).0 ≡ false
  pub exists-mkdir : (p : List ℕ) (w : World) → (mkdir p w).0 ≡ true → exists (mkdir p w).1 p ≡ true
  pub mkdir_keeps : (p q : List ℕ) (w : World) → exists w q ≡ true → exists (mkdir p w).1 q ≡ true
  pub asprintf_keeps : (q : List ℕ) (w : World) → exists w q ≡ true → exists (asprintf w).1 q ≡ true
  pub open_keeps :
      (p q : List ℕ) (w : World) → exists w q ≡ true → exists (sqlite3_open p w).1 q ≡ true
  pub exec_keeps :
      (db : Bool) (s : Statement) (q : List ℕ) (w : World)
      → exists w q ≡ true
      → exists (sqlite3_exec db s w).1 q ≡ true
  pub exec_incomplete : (db : Bool) (w : World) → (sqlite3_exec db insert_syscall_entry w).0 ≡ false

-- The file-scope variables. `db` says whether sqlite3_open has stored a connection.
pub record LogModule : Type 0 where
  pub set : Bool
  pub total_syscalls : ℕ
  pub db : Bool

-- "/crash_dir" and "/log.nx", and ARG_LIMIT.
abbrev pub crash_dir : List ℕ
crash_dir = 47 ∷ 99 ∷ 114 ∷ 97 ∷ 115 ∷ 104 ∷ 95 ∷ 100 ∷ 105 ∷ 114 ∷ []

abbrev pub log_nx : List ℕ
log_nx = 47 ∷ 108 ∷ 111 ∷ 103 ∷ 46 ∷ 110 ∷ 120 ∷ []

abbrev pub arg_limit : ℕ
arg_limit = 7

module _ (s : Storage) where
  open s use {World, mkdir, asprintf, sqlite3_open, sqlite3_exec}

  unfoldable pub create_out_directory : List ℕ → World → Status × World
  create_out_directory path w =
      let (made, w₁) = mkdir path w in
      if made
      then (let (printed, w₂) = asprintf w₁ in
          if printed
          then (let (crash, w₃) = mkdir (path ++ crash_dir) w₂ in
              (if crash then success else failure, w₃))
          else (failure, w₂))
      else (failure, w₁)

  -- The connection is stored whether or not it could be opened.
  unfoldable pub create_log_file : Option (List ℕ) → LogModule → World → Status × LogModule × World
  create_log_file none m w = (failure, m, w)
  create_log_file (some path) m w =
      let (opened, w₁) = sqlite3_open path w in
      (if opened then success else failure, record m { db = true }, w₁)

  -- create_arg_entry_table, create_syscall_entry_table and the end of write_arguments_to_log.
  unfoldable pub execute : Statement → LogModule → World → Status × World
  execute statement m w =
      let (printed, w₁) = asprintf w in
      if printed
      then (let (stored, w₂) = sqlite3_exec m.db statement w₁ in
          (if stored then success else failure, w₂))
      else (failure, w₁)

  unfoldable pub setup_tables : LogModule → World → Status × World
  setup_tables m w =
      let (arg_entry, w₁) = execute create_arg_entry m w in
      elim arg_entry [ failure ↦ (failure, w₁) | success ↦ execute create_syscall_entry m w₁ ]

  -- What setup_log_module does once the directory is there.
  unfoldable pub open_log : List ℕ → ℕ → LogModule → World → Status × LogModule × World
  open_log path syscall_max m w =
      let (printed, w₁) = asprintf w in
      if printed
      then (let (created, m₁, w₂) = create_log_file (some (path ++ log_nx)) m w₁ in
          elim created [
            | failure ↦ (failure, m₁, w₂)
            | success ↦
                let (tables, w₃) = setup_tables m₁ w₂ in
                elim tables [
                  | failure ↦ (failure, m₁, w₃)
                  | success ↦ (success, record m₁ { total_syscalls = syscall_max }, w₃)
                ]
          ])
      else (failure, m, w₁)

  unfoldable pub setup_log_module : List ℕ → ℕ → LogModule → World → Status × LogModule × World
  setup_log_module path syscall_max m w =
      if m.set
      then (failure, m, w)
      else let (directory, w₁) = create_out_directory path w in
        elim directory [ failure ↦ (failure, m, w₁) | success ↦ open_log path syscall_max m w₁ ]

  -- `values` says whether arg_value_array is not NULL; nothing else is read of it.
  unfoldable pub write_arguments_to_log : ℕ → Bool → ℕ → LogModule → World → Status × World
  write_arguments_to_log total_args values syscall_number m w =
      if ltb arg_limit total_args
      then (failure, w)
      else if values
      then (if ltb m.total_syscalls syscall_number
          then (failure, w)
          else execute insert_syscall_entry m w)
      else (failure, w)

  -- `log_results`, which makes one of two texts and prints it: `err_value` is NULL or a text.
  unfoldable pub log_results : Option (List ℕ) → World → Status × World
  log_results none w = (failure, w)
  log_results (some err_value) w =
      let (printed, w₁) = asprintf w in (if printed then success else failure, w₁)
