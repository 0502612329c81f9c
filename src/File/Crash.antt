-- ===== src/File/Crash.antt =====
-- run_test_case and handle_crash of src/file/file-freebsd.c. What is printed is left out.
pub mod Lost
use nextgen.Base.{
  ℕ, ◌++◌, ◌∷◌, [], Bool, false, Option, none, some, List, if◌then◌else◌, Status, success, failure,
}
use nextgen.File.{Text}
use nextgen.File.Disk.{Disk, copy_file_to}
use nextgen.Utils.Names.{file_name, generate_name}

-- What generate_name calls: rand_bytes and the digest.
pub record NameCalls (World : Type 0) : Type 0 where
  pub rand_bytes : World → Option (List ℕ) × World
  pub hash : List ℕ → Option (List ℕ)

-- The signals that the switch tells apart.
pub data Signal : Type 0 where
  sigkill sigsegv sigbus other_signal : Signal

-- What waitpid says of the child.
pub data WaitStatus : Type 0 where
  exited : WaitStatus
  signaled : Signal → WaitStatus

-- `fork` gives the parent the process number of the child, `none` for -1. `pthread_create` starts the
-- thread that kills the child after a second. `seteuid` and `execv` are the calls of the child;
-- `execv` is `true` if the program runs, which may be at NULL or at a path, with the arguments.
pub record ProcessCalls (World : Type 0) : Type 0 where
  pub fork : World → Option ℕ × World
  pub seteuid : ℕ → World → Bool × World
  pub execv : Option Text → List Text → World → Bool × World
  pub pthread_create : ℕ → World → Bool × World
  pub waitpid : ℕ → World → WaitStatus × World
  pub pthread_join : World → World

-- The bytes of "/crash_dir/".
abbrev pub crash_dir : Text
crash_dir = 47 ∷ 99 ∷ 114 ∷ 97 ∷ 115 ∷ 104 ∷ 95 ∷ 100 ∷ 105 ∷ 114 ∷ 47 ∷ []

module _ (d : Disk) (names : NameCalls d.World) (process : ProcessCalls d.World) where
  unfoldable pub handle_crash : Text → Text → d.World → Status × d.World
  handle_crash file_path file_extension w =
      let (random_data, w₁) = names.rand_bytes w in
      elim (generate_name random_data names.hash (some file_extension) file_name) [
        | none ↦ (failure, w₁)
        | some name ↦
            let (path, w₂) = d.os.asprintf (file_path ++ (crash_dir ++ name)) w₁ in
            elim path [ none ↦ (failure, w₂) | some p ↦ copy_file_to d file_path p w₂ ]
      ]

  -- The result of handle_crash is not looked at.
  unfoldable pub after_wait : WaitStatus → Text → Text → d.World → d.World
  after_wait exited file_path file_extension w = w
  after_wait (signaled sigkill) file_path file_extension w = w
  after_wait (signaled sigsegv) file_path file_extension w =
      (handle_crash file_path file_extension w).1
  after_wait (signaled sigbus) file_path file_extension w =
      (handle_crash file_path file_extension w).1
  after_wait (signaled other_signal) file_path file_extension w = w

  -- The branch of the child: whether the target runs.
  unfoldable pub child_process : Option Text → Text → d.World → Bool × d.World
  child_process exec_path file_path w =
      let (rtrn, w₁) = process.seteuid 501 w in
      if rtrn then process.execv exec_path (file_path ∷ []) w₁ else (false, w₁)

  -- The branch of the parent.
  unfoldable pub parent_process : ℕ → Text → Text → d.World → Status × d.World
  parent_process child_pid file_path file_extension w =
      let (created, w₁) = process.pthread_create child_pid w in
      if created
      then (let (status, w₂) = process.waitpid child_pid w₁ in
          (success, process.pthread_join (after_wait status file_path file_extension w₂)))
      else (failure, w₁)

  -- What the child does is taken to come before what the parent does: the parent waits for it, or
  -- leaves at once.
  unfoldable pub run_test_case : Option Text → Text → Text → d.World → Status × d.World
  run_test_case exec_path file_path file_extension w =
      let (child_pid, w₁) = process.fork w in
      elim child_pid [
        | none ↦ (failure, w₁)
        | some pid ↦
            parent_process pid file_path file_extension (child_process exec_path file_path w₁).1
      ]
