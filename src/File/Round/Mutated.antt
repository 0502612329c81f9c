-- ===== src/File/Round/Mutated.antt =====
-- What a round of start_main_file_loop of src/file/file.c runs the target on.
use nextgen.Base.{ℕ, ◌≡◌, ◌++◌, Option, some, List, true, [], ◌∷◌, success}
use nextgen.File.{Text}
use nextgen.File.Crash.{NameCalls, ProcessCalls, parent_process, run_test_case}
use nextgen.File.Disk.{Disk, IsLawful}
use nextgen.File.Round.{tmp}
use nextgen.Mutate.{RandomGenerator}
use nextgen.Mutate.Damage.{OneByte}

-- The runs of programs that have begun, the last first: what the program is, its argument, and the
-- file there. Neither fork nor seteuid begins one or changes a file.
pub record Observed (d : Disk) (law : IsLawful d) (process : ProcessCalls d.World) : Type 0 where
  pub runs : d.World → List (Option Text × Text × Option Text)
  pub runs-fork : (w : d.World) → runs (process.fork w).1 ≡ runs w
  pub runs-seteuid : (u : ℕ) (w : d.World) → runs (process.seteuid u w).1 ≡ runs w
  pub runs-execv :
      (program : Option Text) (file : Text) (w : d.World)
      → (process.execv program (file ∷ []) w).0 ≡ true
      → runs (process.execv program (file ∷ []) w).1 ≡ (program, file, law.content w file) ∷ runs w
  pub content-fork : (q : Text) (w : d.World) → law.content (process.fork w).1 q ≡ law.content w q
  pub content-seteuid :
      (u : ℕ) (q : Text) (w : d.World) → law.content (process.seteuid u w).1 q ≡ law.content w q

module _ (random : RandomGenerator) (d : Disk) (law : IsLawful d) (names : NameCalls d.World)
    (process : ProcessCalls d.World)
    (content-rand : (q : Text) (w : d.World)
      → law.content (names.rand_bytes w).1 q ≡ law.content w q)
    (mapped-rand : (a : ℕ) (w : d.World) → law.mapped (names.rand_bytes w).1 a ≡ law.mapped w a)
    (seen : Observed d law process) where
  open law use {content, mapped}

  -- A child can take the user number and run the target.
  abbrev pub Runs : Option Text → Type 0
  Runs exec =
      (w : d.World)
      → ((process.seteuid 501 w).0 ≡ true)
        × ((file : Text) → (process.execv exec (file ∷ []) w).0 ≡ true)

  -- The target `exec` was run on a file under /tmp that holds `out`, as the input file then does,
  -- and the parent waited for it.
  pub record Ran (exec : Option Text) (src extension out : Text) : Type 0 where
    pub name : Text
    pub world : d.World
    pub after : d.World
    pub pid : ℕ
    pub test_case : content world (tmp ++ name) ≡ some out
    pub input : content world src ≡ some out
    pub executed : seen.runs after ≡ (exec, tmp ++ name, some out) ∷ seen.runs world
    pub tested :
        run_test_case d names process exec (tmp ++ name) extension world
        ≡ parent_process d names process pid (tmp ++ name) extension after
    pub ended : (parent_process d names process pid (tmp ++ name) extension after).0 ≡ success

  -- A round that goes on to the next one: the input file `src`, with the bytes `bs`, was drawn.
  pub record Tested (exec : Option Text) (src : Text) (extension bs : Text) : Type 0 where
    pub out : Text
    pub one_byte : OneByte bs out
    pub ran : Ran exec src extension out
