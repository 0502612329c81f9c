-- ===== src/File/Crash/Lost.antt =====
-- What src/file/file-freebsd.c keeps of a test case that crashed the target.
use nextgen.Base.{ℕ, ◌≡◌, ◌++◌, none, some, List, Status, failure}
use nextgen.File.{Text}
use nextgen.File.Disk.{Disk, IsLawful}
use nextgen.File.Crash.{NameCalls, ProcessCalls, crash_dir}

module _ (d : Disk) (law : IsLawful d) (names : NameCalls d.World) (process : ProcessCalls d.World)
    (content-rand : (q : Text) (w : d.World)
      → law.content (names.rand_bytes w).1 q ≡ law.content w q)
    (below_file : (p : Text) (bs name : List ℕ) (w : d.World)
      → law.content w p ≡ some bs
      → (d.creat (p ++ (crash_dir ++ name)) w).0 ≡ none) where
  open law use {content}

  -- What a call that fails leaves behind.
  abbrev Left : d.World → Status × d.World → Type 0
  Left w r = (r.0 ≡ failure) × ((q : Text) → content r.1 q ≡ content w q)
