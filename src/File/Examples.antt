-- ===== src/File/Examples.antt =====
-- The theorems on src/file/file.c and src/utils/utils.c at a directory with two files, on a disk in
-- memory.
use nextgen.Base.{
  Bool, ℕ, ◌≤◌, ◌≡◌, ◌↔◌, ◌⊎◌, refl, true, false, Option, none, some, List, [], ◌∷◌, ◌++◌, arith,
  ltb, if◌then◌else◌, done, fault, Status, failure,
}
use nextgen.File.{Text, FileCtx, FileModule, no_files, setup_file_module, get_file}
use nextgen.File.Crash.{NameCalls, ProcessCalls, exited}
use nextgen.File.Disk.{Disk, copy_file_to}
use nextgen.File.Disk.Copied.{WroteOut, copy_file_to-WroteOut}
use nextgen.File.Filled.{SetUp, setup-SetUp, get_file-fault}
use nextgen.File.Slots.{set-Written, fresh-Written}
use nextgen.File.Drive.{Drive, apart, drive}
use nextgen.File.Instances.{drive-IsLawful}
use nextgen.File.Random.Named.{create_random_file-small}
use nextgen.File.Round.Mutated.{Observed}
use nextgen.Mutate.{RandomGenerator}

-- The state is the number that is drawn next, or the range if that is smaller.
abbrev draw : ℕ → ℕ → Option ℕ × ℕ
draw r w = (some (if ltb w r then w else r), w)

draw-le : (r n w : ℕ) → (draw r w).0 ≡ some n → n ≤ r
draw-le r n w e = ground arith

abbrev drawn : RandomGenerator
drawn = record { World = ℕ; range = draw; range-le = draw-le }

-- "d", and the files "d/a.b" and "d/c.b".
abbrev dir : Text
dir = 100 ∷ []

abbrev path_a : Text
path_a = 100 ∷ 47 ∷ 97 ∷ 46 ∷ 98 ∷ []

abbrev path_c : Text
path_c = 100 ∷ 47 ∷ 99 ∷ 46 ∷ 98 ∷ []

abbrev holds : Text → Option (List ℕ)
holds [] = none
holds (x ∷ p) = if ltb x 101 then some (1 ∷ 2 ∷ 3 ∷ []) else none

abbrev start : Drive
start = record {
  content = holds;
  descriptors = [];
  position = λ fd. 0;
  mappings = [];
  started = [];
}

abbrev entries : List Text
entries = (46 ∷ []) ∷ (97 ∷ 46 ∷ 98 ∷ []) ∷ (99 ∷ 46 ∷ 98 ∷ []) ∷ []

setup-SetUp_example :
    (s : Status) × (m : FileModule) × (w : Drive) × (setup_file_module
        (drive true).os
        dir
        dir
        no_files
        start
      ≡ done (s, m, w))
    × ((s ≡ failure) ⊎ SetUp 0 2 m)
unfolding nextgen.Utils.Names.starts_with
setup-SetUp_example =
    setup-SetUp (drive true).os (λ p. some 33188) (λ t w. refl) (λ p w. refl) dir dir entries
      no_files start (λ v. refl) (omega arith)

abbrev ctx_a : FileCtx
ctx_a = record { path = path_a; extension = 98 ∷ []; size = 3 }

abbrev ctx_c : FileCtx
ctx_c = record { path = path_c; extension = 98 ∷ []; size = 3 }

-- The module behind a second set-up: four slots, two of them written.
abbrev twice : FileModule
twice = record no_files {
  file_array = some (some ctx_a ∷ some ctx_c ∷ none ∷ none ∷ []);
  file_count = 4;
  path_to_exec = some path_c;
}

twice-SetUp : SetUp 2 2 twice
twice-SetUp = record {
  array = some ctx_a ∷ some ctx_c ∷ none ∷ none ∷ [];
  has_array = refl;
  counted = refl;
  whole = refl;
  written =
      set-Written (some ctx_a ∷ none ∷ none ∷ none ∷ []) 1 ctx_c
        (set-Written (none ∷ none ∷ none ∷ none ∷ []) 0 ctx_a (fresh-Written 4) (omega arith))
        (omega arith);
  some_file = omega arith;
}

-- Slot 2 is drawn.
get_file-fault_example :
    (get_file (drive true).os drawn twice 2 start ≡ fault)
    ↔ ((i : ℕ) × ((draw 3 2).0 ≡ some i) × (2 ≤ i))
get_file-fault_example =
    get_file-fault (drive true).os drawn 2 2 twice 2 start (omega arith) twice-SetUp

copy_file_to-WroteOut_example :
    WroteOut
      (drive true)
      (drive-IsLawful true)
      start
      path_c
      (1 ∷ 2 ∷ 3 ∷ [])
      (copy_file_to (drive true) path_a path_c start).1
unfolding copy_file_to nextgen.File.Disk.map_file_in nextgen.File.get_file_size
    nextgen.File.Disk.map_file_out
copy_file_to-WroteOut_example =
    copy_file_to-WroteOut (drive true) (drive-IsLawful true) path_a path_c (1 ∷ 2 ∷ 3 ∷ []) start
      (apart path_a path_c refl) refl (omega arith) refl

abbrev naming : NameCalls Drive
naming = record { rand_bytes = λ w. (some (1 ∷ []), w); hash = λ bs. some (101 ∷ []) }

-- A program that runs is written down with its argument and the file there.
abbrev start_program : Option Text → List Text → Drive → Bool × Drive
start_program program [] w = (false, w)
start_program program (file ∷ rest) w =
    (true, record w { started = (program, file, w.content file) ∷ w.started })

abbrev processes : ProcessCalls Drive
processes = record {
  fork = λ w. (some 7, w);
  seteuid = λ u w. (true, w);
  execv = start_program;
  pthread_create = λ pid w. (true, w);
  waitpid = λ pid w. (exited, w);
  pthread_join = λ w. w;
}

abbrev observed : Observed (drive true) (drive-IsLawful true) processes
observed = record {
  runs = λ w. w.started;
  runs-fork = λ w. refl;
  runs-seteuid = λ u w. refl;
  runs-execv = λ program file w e. refl;
  content-fork = λ q w. refl;
  content-seteuid = λ u q w. refl;
}

abbrev print_path : Text → Option Text → Drive → Option Text × Drive
print_path root none w = (some (root ++ (47 ∷ [])), w)
print_path root (some name) w = (some (root ++ (47 ∷ name)), w)

abbrev slashed : Text → Option Text → Text
slashed root none = root ++ (47 ∷ [])
slashed root (some name) = root ++ (47 ∷ name)

print_path-slashed :
    (root t : Text) (name : Option Text) (w : Drive)
    → (print_path root name w).0 ≡ some t
    → t ≡ slashed root name
print_path-slashed root t none w e = ground (arith, e)
print_path-slashed root t (some name) w e = ground (arith, e)

-- The number 6 is drawn.
create_random_file-small_example : (dir ++ (47 ∷ []) ≡ slashed dir none) × (1 ≤ 7) × (7 ≤ 4096)
unfolding nextgen.File.Random.create_random_file nextgen.File.Random.name_and_fill
    nextgen.File.Random.fill_file nextgen.File.Random.generate_file_name
    nextgen.Utils.Names.behind_last nextgen.File.Disk.map_file_out
create_random_file-small_example =
    create_random_file-small (drive true) drawn (λ n r. (some (5 ∷ []), r)) (λ n w. (some 9, w))
      (λ p w. (true, w)) print_path slashed print_path-slashed dir (98 ∷ []) (dir ++ (47 ∷ [])) 0 7
      6 start (omega arith) refl
