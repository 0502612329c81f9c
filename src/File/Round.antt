-- ===== src/File/Round.antt =====
-- start_main_file_loop of src/file/file.c: one round of the loop, and the loop.
pub mod Mutated
use nextgen.Base.{
  ℕ, ◌++◌, ◌∷◌, [], Bool, true, false, Option, none, some, List, if◌then◌else◌, Outcome, done,
  blocked, ◌>>=◌, Status, success, failure, is_success,
}
use nextgen.File.{Text, FileModule, get_file}
use nextgen.File.Crash.{NameCalls, ProcessCalls, run_test_case}
use nextgen.File.Disk.{Disk, read_write, map_file_in, map_file_out}
use nextgen.Log.{log_file}
use nextgen.Mutate.{RandomGenerator, mutate_file}
use nextgen.Utils.Names.{file_name, generate_name}

-- The bytes of "/tmp/".
abbrev pub tmp : Text
tmp = 47 ∷ 116 ∷ 109 ∷ 112 ∷ 47 ∷ []

module _ (random : RandomGenerator) (d : Disk) (names : NameCalls d.World)
    (process : ProcessCalls d.World) where
  -- What a round leaves: -1 where the loop's function returns.
  abbrev pub Ended : Type 0
  Ended = Status × random.World × d.World

  -- From the writing of the test case on. The descriptor is closed when the round is left.
  unfoldable pub run_file : Option Text → ℕ → Text → Text → ℕ → ℕ → d.World → Status × d.World
  run_file path_to_exec fd file_path extension buf size w =
      let (written, w₁) = map_file_out d file_path buf size w in
      if is_success written
      then (if is_success (log_file file_path extension)
          then (let (tested, w₂) =
                run_test_case d names process path_to_exec file_path extension w₁ in
              if is_success tested
              then (let (removed, w₃) = d.unlink file_path (d.munmap buf size w₂) in
                  (removed, d.os.close fd w₃))
              else (failure, d.os.close fd w₂))
          else (failure, d.os.close fd w₁))
      else (failure, d.os.close fd w₁)

  -- From the choice of the name on.
  unfoldable pub name_file : Option Text → ℕ → Text → ℕ → ℕ → d.World → Status × d.World
  name_file path_to_exec fd extension buf size w =
      let (random_data, w₁) = names.rand_bytes w in
      elim (generate_name random_data names.hash (some extension) file_name) [
        | none ↦ (failure, d.os.close fd w₁)
        | some name ↦
            let (file_path, w₂) = d.os.asprintf (tmp ++ name) w₁ in
            elim file_path [
              | none ↦ (failure, d.os.close fd w₂)
              | some path ↦ run_file path_to_exec fd path extension buf size w₂
            ]
      ]

  -- The mutators work in the mapped memory. They keep the size, so `file_size` is what it was.
  unfoldable pub mutate_mapped : Text → ℕ → ℕ → random.World → d.World → Outcome Ended
  mutate_mapped extension buf size r w =
      mutate_file random extension (d.load buf size w) r >>= λ (mutated, file, r₁).
      done (mutated, r₁, d.store buf file w)

  unfoldable pub round : FileModule → random.World → d.World → Outcome Ended
  round m r w = get_file d.os random m r w >>= λ (file, file_extension, r₁, w₁). elim file [
    | none ↦ done (failure, r₁, w₁)
    | some fd ↦ elim file_extension [
      | none ↦ done (failure, r₁, d.os.close fd w₁)
      | some extension ↦
          let (mapping, w₂) = map_file_in d fd read_write w₁ in
          elim mapping [
            | none ↦ done (failure, r₁, d.os.close fd w₂)
            | some (buf, size) ↦ mutate_mapped extension buf size r₁ w₂ >>= λ (mutated, r₂, w₃).
                (if is_success mutated
                  then (let (ended, w₄) = name_file m.path_to_exec fd extension buf size w₃ in
                      done (ended, r₂, w₄))
                  else done (failure, r₂, d.os.close fd w₃))
          ]
    ]
  ]

  -- The loop, over the values that are read through `stop_ptr`; it still runs at their end.
  unfoldable pub start_main_file_loop :
      FileModule → List Bool → random.World → d.World → Outcome Ended
  start_main_file_loop m [] r w = blocked
  start_main_file_loop m (true ∷ stops) r w = done (success, r, w)
  start_main_file_loop m (false ∷ stops) r w = round m r w >>= λ (ended, r₁, w₁). elim ended [
    | failure ↦ done (failure, r₁, w₁)
    | success ↦ start_main_file_loop m stops r₁ w₁
  ]
