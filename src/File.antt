-- ===== src/File.antt =====
-- The input files of src/file/file.c: counting them (count_files_directory of src/utils/utils.c),
-- the array of their contexts, setup_file_module and get_file. A text is the list of its bytes.
pub mod Slots
pub mod Filled
pub mod Disk
pub mod Crash
pub mod Round
pub mod Random
mod Drive
mod Instances
mod Examples
use Prim.Native.Nat.{bit_and}
use nextgen.Base.{
  ℕ, ◌+◌, ◌*◌, ◌%◌, ◌^◌, ◌-◌, Bool, true, false, Option, none, some, List, [], ◌∷◌, ◌++◌, ◌==◌, ltb,
  if◌then◌else◌, get_elem?, set, length, replicate, Outcome, done, fault, ◌>>=◌, Status, success,
  failure, is_success,
}
use nextgen.Mutate.{RandomGenerator}
use nextgen.Utils.Names.{dot, starts_with, get_extension}

abbrev pub Text : Type 0
Text = List ℕ

-- The byte of '/', and the bit of `st_mode` for a regular file.
abbrev pub slash : ℕ
slash = 47

abbrev pub s_ifreg : ℕ
s_ifreg = 32768

-- The calls of the system, over its state. `opendir` gives the names that readdir then gives;
-- `asprintf` gives the text that is printed, unless it fails; `stat` gives the mode, `fstat` the mode
-- and the size. A descriptor is a number.
pub record FileCalls (World : Type 0) : Type 0 where
  pub opendir : Text → World → Option (List Text) × World
  pub closedir : World → Status × World
  pub asprintf : Text → World → Option Text × World
  pub stat : Text → World → Option ℕ × World
  pub malloc : ℕ → World → Bool × World
  pub open_file : Text → World → Option ℕ × World
  pub fstat : ℕ → World → Option (ℕ × ℕ) × World
  pub close : ℕ → World → World

-- `struct file_ctx`; its type is never written.
pub record FileCtx : Type 0 where
  pub path : Text
  pub extension : Text
  pub size : ℕ

-- The file-scope variables. A slot of the array is `none` until it is written.
pub record FileModule : Type 0 where
  pub path_to_exec : Option Text
  pub start_offset : ℕ
  pub file_array : Option (List (Option FileCtx))
  pub file_count : ℕ
  pub input_dir : Option Text
  pub setup : Bool

abbrev pub no_files : FileModule
no_files = record {
  path_to_exec = none;
  start_offset = 0;
  file_array = none;
  file_count = 0;
  input_dir = none;
  setup = false;
}

abbrev pub join : Text → Text → Text
join dir name = dir ++ (slash ∷ name)

-- S_ISREG: of the four bits of the kind of file, exactly this one is set.
abbrev pub s_isreg : ℕ → Bool
s_isreg st_mode = bit_and st_mode 61440 == s_ifreg

abbrev pub has_ifreg : ℕ → Bool
has_ifreg st_mode = elim (bit_and st_mode s_ifreg == 0) [ true ↦ false | false ↦ true ]

module _ {World : Type 0} (os : FileCalls World) where
  -- The walk over the names, with the counter, which is changed in place.
  unfoldable pub count_loop : Text → List Text → ℕ → World → Status × ℕ × World
  count_loop dir [] count w = (success, count, w)
  count_loop dir (name ∷ names) count w = elim (starts_with (dot ∷ []) name) [
    | true ↦ count_loop dir names count w
    | false ↦
        let (file_path, w₁) = os.asprintf (join dir name) w in
        elim file_path [
          | none ↦ (failure, count, (os.closedir w₁).1)
          | some path ↦
              let (buf, w₂) = os.stat path w₁ in
              elim buf [
                | none ↦ (failure, count, (os.closedir w₂).1)
                | some st_mode ↦
                    count_loop dir names (if has_ifreg st_mode then (count + 1) % 2 ^ 32 else count)
                      w₂
              ]
        ]
  ]

  unfoldable pub count_files_directory : ℕ → Text → World → Status × ℕ × World
  count_files_directory count dir w =
      let (directory, w₁) = os.opendir dir w in
      elim directory [
        | none ↦ (failure, count, w₁)
        | some names ↦
            let (rtrn, counted, w₂) = count_loop dir names count w₁ in
            if is_success rtrn
            then (let (closed, w₃) = os.closedir w₂ in (closed, counted, w₃))
            else (failure, counted, w₂)
      ]

  unfoldable pub get_file_size : ℕ → World → Option ℕ × World
  get_file_size fd w =
      let (stbuf, w₁) = os.fstat fd w in
      elim stbuf [
        | none ↦ (none, w₁)
        | some (st_mode, st_size) ↦ if s_isreg st_mode then (some st_size, w₁) else (none, w₁)
      ]

  abbrev pub sizeof_file_ctx : ℕ
  sizeof_file_ctx = 32

  -- The descriptor, once it is opened, is closed on every return (utils/autoclose.h).
  unfoldable pub init_file_ctx : Option Text → World → Option FileCtx × World
  init_file_ctx none w = (none, w)
  init_file_ctx (some path) w =
      let (file, w₁) = os.malloc sizeof_file_ctx w in
      if file
      then elim (get_extension path) [
        | none ↦ (none, w₁)
        | some extension ↦
            let (copy, w₂) = os.asprintf path w₁ in
            elim copy [
              | none ↦ (none, w₂)
              | some kept ↦
                  let (opened, w₃) = os.open_file path w₂ in
                  elim opened [
                    | none ↦ (none, w₃)
                    | some fd ↦
                        let (measured, w₄) = get_file_size fd w₃ in
                        elim measured [
                          | none ↦ (none, os.close fd w₄)
                          | some size ↦ (
                            some (record { path = kept; extension = extension; size = size }),
                            os.close fd w₄,
                          )
                        ]
                  ]
            ]
      ]
      else (none, w₁)

  -- The walk that fills the array, with the index counter; a write behind the array's end faults.
  unfoldable pub fill_loop :
      Text
      → List Text
      → List (Option FileCtx)
      → ℕ
      → World
      → Outcome (Option (List (Option FileCtx) × ℕ) × World)
  fill_loop input_dir [] array index_counter w = done (some (array, index_counter), w)
  fill_loop input_dir (name ∷ names) array index_counter w = elim (starts_with (dot ∷ []) name) [
    | true ↦ fill_loop input_dir names array index_counter w
    | false ↦
        let (file_path, w₁) = os.asprintf (join input_dir name) w in
        elim file_path [
          | none ↦ done (none, (os.closedir w₁).1)
          | some path ↦
              let (buf, w₂) = os.stat path w₁ in
              elim buf [
                | none ↦ done (none, w₂)
                | some st_mode ↦ elim (has_ifreg st_mode) [
                  | false ↦ fill_loop input_dir names array index_counter w₂
                  | true ↦
                      let (file, w₃) = init_file_ctx (some path) w₂ in
                      elim (ltb index_counter (length array)) [
                        | false ↦ fault
                        | true ↦ elim file [
                          | none ↦ done (none, w₃)
                          | some ctx ↦
                              fill_loop input_dir names (set array index_counter (some ctx))
                                ((index_counter + 1) % 2 ^ 32) w₃
                        ]
                      ]
                ]
              ]
        ]
  ]

  -- mem_alloc gives NULL for 0 bytes. The directory is not closed.
  unfoldable pub init_file_array :
      Text → Text → ℕ → World → Outcome (Option (List (Option FileCtx)) × World)
  init_file_array input_dir dir size w =
      if size == 0
      then done (none, w)
      else (let (array, w₁) = os.malloc (size * 8) w in
          if array
          then (let (directory, w₂) = os.opendir dir w₁ in
              elim directory [
                | none ↦ done (none, w₂)
                | some names ↦
                    fill_loop input_dir names (replicate size none) 0 w₂ >>= λ (filled, w₃).
                    elim filled [
                      | none ↦ done (none, w₃)
                      | some (files, index_counter) ↦
                          if index_counter == 0 then done (none, w₃) else done (some files, w₃)
                    ]
              ])
          else done (none, w₁))

  -- `stop_ptr`, which is set with `setup`, is the pointer given.
  unfoldable pub setup_file_module :
      Text → Text → FileModule → World → Outcome (Status × FileModule × World)
  setup_file_module exec_path input m w =
      let (rtrn, counted, w₁) = count_files_directory m.file_count input w in
      let m₁ = record m {
        path_to_exec = some exec_path;
        input_dir = some input;
        file_count = counted;
      } in
      if is_success rtrn
      then (init_file_array input input counted w₁ >>= λ (array, w₂). elim array [
        | none ↦ done (failure, record m₁ { file_array = none }, w₂)
        | some files ↦ done (success, record m₁ { file_array = some files; setup = true }, w₂)
      ])
      else done (failure, m₁, w₁)

  -- `file_count - 1` is on 32 bits. Reading the array through NULL, outside it or in a slot that was
  -- not written faults. The results: the descriptor, if a file was opened, and the extension, `none`
  -- for -1.
  unfoldable pub get_file :
      (random : RandomGenerator)
      → FileModule
      → random.World
      → World
      → Outcome (Option ℕ × Option Text × random.World × World)
  get_file random m r w =
      let (offset, r₁) = random.range ((m.file_count + (2 ^ 32 - 1)) % 2 ^ 32) r in
      elim offset [
        | none ↦ done (none, none, r₁, w)
        | some i ↦ elim m.file_array [
          | none ↦ fault
          | some array ↦ elim (get_elem? array i) [
            | none ↦ fault
            | some slot ↦ elim slot [
              | none ↦ fault
              | some ctx ↦
                  let (file, w₁) = os.open_file ctx.path w in
                  elim file [
                    | none ↦ done (none, none, r₁, w₁)
                    | some fd ↦
                        let (extension, w₂) = os.asprintf ctx.extension w₁ in
                        done (some fd, extension, r₁, w₂)
                  ]
            ]
          ]
        ]
      ]

unfoldable pub get_exec_path : FileModule → Option (Option Text)
get_exec_path m = if m.setup then some m.path_to_exec else none

unfoldable pub set_start_addr : ℕ → FileModule → FileModule
set_start_addr addr m = record m { start_offset = addr }

abbrev pub get_start_addr : FileModule → ℕ
get_start_addr m = m.start_offset

-- The loop of initial_fuzz_run has an empty body.
unfoldable pub initial_fuzz_run : FileModule → Status
initial_fuzz_run m = success

unfoldable pub set_end_offset : ℕ → Status
set_end_offset offset = success
