-- ===== src/File/Filled.antt =====
-- What setup_file_module of src/file/file.c makes of a directory, and what get_file then reads.
use nextgen.Base.{
  ℕ, ◌+◌, ◌*◌, ◌%◌, ◌^◌, ◌-◌, ◌≡◌, ◌≤◌, ◌<◌, ◌↔◌, refl, ◌∙◌, subst, true, false, Option, none, some,
  List, ◌==◌, ltb, length, replicate, length-replicate, arith, done, fault, Bool-cases,
  Option-cases, inl, inr, ◌⊎◌, Status, success, failure,
}
use nextgen.Mutate.{RandomGenerator}
use nextgen.File.{
  Text, FileCalls, FileCtx, FileModule, count_files_directory, fill_loop, init_file_array,
  setup_file_module, get_file,
}
use nextgen.File.Slots.{
  Written, files_in, fresh-Written, Grown, Fills, fill_loop-Grown, count_files-files,
}

Status-cases : (s : Status) → (s ≡ success) ⊎ (s ≡ failure)
Status-cases success = inl refl
Status-cases failure = inr refl

-- The module behind a set-up that found `found` files, when it had counted `before`.
pub record SetUp (before found : ℕ) (m : FileModule) : Type 0 where
  pub array : List (Option FileCtx)
  pub has_array : m.file_array ≡ some array
  pub counted : m.file_count ≡ before + found
  pub whole : length array ≡ before + found
  pub written : Written array found
  pub some_file : 0 < found

-- The directory does not change: its names are `names`, and stat answers by `st`.
module _ {World : Type 0} (os : FileCalls World) (st : Text → Option ℕ)
    (prints : (t : Text) (w : World) → (os.asprintf t w).0 ≡ some t)
    (stats : (path : Text) (w : World) → (os.stat path w).0 ≡ st path) where
  -- With as many slots as were counted, the array is filled or the set-up fails.
  ArrayGrown : ℕ → ℕ → Option (List (Option FileCtx)) → Type 0
  ArrayGrown size found none = Unit
  ArrayGrown size found (some array) = Written array found × (length array ≡ size) × (0 < found)

  Arrays : Text → List Text → ℕ → World → Type 0
  Arrays dir names size w =
      (o : Option (List (Option FileCtx))) × (w' : World) × (init_file_array os dir dir size w
        ≡ done (o, w'))
      × ArrayGrown size (files_in st dir names) o

  walked-Grown :
      (dir : Text) (names : List Text) (size : ℕ) (w : World)
      → (size == 0) ≡ false
      → (os.malloc (size * 8) w).0 ≡ true
      → (os.opendir dir (os.malloc (size * 8) w).1).0 ≡ some names
      → (o : Option (List (Option FileCtx) × ℕ)) (w' : World)
      → fill_loop os dir names (replicate size none) 0 (os.opendir dir (os.malloc (size * 8) w).1).1
        ≡ done (o, w')
      → Grown (replicate size none) (0 + files_in st dir names) o
      → Arrays dir names size w
  unfolding init_file_array ArrayGrown Arrays
  walked-Grown dir names size w z a opened none w' run grown =
      (none, w', ground (arith, z, a, opened, run), tt)
  walked-Grown dir names size w z a opened (some (files, i)) w' run grown =
      let fresh : List (Option FileCtx) = replicate size none in
      let long : length fresh ≡ size = length-replicate size none in
      let total : i ≡ files_in st dir names = omega (arith, grown.1) in
      elim (Bool-cases (i == 0)) [
        | inl e ↦ (none, w', ground (arith, z, a, opened, run, e), tt)
        | inr e ↦ (
          some files,
          w',
          ground (arith, z, a, opened, run, e),
          (
            subst (Written files) total grown.0,
            omega (arith, grown.2, long),
            ground (arith, e, total),
          ),
        )
      ]

  init_file_array-Grown :
      (dir : Text) (names : List Text) (size : ℕ) (w : World)
      → ((v : World) → (os.opendir dir v).0 ≡ some names)
      → size < 2 ^ 32
      → files_in st dir names ≤ size
      → Arrays dir names size w
  unfolding init_file_array ArrayGrown Fills Arrays
  init_file_array-Grown dir names size w opens small room = elim (Bool-cases (size == 0)) [
    | inl z ↦ (none, w, ground (arith, z), tt)
    | inr z ↦
        let w₁ = (os.malloc (size * 8) w).1 in
        elim (Bool-cases (os.malloc (size * 8) w).0) [
          | inr a ↦ (none, w₁, ground (arith, z, a), tt)
          | inl a ↦
              let fresh : List (Option FileCtx) = replicate size none in
              let long : length fresh ≡ size = length-replicate size none in
              let (o, w', run, grown) =
                fill_loop-Grown os st prints stats dir names fresh 0 (os.opendir dir w₁).1
                  (fresh-Written size) (omega (arith, long)) (omega (arith, long)) in
              walked-Grown dir names size w z a (opens w₁) o w' run grown
        ]
  ]

  -- setup_file_module on a directory that does not change, where every text can be printed and the
  -- counter does not wrap around, never faults. If it succeeds, then the array has a slot for each
  -- file that was ever counted, and those that are written are the first ones, as many as there are
  -- files in the directory, at least one.
  pub setup-SetUp :
      (exec_path input : Text) (names : List Text) (m : FileModule) (w : World)
      → ((v : World) → (os.opendir input v).0 ≡ some names)
      → m.file_count + files_in st input names < 2 ^ 32
      → (s : Status) × (m' : FileModule) × (w' : World) × (setup_file_module os exec_path input m w
          ≡ done (s, m', w'))
        × ((s ≡ failure) ⊎ SetUp m.file_count (files_in st input names) m')
  unfolding setup_file_module ArrayGrown Arrays
  setup-SetUp exec_path input names m w opens few =
      let counting = count_files_directory os m.file_count input w in
      let m₁ = record m {
        path_to_exec = some exec_path;
        input_dir = some input;
        file_count = counting.1;
      } in
      elim (Status-cases counting.0) [
        | inr bad ↦ (failure, m₁, counting.2, ground (arith, bad), inl refl)
        | inl ok ↦
            let total =
              count_files-files os st prints stats m.file_count input names w opens few ok in
            let (o, w', run, grown) =
              init_file_array-Grown input names counting.1 counting.2 opens (omega (arith, total))
                (omega (arith, total)) in
            elim (Option-cases o) [
              | inl e ↦ (
                failure,
                record m₁ { file_array = none },
                w',
                ground (arith, ok, run, e),
                inl refl,
              )
              | inr (array, e) ↦
                  let good = subst (ArrayGrown counting.1 (files_in st input names)) e grown in
                  (
                    success,
                    record m₁ { file_array = some array; setup = true },
                    w',
                    ground (arith, ok, run, e),
                    inr (record {
                      array = array;
                      has_array = refl;
                      counted = total;
                      whole = good.1 ∙ total;
                      written = good.0;
                      some_file = good.2;
                    }),
                  )
            ]
      ]

-- Behind such a set-up, with a random generator whose numbers are in range, get_file reads outside
-- the array or in a slot that was not written exactly when the offset drawn is not below the number
-- of files in the directory: never if the counter was 0 before.
pub get_file-fault :
    {World : Type 0} (os : FileCalls World)
    → (random : RandomGenerator) (before found : ℕ) (m : FileModule) (r : random.World) (w : World)
    → before + found < 2 ^ 32
    → SetUp before found m
    → (get_file os random m r w ≡ fault)
      ↔ ((i : ℕ) × ((random.range (before + found - 1) r).0 ≡ some i) × (found ≤ i))
unfolding get_file
get_file-fault os random before found m r w few up =
    let last : (m.file_count + (2 ^ 32 - 1)) % 2 ^ 32 ≡ before + found - 1 =
      omega (arith, up.counted, up.some_file) in
    rw (last, get_file)
      (elim (Option-cases (random.range (before + found - 1) r).0) [
        | inl e ↦ (λ f. ground (arith, e), λ p. ground (arith, e, p.1))
        | inr (i, e) ↦
            let at_most = random.range-le (before + found - 1) i r e in
            elim (Bool-cases (ltb i found)) [
              | inl low ↦
                  let (c, slot) = up.written.low i (ground (arith, low)) in
                  (
                    λ f. elim (Option-cases (os.open_file c.path w).0) [
                      | inl o ↦ absurd (ground (arith, e, up.has_array, slot, o, f))
                      | inr (fd, o) ↦
                          elim (Option-cases
                            (os.asprintf c.extension (os.open_file c.path w).1).0) [
                              | inl s ↦ absurd (ground (arith, e, up.has_array, slot, o, s, f))
                              | inr (text, s) ↦
                                  absurd (ground (arith, e, up.has_array, slot, o, s, f))
                            ]
                    ],
                    λ p. ground (arith, e, low, p.1, p.2),
                  )
              | inr high ↦
                  let slot =
                    up.written.high i (ground (arith, high))
                      (omega (arith, at_most, up.whole, up.some_file)) in
                  (λ f. (i, e, ground (arith, high)), λ p. ground (arith, e, up.has_array, slot))
            ]
      ])
