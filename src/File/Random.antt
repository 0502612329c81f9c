-- ===== src/File/Random.antt =====
-- The random files and directories of src/utils/utils.c. The functions that should make their names
-- return 0 and leave the pointer to the name NULL.
pub mod Named
use nextgen.Base.{
  ℕ, ◌+◌, ◌*◌, ◌/◌, ◌%◌, ◌^◌, ◌∷◌, Bool, Option, none, some, List, if◌then◌else◌, Status, success,
  is_success,
}
use nextgen.File.{Text}
use nextgen.File.Disk.{Disk, map_file_out}
use nextgen.Mutate.{RandomGenerator}
use nextgen.Utils.Names.{dot, behind_last}

-- The name stays as it was.
unfoldable pub generate_file_name : Option Text → Text → Status × Option Text
generate_file_name name extension = (success, name)

unfoldable pub generate_directory_name : Option Text → Status × Option Text
generate_directory_name name = (success, name)

-- `print_path`: asprintf with the format "%s/%s", of a root and a name that may be NULL. `bytes`: what
-- the generator's function of that name fills a buffer with; `alloc`: the allocator's. `mkdir`: whether
-- the directory was made.
module _ (d : Disk) (random : RandomGenerator)
    (bytes : ℕ → random.World → Option (List ℕ) × random.World)
    (alloc : ℕ → d.World → Option ℕ × d.World) (mkdir : Text → d.World → Bool × d.World)
    (print_path : Text → Option Text → d.World → Option Text × d.World) where
  -- From the choice of the size on. The generator's range writes the low half of `*size`, the number
  -- given. The result's size is `*size`.
  unfoldable pub fill_file :
      Text → ℕ → random.World → d.World → Option (Text × ℕ) × random.World × d.World
  fill_file path size r w =
      let (picked, r₁) = random.range 4095 r in
      elim picked [
        | none ↦ (none, r₁, w)
        | some low ↦
            let grown = (size / 2 ^ 32 * 2 ^ 32 + low + 1) % 2 ^ 64 in
            let (junk, w₁) = alloc ((grown + 1) % 2 ^ 64) w in
            elim junk [
              | none ↦ (none, r₁, w₁)
              | some buf ↦
                  let (filled, r₂) = bytes (grown % 2 ^ 32) r₁ in
                  elim filled [
                    | none ↦ (none, r₂, w₁)
                    | some bs ↦
                        let (out, w₂) = map_file_out d path buf grown (d.store buf bs w₁) in
                        if is_success out then (some (path, grown), r₂, w₂) else (none, r₂, w₂)
                  ]
            ]
      ]

  -- From the generated name on.
  unfoldable pub name_and_fill :
      Text → Text → ℕ → random.World → d.World → Option (Text × ℕ) × random.World × d.World
  name_and_fill root extension size r w =
      let (rtrn, name) = generate_file_name none extension in
      if is_success rtrn
      then (let (joined, w₁) = print_path root name w in
          elim joined [ none ↦ (none, r, w₁) | some path ↦ fill_file path size r w₁ ])
      else (none, r, w)

  unfoldable pub create_random_file :
      Text → Text → ℕ → random.World → d.World → Option (Text × ℕ) × random.World × d.World
  create_random_file root ext size r w = elim (behind_last dot ext) [
    | some _ ↦ name_and_fill root ext size r w
    | none ↦
        let (extension, w₁) = d.os.asprintf (dot ∷ ext) w in
        elim extension [ none ↦ (none, r, w₁) | some e ↦ name_and_fill root e size r w₁ ]
  ]

  unfoldable pub create_random_directory : Text → d.World → Option Text × d.World
  create_random_directory root w =
      let (rtrn, name) = generate_directory_name none in
      if is_success rtrn
      then (let (joined, w₁) = print_path root name w in
          elim joined [
            | none ↦ (none, w₁)
            | some path ↦
                let (made, w₂) = mkdir path w₁ in if made then (some path, w₂) else (none, w₂)
          ])
      else (none, w)
