-- ===== src/File/Random/Named.antt =====
-- The names and the sizes of the random files of src/utils/utils.c.
use nextgen.Base.{
  ℕ, ◌+◌, ◌*◌, ◌/◌, ◌%◌, ◌^◌, ◌≡◌, ◌≤◌, ◌<◌, ◌∷◌, sym, ◌∙◌, Bool, Option, none, some, List, arith,
  Bool-cases, Option-cases, inl, inr, is_success,
}
use nextgen.File.{Text}
use nextgen.File.Disk.{Disk, map_file_out}
use nextgen.File.Random.{generate_file_name, fill_file, name_and_fill, create_random_file}
use nextgen.Mutate.{RandomGenerator}
use nextgen.Utils.Names.{dot, behind_last}

module _ (d : Disk) (random : RandomGenerator)
    (bytes : ℕ → random.World → Option (List ℕ) × random.World)
    (alloc : ℕ → d.World → Option ℕ × d.World) (mkdir : Text → d.World → Bool × d.World)
    (print_path : Text → Option Text → d.World → Option Text × d.World)
    (printed : Text → Option Text → Text)
    (prints : (root t : Text) (name : Option Text) (w : d.World)
      → (print_path root name w).0 ≡ some t
      → t ≡ printed root name) where
  fill_file-small :
      (path p : Text) (size n : ℕ) (r : random.World) (w : d.World)
      → size < 2 ^ 32
      → (fill_file d random bytes alloc mkdir print_path path size r w).0 ≡ some (p, n)
      → (p ≡ path) × (1 ≤ n) × (n ≤ 4096)
  unfolding fill_file
  fill_file-small path p size n r w small ok = elim (Option-cases (random.range 4095 r).0) [
    | inl e ↦ ground (arith, e, ok)
    | inr (low, e) ↦
        let r₁ = (random.range 4095 r).1 in
        let at_most = random.range-le 4095 low r e in
        let grown = (size / 2 ^ 32 * 2 ^ 32 + low + 1) % 2 ^ 64 in
        let sized : grown ≡ low + 1 = omega (arith, at_most) in
        let w₁ = (alloc ((grown + 1) % 2 ^ 64) w).1 in
        elim (Option-cases (alloc ((grown + 1) % 2 ^ 64) w).0) [
          | inl f ↦ ground (arith, e, f, ok)
          | inr (buf, f) ↦ elim (Option-cases (bytes (grown % 2 ^ 32) r₁).0) [
            | inl g ↦ ground (arith, e, f, g, ok)
            | inr (bs, g) ↦
                let out = map_file_out d path buf grown (d.store buf bs w₁) in
                elim (Bool-cases (is_success out.0)) [
                  | inr k ↦ ground (arith, e, f, g, k, ok)
                  | inl k ↦
                      let same : path ≡ p = ground (arith, e, f, g, k, ok) in
                      let long : grown ≡ n = ground (arith, e, f, g, k, ok) in
                      (sym same, omega (arith, sized, long), omega (arith, sized, long, at_most))
                ]
          ]
        ]
  ]

  name_and_fill-small :
      (root extension p : Text) (size n : ℕ) (r : random.World) (w : d.World)
      → size < 2 ^ 32
      → (name_and_fill d random bytes alloc mkdir print_path root extension size r w).0
        ≡ some (p, n)
      → (p ≡ printed root none) × (1 ≤ n) × (n ≤ 4096)
  unfolding name_and_fill generate_file_name
  name_and_fill-small root extension p size n r w small ok =
      let w₁ = (print_path root none w).1 in
      elim (Option-cases (print_path root none w).0) [
        | inl e ↦ ground (arith, e, ok)
        | inr (path, e) ↦
            let (here, low, high) =
              fill_file-small path p size n r w₁ small (ground (arith, e, ok)) in
            (here ∙ prints root path none w e, low, high)
      ]

  -- When create_random_file succeeds, for a size variable below 2 ^ 32, the size is from 1 to 4096; and
  -- the path is what asprintf makes of the root and a NULL name, whatever was drawn and whatever
  -- extension was asked for: all random files of a directory are one file.
  pub create_random_file-small :
      (root ext p : Text) (size n : ℕ) (r : random.World) (w : d.World)
      → size < 2 ^ 32
      → (create_random_file d random bytes alloc mkdir print_path root ext size r w).0 ≡ some (p, n)
      → (p ≡ printed root none) × (1 ≤ n) × (n ≤ 4096)
  unfolding create_random_file
  create_random_file-small root ext p size n r w small ok =
      elim (Option-cases (behind_last dot ext)) [
        | inr (t, e) ↦ name_and_fill-small root ext p size n r w small (ground (arith, e, ok))
        | inl e ↦
            let w₁ = (d.os.asprintf (dot ∷ ext) w).1 in
            elim (Option-cases (d.os.asprintf (dot ∷ ext) w).0) [
              | inl f ↦ ground (arith, e, f, ok)
              | inr (x, f) ↦
                  name_and_fill-small root x p size n r w₁ small (ground (arith, e, f, ok))
            ]
      ]
