-- ===== src/Mutate.antt =====
-- The file mutators of src/mutate/mutate.c, and the three functions of src/plugins/plugin.c that
-- mutate_file calls. A file is the list of its bytes; the random generator is a parameter, as it is
-- in the code.
pub mod Bytes
pub mod Damage
mod Examples
use Prim.Native.Nat.{bit_xor}
use nextgen.Base.{
  ℕ, zero, suc, ◌-◌, ◌%◌, ◌^◌, ◌≡◌, ◌≤◌, Bool, false, Option, none, some, List, ◌==◌, if◌then◌else◌,
  get_elem?, set, length, Outcome, done, fault, ◌>>=◌, Status, success, failure,
}

-- `struct random_generator`, of which the mutators call `range`: `none` is the return code -1.
-- A number that it yields is at most the range, as with the generator of src/crypto/crypto.c.
pub record RandomGenerator : Type 1 where
  pub World : Type 0
  pub range : ℕ → World → Option ℕ × World
  pub range-le : (r n : ℕ) (w : World) → (range r w).0 ≡ some n → n ≤ r

-- `~` on a byte, and `^= 1 << bit`, of which the byte keeps the low eight bits.
unfoldable pub flip_byte : ℕ → ℕ
flip_byte b = 255 - b

unfoldable pub flip_bit : ℕ → ℕ → ℕ
flip_bit bit b = bit_xor b (2 ^ bit) % 256

-- A read, change and write of `file[offset]`.
unfoldable pub change_at : ℕ → (ℕ → ℕ) → List ℕ → Outcome (List ℕ)
change_at offset f file = elim (get_elem? file offset) [
  | none ↦ fault
  | some b ↦ done (set file offset (f b))
]

module _ (random : RandomGenerator) where
  -- The common type of the mutators: the file and the file size are changed in place.
  abbrev pub Mutator : Type 0
  Mutator = List ℕ → random.World → Outcome (Status × List ℕ × random.World)

  unfoldable pub flip_byte_mutator : Mutator
  flip_byte_mutator file w =
      let (offset, w₁) = random.range (length file % 2 ^ 32) w in
      elim offset [
        | none ↦ done (failure, file, w₁)
        | some i ↦ change_at i flip_byte file >>= λ f. done (success, f, w₁)
      ]

  unfoldable pub flip_bit_mutator : Mutator
  flip_bit_mutator file w =
      let (offset, w₁) = random.range (length file % 2 ^ 32) w in
      elim offset [
        | none ↦ done (failure, file, w₁)
        | some i ↦
            let (bit, w₂) = random.range 8 w₁ in
            elim bit [
              | none ↦ done (failure, file, w₂)
              | some k ↦ change_at i (flip_bit k) file >>= λ f. done (success, f, w₂)
            ]
      ]

  unfoldable pub xor_mutator : Mutator
  xor_mutator file w = done (success, file, w)

  abbrev pub number_of_mutators : ℕ
  number_of_mutators = 3

  -- `mutator_array`; an index behind its end reads outside the array.
  unfoldable pub mutator_array : ℕ → Mutator
  mutator_array zero file w = flip_byte_mutator file w
  mutator_array (suc zero) file w = flip_bit_mutator file w
  mutator_array (suc (suc zero)) file w = xor_mutator file w
  mutator_array (suc (suc (suc n))) file w = fault

  unfoldable pub mutate_file_randomly : Mutator
  mutate_file_randomly file w =
      let (offset, w₁) = random.range (number_of_mutators - 1) w in
      elim offset [ none ↦ done (failure, file, w₁) | some i ↦ mutator_array i file w₁ ]

  -- `supported_file` of plugin.c returns 0, which is not TRUE, and leaves the offset alone;
  -- `features_supported` leaves the number of features alone; `feature_constraints` returns 0.
  unfoldable pub supported_file : List ℕ → Bool
  supported_file file_extension = false

  abbrev pub features_supported : ℕ → ℕ
  features_supported number_of_features = number_of_features

  abbrev pub feature_constraints : Status
  feature_constraints = success

  -- A failure of the chosen mutator is passed on.
  unfoldable pub mutate_file : List ℕ → Mutator
  mutate_file file_extension file w =
      if supported_file file_extension
      then (let (number, w₁) = random.range 10 w in
          elim number [
            | none ↦ done (failure, file, w₁)
            | some n ↦
                if n == 10
                then mutate_file_randomly file w₁
                else (let (feature, w₂) = random.range (features_supported 0) w₁ in
                    elim feature [
                      | none ↦ done (failure, file, w₂)
                      | some _ ↦ done (feature_constraints, file, w₂)
                    ])
          ])
      else mutate_file_randomly file w
