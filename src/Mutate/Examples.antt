-- ===== src/Mutate/Examples.antt =====
-- The mutators of src/mutate/mutate.c on a file of three bytes.
use nextgen.Base.{
  ℕ, ◌≤◌, ◌≡◌, refl, Option, some, List, [], ◌∷◌, arith, ltb, if◌then◌else◌, success,
}
use nextgen.Mutate.{
  RandomGenerator, flip_bit, change_at, flip_bit_mutator, mutator_array, mutate_file_randomly,
  supported_file, mutate_file,
}
use nextgen.Mutate.Damage.{OneByte, mutate_file-OneByte}

-- The state is the number that is drawn next, or the range if that is smaller.
abbrev draw : ℕ → ℕ → Option ℕ × ℕ
draw r w = (some (if ltb w r then w else r), w)

draw-le : (r n w : ℕ) → (draw r w).0 ≡ some n → n ≤ r
draw-le r n w e = ground arith

abbrev drawn : RandomGenerator
drawn = record { World = ℕ; range = draw; range-le = draw-le }

abbrev file : List ℕ
file = 1 ∷ 2 ∷ 3 ∷ []

-- In state 1 the bit mutator is chosen, at offset 1 and bit 1.
mutate_file-OneByte_example : OneByte file (1 ∷ 0 ∷ 3 ∷ [])
unfolding mutate_file supported_file mutate_file_randomly mutator_array flip_bit_mutator change_at
    flip_bit
mutate_file-OneByte_example = mutate_file-OneByte drawn [] file (1 ∷ 0 ∷ 3 ∷ []) 1 1 success refl
