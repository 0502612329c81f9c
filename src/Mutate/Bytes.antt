-- ===== src/Mutate/Bytes.antt =====
-- What the mutators of src/mutate/mutate.c do to one byte, checked over all bytes.
use nextgen.Base.{
  holds_under, holds_under_at, ℕ, ◌<◌, ◌≡◌, ◌≢◌, refl, Bool, true, not, ◌&&◌, arith, ◌==◌, ==_iff,
  ltb,
}
use nextgen.Mutate.{flip_byte, flip_bit}

-- Flipping one of the eight bits: a byte again, another one, and undone by the same flip.
abbrev good_flip : ℕ → ℕ → Bool
good_flip k b =
    ltb (flip_bit k b) 256 && (not (flip_bit k b == b) && (flip_bit k (flip_bit k b) == b))

flip_table : holds_under (λ k. holds_under (good_flip k) 256) 8 ≡ true
unfolding holds_under flip_bit
flip_table = refl

flip_bit-good : (k b : ℕ) → k < 8 → b < 256 → good_flip k b ≡ true
flip_bit-good k b hk hb =
    holds_under_at (good_flip k) 256 b hb
      (holds_under_at (λ j. holds_under (good_flip j) 256) 8 k hk flip_table)

eighth_table : holds_under (λ b. flip_bit 8 b == b) 256 ≡ true
unfolding holds_under flip_bit
eighth_table = refl

-- Each of the bits 0 to 7 of a byte can be flipped: the result is another byte, and the same flip
-- undoes it. Bit 8, which the generator may pick too, lies outside the byte and changes nothing.
pub flip_bit-byte :
    (b k : ℕ)
    → b < 256
    → k < 8
    → (flip_bit k b < 256)
      × (flip_bit k b ≢ b)
      × (flip_bit k (flip_bit k b) ≡ b)
      × (flip_bit 8 b ≡ b)
flip_bit-byte b k hb hk = (
  ground (arith, flip_bit-good k b hk hb),
  ground (arith, flip_bit-good k b hk hb),
  ground (arith, flip_bit-good k b hk hb),
  (==_iff (flip_bit 8 b) b).0 (holds_under_at (λ c. flip_bit 8 c == c) 256 b hb eighth_table),
)

pub flip_byte-byte :
    (b : ℕ) → b < 256 → (flip_byte b < 256) × (flip_byte b ≢ b) × (flip_byte (flip_byte b) ≡ b)
unfolding flip_byte
flip_byte-byte b h = (omega arith, omega arith, omega arith)
