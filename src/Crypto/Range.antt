-- ===== src/Crypto/Range.antt =====
-- The random ranges of src/crypto/crypto.c, over the big numbers of LibreSSL and the rand of the C
-- library.
pub mod Instance
mod Examples
use nextgen.Base.{
  ℕ, ◌+◌, ◌%◌, ◌^◌, ◌≤◌, ◌<◌, ◌≡◌, ◌≢◌, ◌⊎◌, refl, Bool, true, false, Option, none, some, arith,
  ◌==◌, if◌then◌else◌, Outcome, done, fault, Option-cases, inl, inr,
}

-- The return code of a function of LibreSSL, which the code compares with 0.
pub data Code : Type 0 where
  negative zero_code one_code : Code

abbrev pub is_negative : Code → Bool
is_negative negative = true
is_negative _ = false

Code-cases : (c : Code) → (c ≡ one_code) ⊎ (c ≢ one_code)
Code-cases negative = inr (λ e. cc)
Code-cases zero_code = inr (λ e. cc)
Code-cases one_code = inl refl

-- A code that is neither 1 nor 0 is negative.
other_code : (c : Code) → c ≢ one_code → c ≢ zero_code → c ≡ negative
other_code negative a b = refl
other_code zero_code a b = absurd (b refl)
other_code one_code a b = absurd (a refl)

-- BN_new, BN_set_word, BN_rand_range, BN_bn2dec and strtol. BN_set_word and BN_rand_range give their
-- code with the number that they leave: with the code 1 it is the word that was set, or one below the
-- bound; with another code it may be any number. strtol reads back what BN_bn2dec writes.
pub record BigNum : Type 1 where
  pub World : Type 0
  pub Text : Type 0
  pub bn_new : World → Bool × World
  pub bn_set_word : ℕ → World → (Code × ℕ) × World
  pub bn_rand_range : ℕ → World → (Code × ℕ) × World
  pub bn_bn2dec : ℕ → World → Option Text × World
  pub strtol : Text → ℕ
  pub rand_below :
      (bound : ℕ) (w : World)
      → (bn_rand_range bound w).0.0 ≡ one_code
      → (bn_rand_range bound w).0.1 < bound
  pub set_word : (n : ℕ) (w : World) → (bn_set_word n w).0.0 ≡ one_code → (bn_set_word n w).0.1 ≡ n
  pub strtol-bn2dec : (n : ℕ) (t : Text) (w : World) → (bn_bn2dec n w).0 ≡ some t → strtol t ≡ n

module _ (bn : BigNum) where
  -- `default_rand_range`, whose text `rand_range_crypto` repeats: `none` is the return code -1.
  unfoldable pub default_rand_range : ℕ → bn.World → Option ℕ × bn.World
  default_rand_range range w =
      let (random, w₁) = bn.bn_new w in
      if random
      then (let (range1, w₂) = bn.bn_new w₁ in
          if range1
          then (let ((set_code, bound), w₃) = bn.bn_set_word ((range + 1) % 2 ^ 32) w₂ in
              if is_negative set_code
              then (none, w₃)
              else (let ((code, value), w₄) = bn.bn_rand_range bound w₃ in
                  if is_negative code
                  then (none, w₄)
                  else (let (buf, w₅) = bn.bn_bn2dec value w₄ in
                      elim buf [ none ↦ (none, w₅) | some t ↦ (some (bn.strtol t % 2 ^ 32), w₅) ])))
          else (none, w₂))
      else (none, w₁)

  unfoldable pub rand_range_crypto : ℕ → bn.World → Option ℕ × bn.World
  unfolding default_rand_range
  rand_range_crypto range w = default_rand_range range w

  -- The calls of default_rand_range to BN_set_word and BN_rand_range.
  abbrev pub set_range : ℕ → bn.World → (Code × ℕ) × bn.World
  set_range range w = bn.bn_set_word ((range + 1) % 2 ^ 32) (bn.bn_new (bn.bn_new w).1).1

  abbrev pub drawn_value : ℕ → bn.World → (Code × ℕ) × bn.World
  drawn_value range w = let r = set_range range w in bn.bn_rand_range r.0.1 r.1

  -- Where BN_set_word and BN_rand_range do not fail with the code 0, which default_rand_range takes for
  -- a success, a number that it yields lies between 0 and the range, the range included, for every
  -- 32-bit range.
  pub default_rand_range-le :
      (range n : ℕ) (w : bn.World)
      → range < 2 ^ 32
      → (set_range range w).0.0 ≢ zero_code
      → (drawn_value range w).0.0 ≢ zero_code
      → (default_rand_range range w).0 ≡ some n
      → n ≤ range
  unfolding default_rand_range
  default_rand_range-le range n w h set_ok rand_ok e =
      let set_to = set_range range w in
      let r = drawn_value range w in
      elim (Code-cases set_to.0.0) [
        | inr not_one ↦ ground (arith, other_code set_to.0.0 not_one set_ok)
        | inl s ↦ elim (Code-cases r.0.0) [
          | inr not_one ↦ ground (arith, s, other_code r.0.0 not_one rand_ok)
          | inl one ↦ elim (Option-cases (bn.bn_bn2dec r.0.1 r.1).0) [
            | inl f ↦ ground (arith, f)
            | inr (t, f) ↦
                let bound = bn.set_word ((range + 1) % 2 ^ 32) (bn.bn_new (bn.bn_new w).1).1 s in
                let below = bn.rand_below set_to.0.1 set_to.1 one in
                let small : r.0.1 ≤ range = omega (arith, bound, below) in
                ground (arith, f, s, one, small, bn.strtol-bn2dec r.0.1 t r.1 f)
          ]
        ]
      ]

-- `rand_range_no_crypto` at what rand returned, as an unsigned number: the remainder by 0 faults.
unfoldable pub rand_range_no_crypto : ℕ → ℕ → Outcome ℕ
rand_range_no_crypto range rand = if range == 0 then fault else done ((rand % range + 1) % 2 ^ 32)

-- At every range but 0, rand_range_no_crypto yields a number from 1 to the range, and never 0.
rand_range_no_crypto_bounds :
    (range rand : ℕ)
    → 0 < range
    → range < 2 ^ 32
    → (n : ℕ) × (rand_range_no_crypto range rand ≡ done n) × (1 ≤ n) × (n ≤ range)
unfolding rand_range_no_crypto
rand_range_no_crypto_bounds range rand p h =
    let below : rand % range < range = grind arith in
    ((rand % range + 1) % 2 ^ 32, ground arith, omega arith, omega arith)
