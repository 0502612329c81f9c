-- ===== src/Crypto/Hex.antt =====
-- The digests in hexadecimal of src/crypto/crypto.c. Texts and digests are lists of bytes; the
-- digest itself is LibreSSL's.
pub mod Digits
mod Examples
use mathlib.Core.List.{append_assoc}
use nextgen.Base.{
  ℕ, zero, suc, ◌+◌, ◌*◌, ◌/◌, ◌%◌, ◌<◌, ◌≡◌, refl, ap, ◌∙◌, Option, none, some, List, [], ◌∷◌,
  ◌++◌, arith, ltb, lt→ltb, ◌==◌, if◌then◌else◌, length, length-append, set, All, Outcome, done,
  fault, ◌>>=◌,
}
use nextgen.Crypto.Range.{Code, is_negative}

-- A `%x` digit, and what "%02x" writes.
unfoldable pub hex_digit : ℕ → ℕ
hex_digit n = if ltb n 10 then n + 48 else n + 87

unfoldable pub hex_bytes : List ℕ → List ℕ
unfolding hex_digit
hex_bytes [] = []
hex_bytes (b ∷ bs) = hex_digit (b / 16) ∷ hex_digit (b % 16) ∷ hex_bytes bs

-- sprintf(out + pos, "%02x", b), which writes a NUL behind the digits.
unfoldable pub sprintf_at : ℕ → ℕ → List ℕ → Outcome (List ℕ)
unfolding hex_digit
sprintf_at pos b out =
    if ltb (pos + 2) (length out)
    then done
        (set (set (set out pos (hex_digit (b / 16))) (pos + 1) (hex_digit (b % 16))) (pos + 2) 0)
    else fault

-- The loop over the digest, from its byte `i`.
unfoldable pub hex_loop : ℕ → List ℕ → List ℕ → Outcome (List ℕ)
unfolding sprintf_at
hex_loop i [] out = done out
hex_loop i (b ∷ bs) out = sprintf_at (i * 2) b out >>= λ out'. hex_loop (i + 1) bs out'

-- The bytes before the first NUL, which strlen counts.
abbrev pub c_str : List ℕ → List ℕ
c_str [] = []
c_str (c ∷ cs) = if c == 0 then [] else c ∷ c_str cs

-- SHA256_* or SHA512_*: the codes of the three calls, and the digest of `size` bytes.
pub record Sha : Type 0 where
  pub size : ℕ
  pub init : Code
  pub update : List ℕ → Code
  pub final : List ℕ → Code
  pub digest : List ℕ → List ℕ
  pub length-digest : (text : List ℕ) → length (digest text) ≡ size
  pub digest-bytes : (text : List ℕ) → All (λ b. b < 256) (digest text)

-- The common text of `sha256` and `sha512`. `place` is what malloc gives: NULL, or a buffer with any
-- content. `none` is the return code -1.
unfoldable pub sha : Sha → List ℕ → Option (List ℕ) → Outcome (Option (List ℕ))
unfolding hex_loop
sha h text place =
    if is_negative h.init
    then done none
    else if is_negative (h.update (c_str text))
    then done none
    else if is_negative (h.final (c_str text))
    then done none
    else elim place [
      | none ↦ done none
      | some buf ↦ hex_loop 0 (h.digest (c_str text)) buf >>= λ out.
          if ltb (h.size * 2) (length out) then done (some (set out (h.size * 2) 0)) else fault
    ]

-- Three writes in a row, behind what has been written.
set_three :
    (xs r : List ℕ) (p q s a b c j k : ℕ)
    → j ≡ suc (length xs)
    → k ≡ suc (suc (length xs))
    → set (set (set (xs ++ p ∷ q ∷ s ∷ r) (length xs) a) j b) k c ≡ xs ++ a ∷ b ∷ c ∷ r
set_three [] r p q s a b c j k e f = rw (e, f) refl
set_three (x ∷ xs) r p q s a b c zero k e f = absurd (omega arith)
set_three (x ∷ xs) r p q s a b c (suc j) zero e f = absurd (omega arith)
set_three (x ∷ xs) r p q s a b c (suc j) (suc k) e f =
    ap (λ (l : List ℕ). x ∷ l) (set_three xs r p q s a b c j k (omega arith) (omega arith))

-- One "%02x" behind what has been written.
sprintf_at-append :
    (xs r : List ℕ) (p q s b pos : ℕ)
    → length xs ≡ pos
    → sprintf_at pos b (xs ++ p ∷ q ∷ s ∷ r)
      ≡ done ((xs ++ hex_digit (b / 16) ∷ hex_digit (b % 16) ∷ []) ++ 0 ∷ r)
unfolding sprintf_at
sprintf_at-append xs r p q s b pos e =
    let hi = hex_digit (b / 16) in
    let lo = hex_digit (b % 16) in
    rw
      (
        ← e,
        lt→ltb (length xs + 2) (length (xs ++ p ∷ q ∷ s ∷ r))
            (omega (arith, length-append xs (p ∷ q ∷ s ∷ r))),
        append_assoc xs (hi ∷ lo ∷ []) (0 ∷ r),
      )
      (ap done
        (set_three xs r p q s hi lo 0 (length xs + 1) (length xs + 2) (omega arith) (omega arith)))

hex_loop-append :
    (bs xs r : List ℕ) (i s : ℕ)
    → length xs ≡ i * 2
    → length r ≡ length bs * 2
    → (t : ℕ) × (hex_loop i bs (xs ++ s ∷ r) ≡ done (xs ++ (hex_bytes bs ++ t ∷ [])))
unfolding hex_loop hex_bytes
hex_loop-append [] xs [] i s e l = (s, refl)
hex_loop-append [] xs (q ∷ r) i s e l = absurd (omega arith)
hex_loop-append (b ∷ bs) xs [] i s e l = absurd (omega arith)
hex_loop-append (b ∷ bs) xs (q ∷ []) i s e l = absurd (omega arith)
hex_loop-append (b ∷ bs) xs (p ∷ q ∷ r) i s e l =
    let hi = hex_digit (b / 16) in
    let lo = hex_digit (b % 16) in
    let (t, rest) =
      hex_loop-append bs (xs ++ hi ∷ lo ∷ []) r (i + 1) 0
        (omega (arith, length-append xs (hi ∷ lo ∷ []))) (omega arith) in
    (
      t,
      rw (sprintf_at-append xs r s p q b (i * 2) e)
          (rest ∙ ap done (append_assoc xs (hi ∷ lo ∷ []) (hex_bytes bs ++ t ∷ []))),
    )
