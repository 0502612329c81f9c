-- ===== src/Crypto/Hex/Digits.antt =====
-- What the hexadecimal digests of src/crypto/crypto.c hold.
use nextgen.Base.{
  ℕ, zero, suc, ◌+◌, ◌-◌, ◌*◌, ◌/◌, ◌%◌, ◌<◌, ◌≡◌, refl, ap, ◌∙◌, true, false, some, List, [], ◌∷◌,
  ◌++◌, arith, ltb, lt→ltb, if◌then◌else◌, length, length-append, set, All, done,
}
use nextgen.Crypto.Range.{is_negative}
use nextgen.Crypto.Hex.{hex_digit, hex_bytes, hex_loop, hex_loop-append, c_str, Sha, sha}

length-hex_bytes : (bs : List ℕ) → length (hex_bytes bs) ≡ length bs * 2
unfolding hex_bytes
length-hex_bytes [] = refl
length-hex_bytes (b ∷ bs) = omega (arith, length-hex_bytes bs)

set_last : (xs : List ℕ) (k y v : ℕ) → length xs ≡ k → set (xs ++ y ∷ []) k v ≡ xs ++ v ∷ []
set_last [] k y v e = rw (← e) refl
set_last (x ∷ xs) zero y v e = absurd (omega arith)
set_last (x ∷ xs) (suc k) y v e = ap (λ (l : List ℕ). x ∷ l) (set_last xs k y v (omega arith))

finish :
    (size : ℕ) (bs buf : List ℕ)
    → length bs ≡ size
    → length buf ≡ size * 2 + 1
    → (out : List ℕ) × (hex_loop 0 bs buf ≡ done out)
      × (ltb (size * 2) (length out) ≡ true)
      × (set out (size * 2) 0 ≡ hex_bytes bs ++ 0 ∷ [])
finish size bs [] e l = absurd (omega arith)
finish size bs (s ∷ r) e l =
    let (t, run) = hex_loop-append bs [] r 0 s refl (omega arith) in
    let long = length-append (hex_bytes bs) (t ∷ []) in
    (
      hex_bytes bs ++ t ∷ [],
      run,
      lt→ltb _ _ (omega (arith, long, length-hex_bytes bs)),
      set_last (hex_bytes bs) (size * 2) t 0 (length-hex_bytes bs ∙ omega arith),
    )

-- sha256 and sha512, where no call of the library fails and malloc gives the buffer that was asked
-- for, stay inside that buffer and fill it with the digest of the text up to its first NUL, two
-- digits to a byte, and a final NUL.
pub sha-hex_bytes :
    (h : Sha) (text buf : List ℕ)
    → is_negative h.init ≡ false
    → is_negative (h.update (c_str text)) ≡ false
    → is_negative (h.final (c_str text)) ≡ false
    → length buf ≡ h.size * 2 + 1
    → (sha h text (some buf) ≡ done (some (hex_bytes (h.digest (c_str text)) ++ 0 ∷ [])))
      × (length (hex_bytes (h.digest (c_str text))) ≡ h.size * 2)
unfolding sha
sha-hex_bytes h text buf i u f l =
    let (out, run, room, eq) =
      finish h.size (h.digest (c_str text)) buf (h.length-digest (c_str text)) l in
    (
      rw (i, u, f, run, room, eq) refl,
      omega (arith, length-hex_bytes (h.digest (c_str text)), h.length-digest (c_str text)),
    )

-- The value of a hexadecimal digit, and of pairs of them.
unfoldable pub unhex_digit : ℕ → ℕ
unhex_digit c = if ltb c 97 then c - 48 else c - 87

unfoldable pub unhex : List ℕ → List ℕ
unfolding unhex_digit
unhex [] = []
unhex (c ∷ []) = []
unhex (c ∷ d ∷ cs) = (unhex_digit c * 16 + unhex_digit d) ∷ unhex cs

unhex_digit-hex_digit : (n : ℕ) → n < 16 → unhex_digit (hex_digit n) ≡ n
unfolding unhex_digit hex_digit
unhex_digit-hex_digit n h = ground arith

-- The digits determine the bytes: reading a digest's digits back gives the digest.
unhex-hex_bytes : (bs : List ℕ) → All (λ b. b < 256) bs → unhex (hex_bytes bs) ≡ bs
unfolding unhex hex_bytes
unhex-hex_bytes [] h = refl
unhex-hex_bytes (b ∷ bs) h =
    rw
      (
        unhex_digit-hex_digit (b / 16) (omega (arith, h.0)),
        unhex_digit-hex_digit (b % 16) (omega arith),
        unhex-hex_bytes bs h.1,
      )
      (ap (λ (x : ℕ). x ∷ bs) (omega arith))
