-- ===== src/Crypto/Hex/Examples.antt =====
-- The hexadecimal digests of src/crypto/crypto.c at a digest of two bytes.
use nextgen.Base.{ℕ, ◌*◌, ◌≡◌, refl, some, List, [], ◌∷◌, ◌++◌, arith, length, replicate, done}
use nextgen.Crypto.Range.{one_code}
use nextgen.Crypto.Hex.{hex_bytes, c_str, Sha, sha}
use nextgen.Crypto.Hex.Digits.{sha-hex_bytes}

abbrev pair : Sha
pair = record {
  size = 2;
  init = one_code;
  update = λ t. one_code;
  final = λ t. one_code;
  digest = λ t. 0xab ∷ 0x07 ∷ [];
  length-digest = λ t. refl;
  digest-bytes = λ t. omega arith;
}

abbrev text : List ℕ
text = b'a' ∷ b'b' ∷ 0 ∷ b'c' ∷ []

digits_of_pair : hex_bytes (0xab ∷ 0x07 ∷ []) ≡ b'a' ∷ b'b' ∷ b'0' ∷ b'7' ∷ []
unfolding hex_bytes
digits_of_pair = refl

sha-hex_bytes_example :
    (sha pair text (some (replicate 5 9))
      ≡ done (some (hex_bytes (pair.digest (c_str text)) ++ 0 ∷ [])))
    × (length (hex_bytes (pair.digest (c_str text))) ≡ pair.size * 2)
sha-hex_bytes_example = sha-hex_bytes pair text (replicate 5 9) refl refl refl refl
