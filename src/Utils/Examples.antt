-- ===== src/Utils/Examples.antt =====
-- The helpers of src/utils at concrete texts and numbers.
use nextgen.Base.{
  ℕ, ◌*◌, ◌^◌, ◌≡◌, ◌<◌, refl, true, false, none, some, List, [], ◌∷◌, length, arith, success,
}
use nextgen.Utils.Reallocarray.{reallocarray, reallocarray_exact}
use nextgen.Utils.Binary.{ascii_to_binary, read_binary, read-ascii_to_binary}
use nextgen.Utils.Names.{generate_name, file_name, get_extension, get_extension-generate_name}

reallocarray_exact_example : (4096 ≡ 8 * 512) × (8 * 512 < 2 ^ 64)
unfolding reallocarray
reallocarray_exact_example = reallocarray_exact 512 8 4096 (omega arith) (omega arith) refl

-- 2^62 elements of 8 bytes would wrap to 0 bytes, and are refused.
wrap_refused : reallocarray (2 ^ 62) 8 ≡ none
unfolding reallocarray
wrap_refused = refl

read-ascii_to_binary_example :
    (text : List ℕ) × (ascii_to_binary true (65 ∷ 200 ∷ []) ≡ (success, some text, 16))
    × (length text ≡ 17)
    × (read_binary text ≡ 65 ∷ 200 ∷ [])
read-ascii_to_binary_example = read-ascii_to_binary 65 (200 ∷ []) (omega arith) (omega arith)

get_extension-generate_name_example :
    (name : List ℕ) × (generate_name
        (some (1 ∷ []))
        (λ d. some (97 ∷ 48 ∷ []))
        (some (99 ∷ []))
        file_name
      ≡ some name)
    × (get_extension name ≡ some (99 ∷ 10 ∷ []))
get_extension-generate_name_example =
    get_extension-generate_name (1 ∷ []) (λ d. some (97 ∷ 48 ∷ [])) (97 ∷ 48 ∷ []) (99 ∷ []) refl
      (ground arith) false
