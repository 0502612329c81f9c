-- ===== src/Utils/Reallocarray.antt =====
-- src/utils/reallocarray.c on a machine whose size_t has 64 bits.
use native.Mathlib.Nat.{le-div_iff_mul-le, mul-le-mul, mod-eq_of_lt}
use nextgen.Base.{
  ℕ, zero, suc, ◌*◌, ◌/◌, ◌%◌, ◌^◌, ◌-◌, ◌≡◌, ◌≤◌, ◌<◌, sym, ◌∙◌, false, Option, none, some, ◌&&◌,
  ◌||◌, if◌then◌else◌, ltb, leb, arith, Bool-cases, inl, inr,
}

-- The result is the number of bytes that realloc is called with; `none` is NULL with ENOMEM.
unfoldable pub reallocarray : ℕ → ℕ → Option ℕ
reallocarray nmemb size =
    if (leb (2 ^ 32) nmemb || leb (2 ^ 32) size) && (ltb 0 nmemb && ltb ((2 ^ 64 - 1) / nmemb) size)
    then none
    else some (size * nmemb % 2 ^ 64)

-- Where the test passes, the product fits.
product_fits :
    (nmemb size : ℕ)
    → (leb (2 ^ 32) nmemb || leb (2 ^ 32) size) && (ltb 0 nmemb && ltb ((2 ^ 64 - 1) / nmemb) size)
      ≡ false
    → size * nmemb ≤ 2 ^ 64 - 1
product_fits zero size e = omega arith
product_fits (suc n) size e = elim (Bool-cases (ltb ((2 ^ 64 - 1) / suc n) size)) [
  | inr b ↦ (le-div_iff_mul-le (omega arith)).0 (ground (arith, b))
  | inl b ↦
      let small : (suc n ≤ 2 ^ 32 - 1) × (size ≤ 2 ^ 32 - 1) = ground (arith, b) in
      omega (arith, mul-le-mul small.1 small.0)
]

-- If reallocarray calls realloc, it asks for size * nmemb bytes exactly: the product did not wrap.
pub reallocarray_exact :
    (nmemb size n : ℕ)
    → nmemb < 2 ^ 64
    → size < 2 ^ 64
    → reallocarray nmemb size ≡ some n
    → (n ≡ size * nmemb) × (size * nmemb < 2 ^ 64)
unfolding reallocarray
reallocarray_exact nmemb size n a b e =
    elim (Bool-cases (
      (leb (2 ^ 32) nmemb || leb (2 ^ 32) size)
      && (ltb 0 nmemb && ltb ((2 ^ 64 - 1) / nmemb) size))) [
        | inl c ↦ ground (arith, c)
        | inr c ↦
            let fits = product_fits nmemb size c in
            let asked : size * nmemb % 2 ^ 64 ≡ n = ground (arith, c) in
            (sym asked ∙ mod-eq_of_lt (omega (arith, fits)), omega (arith, fits))
      ]
