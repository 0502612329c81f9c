-- ===== src/Utils/Binary.antt =====
-- ascii_to_binary and binary_to_ascii of src/utils/utils.c. A text is the list of its bytes.
use Prim.Native.Nat.{bit_and}
use mathlib.Core.List.{append-nil}
use nextgen.Base.{
  ℕ, zero, suc, ◌+◌, ◌*◌, ◌-◌, ◌/◌, ◌%◌, ◌^◌, ◌≡◌, ◌≤◌, ◌<◌, refl, ap, ◌∙◌, Bool, true, Option,
  none, some, List, [], ◌∷◌, ◌++◌, ◌==◌, if◌then◌else◌, length, length-append, All, Status, success,
  failure, holds_under, holds_under_at, arith, ==_iff,
}

-- The inner loop, over the masks from `b` on; nine rounds are enough for 0x80.
unfoldable pub bit_loop : ℕ → ℕ → ℕ → List ℕ
bit_loop zero b ch = []
bit_loop (suc n) b ch =
    let rest = bit_loop n (b / 2) ch in
    if b == 0 then [] else (if bit_and ch b == 0 then 48 else 49) ∷ rest

-- The outer loop.
unfoldable pub binary_loop : List ℕ → List ℕ
binary_loop [] = []
binary_loop (ch ∷ input) = bit_loop 9 128 ch ++ binary_loop input

-- `ascii_to_binary`, by whether malloc gives a buffer: the code, the text, and out_len. The index into
-- the text is a 32-bit number: inputs of more than 2 ^ 29 bytes, for which it wraps, are left out.
unfoldable pub ascii_to_binary : Bool → List ℕ → Status × Option (List ℕ) × ℕ
ascii_to_binary room input =
    if length input == 0
    then (failure, none, 0)
    else if room
    then (success, some (binary_loop input ++ (0 ∷ [])), length input * 8 % 2 ^ 64)
    else (failure, none, length input * 8 % 2 ^ 64)

-- `binary_to_ascii` makes a buffer of which only the last byte is set.
unfoldable pub binary_to_ascii : (ℕ → Option (List ℕ)) → ℕ → Status × Option (List ℕ) × ℕ
binary_to_ascii malloc input_len =
    if input_len == 0 then (failure, none, 0) else elim (malloc (input_len / 8)) [
      | none ↦ (failure, none, input_len / 8)
      | some junk ↦ (success, some (junk ++ (0 ∷ [])), input_len / 8)
    ]

-- The number that eight binary digits write, most significant first, and the numbers of a text.
abbrev pub digits_value : ℕ → ℕ → ℕ → ℕ → ℕ → ℕ → ℕ → ℕ → ℕ
digits_value a b c d e f g h =
    128 * (a - 48)
    + 64 * (b - 48)
    + 32 * (c - 48)
    + 16 * (d - 48)
    + 8 * (e - 48)
    + 4 * (f - 48)
    + 2 * (g - 48)
    + (h - 48)

unfoldable pub read_binary : List ℕ → List ℕ
read_binary (a ∷ b ∷ c ∷ d ∷ e ∷ f ∷ g ∷ h ∷ rest) = digits_value a b c d e f g h ∷ read_binary rest
read_binary _ = []

abbrev digit : ℕ → ℕ → ℕ
digit ch b = if bit_and ch b == 0 then 48 else 49

abbrev good_byte : ℕ → Bool
good_byte ch =
    digits_value (digit ch 128) (digit ch 64) (digit ch 32) (digit ch 16) (digit ch 8) (digit ch 4)
      (digit ch 2) (digit ch 1)
    == ch

byte_table : holds_under good_byte 256 ≡ true
unfolding holds_under
byte_table = refl

read-binary_loop :
    (input end : List ℕ)
    → All (λ c. c < 256) input
    → read_binary (binary_loop input ++ end) ≡ input ++ read_binary end
unfolding binary_loop bit_loop read_binary
read-binary_loop [] end h = refl
read-binary_loop (c ∷ input) end h =
    let this : digits_value (digit c 128) (digit c 64) (digit c 32) (digit c 16) (digit c 8)
          (digit c 4) (digit c 2) (digit c 1)
        ≡ c =
      (==_iff _ c).0 (holds_under_at good_byte 256 c h.0 byte_table) in
    ap (λ v. v ∷ read_binary (binary_loop input ++ end)) this
    ∙ ap (λ t. c ∷ t) (read-binary_loop input end h.1)

length-binary_loop : (input : List ℕ) → length (binary_loop input) ≡ 8 * length input
unfolding binary_loop bit_loop
length-binary_loop [] = refl
length-binary_loop (c ∷ input) = omega (arith, length-binary_loop input)

-- If the buffer is allocated, ascii_to_binary of a text of bytes that is not empty returns 0 and eight
-- digits for each byte, with a NUL behind them; read eight by eight, most significant first, they are
-- the bytes again, up to the length at which the 32-bit index into the text wraps around.
pub read-ascii_to_binary :
    (c : ℕ) (input : List ℕ)
    → All (λ b. b < 256) (c ∷ input)
    → 8 * length (c ∷ input) ≤ 2 ^ 32
    → (text : List ℕ) × (ascii_to_binary true (c ∷ input)
        ≡ (success, some text, 8 * length (c ∷ input)))
      × (length text ≡ 8 * length (c ∷ input) + 1)
      × (read_binary text ≡ c ∷ input)
unfolding ascii_to_binary read_binary
read-ascii_to_binary c input h small = (
  binary_loop (c ∷ input) ++ (0 ∷ []),
  ground arith,
  omega (arith, length-append (binary_loop (c ∷ input)) (0 ∷ []), length-binary_loop (c ∷ input)),
  read-binary_loop (c ∷ input) (0 ∷ []) h ∙ append-nil (c ∷ input),
)
