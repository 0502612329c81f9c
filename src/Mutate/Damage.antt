-- ===== src/Mutate/Damage.antt =====
-- How much of a file the mutators of src/mutate/mutate.c change, and when they leave it.
use nextgen.Base.{
  ℕ, zero, suc, ◌%◌, ◌^◌, ◌<◌, ◌≤◌, ◌≡◌, ◌≢◌, ◌↔◌, refl, sym, ap, ◌∙◌, some, List, [], ◌∷◌, arith,
  ltb, get_elem?, set, length, length-set, get_elem?-set, get_elem?-none, get_elem?-some, All,
  Outcome-cases, map_outcome, done, fault, Status, success, Bool-cases, ltb→lt, Option-cases, inl,
  inr,
}
use nextgen.Mutate.{
  RandomGenerator, flip_byte, flip_bit, change_at, flip_byte_mutator, flip_bit_mutator, xor_mutator,
  mutator_array, mutate_file_randomly, supported_file, mutate_file,
}
use nextgen.Mutate.Bytes.{flip_bit-byte, flip_byte-byte}

-- All positions but one hold what they held, and there are as many.
pub record OneByte (file out : List ℕ) : Type 0 where
  pub same_length : length out ≡ length file
  pub place : ℕ
  pub others : (j : ℕ) → place ≢ j → get_elem? out j ≡ get_elem? file j

OneByte-refl : (file : List ℕ) → OneByte file file
OneByte-refl file = record { same_length = refl; place = 0; others = λ j ne. refl }

change_at-OneByte :
    (i : ℕ) (f : ℕ → ℕ) (file out : List ℕ) → change_at i f file ≡ done out → OneByte file out
unfolding change_at
change_at-OneByte i f file out e = elim (Option-cases (get_elem? file i)) [
  | inl h ↦ ground (arith, h)
  | inr (b, h) ↦
      let same : set file i (f b) ≡ out = ground (arith, h) in
      rw (← same) (record {
        same_length = length-set file i (f b);
        place = i;
        others = λ j ne. ground (arith, get_elem?-set file i j (f b));
      })
]

-- A change leaves the file exactly when its offset is no position of it.
change_at-fault :
    (i : ℕ) (f : ℕ → ℕ) (file : List ℕ) → (change_at i f file ≡ fault) ↔ (length file ≤ i)
unfolding change_at
change_at-fault i f file = elim (Option-cases (get_elem? file i)) [
  | inl h ↦ (λ x. ground (arith, h, get_elem?-some file i), λ x. ground (arith, h))
  | inr (b, h) ↦ (λ x. ground (arith, h), λ x. ground (arith, h, get_elem?-none file i))
]

change_at-suc :
    (i b : ℕ) (f : ℕ → ℕ) (file : List ℕ)
    → change_at (suc i) f (b ∷ file) ≡ map_outcome (λ r. b ∷ r) (change_at i f file)
unfolding change_at
change_at-suc i b f file = ground arith

-- Changing twice by a function that undoes itself on bytes gives the file back.
change_at-twice :
    (i : ℕ) (f : ℕ → ℕ) (file out : List ℕ)
    → ((b : ℕ) → b < 256 → f (f b) ≡ b)
    → All (λ b. b < 256) file
    → change_at i f file ≡ done out
    → change_at i f out ≡ done file
change_at-twice i f [] out undo bytes e = unfold change_at in cc e
change_at-twice zero f (b ∷ file) out undo bytes e =
    unfold change_at in
    (let same : f b ∷ file ≡ out = cc e in
      rw (← same) (ap (λ (c : ℕ). done (c ∷ file)) (undo b bytes.0)))
change_at-twice (suc i) f (b ∷ file) out undo bytes e = elim (Outcome-cases (change_at i f file)) [
  | inl (r, h) ↦
      let same : b ∷ r ≡ out = cc (sym (change_at-suc i b f file) ∙ e, h) in
      rw (← same, change_at-suc i b f r, change_at-twice i f file r undo bytes.1 h) refl
  | inr h ↦ ground (arith, h, change_at-suc i b f file)
]

unchanged : (file out : List ℕ) → file ≡ out → OneByte file out
unchanged file out e = rw (← e) (OneByte-refl file)

module _ (random : RandomGenerator) where
  flip_byte-OneByte :
      (file out : List ℕ) (w w' : random.World) (s : Status)
      → flip_byte_mutator random file w ≡ done (s, out, w')
      → OneByte file out
  unfolding flip_byte_mutator
  flip_byte-OneByte file out w w' s e =
      elim (Option-cases (random.range (length file % 2 ^ 32) w).0) [
        | inl h ↦ unchanged file out (ground (arith, h))
        | inr (i, h) ↦ elim (Outcome-cases (change_at i flip_byte file)) [
          | inl (f, k) ↦ change_at-OneByte i flip_byte file out (ground (arith, h, k))
          | inr k ↦ ground (arith, h, k)
        ]
      ]

  flip_bit-OneByte :
      (file out : List ℕ) (w w' : random.World) (s : Status)
      → flip_bit_mutator random file w ≡ done (s, out, w')
      → OneByte file out
  unfolding flip_bit_mutator
  flip_bit-OneByte file out w w' s e =
      let offset = random.range (length file % 2 ^ 32) w in
      elim (Option-cases offset.0) [
        | inl h ↦ unchanged file out (ground (arith, h))
        | inr (i, h) ↦ elim (Option-cases (random.range 8 offset.1).0) [
          | inl k ↦ unchanged file out (ground (arith, h, k))
          | inr (bit, k) ↦ elim (Outcome-cases (change_at i (flip_bit bit) file)) [
            | inl (f, c) ↦ change_at-OneByte i (flip_bit bit) file out (ground (arith, h, k, c))
            | inr c ↦ ground (arith, h, k, c)
          ]
        ]
      ]

  mutator_array-OneByte :
      (i : ℕ) (file out : List ℕ) (w w' : random.World) (s : Status)
      → mutator_array random i file w ≡ done (s, out, w')
      → OneByte file out
  unfolding mutator_array xor_mutator
  mutator_array-OneByte zero file out w w' s e = flip_byte-OneByte file out w w' s e
  mutator_array-OneByte (suc zero) file out w w' s e = flip_bit-OneByte file out w w' s e
  mutator_array-OneByte (suc (suc zero)) file out w w' s e = unchanged file out (ground arith)
  mutator_array-OneByte (suc (suc (suc i))) file out w w' s e = ground arith

  -- When mutate_file returns, for whatever extension and whether it succeeded or not, the file has
  -- as many bytes as before and differs from what it was at one position at most.
  pub mutate_file-OneByte :
      (extension file out : List ℕ) (w w' : random.World) (s : Status)
      → mutate_file random extension file w ≡ done (s, out, w')
      → OneByte file out
  unfolding mutate_file supported_file mutate_file_randomly
  mutate_file-OneByte extension file out w w' s e =
      let offset = random.range 2 w in
      elim (Option-cases offset.0) [
        | inl h ↦ unchanged file out (ground (arith, h))
        | inr (i, h) ↦ mutator_array-OneByte i file out offset.1 w' s (ground (arith, h))
      ]

  -- On a file of less than 2 ^ 32 bytes, flip_byte_mutator reads and writes outside the file exactly
  -- when the offset drawn is the file's size, which its range includes.
  flip_byte-fault :
      (file : List ℕ) (w : random.World)
      → length file < 2 ^ 32
      → (flip_byte_mutator random file w ≡ fault)
        ↔ ((random.range (length file) w).0 ≡ some (length file))
  unfolding flip_byte_mutator
  flip_byte-fault file w small =
      let whole : length file % 2 ^ 32 ≡ length file = omega arith in
      elim (Option-cases (random.range (length file) w).0) [
        | inl h ↦ rw (whole, flip_byte_mutator) (λ f. ground (arith, h), λ p. ground (arith, h))
        | inr (i, h) ↦
            let at_most = random.range-le (length file) i w h in
            rw (whole, flip_byte_mutator)
              (
                λ f. ground (arith, h, at_most, change_at-fault i flip_byte file),
                λ p. ground (arith, h, change_at-fault i flip_byte file),
              )
      ]

  -- The same draws undo a mutation: on a file of bytes, where flip_byte_mutator succeeded, calling it
  -- again in the same state of the generator gives the old file back.
  flip_byte-flip_byte :
      (file out : List ℕ) (w w' : random.World)
      → All (λ b. b < 256) file
      → flip_byte_mutator random file w ≡ done (success, out, w')
      → flip_byte_mutator random out w ≡ done (success, file, w')
  unfolding flip_byte_mutator
  flip_byte-flip_byte file out w w' bytes e =
      elim (Option-cases (random.range (length file % 2 ^ 32) w).0) [
        | inl h ↦ ground (arith, h)
        | inr (i, h) ↦ elim (Outcome-cases (change_at i flip_byte file)) [
          | inl (f, k) ↦
              let same : f ≡ out = ground (arith, h, k) in
              let size : length out ≡ length file =
                rw (← same) (change_at-OneByte i flip_byte file f k).same_length in
              let undo =
                change_at-twice i flip_byte file f (λ b hb. (flip_byte-byte b hb).2) bytes k in
              rw (size, flip_byte_mutator) (ground (arith, h, k, undo, same))
          | inr k ↦ ground (arith, h, k)
        ]
      ]

  flip_bit-undo : (k b : ℕ) → k ≤ 8 → b < 256 → flip_bit k (flip_bit k b) ≡ b
  flip_bit-undo k b hk hb = elim (Bool-cases (ltb k 8)) [
    | inl lt ↦ (flip_bit-byte b k hb (ltb→lt k 8 lt)).2
    | inr ge ↦
        let last : k ≡ 8 = ground (arith, ge) in
        let same = (flip_bit-byte b 0 hb (omega arith)).3 in rw (last, same) same
  ]

  -- The same of flip_bit_mutator, also where it drew the bit that lies outside the byte.
  flip_bit-flip_bit :
      (file out : List ℕ) (w w' : random.World)
      → All (λ b. b < 256) file
      → flip_bit_mutator random file w ≡ done (success, out, w')
      → flip_bit_mutator random out w ≡ done (success, file, w')
  unfolding flip_bit_mutator
  flip_bit-flip_bit file out w w' bytes e =
      let offset = random.range (length file % 2 ^ 32) w in
      elim (Option-cases offset.0) [
        | inl h ↦ ground (arith, h)
        | inr (i, h) ↦ elim (Option-cases (random.range 8 offset.1).0) [
          | inl d ↦ ground (arith, h, d)
          | inr (bit, d) ↦ elim (Outcome-cases (change_at i (flip_bit bit) file)) [
            | inl (f, k) ↦
                let same : f ≡ out = ground (arith, h, d, k) in
                let size : length out ≡ length file =
                  rw (← same) (change_at-OneByte i (flip_bit bit) file f k).same_length in
                let few = random.range-le 8 bit offset.1 d in
                let undo =
                  change_at-twice i (flip_bit bit) file f (λ b hb. flip_bit-undo bit b few hb) bytes
                    k in
                rw (size, flip_bit_mutator) (ground (arith, h, d, k, undo, same))
            | inr k ↦ ground (arith, h, d, k)
          ]
        ]
      ]
