-- ===== src/Syscall/Generate/Values.antt =====
-- What the generators of src/syscall/generate.c put in the argument.
use nextgen.Base.{
  ℕ, zero, suc, ◌+◌, ◌-◌, ◌*◌, ◌/◌, ◌^◌, ◌≡◌, ◌≤◌, ◌<◌, Option, some, List, ◌++◌, get_elem?,
  get_elem?-some, length, ◌==◌, Option-cases, inl, inr, if◌then◌else◌, ltb, done, success, arith,
}
use nextgen.Syscall.Child.Context.{Buffer, ChildCtx, drop, word, get_arg_size, get_current_arg}
use nextgen.Syscall.Child.Copies.{NoSizes}
use nextgen.Syscall.Generate.{switch, draw_alloc, alloc_size, generate_mode, generate_length}
use nextgen.Syscall.Writes.{Source, assign, bytes_of, store, write_word, mode_cases}

word-bytes_of : (n v : ℕ) (rest : List ℕ) → v < 256 ^ n → word n (bytes_of n v ++ rest) ≡ v
unfolding word bytes_of
word-bytes_of zero v rest lt = omega arith
word-bytes_of (suc n) v rest lt = omega (arith, word-bytes_of n (v / 256) rest)

-- What a store of a small number leaves is that number.
store-word :
    (n v : ℕ) (b : Buffer)
    → v < 256 ^ n
    → n ≤ length b.1
    → (store n v b ≡ done (b.0, bytes_of n v ++ drop n b.1))
      × (word n (bytes_of n v ++ drop n b.1) ≡ v)
unfolding store
store-word n v b lt fits = (ground arith, word-bytes_of n v (drop n b.1) lt)

-- The numbers of generate_mode: the low three bits, the middle three bits, and hundreds.
abbrev pub mode_value : ℕ → ℕ
mode_value n = if ltb n 7 then n + 1 else if ltb n 14 then (n - 6) * 8 else (n - 13) * 100

mode_case : (n : ℕ) → n ≤ 20 → get_elem? mode_cases n ≡ some (assign (mode_value n))
mode_case n h = ground arith

module _ (s : Source) where
  -- Where the number is drawn and the buffer allocated, generate_mode returns 0, and the 64-bit word
  -- in the buffer is 1 to 7 for the first seven numbers, eight times that for the next seven, and 100
  -- to 700 in steps of a hundred for the last seven.
  generate_mode_value :
      (old : Option Buffer) (w : s.World) (b : Buffer) (n : ℕ)
      → (s.rand_range 20 w).0 ≡ some n
      → (s.mem_alloc 12 (s.rand_range 20 w).1).0 ≡ some b
      → (bytes : List ℕ) × (v : s.World) × (generate_mode s old w
          ≡ done (success, some (b.0, bytes), v))
        × (word 8 bytes ≡ mode_value n)
  unfolding generate_mode draw_alloc switch write_word
  generate_mode_value old w b n p q =
      let le = s.rand_range-le 20 n w p in
      let (stored, read) =
        store-word 8 (mode_value n) b (ground (arith, le))
          (omega (arith, s.length-mem_alloc 12 b (s.rand_range 20 w).1 q)) in
      (
        bytes_of 8 (mode_value n) ++ drop 8 b.1,
        (s.mem_alloc 12 (s.rand_range 20 w).1).1,
        ground (arith, p, q, mode_case n le, stored),
        read,
      )

  -- Where no argument has a size, as set_arg_size never sets one, the length that generate_length
  -- makes is 0, whatever the argument before is.
  generate_length_zero :
      (c : ChildCtx) (w : s.World) (b : Buffer)
      → NoSizes c
      → length c.arg_size_array ≡ 7
      → c.current_arg ≤ 7
      → (s.mem_alloc 8 w).0 ≡ some b
      → (bytes : List ℕ) × (v : s.World) × (generate_length s c w
          ≡ done (success, some (b.0, bytes), v))
        × (word 8 bytes ≡ 0)
  unfolding generate_length alloc_size get_arg_size get_current_arg
  generate_length_zero c w b none_sized long small p =
      let last = if c.current_arg == 0 then 0 else c.current_arg - 1 in
      let (stored, read) =
        store-word 8 0 b (omega arith) (omega (arith, s.length-mem_alloc 8 b w p)) in
      elim (Option-cases (get_elem? c.arg_size_array last)) [
        | inl e ↦ absurd (get_elem?-some c.arg_size_array last (ground arith) e)
        | inr (z, e) ↦ (
          bytes_of 8 0 ++ drop 8 b.1,
          (s.mem_alloc 8 w).1,
          ground (arith, p, e, none_sized last z e, stored),
          read,
        )
      ]
