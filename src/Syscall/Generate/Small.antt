-- ===== src/Syscall/Generate/Small.antt =====
-- The generators of src/syscall/generate.c whose buffers are smaller than what is written to them.
use nextgen.Base.{
  ℕ, ◌≡◌, some, none, List, get_elem?, get_elem?-some, length, fault, arith, Option-cases, inl, inr,
  ◌≢◌,
}
use nextgen.Syscall.Child.Context.{Buffer}
use nextgen.Syscall.Generate.{
  switch, alloc_draw, generate_recv_flags, generate_amode, generate_chflags,
}
use nextgen.Syscall.Writes.{
  Source, Headers, Write, assign, merge, store, write_word, recv_flag_cases, amode_cases,
  chflag_cases,
}

short-write : (c : Write) (b : Buffer) → length b.1 ≡ 4 → write_word c b ≡ fault
unfolding write_word store
short-write (assign v) b e = ground arith
short-write (merge v) b e = ground arith

module _ (s : Source) where
  -- Where the number drawn is that of a case, a buffer of four bytes is written past its end.
  alloc_draw-fault :
      (range : ℕ) (cases : List Write) (w : s.World) (b : Buffer) (n : ℕ)
      → (s.mem_alloc 4 w).0 ≡ some b
      → (s.rand_range range (s.mem_alloc 4 w).1).0 ≡ some n
      → get_elem? cases n ≢ none
      → alloc_draw s range 4 cases w ≡ fault
  unfolding alloc_draw switch
  alloc_draw-fault range cases w b n p q h = elim (Option-cases (get_elem? cases n)) [
    | inl e ↦ absurd (h e)
    | inr (c, e) ↦ ground (arith, p, q, e, short-write c b (s.length-mem_alloc 4 b w p))
  ]

  -- Where the buffer is allocated and the number drawn, generate_recv_flags, generate_amode and
  -- generate_chflags all write eight bytes to a buffer of four, whatever the number is.
  flags-fault :
      (h : Headers) (w : s.World) (b : Buffer) (k m n : ℕ)
      → (s.mem_alloc 4 w).0 ≡ some b
      → (s.rand_range 2 (s.mem_alloc 4 w).1).0 ≡ some k
      → (s.rand_range 6 (s.mem_alloc 4 w).1).0 ≡ some m
      → (s.rand_range 7 (s.mem_alloc 4 w).1).0 ≡ some n
      → (generate_recv_flags s h w ≡ fault)
        × (generate_amode s h w ≡ fault)
        × (generate_chflags s h w ≡ fault)
  unfolding generate_recv_flags generate_amode generate_chflags
  flags-fault h w b k m n p x y z =
      let w₁ = (s.mem_alloc 4 w).1 in
      (
        alloc_draw-fault 2 (recv_flag_cases h) w b k p x
            (get_elem?-some (recv_flag_cases h) k (omega (arith, s.rand_range-le 2 k w₁ x))),
        alloc_draw-fault 6 (amode_cases h) w b m p y
            (get_elem?-some (amode_cases h) m (omega (arith, s.rand_range-le 6 m w₁ y))),
        alloc_draw-fault 7 (chflag_cases h) w b n p z
            (get_elem?-some (chflag_cases h) n (omega (arith, s.rand_range-le 7 n w₁ z))),
      )
