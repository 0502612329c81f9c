-- ===== src/Syscall/Buffers.antt =====
-- The generators of src/syscall/generate.c whose argument is a whole buffer. The sizes of the
-- structures of the system are parameters.
mod Examples
use nextgen.Base.{
  ℕ, ◌+◌, ◌≤◌, ◌≡◌, Option, none, some, [], ◌∷◌, length, get_elem?, arith, Outcome, done, ◌>>=◌,
  Status, success, failure, Option-cases, inl, inr,
}
use nextgen.Syscall.Child.Context.{Buffer, ChildCtx, set_arg_size}
use nextgen.Syscall.Writes.{Source, store}

-- mmap of private anonymous memory, by its size and its protection; `none` is MAP_FAILED.
pub record Mapping (s : Source) : Type 0 where
  pub mmap : ℕ → ℕ → s.World → Option Buffer × s.World
  pub prot_read : ℕ
  pub prot_write : ℕ
  pub prot_read_write : ℕ
  pub length-mmap : (n p : ℕ) (w : s.World) (b : Buffer) → (mmap n p w).0 ≡ some b → length b.1 ≡ n

module _ (s : Source) (g : Mapping s) where
  open s use {World, mem_alloc, rand_range}

  -- A generator's end: its code, what the argument points to, the child, and the world.
  abbrev pub Ended : Type 0
  Ended = Status × Option Buffer × ChildCtx × World

  -- One case of the switch of generate_buf, and the size that follows it. MAP_FAILED stays in the
  -- argument, and is kept as `none`.
  unfoldable pub map_buf : ℕ → ℕ → ChildCtx → World → Ended
  map_buf nbytes prot child w =
      let (buf, w₁) = g.mmap nbytes prot w in
      elim buf [
        | none ↦ (failure, none, child, w₁)
        | some b ↦ (success, some b, set_arg_size child nbytes, w₁)
      ]

  unfoldable pub generate_buf : Option Buffer → ChildCtx → World → Ended
  generate_buf old child w =
      let (nbytes, w₁) = rand_range 1023 w in
      elim nbytes [
        | none ↦ (failure, old, child, w₁)
        | some n ↦
            let (number, w₂) = rand_range 2 w₁ in
            elim number [
              | none ↦ (failure, old, child, w₂)
              | some k ↦ elim (get_elem? (g.prot_read_write ∷ g.prot_read ∷ g.prot_write ∷ []) k) [
                | none ↦ (failure, old, child, w₂)
                | some prot ↦ map_buf (n + 1) prot child w₂
              ]
            ]
      ]

  -- The text of generate_fs_stat and generate_rusage: a fresh structure, as the memory was.
  unfoldable pub alloc_structure : ℕ → Option Buffer → ChildCtx → World → Ended
  alloc_structure size old child w =
      let (place, w₁) = mem_alloc size w in
      elim place [
        | none ↦ (failure, old, child, w₁)
        | some b ↦ (success, some b, set_arg_size child size, w₁)
      ]

  unfoldable pub generate_fs_stat : ℕ → Option Buffer → ChildCtx → World → Ended
  generate_fs_stat sizeof_statfs old child w = alloc_structure sizeof_statfs old child w

  unfoldable pub generate_rusage : ℕ → Option Buffer → ChildCtx → World → Ended
  generate_rusage sizeof_rusage old child w = alloc_structure sizeof_rusage old child w

  -- The device 0, which is what is compiled for FreeBSD and macOS, in the size of dev_t.
  unfoldable pub generate_dev : ℕ → ChildCtx → World → Outcome Ended
  generate_dev sizeof_dev child w =
      let (dev, w₁) = mem_alloc sizeof_dev w in
      elim dev [
        | none ↦ done (failure, none, child, w₁)
        | some b ↦ store sizeof_dev 0 b >>= λ b'.
            done (success, some b', set_arg_size child sizeof_dev, w₁)
      ]

  -- If generate_buf returns 0, its buffer has at least one and at most 1024 bytes, but the sizes that
  -- are recorded for the child's arguments are what they were.
  pub generate_buf_bounds :
      (old : Option Buffer) (child c : ChildCtx) (w v : World) (p : Option Buffer)
      → generate_buf old child w ≡ (success, p, c, v)
      → (b : Buffer) × (p ≡ some b)
        × (1 ≤ length b.1)
        × (length b.1 ≤ 1024)
        × (c.arg_size_array ≡ child.arg_size_array)
  unfolding generate_buf map_buf set_arg_size
  generate_buf_bounds old child c w v p e = elim (Option-cases (rand_range 1023 w).0) [
    | inl x ↦ ground (arith, x)
    | inr (n, x) ↦ elim (Option-cases (rand_range 2 (rand_range 1023 w).1).0) [
      | inl y ↦ ground (arith, x, y)
      | inr (k, y) ↦
          let prots = g.prot_read_write ∷ g.prot_read ∷ g.prot_write ∷ [] in
          let u = (rand_range 2 (rand_range 1023 w).1).1 in
          elim (Option-cases (get_elem? prots k)) [
            | inl z ↦ ground (arith, x, y, z)
            | inr (prot, z) ↦ elim (Option-cases (g.mmap (n + 1) prot u).0) [
              | inl q ↦ ground (arith, x, y, z, q)
              | inr (b, q) ↦
                  let size = g.length-mmap (n + 1) prot u b q in
                  let bound = s.rand_range-le 1023 n w x in
                  (
                    b,
                    ground (arith, x, y, z, q),
                    omega (arith, size),
                    omega (arith, size, bound),
                    ground (arith, x, y, z, q),
                  )
            ]
          ]
    ]
  ]
