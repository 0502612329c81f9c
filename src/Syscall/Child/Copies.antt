-- ===== src/Syscall/Child/Copies.antt =====
-- The copies of the arguments in src/syscall/syscall.c, which are to be given back after a test.
use nextgen.Base.{
  ℕ, zero, suc, ◌+◌, ◌-◌, ◌%◌, ◌^◌, ◌≡◌, refl, ap, sym, subst, ◌∙◌, none, some, List, [], ◌∷◌,
  get_elem?, set, done, Status, success, failure, arith, Option-cases, Outcome-cases, inl, inr,
}
use nextgen.Syscall.Table.{SyscallEntry, SyscallTable, get_entry}
use nextgen.Syscall.Child.Context.{ChildCtx, set_arg_size, memcpy}
use nextgen.Syscall.Child.Machine.{Machine}
use nextgen.Syscall.Child.Run.{
  GlobalState, World, pick_syscall, generate_argument, generate_loop, generate_arguments,
  mutate_arguments, generate_test_case, test_syscall,
}

set_self {ℓ} :
    {A : Type ℓ} (xs : List A) (i : ℕ) (x : A) → get_elem? xs i ≡ some x → set xs i x ≡ xs
set_self [] i x e = refl
set_self (y ∷ xs) zero x e = cc
set_self (y ∷ xs) (suc i) x e = ap (λ t. y ∷ t) (set_self xs i x e)

-- No argument has a size but 0.
abbrev pub NoSizes : ChildCtx → Type 0
NoSizes c = (i s : ℕ) → get_elem? c.arg_size_array i ≡ some s → s ≡ 0

-- The copies and the sizes of two contexts are the same.
pub record SameCopies (c d : ChildCtx) : Type 0 where
  pub copies : d.arg_copy_array ≡ c.arg_copy_array
  pub sizes : d.arg_size_array ≡ c.arg_size_array

SameCopies-trans : (b c d : ChildCtx) → SameCopies b c → SameCopies c d → SameCopies b d
SameCopies-trans b c d x y = record { copies = y.copies ∙ x.copies; sizes = y.sizes ∙ x.sizes }

module _ {G : Type 0} (m : Machine G) (t : SyscallTable G) where
  generate_argument-SameCopies :
      (e : SyscallEntry G) (i : ℕ) (c d : ChildCtx) (w v : World m t) (s : Status)
      → NoSizes c
      → generate_argument m t e i c w ≡ done (s, d, v)
      → SameCopies c d
  unfolding generate_argument memcpy set_arg_size
  generate_argument-SameCopies e i c d w v s none_sized h =
      elim (Option-cases (get_elem? e.get_arg_array i)) [
        | inl n ↦ ground (arith, n)
        | inr (g, eg) ↦ elim (Option-cases (get_elem? c.arg_value_array i)) [
          | inl n ↦ ground (arith, eg, n)
          | inr (value, ev) ↦ elim (Outcome-cases (m.generate g c value w)) [
            | inr n ↦ ground (arith, eg, ev, n)
            | inl ((failure, p, z, u), er) ↦ ground (arith, eg, ev, er)
            | inl ((success, p, z, u), er) ↦ elim (Option-cases (get_elem? c.arg_copy_array i)) [
              | inl n ↦ ground (arith, eg, ev, er, n)
              | inr (copy, ec) ↦ elim (Option-cases (get_elem? c.arg_size_array i)) [
                | inl n ↦ ground (arith, eg, ev, er, ec, n)
                | inr (size, es) ↦ ground (
                  arith,
                  eg,
                  ev,
                  er,
                  ec,
                  es,
                  none_sized i size es,
                  set_self c.arg_copy_array i copy ec,
                )
              ]
            ]
          ]
        ]
      ]

  NoSizes-SameCopies : (c d : ChildCtx) → SameCopies c d → NoSizes c → NoSizes d
  NoSizes-SameCopies c d x n i s e = n i s (ap (λ xs. get_elem? xs i) (sym x.sizes) ∙ e)

  generate_loop-SameCopies :
      (rounds i : ℕ) (c d : ChildCtx) (w v : World m t) (s : Status)
      → NoSizes c
      → generate_loop m t rounds i c w ≡ done (s, d, v)
      → SameCopies c d
  unfolding generate_loop
  generate_loop-SameCopies zero i c d w v s n h = ground arith
  generate_loop-SameCopies (suc rounds) i c d w v s n h =
      let c₀ = record c { current_arg = i } in
      elim (Outcome-cases (get_entry t c.syscall_number)) [
        | inr o ↦ ground (arith, o)
        | inl (none, o) ↦ ground (arith, o)
        | inl (some e, o) ↦ elim (Outcome-cases (generate_argument m t e i c₀ w)) [
          | inr q ↦ ground (arith, o, q)
          | inl ((failure, b, u), q) ↦
              ground (arith, o, q, generate_argument-SameCopies e i c₀ b w u failure n q)
          | inl ((success, b, u), q) ↦
              let made = generate_argument-SameCopies e i c₀ b w u success n q in
              let first : SameCopies c b = record { copies = made.copies; sizes = made.sizes } in
              SameCopies-trans c b d first (
                generate_loop-SameCopies rounds (i + 1) b d u v s (NoSizes-SameCopies c b first n)
                  (ground (arith, o, q)))
        ]
      ]

  pick-SameCopies :
      (c d : ChildCtx) (w v : World m t) (s : Status)
      → pick_syscall m t c w ≡ done (s, d, v)
      → SameCopies c d
  unfolding pick_syscall
  pick-SameCopies c d w v s h =
      let num = (m.range ((t.total_syscalls + 2 ^ 32 - 1) % 2 ^ 32) w).0 in
      elim (Option-cases num) [
        | inl o ↦ ground (arith, o)
        | inr (n, o) ↦ elim (Option-cases (get_elem? t.sys_entry n)) [
          | inl q ↦ ground (arith, o, q)
          | inr (none, q) ↦ ground (arith, o, q)
          | inr (some e, q) ↦ ground (arith, o, q)
        ]
      ]

  test_case-SameCopies :
      (c d : ChildCtx) (w v : World m t) (s : Status)
      → NoSizes c
      → generate_test_case m t c w ≡ done (s, d, v)
      → SameCopies c d
  unfolding generate_test_case generate_arguments mutate_arguments
  test_case-SameCopies c d w v s n h = elim (Outcome-cases (pick_syscall m t c w)) [
    | inr o ↦ ground (arith, o)
    | inl ((failure, b, u), o) ↦ ground (arith, o, pick-SameCopies c b w u failure o)
    | inl ((success, b, u), o) ↦
        let picked = pick-SameCopies c b w u success o in
        elim (Outcome-cases (generate_loop m t b.total_args 0 b u)) [
          | inr q ↦ ground (arith, o, q)
          | inl ((r, a, x), q) ↦
              let made = SameCopies-trans c b a picked (
                generate_loop-SameCopies b.total_args 0 b a u x r (NoSizes-SameCopies c b picked n)
                  q) in
              let same : d ≡ a = elim (Outcome-cases (get_entry t a.syscall_number)) [
                | inr y ↦ ground (arith, o, q, y)
                | inl (none, y) ↦ ground (arith, o, q, y)
                | inl (some e, y) ↦ ground (arith, o, q, y)
              ] in
              subst (λ k. SameCopies c k) (sym same) made
        ]
  ]

  -- Where no argument has a size, as after init_child_context, choosing a system call, generating its
  -- arguments and testing it leave the copies and the sizes as they were, also where generators call
  -- set_arg_size.
  pub test-SameCopies :
      (c d e : ChildCtx) (state later : GlobalState) (w v u : World m t) (s r : Status)
      → NoSizes c
      → generate_test_case m t c w ≡ done (s, d, v)
      → test_syscall m t state d v ≡ done (r, later, e, u)
      → SameCopies c e
  unfolding test_syscall
  test-SameCopies c d e state later w v u s r n g h =
      let before = test_case-SameCopies c d w v s n g in
      elim (Outcome-cases (get_entry t d.syscall_number)) [
        | inr o ↦ ground (arith, o)
        | inl (none, o) ↦ ground (arith, o, before)
        | inl (some entry, o) ↦ elim (Option-cases entry.test_syscall) [
          | inl q ↦ ground (arith, o, q)
          | inr (id, q) ↦ ground (arith, o, q, before)
        ]
      ]
