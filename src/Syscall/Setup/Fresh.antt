-- ===== src/Syscall/Setup/Fresh.antt =====
-- The children that src/syscall/syscall.c sets up.
use nextgen.Base.{
  ℕ, zero, suc, ◌*◌, ◌^◌, ◌<◌, ◌≡◌, ◌≢◌, refl, ap, sym, subst, true, false, Option, none, some,
  List, [], ◌∷◌, All, length, replicate, get_elem?, arith, done, if◌then◌else◌, success,
  Option-cases, Outcome-cases, inl, inr,
}
use nextgen.Memory.Alloc.{MemoryAllocator}
use nextgen.Syscall.Table.{SyscallTable, get_syscall_table}
use nextgen.Syscall.Child.Context.{Buffer, ChildCtx, arg_limit}
use nextgen.Syscall.Child.Copies.{NoSizes}
use nextgen.Syscall.Children.Count.{taken, IsCounted}
use nextgen.Syscall.Setup.{
  init_buffers, init_child_context, init_children, SyscallModule, setup_syscall_module,
  sizeof_child, sizeof_state, fresh_child, table_place,
}

replicate-zero : (n i s : ℕ) → get_elem? (replicate n 0) i ≡ some s → s ≡ 0
replicate-zero zero i s e = ground arith
replicate-zero (suc n) zero s e = ground arith
replicate-zero (suc n) (suc i) s e = replicate-zero n i s e

-- A context that no test has used: no pid, no jump, no sizes, and a buffer for each argument and
-- each copy.
pub record IsUnused (c : ChildCtx) : Type 0 where
  pub no_pid : c.pid ≡ 0
  pub no_jump : c.did_jump ≡ false
  pub no_sizes : NoSizes c
  pub values : (length c.arg_value_array ≡ arg_limit) × All (λ p. p ≢ none) c.arg_value_array
  pub copies : (length c.arg_copy_array ≡ arg_limit) × All (λ p. p ≢ none) c.arg_copy_array

-- As many buffers as arguments, none of them NULL.
abbrev pub Buffers : ℕ → List (Option Buffer) → Type 0
Buffers n bs = (length bs ≡ n) × All (λ p. p ≢ none) bs

Buffers-cons :
    (n : ℕ) (b : Buffer) (bs : List (Option Buffer)) → Buffers n bs → Buffers (suc n) (some b ∷ bs)
Buffers-cons n b bs h = (ap suc h.0, ((λ e. cc), h.1))

taken-unused : (cs : List ChildCtx) → All IsUnused cs → taken cs ≡ 0
taken-unused [] h = refl
taken-unused (c ∷ cs) h = ground (arith, h.0.no_pid, taken-unused cs h.1)

-- The table is set, there is a child for each core, none of them has been used, and the counter of
-- running children is the number of slots with a child.
abbrev pub WellSet : {G : Type 0} → ℕ → SyscallModule G → Type 0
WellSet cores r =
    (r.table_set ≡ true)
    × (length r.children ≡ cores)
    × All IsUnused r.children
    × IsCounted (record { children = r.children; running_children = r.state.running_children })

module _ {World : Type 0} (al : MemoryAllocator World) (len : ℕ) where
  init_buffers-Buffers :
      (n : ℕ) (w : World) (r : List (Option Buffer) × List (Option Buffer))
      → (init_buffers al len n w).0 ≡ some r
      → Buffers n r.0 × Buffers n r.1
  unfolding init_buffers
  init_buffers-Buffers zero w r e =
      let same : ([], []) ≡ r = ground arith in
      subst (λ (q : List (Option Buffer) × List (Option Buffer)). Buffers 0 q.0 × Buffers 0 q.1)
        same ((refl, tt), (refl, tt))
  init_buffers-Buffers (suc n) w r e =
      let w₁ = (al.shared len w).1 in
      let w₂ = (al.shared len w₁).1 in
      elim (Option-cases (al.shared len w).0) [
        | inl o ↦ ground (arith, o)
        | inr (v, o) ↦ elim (Option-cases (al.shared len w₁).0) [
          | inl q ↦ ground (arith, o, q)
          | inr (c, q) ↦ elim (Option-cases (init_buffers al len n w₂).0) [
            | inl z ↦ ground (arith, o, q, z)
            | inr (x, z) ↦
                let (vs, cs) = init_buffers-Buffers n w₂ x z in
                let zeros = replicate len 0 in
                let same : (some (v, zeros) ∷ x.0, some (c, zeros) ∷ x.1) ≡ r =
                  ground (arith, o, q, z) in
                subst
                  (λ (y : List (Option Buffer) × List (Option Buffer)).
                    Buffers (suc n) y.0 × Buffers (suc n) y.1)
                  same (Buffers-cons n (v, zeros) x.0 vs, Buffers-cons n (c, zeros) x.1 cs)
          ]
        ]
      ]

  init_child-IsUnused :
      (w : World) (c : ChildCtx) → (init_child_context al len w).0 ≡ some c → IsUnused c
  unfolding init_child_context
  init_child-IsUnused w c e =
      let w₁ = (al.shared sizeof_child w).1 in
      let w₂ = (al.shared (arg_limit * 8) w₁).1 in
      let w₃ = (al.shared (arg_limit * 8) w₂).1 in
      let w₄ = (al.shared (arg_limit * 8) w₃).1 in
      elim (Option-cases (al.shared sizeof_child w).0) [
        | inl o ↦ ground (arith, o)
        | inr (a, o) ↦ elim (Option-cases (al.shared (arg_limit * 8) w₁).0) [
          | inl q ↦ ground (arith, o, q)
          | inr (v, q) ↦ elim (Option-cases (al.shared (arg_limit * 8) w₂).0) [
            | inl x ↦ ground (arith, o, q, x)
            | inr (s, x) ↦ elim (Option-cases (al.shared (arg_limit * 8) w₃).0) [
              | inl y ↦ ground (arith, o, q, x, y)
              | inr (d, y) ↦ elim (Option-cases (init_buffers al len arg_limit w₄).0) [
                | inl z ↦ ground (arith, o, q, x, y, z)
                | inr (b, z) ↦
                    let made = init_buffers-Buffers arg_limit w₄ b z in
                    let same : fresh_child al len b.0 b.1 ≡ c = ground (arith, o, q, x, y, z) in
                    subst IsUnused same (record {
                      no_pid = refl;
                      no_jump = refl;
                      no_sizes = λ i k h. replicate-zero arg_limit i k h;
                      values = made.0;
                      copies = made.1;
                    })
              ]
            ]
          ]
        ]
      ]

  init_children-IsUnused :
      (n : ℕ) (w : World) (cs : List ChildCtx)
      → (init_children al len n w).0 ≡ some cs
      → (length cs ≡ n) × All IsUnused cs
  unfolding init_children
  init_children-IsUnused zero w cs e =
      let same : [] ≡ cs = ground arith in
      subst (λ ds. (length ds ≡ 0) × All IsUnused ds) same (refl, tt)
  init_children-IsUnused (suc n) w cs e =
      let w₁ = (init_child_context al len w).1 in
      elim (Option-cases (init_child_context al len w).0) [
        | inl o ↦ ground (arith, o)
        | inr (c, o) ↦ elim (Option-cases (init_children al len n w₁).0) [
          | inl q ↦ ground (arith, o, q)
          | inr (ds, q) ↦
              let (long, all) = init_children-IsUnused n w₁ ds q in
              let same : c ∷ ds ≡ cs = ground (arith, o, q) in
              subst (λ es. (length es ≡ suc n) × All IsUnused es) same
                (ap suc long, (init_child-IsUnused w c o, all))
        ]
      ]

  -- If setup_syscall_module returns 0, the table is set, there is a child for each core, none of the
  -- children has been used, and the counter of running children, which is 0, is the number of slots
  -- with a child.
  pub setup-WellSet :
      {G : Type 0} (cores : ℕ) (counter : ℕ) (t : Option (SyscallTable G)) (m r : SyscallModule G)
      (w v : World)
      → cores < 2 ^ 32
      → setup_syscall_module al len (some cores) counter t m w ≡ done (success, r, v)
      → WellSet cores r
  unfolding setup_syscall_module
  setup-WellSet {G} cores counter t m r w v small e =
      let placed = table_place al len (if m.table_set then none else t) w in
      let state = al.shared sizeof_state placed.1 in
      let index = al.shared (cores * 8) state.1 in
      elim (Outcome-cases (get_syscall_table m.table_set m.sys_table t placed.0)) [
        | inr o ↦ ground (arith, o)
        | inl (none, o) ↦ ground (arith, o)
        | inl (some table, o) ↦ elim (Option-cases state.0) [
          | inl q ↦ ground (arith, o, q)
          | inr (a, q) ↦ elim (Option-cases index.0) [
            | inl x ↦ ground (arith, o, q, x)
            | inr (b, x) ↦ elim (Option-cases (init_children al len cores index.1).0) [
              | inl y ↦ ground (arith, o, q, x, y)
              | inr (cs, y) ↦
                  let (long, all) = init_children-IsUnused cores index.1 cs y in
                  let made : SyscallModule G = record {
                    sys_table = some table;
                    table_set = true;
                    state = record { running_children = 0; test_counter = counter };
                    children = cs;
                  } in
                  let same : made ≡ r = ground (arith, o, q, x, y) in
                  subst (WellSet cores) same (
                    refl,
                    long,
                    all,
                    record {
                      counted = sym (taken-unused cs all);
                      small = omega (arith, long, small);
                    },
                  )
            ]
          ]
        ]
      ]
