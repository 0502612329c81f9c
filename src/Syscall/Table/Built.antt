-- ===== src/Syscall/Table/Built.antt =====
-- What the table built by src/syscall/syscall.c holds, and which entries get_entry gives.
use nextgen.Base.{
  ℕ, zero, suc, ◌+◌, ◌≤◌, ◌<◌, ◌≡◌, ◌⊎◌, refl, ap, sym, subst, Option, none, some, List, [], ◌∷◌,
  ltb, length, get_elem?, set, get_elem?-set, get_elem?-none, done, fault, arith, Option-cases,
  Bool-cases, ◌==◌, ltb→lt, Outcome-cases, inl, inr,
}
use nextgen.Syscall.ArgTypes.{ArgType, ArgContext, get_arg_context}
use nextgen.Syscall.Table.{
  on, SyscallEntry, SyscallTable, get_entry, set_contexts, set_entry, set_entries,
  build_syscall_table,
}

module _ {G : Type 0} where
  -- The arguments below `n` have the contexts of their types.
  abbrev pub HasContexts : ℕ → SyscallEntry G → Type 0
  HasContexts n e =
      (i : ℕ)
      → i < n
      → (t : ArgType) × (c : ArgContext) × (get_elem? e.arg_type_array i ≡ some t)
        × (get_arg_context t ≡ some c)
        × (get_elem? e.arg_context_array i ≡ some (some c))

  -- An entry differs from another in its contexts at most.
  abbrev pub Recontexted : SyscallEntry G → SyscallEntry G → Type 0
  Recontexted e f = f ≡ record e { arg_context_array = f.arg_context_array }

  HasContexts-set :
      (counter : ℕ) (e : SyscallEntry G) (t : ArgType) (c : ArgContext)
      → get_elem? e.arg_type_array counter ≡ some t
      → get_arg_context t ≡ some c
      → counter < length e.arg_context_array
      → HasContexts counter e
      → HasContexts
          (counter + 1)
          (record e { arg_context_array = set e.arg_context_array counter (some c) })
  HasContexts-set counter e t c et ec fits h i lt = elim (Bool-cases (i == counter)) [
    | inl same ↦ (
      t,
      c,
      ground (arith, et),
      ec,
      ground (arith, get_elem?-set e.arg_context_array counter i (some c)),
    )
    | inr other ↦
        let (t', c', et', ec', at) = h i (ground arith) in
        (t', c', et', ec', ground (arith, get_elem?-set e.arg_context_array counter i (some c)))
  ]

  set_contexts-HasContexts :
      (rounds counter : ℕ) (e f : SyscallEntry G)
      → set_contexts rounds counter e ≡ done (some f)
      → HasContexts counter e
      → HasContexts (counter + rounds) f × Recontexted e f
  unfolding set_contexts
  set_contexts-HasContexts zero counter e f h c =
      let same : e ≡ f = ground arith in (λ i lt. rw (← same) (c i (omega arith)), rw (← same) refl)
  set_contexts-HasContexts (suc rounds) counter e f h c =
      elim (Option-cases (get_elem? e.arg_type_array counter)) [
        | inl n ↦ ground (arith, n)
        | inr (t, et) ↦ elim (Option-cases (get_arg_context t)) [
          | inl n ↦ ground (arith, et, n)
          | inr (x, ex) ↦ elim (Bool-cases (ltb counter (length e.arg_context_array))) [
            | inl b ↦
                let e' = record e {
                  arg_context_array = set e.arg_context_array counter (some x);
                } in
                let (all, same) =
                  set_contexts-HasContexts rounds (counter + 1) e' f (ground (arith, et, ex, b))
                    (HasContexts-set counter e t x et ex (ltb→lt _ _ b) c) in
                (λ i lt. all i (omega arith), same)
            | inr b ↦ ground (arith, et, ex, b)
          ]
        ]
      ]

  -- An entry of the finished table, by the entry that it was made of: it is on, it is tested by the
  -- function of its id, and each of its arguments has the context of its type.
  pub record IsReady (e f : SyscallEntry G) : Type 0 where
    pub is_on : f.status ≡ on
    pub tested : f.test_syscall ≡ some e.id
    pub contexts : HasContexts e.total_args f
    pub args : f.total_args ≡ e.total_args
    pub symbol : f.syscall_symbol ≡ e.syscall_symbol

  pub set_entry-IsReady : (e f : SyscallEntry G) → set_entry e ≡ done (some f) → IsReady e f
  unfolding set_entry
  set_entry-IsReady e f h =
      let (all, same) =
        set_contexts-HasContexts e.total_args 0 (record e { test_syscall = some e.id; status = on })
          f h (λ i lt. absurd (omega arith)) in
      record {
        is_on = ap (λ (g : SyscallEntry G). g.status) same;
        tested = ap (λ (g : SyscallEntry G). g.test_syscall) same;
        contexts = λ i lt. all i (omega arith);
        args = ap (λ (g : SyscallEntry G). g.total_args) same;
        symbol = ap (λ (g : SyscallEntry G). g.syscall_symbol) same;
      }

  -- The first n entries are made into ready ones, and the others are kept.
  pub record IsBuilt (n : ℕ) (es fs : List (Option (SyscallEntry G))) : Type 0 where
    pub same_length : length fs ≡ length es
    pub ready :
        (i : ℕ)
        → i < n
        → (e : SyscallEntry G) × (f : SyscallEntry G) × (get_elem? es i ≡ some (some e))
          × (get_elem? fs i ≡ some (some f))
          × IsReady e f
    pub kept : (i : ℕ) → n ≤ i → get_elem? fs i ≡ get_elem? es i

  IsBuilt-cons :
      (n : ℕ) (e f : SyscallEntry G) (es fs : List (Option (SyscallEntry G)))
      → IsReady e f
      → IsBuilt n es fs
      → IsBuilt (suc n) (some e ∷ es) (some f ∷ fs)
  IsBuilt-cons n e f es fs r b = record {
    same_length = ap suc b.same_length;
    ready = first;
    kept = later;
  }
    where
      first :
          (i : ℕ)
          → i < suc n
          → (e' : SyscallEntry G) × (f' : SyscallEntry G) × (get_elem? (some e ∷ es) i
              ≡ some (some e'))
            × (get_elem? (some f ∷ fs) i ≡ some (some f'))
            × IsReady e' f'
      first zero lt = (e, f, refl, refl, r)
      first (suc i) lt = b.ready i (omega arith)

      later : (i : ℕ) → suc n ≤ i → get_elem? (some f ∷ fs) i ≡ get_elem? (some e ∷ es) i
      later zero le = absurd (omega arith)
      later (suc i) le = b.kept i (omega arith)

  set_entries-IsBuilt :
      (n : ℕ) (es fs : List (Option (SyscallEntry G)))
      → set_entries n es ≡ done (some fs)
      → IsBuilt n es fs
  unfolding set_entries
  set_entries-IsBuilt zero es fs h =
      let same : es ≡ fs = ground arith in
      record {
        same_length = ap length (sym same);
        ready = λ i lt. absurd (omega arith);
        kept = λ i le. rw same refl;
      }
  set_entries-IsBuilt (suc n) [] fs h = ground arith
  set_entries-IsBuilt (suc n) (none ∷ es) fs h = ground arith
  set_entries-IsBuilt (suc n) (some e ∷ es) fs h = elim (Outcome-cases (set_entry e)) [
    | inr o ↦ ground (arith, o)
    | inl (none, o) ↦ ground (arith, o)
    | inl (some f, o) ↦ elim (Outcome-cases (set_entries n es)) [
      | inr q ↦ ground (arith, o, q)
      | inl (none, q) ↦ ground (arith, o, q)
      | inl (some rest, q) ↦
          let same : some f ∷ rest ≡ fs = ground (arith, o, q) in
          subst (λ gs. IsBuilt (suc n) (some e ∷ es) gs) same
            (IsBuilt-cons n e f es rest (set_entry-IsReady e f o) (set_entries-IsBuilt n es rest q))
    ]
  ]

  pub build-IsBuilt :
      (t table : SyscallTable G) (place : Option ℕ)
      → build_syscall_table (some t) place ≡ done (some table)
      → IsBuilt t.total_syscalls t.sys_entry table.sys_entry
        × (table.total_syscalls ≡ t.total_syscalls)
  unfolding build_syscall_table
  build-IsBuilt t table none h = ground arith
  build-IsBuilt t table (some a) h =
      elim (Outcome-cases (set_entries t.total_syscalls t.sys_entry)) [
        | inr o ↦ ground (arith, o)
        | inl (none, o) ↦ ground (arith, o)
        | inl (some es, o) ↦
            let same : record t { sys_entry = es } ≡ table = ground (arith, o) in
            (
              subst (λ (u : SyscallTable G). IsBuilt t.total_syscalls t.sys_entry u.sys_entry) same
                  (set_entries-IsBuilt t.total_syscalls t.sys_entry es o),
              ap (λ (u : SyscallTable G). u.total_syscalls) (sym same),
            )
      ]

  -- If build_syscall_table makes a table of one whose array has a NULL behind the last entry,
  -- get_entry gives a ready entry, made of the one at that number, for each number below
  -- total_syscalls, and NULL for every other number.
  pub build-get_entry :
      (t table : SyscallTable G) (place : Option ℕ) (number : ℕ)
      → build_syscall_table (some t) place ≡ done (some table)
      → get_elem? t.sys_entry t.total_syscalls ≡ some none
      → ((e : SyscallEntry G) × (f : SyscallEntry G) × (number < t.total_syscalls)
          × (get_elem? t.sys_entry number ≡ some (some e))
          × (get_entry table number ≡ done (some f))
          × IsReady e f)
        ⊎ ((t.total_syscalls ≤ number) × (get_entry table number ≡ done none))
  unfolding get_entry
  build-get_entry t table place number h last =
      let (b, same) = build-IsBuilt t table place h in
      elim (Bool-cases (ltb number t.total_syscalls)) [
        | inl below ↦
            let (e, f, at, at', r) = b.ready number (ltb→lt _ _ below) in
            inl (e, f, ltb→lt _ _ below, at, ground (arith, at', same, below), r)
        | inr above ↦ inr (ground (arith, above), ground (arith, last, b.kept number, same, above))
      ]

  -- Where the array is as long as total_syscalls says, get_entry of that number reads outside it.
  get_entry-fault :
      (t : SyscallTable G)
      → length t.sys_entry ≡ t.total_syscalls
      → get_entry t t.total_syscalls ≡ fault
  unfolding get_entry
  get_entry-fault t h =
      ground (arith, get_elem?-none t.sys_entry t.total_syscalls (omega (arith, h)))
