-- ===== src/Syscall/Loop/Sections.antt =====
-- The sections that a child of src/syscall/syscall.c has open when it comes round its loop.
use nextgen.Base.{
  ℕ, zero, suc, ◌≤◌, ◌<◌, ◌≡◌, refl, ap, sym, subst, true, done, fault, Status, success, failure,
  arith, is_success, Outcome-cases, Bool-cases, inl, inr, ◌⊎◌,
}
use nextgen.Concurrent.Epoch.Nesting.{IsValid, start-counted, start-buf_size}
use nextgen.Concurrent.Epoch.Stopping.{stop-IsValid, stop-fault, stop-buf_size}
use nextgen.Syscall.Table.{SyscallTable}
use nextgen.Syscall.Child.Context.{
  ChildCtx, set_had_error, set_ret_value, set_did_jump, set_sig_num,
}
use nextgen.Syscall.Child.Machine.{Machine}
use nextgen.Syscall.Child.Run.{generate_test_case, test_syscall, free_old_arguments}
use nextgen.Syscall.Loop.{
  Guards, LoopState, Signal, sigalrm, bad_signal, record_signal, enter_section, leave_section,
  log_the_results, free_arguments, prepare, test_and_free, round, rounds,
}

pub record_signal-did_jump : (s : Signal) (c : ChildCtx) → (record_signal s c).did_jump ≡ true
unfolding record_signal set_had_error set_ret_value set_did_jump set_sig_num
record_signal-did_jump sigalrm c = refl
record_signal-did_jump (bad_signal n) c = refl

module _ {G : Type 0} (m : Machine G) (g : Guards m) (t : SyscallTable G) where
  -- A well-formed thread that is in `n` sections.
  pub record Open (n : ℕ) (l : LoopState m g) : Type 0 where
    pub valid : IsValid g.ck l.thread
    pub depth : l.thread.section_count ≡ n
    pub room : 8 ≤ l.thread.buf_size

  -- A call of epoch_start opens a section, or none if its allocation failed.
  pub enter-Open :
      (n : ℕ) (l k : LoopState m g)
      → Open n l
      → n < 8
      → enter_section m g t l ≡ done k
      → (Open n k ⊎ Open (suc n) k) × (k.child ≡ l.child)
  unfolding enter_section
  enter-Open n l k o lt e =
      let (r, eq, v, c) =
        start-counted g.ck m.allocator g.reallocarray g.sizeof_section l.thread l.world o.valid
          (omega (arith, o.depth, o.room)) in
      let big =
        start-buf_size g.ck m.allocator g.reallocarray g.sizeof_section l.thread l.world r
          o.valid.fits eq in
      let same : record l { thread = r.1; world = r.2 } ≡ k = ground (arith, eq) in
      (
        elim (Bool-cases (is_success r.0)) [
          | inl b ↦ inr (
              subst (Open (suc n)) same (record {
                valid = v;
                depth = ground (arith, c, b, o.depth);
                room = omega (arith, big, o.room);
              }))
          | inr b ↦ inl (
              subst (Open n) same (record {
                valid = v;
                depth = ground (arith, c, b, o.depth);
                room = omega (arith, big, o.room);
              }))
        ],
        ap (λ (x : LoopState m g). x.child) (sym same),
      )

  pub leave-Open :
      (n : ℕ) (l k : LoopState m g)
      → Open (suc n) l
      → leave_section m g t l ≡ done k
      → Open n k × (k.child ≡ l.child)
  unfolding leave_section
  leave-Open n l k o e =
      let (q, eq, v, c) = stop-IsValid g.ck m.allocator l.thread l.world n o.valid o.depth in
      let big = stop-buf_size g.ck m.allocator l.thread l.world q eq in
      let same : record l { thread = q.0; world = q.1 } ≡ k = ground (arith, eq) in
      (
        subst (Open n) same (record { valid = v; depth = c; room = omega (arith, big, o.room) }),
        ap (λ (x : LoopState m g). x.child) (sym same),
      )

  pub leave-none : (l : LoopState m g) → Open 0 l → leave_section m g t l ≡ fault
  unfolding leave_section
  leave-none l o = ground (arith, stop-fault g.ck m.allocator l.thread l.world o.valid o.depth)

  Open-child :
      (n : ℕ) (l : LoopState m g) (c : ChildCtx) (w : m.kernel.World)
      → Open n l
      → Open n (record l { child = c; world = w })
  Open-child n l c w o = record { valid = o.valid; depth = o.depth; room = o.room }

  -- A round that returns has closed the section that it opened: if the allocation of the section
  -- fails, which start_syscall_child does not look at, the round does not return.
  pub prepare-Open :
      (l k : LoopState m g) → Open 0 l → prepare m g t l ≡ done (success, k) → Open 0 k
  unfolding prepare
  prepare-Open l k o e = elim (Outcome-cases (enter_section m g t l)) [
    | inr n ↦ ground (arith, n)
    | inl (a, ea) ↦ elim (Outcome-cases (generate_test_case m t a.child a.world)) [
      | inr n ↦ ground (arith, ea, n)
      | inl ((failure, c, w), ec) ↦ ground (arith, ea, ec)
      | inl ((success, c, w), ec) ↦
          let b = record a { child = c; world = w } in
          let entered = (enter-Open 0 l a o (omega arith) ea).0 in
          elim (Outcome-cases (leave_section m g t b)) [
            | inr n ↦ ground (arith, ea, ec, n)
            | inl (d, ed) ↦
                let same : d ≡ k = ground (arith, ea, ec, ed) in
                elim entered [
                  | inl closed ↦ ground (arith, ed, leave-none b (Open-child 0 a c w closed))
                  | inr opened ↦
                      subst (Open 0) same (leave-Open 0 b d (Open-child 1 a c w opened) ed).0
                ]
          ]
    ]
  ]

  pub Open-thread : (n : ℕ) (l k : LoopState m g) → k.thread ≡ l.thread → Open n l → Open n k
  Open-thread n l k e o = record { valid = rw e o.valid; depth = rw e o.depth; room = rw e o.room }

  free-thread :
      (l k : LoopState m g) (s : Status)
      → free_arguments m g t l ≡ done (s, k)
      → k.thread ≡ l.thread
  unfolding free_arguments
  free-thread l k s e = elim (Outcome-cases (free_old_arguments m t l.child l.world)) [
    | inr n ↦ ground (arith, n)
    | inl (r, n) ↦ ground (arith, n)
  ]

  -- Logging the results does not touch the thread.
  pub logged-free-thread :
      (l k : LoopState m g) (s : Status)
      → free_arguments m g t (log_the_results m g t l).1 ≡ done (s, k)
      → k.thread ≡ l.thread
  unfolding log_the_results
  logged-free-thread l k s e = free-thread (log_the_results m g t l).1 k s e

  test_and_free-thread :
      (l k : LoopState m g) → test_and_free m g t l ≡ done (success, k) → k.thread ≡ l.thread
  unfolding test_and_free
  test_and_free-thread l k e = elim (Outcome-cases (test_syscall m t l.state l.child l.world)) [
    | inr n ↦ ground (arith, n)
    | inl ((failure, s, c, w), n) ↦ ground (arith, n)
    | inl ((success, s, c, w), n) ↦
        let b = record l { state = s; child = c; world = w } in
        let logged = log_the_results m g t b in
        elim (Outcome-cases (free_arguments m g t logged.1)) [
          | inr q ↦ ground (arith, n, q)
          | inl ((r, d), q) ↦ ground (arith, n, q, logged-free-thread b d r q)
        ]
  ]

  round-Open : (l k : LoopState m g) → Open 0 l → round m g t l ≡ done (success, k) → Open 0 k
  unfolding round
  round-Open l k o e = elim (Outcome-cases (prepare m g t l)) [
    | inr n ↦ ground (arith, n)
    | inl ((failure, a), n) ↦ ground (arith, n)
    | inl ((success, a), n) ↦
        Open-thread 0 a k (test_and_free-thread a k (ground (arith, n))) (prepare-Open l a o n)
  ]

  -- A child that is in no section stays so over any number of rounds that return, and its thread
  -- stays well-formed: each round ends the section that it starts.
  pub rounds-Open :
      (n : ℕ) (l k : LoopState m g) → Open 0 l → rounds m g t n l ≡ done (success, k) → Open 0 k
  unfolding rounds
  rounds-Open zero l k o e = let same : l ≡ k = ground arith in subst (Open 0) same o
  rounds-Open (suc n) l k o e = elim (Outcome-cases (round m g t l)) [
    | inr q ↦ ground (arith, q)
    | inl ((failure, a), q) ↦ ground (arith, q)
    | inl ((success, a), q) ↦ rounds-Open n a k (round-Open l a o q) (ground (arith, q))
  ]
