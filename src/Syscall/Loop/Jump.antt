-- ===== src/Syscall/Loop/Jump.antt =====
-- The way of a child of src/syscall/syscall.c into its loop, at its start and after a signal.
use nextgen.Base.{
  ℕ, ◌≡◌, refl, subst, true, false, some, done, fault, set, length, get_elem?-set_self, length-set,
  ◌<◌, ◌>>=◌, Status, success, failure, arith, Outcome-cases, inl, inr,
}
use nextgen.Concurrent.Epoch.{ThreadCtx, epoch_start, epoch_stop}
use nextgen.Concurrent.Epoch.Nesting.{start-counted, start-buf_size, start_success}
use nextgen.Concurrent.Epoch.Stopping.{stop-IsValid}
use nextgen.Syscall.Children.{Family, get_child_ctx_from_pid}
use nextgen.Syscall.Table.{SyscallTable}
use nextgen.Syscall.Child.Machine.{Machine}
use nextgen.Syscall.Loop.{
  Guards, LoopState, Signal, record_signal, store_child, child_signal_handler, interrupted,
  enter_section, leave_section, log_the_results, free_arguments, after_jump, rejoin,
  start_syscall_child, prepare, crashed_round,
}
use nextgen.Syscall.Loop.Sections.{
  record_signal-did_jump, Open, enter-Open, leave-Open, leave-none, prepare-Open, Open-thread,
  logged-free-thread,
}

module _ {G : Type 0} (m : Machine G) (g : Guards m) (t : SyscallTable G) where
  rejoin_plain :
      (l : LoopState m g)
      → l.child.did_jump ≡ false
      → rejoin m g t l ≡ (leave_section m g t l >>= λ k. done (success, k))
  unfolding rejoin
  rejoin_plain l e = ground (arith, e)

  enter_eq :
      (l : LoopState m g) (r : Status × ThreadCtx g.ck × m.kernel.World)
      → epoch_start g.ck m.allocator g.reallocarray g.sizeof_section l.thread l.world ≡ done r
      → enter_section m g t l ≡ done (record l { thread = r.1; world = r.2 })
  unfolding enter_section
  enter_eq l r e = rw e refl

  leave_eq :
      (l : LoopState m g) (q : ThreadCtx g.ck × m.kernel.World)
      → epoch_stop g.ck m.allocator l.thread l.world ≡ done q
      → leave_section m g t l ≡ done (record l { thread = q.0; world = q.1 })
  unfolding leave_section
  leave_eq l q e = rw e refl

  -- A new child in no section, for which the section can be allocated, reaches its loop in no
  -- section.
  start_child-Open :
      (l : LoopState m g) (a : ℕ)
      → Open m g t 0 l
      → l.child.did_jump ≡ false
      → (m.allocator.alloc g.sizeof_section l.world).0 ≡ some a
      → (k : LoopState m g) × (start_syscall_child m g t l ≡ done (success, k)) × Open m g t 0 k
  unfolding start_syscall_child
  start_child-Open l a o j e =
      let (r, eq, v, c) =
        start-counted g.ck m.allocator g.reallocarray g.sizeof_section l.thread l.world o.valid
          (omega (arith, o.depth, o.room)) in
      let big =
        start-buf_size g.ck m.allocator g.reallocarray g.sizeof_section l.thread l.world r
          o.valid.fits eq in
      let good =
        start_success g.ck m.allocator g.reallocarray g.sizeof_section l.thread l.world r a
          o.valid.fits e eq in
      let b = record l { thread = r.1; world = r.2 } in
      let opened : Open m g t 1 b = record {
        valid = v;
        depth = ground (arith, c, good, o.depth);
        room = omega (arith, big, o.room);
      } in
      let entered : enter_section m g t l ≡ done b = enter_eq l r eq in
      let (q, stopped, v', c') = stop-IsValid g.ck m.allocator b.thread b.world 0 v opened.depth in
      let d = record b { thread = q.0; world = q.1 } in
      let left : leave_section m g t b ≡ done d = leave_eq b q stopped in
      (d, ground (arith, entered, rejoin_plain b j, left), (leave-Open m g t 0 b d opened left).0)

  after_jump-Open :
      (l k : LoopState m g)
      → Open m g t 0 l
      → after_jump m g t l ≡ done (success, k)
      → Open m g t 0 k
  unfolding after_jump
  after_jump-Open l k o e = elim (Outcome-cases (enter_section m g t l)) [
    | inr n ↦ ground (arith, n)
    | inl (a, ea) ↦
        let logged = log_the_results m g t a in
        elim (Outcome-cases (free_arguments m g t logged.1)) [
          | inr n ↦ ground (arith, ea, n)
          | inl ((failure, b), eb) ↦ ground (arith, ea, eb)
          | inl ((success, b), eb) ↦
              let kept : b.thread ≡ a.thread = logged-free-thread m g t a b success eb in
              elim (Outcome-cases (leave_section m g t b)) [
                | inr n ↦ ground (arith, ea, eb, n)
                | inl (d, ed) ↦ elim (enter-Open m g t 0 l a o (omega arith) ea).0 [
                  | inl closed ↦
                      ground (arith, ed, leave-none m g t b (Open-thread m g t 0 a b kept closed))
                  | inr opened ↦
                      let same : d ≡ k = ground (arith, ea, eb, ed) in
                      subst (Open m g t 0) same
                        (leave-Open m g t 0 b d (Open-thread m g t 1 a b kept opened) ed).0
                ]
              ]
        ]
  ]

  rejoin-fault :
      (l k : LoopState m g)
      → Open m g t 0 l
      → l.child.did_jump ≡ true
      → after_jump m g t l ≡ done (success, k)
      → (leave_section m g t k ≡ fault) × (rejoin m g t l ≡ fault)
  unfolding rejoin
  rejoin-fault l k o j e =
      let outside = leave-none m g t k (after_jump-Open l k o e) in
      (outside, ground (arith, j, e, outside))

  -- A child in no section, which a signal interrupts in its test, whose context the handler finds,
  -- and whose last test is logged and freed, does not come back to its loop: two sections are ended
  -- where one was started, and the second epoch_stop reads outside the array.
  pub crashed_round-stuck :
      (sig : Signal) (si_pid own : ℕ) (f : Family) (w : m.kernel.World) (l a k : LoopState m g)
      → Open m g t 0 l
      → own < length f.children
      → prepare m g t l ≡ done (success, a)
      → get_child_ctx_from_pid (store_child own a.child f) si_pid ≡ some own
      → after_jump m g t (interrupted m g t (record_signal sig a.child) w a) ≡ done (success, k)
      → (leave_section m g t k ≡ fault) × (crashed_round m g t sig si_pid own f w l ≡ fault)
  unfolding crashed_round child_signal_handler
  crashed_round-stuck sig si_pid own f w l a k o inside prepared found jumped =
      let b = interrupted m g t (record_signal sig a.child) w a in
      let closed : Open m g t 0 b =
        Open-thread m g t 0 a b refl (prepare-Open m g t l a o prepared) in
      let (outside, back) = rejoin-fault b k closed (record_signal-did_jump sig a.child) jumped in
      let own_there = get_elem?-set_self f.children own a.child inside in
      let there =
        get_elem?-set_self (set f.children own a.child) own (record_signal sig a.child)
          (rw (length-set f.children own a.child) inside) in
      (outside, ground (arith, prepared, found, own_there, there, back))
