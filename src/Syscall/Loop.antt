-- ===== src/Syscall/Loop.antt =====
-- The main loop of a fuzzing child in src/syscall/syscall.c, with its epoch-protected sections
-- (src/concurrent/epoch.c), and the return to it from a signal handler (src/syscall/signals.c).
pub mod Sections
pub mod Jump
mod Examples
use nextgen.Base.{
  ℕ, zero, suc, ◌+◌, ◌-◌, ◌%◌, ◌^◌, Bool, true, false, if◌then◌else◌, Outcome, done, fault, none,
  some, get_elem?, set, ◌==◌, ◌>>=◌, Status, success, failure,
}
use nextgen.Syscall.Children.{Family, get_child_ctx_from_pid}
use nextgen.Concurrent.Epoch.{CkEpoch, ThreadCtx, epoch_start, epoch_stop}
use nextgen.Syscall.Table.{SyscallTable}
use nextgen.Syscall.Child.Context.{
  ChildCtx, set_had_error, set_ret_value, set_sig_num, set_did_jump,
}
use nextgen.Syscall.Child.Machine.{Machine}
use nextgen.Syscall.Child.Run.{
  GlobalState, World, generate_test_case, test_syscall, free_old_arguments,
}

-- Concurrency Kit's epochs, the size of a section, and whether reallocarray gives a larger array.
pub record Guards {G : Type 0} (m : Machine G) : Type 1 where
  pub ck : CkEpoch
  pub sizeof_section : ℕ
  pub reallocarray : m.kernel.World → Bool × m.kernel.World

-- What a child has: its thread structure, its context, the counters of all children, the world.
pub record LoopState {G : Type 0} (m : Machine G) (g : Guards m) : Type 0 where
  pub thread : ThreadCtx g.ck
  pub child : ChildCtx
  pub state : GlobalState
  pub world : m.kernel.World

-- The signals that the handler tells apart.
pub data Signal : Type 0 where
  sigalrm : Signal
  bad_signal : ℕ → Signal

-- The switch of `child_signal_handler` on the context that it found. -1 is kept as a 32-bit pattern,
-- and SIGALRM is 14.
unfoldable pub record_signal : Signal → ChildCtx → ChildCtx
record_signal sigalrm child =
    set_sig_num 14 (set_did_jump true (set_ret_value 0 (set_had_error false child)))
record_signal (bad_signal sig) child =
    set_sig_num sig (set_did_jump true (set_ret_value (2 ^ 32 - 1) (set_had_error true child)))

-- A write of the context of the child at a number.
abbrev pub store_child : ℕ → ChildCtx → Family → Family
store_child i c f = record f { children = set f.children i c }

-- `child_signal_handler`: the number of the child whose return point it jumps to. `si_pid` is the
-- process that the system names as the sender of the signal; where no child has it, the context is
-- NULL and the handler writes through it.
unfoldable pub child_signal_handler : Signal → ℕ → Family → Outcome (ℕ × Family)
child_signal_handler sig si_pid f = elim (get_child_ctx_from_pid f si_pid) [
  | none ↦ fault
  | some i ↦ elim (get_elem? f.children i) [
    | none ↦ fault
    | some c ↦ done (i, store_child i (record_signal sig c) f)
  ]
]

module _ {G : Type 0} (m : Machine G) (g : Guards m) (sys_table : SyscallTable G) where
  -- Where the code calls exit_child, the result is `failure`.
  abbrev pub Turn : Type 0
  Turn = Outcome (Status × LoopState m g)

  -- Calls of epoch_start whose result is not looked at, and of epoch_stop.
  unfoldable pub enter_section : LoopState m g → Outcome (LoopState m g)
  enter_section l =
      epoch_start g.ck m.allocator g.reallocarray g.sizeof_section l.thread l.world >>= λ r.
      done (record l { thread = r.1; world = r.2 })

  unfoldable pub leave_section : LoopState m g → Outcome (LoopState m g)
  leave_section l = epoch_stop g.ck m.allocator l.thread l.world >>= λ r.
      done (record l { thread = r.0; world = r.1 })

  unfoldable pub log_the_results : LoopState m g → Status × LoopState m g
  log_the_results l =
      let (s, w) = m.log_results l.child.had_error l.child.ret_value l.child.sig_num l.world in
      (s, record l { world = w })

  unfoldable pub free_arguments : LoopState m g → Turn
  free_arguments l = free_old_arguments m sys_table l.child l.world >>= λ r.
      done (r.0, record l { child = r.1; world = r.2 })

  -- What start_syscall_child does for a child that came back from the signal handler.
  unfoldable pub after_jump : LoopState m g → Turn
  after_jump l = enter_section l >>= λ l₁.
      let (logged, l₂) = log_the_results l₁ in
      elim logged [
        | failure ↦ done (failure, l₂)
        | success ↦ free_arguments l₂ >>= λ f. elim f.0 [
          | failure ↦ done f
          | success ↦ leave_section f.1 >>= λ l₃. done (success, l₃)
        ]
      ]

  -- start_syscall_child from setjmp to its loop.
  unfoldable pub rejoin : LoopState m g → Turn
  rejoin l = (if l.child.did_jump then after_jump l else done (success, l)) >>= λ r. elim r.0 [
    | failure ↦ done r
    | success ↦ leave_section r.1 >>= λ l₁. done (success, l₁)
  ]

  -- start_syscall_child up to its loop, for a child whose context was found.
  unfoldable pub start_syscall_child : LoopState m g → Turn
  start_syscall_child l = enter_section l >>= rejoin

  -- The round of the loop up to the test.
  unfoldable pub prepare : LoopState m g → Turn
  prepare l = enter_section l >>= λ l₁. generate_test_case m sys_table l₁.child l₁.world >>= λ r.
      let l₂ = record l₁ { child = r.1; world = r.2 } in
      elim r.0 [
        | failure ↦ done (failure, l₂)
        | success ↦ leave_section l₂ >>= λ l₃. done (success, l₃)
      ]

  -- The round from the test on, where no signal interrupts it. The result of the last call of
  -- free_old_arguments is not looked at.
  unfoldable pub test_and_free : LoopState m g → Turn
  test_and_free l = test_syscall m sys_table l.state l.child l.world >>= λ r.
      let l₁ = record l { state = r.1; child = r.2; world = r.3 } in
      elim r.0 [
        | failure ↦ done (failure, l₁)
        | success ↦
            let (logged, l₂) = log_the_results l₁ in
            elim logged [
              | failure ↦ done (failure, l₂)
              | success ↦ free_arguments l₂ >>= λ f. done (success, f.1)
            ]
      ]

  unfoldable pub round : LoopState m g → Turn
  round l = prepare l >>= λ r. elim r.0 [ failure ↦ done r | success ↦ test_and_free r.1 ]

  -- The state in which a child comes back to its return point: the signal is in its context, the
  -- counter of tests has been raised, and `w` is the world that the system call leaves.
  abbrev pub interrupted : ChildCtx → m.kernel.World → LoopState m g → LoopState m g
  interrupted c w l = record l {
    child = c;
    state = record l.state { test_counter = (l.state.test_counter + 1) % 2 ^ 32 };
    world = w;
  }

  -- A round of the child at number `own` that a signal interrupts in its test: the handler, and the
  -- way back to the loop. A jump to the return point of another child, which is that of another
  -- process, has no behaviour that could be told.
  unfoldable pub crashed_round : Signal → ℕ → ℕ → Family → m.kernel.World → LoopState m g → Turn
  crashed_round sig si_pid own f w l = prepare l >>= λ r. elim r.0 [
    | failure ↦ done r
    | success ↦ child_signal_handler sig si_pid (store_child own r.1.child f) >>= λ h.
        if h.0 == own
        then elim (get_elem? h.1.children own) [
          | none ↦ fault
          | some c ↦ rejoin (interrupted c w r.1)
        ]
        else fault
  ]

  -- The loop, of which `n` bounds the rounds: the stop flag is not set by the child.
  unfoldable pub rounds : ℕ → LoopState m g → Turn
  rounds zero l = done (success, l)
  rounds (suc n) l = round l >>= λ r. elim r.0 [ failure ↦ done r | success ↦ rounds n r.1 ]
