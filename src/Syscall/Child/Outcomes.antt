-- ===== src/Syscall/Child/Outcomes.antt =====
-- What pick_syscall and test_syscall of src/syscall/syscall.c leave in the child's context.
use nextgen.Base.{
  ◌+◌, ◌-◌, ◌%◌, ◌^◌, ◌<◌, ◌≤◌, ◌≡◌, zero, suc, [], ◌∷◌, length, get_elem?, ◌==◌, Bool-cases, ◌⊎◌,
  refl, ap, sym, ◌∙◌, ℕ, true, false, Option, none, some, List, done, success, failure, arith, ltb,
  if◌then◌else◌, Option-cases, inl, inr,
}
use nextgen.Syscall.SetTest.{set_test_syscall}
use nextgen.Syscall.SetTest.Passed.{letters, set_test-done}
use nextgen.Syscall.Table.{SyscallEntry, SyscallTable, get_entry}
use nextgen.Syscall.Table.Built.{IsBuilt, IsReady}
use nextgen.Syscall.Child.Context.{Buffer, ChildCtx, address, load_word, find_word, word}
use nextgen.Syscall.Child.Machine.{Machine}
use nextgen.Syscall.Child.Run.{GlobalState, World, check_for_failure, pick_syscall, test_syscall}

module _ {G : Type 0} (m : Machine G) (t : SyscallTable G) where
  -- The context agrees with an entry of the table.
  pub record Chosen (c : ChildCtx) (f : SyscallEntry G) : Type 0 where
    pub found : get_entry t c.syscall_number ≡ done (some f)
    pub args : c.total_args ≡ f.total_args
    pub symbol : c.syscall_symbol ≡ f.syscall_symbol
    pub alarm : c.need_alarm ≡ f.need_alarm
    pub clean : c.had_error ≡ false

  -- With a table that has been built and is not empty, pick_syscall returns. Either the random
  -- generator failed on the range total_syscalls - 1, and pick_syscall fails too and leaves the context
  -- alone; or it yielded a number, and pick_syscall sets the context to the entry of that number with
  -- no error: one that get_entry finds and that is ready.
  pub pick-Chosen :
      (es : List (Option (SyscallEntry G))) (c : ChildCtx) (w : World m t)
      → IsBuilt t.total_syscalls es t.sys_entry
      → 0 < t.total_syscalls
      → t.total_syscalls < 2 ^ 32
      → (((m.range (t.total_syscalls - 1) w).0 ≡ none)
          × (v : World m t) × (pick_syscall m t c w ≡ done (failure, c, v)))
        ⊎ ((d : ChildCtx) × (v : World m t) × (e : SyscallEntry G) × (f : SyscallEntry G)
            × (pick_syscall m t c w ≡ done (success, d, v))
            × ((m.range (t.total_syscalls - 1) w).0 ≡ some d.syscall_number)
            × (d.syscall_number < t.total_syscalls)
            × IsReady e f
            × Chosen d f)
  unfolding pick_syscall get_entry
  pick-Chosen es c w b pos small =
      let r = m.range ((t.total_syscalls + 2 ^ 32 - 1) % 2 ^ 32) w in
      let last : (t.total_syscalls + 2 ^ 32 - 1) % 2 ^ 32 ≡ t.total_syscalls - 1 = omega arith in
      let ends = ap (λ (k : ℕ). (m.range k w).0) last in
      elim (Option-cases r.0) [
        | inl o ↦ inl (sym ends ∙ o, r.1, ground (arith, o))
        | inr (n, o) ↦
            let at_most = m.range-le ((t.total_syscalls + 2 ^ 32 - 1) % 2 ^ 32) n w o in
            let below : n < t.total_syscalls = omega arith in
            let (e, f, was, is, ready) = b.ready n below in
            inr (
              record c {
                syscall_number = n;
                total_args = f.total_args;
                syscall_symbol = f.syscall_symbol;
                need_alarm = f.need_alarm;
                had_error = false;
              },
              r.1,
              e,
              f,
              ground (arith, o, is),
              sym ends ∙ o,
              below,
              ready,
              record {
                found = ground (arith, is, below);
                args = refl;
                symbol = refl;
                alarm = refl;
                clean = refl;
              },
            )
      ]

  -- The argument is at an address, where at least eight bytes are.
  abbrev pub Readable : ChildCtx → ℕ → Type 0
  Readable c i =
      (a : ℕ) × (bytes : List ℕ) × (get_elem? c.arg_value_array i ≡ some (some (a, bytes)))
      × (0 < a)
      × (8 ≤ length bytes)

  find_word-done :
      (ps : List (Option Buffer)) (i a : ℕ) (bytes : List ℕ)
      → get_elem? ps i ≡ some (some (a, bytes))
      → 8 ≤ length bytes
      → (x : ℕ) × (find_word ps a ≡ done x)
  unfolding find_word
  find_word-done [] i a bytes e long = ground arith
  find_word-done (none ∷ ps) zero a bytes e long = ground arith
  find_word-done (none ∷ ps) (suc i) a bytes e long = find_word-done ps i a bytes e long
  find_word-done (some (b, bs) ∷ ps) zero a bytes e long = (word 8 bs, ground (arith, e))
  find_word-done (some (b, bs) ∷ ps) (suc i) a bytes e long =
      let (x, f) = find_word-done ps i a bytes e long in
      elim (Bool-cases (b == a)) [
        | inl s ↦ elim (Bool-cases (ltb 7 (length bs))) [
          | inl l ↦ (word 8 bs, ground (arith, s, l))
          | inr l ↦ (x, ground (arith, s, l, f))
        ]
        | inr s ↦ (x, ground (arith, s, f))
      ]

  Readable-load :
      (c : ChildCtx) (i : ℕ)
      → Readable c i
      → (a : ℕ) × (x : ℕ) × (address c.arg_value_array i ≡ done a)
        × (load_word c.arg_value_array a ≡ done x)
  unfolding address load_word
  Readable-load c i (a, bytes, e, pos, long) =
      let (x, f) = find_word-done c.arg_value_array i a bytes e long in
      (a, x, ground (arith, e), ground (arith, f))

  -- After a choice of an entry with a test function, where each argument that the id of the test
  -- has a letter for is a pointer to at least eight bytes: test_syscall returns 0 and adds one to the
  -- 32-bit counter of tests; the result kept is what the test function of that entry returns, and
  -- the error flag is set exactly if that is negative as a 32-bit number.
  pub test-had_error :
      (state : GlobalState) (c : ChildCtx) (e f : SyscallEntry G) (w : World m t)
      → Chosen c f
      → IsReady e f
      → ((i : ℕ) → i < length (letters e.id) → Readable c i)
      → (d : ChildCtx) × (v : World m t) × (test_syscall m t state c w
          ≡ done (success, record state { test_counter = (state.test_counter + 1) % 2 ^ 32 }, d, v))
        × (set_test_syscall m.kernel e.id f.syscall_symbol
              (address c.arg_value_array)
              (load_word c.arg_value_array)
              (if f.need_alarm then m.alarm w else w)
            ≡ done (d.ret_value, v))
        × (d.had_error ≡ ltb (2 ^ 31 - 1) d.ret_value)
  unfolding test_syscall check_for_failure
  test-had_error state c e f w ch r readable =
      let w₁ = if c.need_alarm then m.alarm w else w in
      let (ret, v, ran) =
        set_test-done m.kernel e.id c.syscall_symbol (address c.arg_value_array)
          (load_word c.arg_value_array) w₁ (λ i l. Readable-load c i (readable i l)) in
      (
        record c {
          test_syscall = some e.id;
          ret_value = ret;
          had_error = if check_for_failure ret then true else c.had_error;
        },
        v,
        ground (arith, ch.found, r.tested, ran),
        rw (← ch.symbol, ← ch.alarm) ran,
        ground (arith, ch.clean),
      )
