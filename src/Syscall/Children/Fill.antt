-- ===== src/Syscall/Children/Fill.antt =====
-- The main loop of src/syscall/syscall.c on a system that serves every call.
use nextgen.Base.{
  ℕ, zero, suc, All, ◌≢◌, ◌∙◌, ◌+◌, ◌%◌, ◌^◌, ◌≤◌, ◌<◌, ◌≡◌, refl, true, List, [], ◌∷◌, ◌==◌,
  length, ltb, ltb→lt, arith, Bool-cases, inl, inr, success,
}
use nextgen.Syscall.Child.Context.{ChildCtx}
use nextgen.Syscall.Children.{
  Family, child_pid, Parent, fork_child, create_loop, create_child, main_round, main_rounds,
}
use nextgen.Syscall.Children.Slots.{length-write_pid}
use nextgen.Syscall.Children.Count.{
  taken, taken-le, IsCounted, main_round_below, main_round_full, main_round-IsCounted,
}

module _ (s : Parent) where
  -- The system serves every call.
  pub record Serves : Type 0 where
    pub starts : (w : s.World) → (s.epoch_start w).0 ≡ true
    pub pipes : (w : s.World) → (s.pipe w).0 ≡ true
    pub forks : (w : s.World) → (p : ℕ) × ((s.fork w).0 ≡ child_pid p)
    pub answers : (w : s.World) → (s.read w).0 ≡ true

  create_loop_fills :
      (cs : List ChildCtx) (i : ℕ) (f : Family) (w : s.World)
      → Serves
      → taken cs < length cs
      → ((create_loop s cs i f w).0 ≡ success)
        × ((create_loop s cs i f w).1.running_children ≡ (f.running_children + 1) % 2 ^ 32)
        × (length (create_loop s cs i f w).1.children ≡ length f.children)
  unfolding create_loop fork_child
  create_loop_fills [] i f w v lt = absurd (omega arith)
  create_loop_fills (c ∷ cs) i f w v lt =
      let w₂ = s.epoch_stop (s.epoch_start w).1 in
      let piped = s.pipe w₂ in
      let (p, forked) = v.forks piped.1 in
      let forked_world = (s.fork piped.1).1 in
      elim (Bool-cases (c.pid == 0)) [
        | inl e ↦ ground (
          arith,
          v.starts w,
          e,
          v.pipes w₂,
          forked,
          v.answers forked_world,
          length-write_pid i p f.children,
        )
        | inr e ↦ ground (arith, v.starts w, e, create_loop_fills cs (i + 1) f w₂ v (ground arith))
      ]

  create_child_fills :
      (f : Family) (w : s.World)
      → Serves
      → taken f.children < length f.children
      → ((create_child s f w).0 ≡ success)
        × ((create_child s f w).1.running_children ≡ (f.running_children + 1) % 2 ^ 32)
        × (length (create_child s f w).1.children ≡ length f.children)
  unfolding create_child
  create_child_fills f w v lt = create_loop_fills f.children 0 f w v lt

  main_round_fills :
      (n : ℕ) (f : Family) (w : s.World)
      → Serves
      → IsCounted f
      → length f.children ≤ f.running_children + suc n
      → ((main_round s f w).0 ≡ success)
        × (length (main_round s f w).1.children ≡ length f.children)
        × (length (main_round s f w).1.children ≤ (main_round s f w).1.running_children + n)
  main_round_fills n f w v c h = elim (Bool-cases (ltb f.running_children (length f.children))) [
    | inl b ↦
        let lt = ltb→lt _ _ b in
        let (ok, more, same) = create_child_fills f w v (omega (arith, c.counted)) in
        rw (main_round_below s f w lt) (ok, same, omega (arith, more, same, c.small))
    | inr b ↦ rw (main_round_full s f w (ground (arith, b))) (refl, refl, ground (arith, b))
  ]

  -- If as many slots have a pid as there are slots, each has one.
  taken-All : (cs : List ChildCtx) → taken cs ≡ length cs → All (λ c. c.pid ≢ 0) cs
  taken-All [] e = tt
  taken-All (c ∷ cs) e = elim (Bool-cases (c.pid == 0)) [
    | inl z ↦ absurd (ground (arith, z, e, taken-le cs))
    | inr z ↦ (λ p. ground (arith, z, p), taken-All cs (ground (arith, z, e)))
  ]

  -- If every call is served, then after as many rounds of the parent's loop as there are slots
  -- without a child, no round having failed, each slot has the pid of a child, there are as many slots
  -- as before, and the counter is their number.
  pub main_rounds_fill :
      (n : ℕ) (f : Family) (w : s.World)
      → Serves
      → IsCounted f
      → length f.children ≤ f.running_children + n
      → ((main_rounds s n f w).0 ≡ success)
        × All (λ c. c.pid ≢ 0) (main_rounds s n f w).1.children
        × ((main_rounds s n f w).1.running_children ≡ length f.children)
        × (length (main_rounds s n f w).1.children ≡ length f.children)
  unfolding main_rounds
  main_rounds_fill zero f w v c h =
      let whole : taken f.children ≡ length f.children =
        omega (arith, c.counted, taken-le f.children) in
      (refl, taken-All f.children whole, omega (arith, c.counted, whole), refl)
  main_rounds_fill (suc n) f w v c h =
      let r = main_round s f w in
      let (ok, long, near) = main_round_fills n f w v c h in
      let (done_ok, all, full, same) =
        main_rounds_fill n r.1 r.2 v (main_round-IsCounted s f w c) near in
      let ran : main_rounds s (suc n) f w ≡ main_rounds s n r.1 r.2 = ground (arith, ok) in
      rw ran (done_ok, all, full ∙ long, same ∙ long)
