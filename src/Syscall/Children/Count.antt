-- ===== src/Syscall/Children/Count.antt =====
-- How many children of src/syscall/syscall.c run.
use nextgen.Base.{
  ℕ, zero, suc, ◌+◌, ◌%◌, ◌^◌, ◌≤◌, ◌<◌, ◌≡◌, ◌≢◌, ◌⊎◌, refl, ap, sym, subst, ◌∙◌, some, List, [],
  ◌∷◌, ◌==◌, length, ltb, ltb→lt, if◌then◌else◌, get_elem?, arith, Bool-cases, inl, inr, success,
}
use nextgen.Syscall.Child.Context.{ChildCtx}
use nextgen.Syscall.Children.{
  Family, write_pid, Forked, child_pid, no_child, Parent, fork_child, create_loop, create_child,
  main_round, exit_slot,
}
use nextgen.Syscall.Children.Slots.{IsFirstFree, length-write_pid}

fork_cases : (r : Forked) → (r ≡ no_child) ⊎ ((p : ℕ) × (r ≡ child_pid p))
fork_cases no_child = inl refl
fork_cases (child_pid p) = inr (p, refl)

add-zero : (i : ℕ) → i ≡ i + 0
add-zero i = omega arith

-- The slots with a pid.
abbrev pub taken : List ChildCtx → ℕ
taken [] = 0
taken (c ∷ cs) = if c.pid == 0 then taken cs else suc (taken cs)

pub taken-le : (cs : List ChildCtx) → taken cs ≤ length cs
taken-le [] = omega arith
taken-le (c ∷ cs) = ground (arith, taken-le cs)

-- The counter is the number of taken slots, and fits its 32 bits with room for one more.
pub record IsCounted (f : Family) : Type 0 where
  pub counted : f.running_children ≡ taken f.children
  pub small : length f.children < 2 ^ 32

taken-write_free :
    (i p : ℕ) (cs : List ChildCtx)
    → IsFirstFree i cs
    → p ≢ 0
    → taken (write_pid i p cs) ≡ suc (taken cs)
unfolding write_pid
taken-write_free i p [] h n = elim h [ ]
taken-write_free zero p (c ∷ cs) h n = ground arith
taken-write_free (suc i) p (c ∷ cs) h n = ground (arith, taken-write_free i p cs h.1 n)

-- Leaving a taken slot.
taken-write_empty :
    (i : ℕ) (cs : List ChildCtx) (c : ChildCtx)
    → get_elem? cs i ≡ some c
    → c.pid ≢ 0
    → suc (taken (write_pid i 0 cs)) ≡ taken cs
unfolding write_pid
taken-write_empty i [] c h n = ground arith
taken-write_empty zero (d ∷ cs) c h n = ground arith
taken-write_empty (suc i) (d ∷ cs) c h n = ground (arith, taken-write_empty i cs c h n)

-- When a child exits from a taken slot, the counter stays the number of taken slots.
exit_slot-IsCounted :
    (i : ℕ) (f : Family) (c : ChildCtx)
    → IsCounted f
    → get_elem? f.children i ≡ some c
    → c.pid ≢ 0
    → IsCounted (exit_slot i f)
unfolding exit_slot
exit_slot-IsCounted i f c v h n = record {
  counted =
      omega (arith, v.counted, v.small, taken-write_empty i f.children c h n, taken-le f.children);
  small = omega (arith, v.small, length-write_pid i 0 f.children);
}

-- No slot is free, or there is a first free one.
first_free : (cs : List ChildCtx) → (taken cs ≡ length cs) ⊎ ((j : ℕ) × IsFirstFree j cs)
first_free [] = inl refl
first_free (c ∷ cs) = elim (Bool-cases (c.pid == 0)) [
  | inl b ↦ inr (0, ground arith)
  | inr b ↦ elim (first_free cs) [
    | inl n ↦ inl (ground arith)
    | inr (j, h) ↦ inr (suc j, (ground arith, h))
  ]
]

-- A child with pid `p` in slot `i`, and counted.
abbrev pub joined : ℕ → ℕ → Family → Family
joined i p f = record {
  children = write_pid i p f.children;
  running_children = (f.running_children + 1) % 2 ^ 32;
}

joined-IsCounted :
    (i p : ℕ) (f : Family)
    → IsCounted f
    → IsFirstFree i f.children
    → p ≢ 0
    → IsCounted (joined i p f)
joined-IsCounted i p f v h n = record {
  counted = omega (
    arith,
    v.counted,
    v.small,
    taken-write_free i p f.children h n,
    taken-le (write_pid i p f.children),
    length-write_pid i p f.children,
  );
  small = omega (arith, v.small, length-write_pid i p f.children);
}

module _ (s : Parent) where
  -- What a slot search from number i on does: nothing, or a child in the first free slot.
  abbrev Searched : List ChildCtx → ℕ → Family → Family → Type 0
  Searched cs i f g =
      (g ≡ f) ⊎ ((j : ℕ) × (p : ℕ) × IsFirstFree j cs × (p ≢ 0) × (g ≡ joined (i + j) p f))

  fork-Searched :
      (cs : List ChildCtx) (i : ℕ) (f : Family) (w : s.World)
      → IsFirstFree 0 cs
      → Searched cs i f (fork_child s i f w).1
  unfolding fork_child
  fork-Searched cs i f w h = elim (Bool-cases (s.pipe w).0) [
    | inr b ↦ inl (ground (arith, b))
    | inl b ↦ elim (fork_cases (s.fork (s.pipe w).1).0) [
      | inl n ↦ inl (ground (arith, b, n))
      | inr (p, n) ↦ inr (
        0,
        p,
        h,
        s.fork-pid (s.pipe w).1 p n,
        ground (arith, b, n, ap (λ k. joined k p f) (add-zero i)),
      )
    ]
  ]

  create_loop-Searched :
      (cs : List ChildCtx) (i : ℕ) (f : Family) (w : s.World)
      → Searched cs i f (create_loop s cs i f w).1
  unfolding create_loop
  create_loop-Searched [] i f w = inl refl
  create_loop-Searched (c ∷ cs) i f w =
      let w₂ = s.epoch_stop (s.epoch_start w).1 in
      elim (Bool-cases (s.epoch_start w).0) [
        | inr b ↦ inl (ground (arith, b))
        | inl b ↦ elim (Bool-cases (c.pid == 0)) [
          | inl e ↦
              let same : (create_loop s (c ∷ cs) i f w).1 ≡ (fork_child s i f w₂).1 =
                ground (arith, b, e) in
              subst (Searched (c ∷ cs) i f) (sym same)
                (fork-Searched (c ∷ cs) i f w₂ (ground arith))
          | inr e ↦
              let same : (create_loop s (c ∷ cs) i f w).1 ≡ (create_loop s cs (i + 1) f w₂).1 =
                ground (arith, b, e) in
              subst (Searched (c ∷ cs) i f) (sym same)
                (elim (create_loop-Searched cs (i + 1) f w₂) [
                  | inl n ↦ inl n
                  | inr (j, p, h, n, g) ↦
                      inr (suc j, p, (ground arith, h), n, g ∙ ap (λ k. joined k p f) (omega arith))
                ])
        ]
      ]

  create_child-IsCounted :
      (f : Family) (w : s.World) → IsCounted f → IsCounted (create_child s f w).1
  unfolding create_child
  create_child-IsCounted f w v = elim (create_loop-Searched f.children 0 f w) [
    | inl e ↦ subst IsCounted (sym e) v
    | inr (j, p, h, n, e) ↦
        subst IsCounted (sym (e ∙ ap (λ k. joined k p f) (omega arith)))
          (joined-IsCounted j p f v h n)
  ]

  pub main_round_below :
      (f : Family) (w : s.World)
      → f.running_children < length f.children
      → main_round s f w ≡ create_child s f w
  unfolding main_round
  main_round_below f w h = ground arith

  pub main_round_full :
      (f : Family) (w : s.World)
      → length f.children ≤ f.running_children
      → main_round s f w ≡ (success, f, w)
  unfolding main_round
  main_round_full f w h = ground arith

  pub main_round-IsCounted :
      (f : Family) (w : s.World) → IsCounted f → IsCounted (main_round s f w).1
  main_round-IsCounted f w v = elim (Bool-cases (ltb f.running_children (length f.children))) [
    | inl b ↦ rw (main_round_below f w (ltb→lt _ _ b)) (create_child-IsCounted f w v)
    | inr b ↦ rw (main_round_full f w (ground (arith, b))) v
  ]

  -- What can happen to the family: a round of the parent's loop, at any state of the system, or the
  -- end of a running child by exit_child.
  pub data Step (f : Family) (g : Family) : Type 0 where
    round : (w : s.World) → g ≡ (main_round s f w).1 → Step f g
    exit :
        (i : ℕ) (c : ChildCtx)
        → get_elem? f.children i ≡ some c
        → c.pid ≢ 0
        → g ≡ exit_slot i f
        → Step f g

  pub data Reach (f : Family) : Family → Type 0 where
    here : Reach f f
    next : {g h : Family} → Reach f g → Step g h → Reach f h

  Step-IsCounted : (f g : Family) → Step f g → IsCounted f → IsCounted g
  Step-IsCounted f g (round w e) v = rw e (main_round-IsCounted f w v)
  Step-IsCounted f g (exit i c at n e) v = rw e (exit_slot-IsCounted i f c v at n)

  Reach-IsCounted : (f : Family) {g : Family} → IsCounted f → Reach f g → IsCounted g
  Reach-IsCounted f v here = v
  Reach-IsCounted f v (next {g = a} {h = b} r st) = Step-IsCounted a b st (Reach-IsCounted f v r)

  -- In every order of rounds of the parent's loop and ends of children, each of them one step, from
  -- a family whose counter is the number of its taken slots, the counter stays that number, and so
  -- never exceeds the number of slots.
  pub Reach-bounded :
      (f : Family) {g : Family}
      → IsCounted f
      → Reach f g
      → (g.running_children ≡ taken g.children) × (g.running_children ≤ length g.children)
  Reach-bounded f {g} v r =
      let c = Reach-IsCounted f v r in (c.counted, omega (arith, c.counted, taken-le g.children))
