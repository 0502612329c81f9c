-- ===== src/Concurrent/Cas.antt =====
-- The compare-and-swap loops of src/concurrent/concurrent.c. The other processes write the target
-- between the load and the swap: `others i` is what it then holds in round i, if they wrote it.
mod Examples
use nextgen.Base.{
  ℕ, zero, suc, ◌+◌, ◌<◌, ◌≡◌, ◌≢◌, refl, ap, subst, Bool, true, false, Option, none, some, arith,
  if◌then◌else◌, Bool-cases, inl, inr,
}

-- ck_pr_cas_int of Concurrency Kit: swaps if the target holds the snapshot, and says whether it
-- did. The result is the target's new value and the answer.
pub record CompareAndSwap : Type 0 where
  pub cas : ℕ → ℕ → ℕ → ℕ × Bool
  pub cas_hit : (target value : ℕ) → cas target target value ≡ (value, true)
  pub cas_miss :
      (target snapshot value : ℕ) → target ≢ snapshot → cas target snapshot value ≡ (target, false)

abbrev pub interfere : Option ℕ → ℕ → ℕ
interfere none target = target
interfere (some v) target = v

module _ (ck : CompareAndSwap) where
  -- One round: load, let the others write, compare and swap.
  unfoldable pub cas_round : Option ℕ → ℕ → ℕ → ℕ × Bool
  cas_round other target value =
      let snapshot = target in ck.cas (interfere other target) snapshot value

  -- `cas_loop_int32`, whose text `cas_loop_uint32` repeats for unsigned values. `rounds` bounds the
  -- loop; `none` means that it is still running. With the final value comes the round that swapped.
  unfoldable pub cas_loop_int32 : ℕ → ℕ → (ℕ → Option ℕ) → ℕ → ℕ → Option (ℕ × ℕ)
  unfolding cas_round
  cas_loop_int32 zero i others target value = none
  cas_loop_int32 (suc rounds) i others target value =
      let r = cas_round (others i) target value in
      let rest = cas_loop_int32 rounds (i + 1) others r.0 value in
      if r.1 then some (r.0, i) else rest

  cas_round-won :
      (other : Option ℕ) (target value : ℕ)
      → (cas_round other target value).1 ≡ true
      → (cas_round other target value).0 ≡ value
  unfolding cas_round
  cas_round-won other target value e =
      ground (arith, ck.cas_hit target value, ck.cas_miss (interfere other target) target value)

  -- A loop that ends has stored the value that it was given.
  cas_loop-value :
      (rounds i : ℕ) (others : ℕ → Option ℕ) (target value v j : ℕ)
      → cas_loop_int32 rounds i others target value ≡ some (v, j)
      → v ≡ value
  unfolding cas_loop_int32
  cas_loop-value zero i others target value v j e = cc
  cas_loop-value (suc rounds) i others target value v j e = ground (
    arith,
    cas_round-won (others i) target value,
    cas_loop-value rounds (i + 1) others (cas_round (others i) target value).0 value v j,
  )

  -- If no other process writes the target in the round `quiet` rounds from now, and there are rounds
  -- enough to reach it, the loop ends by that round with its value stored.
  pub cas_loop_total :
      (quiet rounds i : ℕ) (others : ℕ → Option ℕ) (target value : ℕ)
      → others (i + quiet) ≡ none
      → quiet < rounds
      → (j : ℕ) × (cas_loop_int32 rounds i others target value ≡ some (value, j))
        × (j < i + quiet + 1)
  unfolding cas_loop_int32
  cas_loop_total quiet zero i others target value q h = absurd (omega arith)
  cas_loop_total zero (suc rounds) i others target value q h =
      let now : others i ≡ none = subst (λ k. others k ≡ none) (omega arith) q in
      (i, rw (now, cas_round, ck.cas_hit target value) refl, omega arith)
  cas_loop_total (suc quiet) (suc rounds) i others target value q h =
      let moved : i + suc quiet ≡ i + 1 + quiet = omega arith in
      let later =
        cas_loop_total quiet rounds (i + 1) others (cas_round (others i) target value).0 value
          (subst (λ k. others k ≡ none) moved q) (omega arith) in
      elim (Bool-cases (cas_round (others i) target value).1) [
        | inl won ↦ (
          i,
          rw won (ap (λ (v : ℕ). some (v, i)) (cas_round-won (others i) target value won)),
          omega arith,
        )
        | inr lost ↦ (later.0, rw lost later.1, omega (arith, later.2))
      ]
