-- ===== src/Concurrent/Cas/Examples.antt =====
-- The compare-and-swap loop of src/concurrent/concurrent.c with another process in its way.
use nextgen.Base.{
  ℕ, zero, suc, ◌+◌, ◌<◌, ◌≡◌, ◌≢◌, refl, Bool, true, false, Option, none, some, arith, ◌==◌,
  if◌then◌else◌,
}
use nextgen.Concurrent.Cas.{CompareAndSwap, cas_loop_int32, cas_loop_total}

abbrev swap : ℕ → ℕ → ℕ → ℕ × Bool
swap target snapshot value = if target == snapshot then (value, true) else (target, false)

swap_hit : (target value : ℕ) → swap target target value ≡ (value, true)
swap_hit target value = ground arith

swap_miss :
    (target snapshot value : ℕ) → target ≢ snapshot → swap target snapshot value ≡ (target, false)
swap_miss target snapshot value h = ground arith

abbrev machine_cas : CompareAndSwap
machine_cas = record { cas = swap; cas_hit = swap_hit; cas_miss = swap_miss }

-- The target is rewritten in rounds 0 and 1.
abbrev twice : ℕ → Option ℕ
twice zero = some 4
twice (suc zero) = some 9
twice _ = none

cas_loop_total_example :
    (j : ℕ) × (cas_loop_int32 machine_cas 5 0 twice 3 7 ≡ some (7, j)) × (j < 0 + 2 + 1)
cas_loop_total_example = cas_loop_total machine_cas 2 5 0 twice 3 7 refl (omega arith)
