-- ===== src/Base/Calls.antt =====
-- The result of a C function that may touch memory it must not touch, or wait for another process.
use mathlib.Core.Path.{◌≡◌, refl}
use mathlib.Core.Logic.{◌⊎◌, inl, inr}
use mathlib.Core.Bool.{Bool, true, false}
use mathlib.Core.Option.{Option, none, some}

-- `fault`: a read or write through NULL or outside an array. `blocked`: the call spins.
pub data Outcome {ℓ} (A : Type ℓ) : Type ℓ where
  done : A → Outcome A
  fault : Outcome A
  blocked : Outcome A

infixl 5 ◌>>=◌ ◌>>◌
abbrev pub ◌>>=◌ {ℓ κ} : {A : Type ℓ} {B : Type κ} → Outcome A → (A → Outcome B) → Outcome B
done a >>= f = f a
fault >>= f = fault
blocked >>= f = blocked

abbrev pub ◌>>◌ {ℓ} : {B : Type ℓ} → Outcome (Unit {0}) → Outcome B → Outcome B
m >> k = m >>= λ _. k

abbrev pub map_outcome {ℓ κ} : {A : Type ℓ} {B : Type κ} → (A → B) → Outcome A → Outcome B
map_outcome f (done a) = done (f a)
map_outcome f fault = fault
map_outcome f blocked = blocked

-- Either the call returned, or it faulted or spins.
pub Outcome-cases {ℓ} :
    {A : Type ℓ} (m : Outcome A) → ((a : A) × (m ≡ done a)) ⊎ ((m ≡ fault) ⊎ (m ≡ blocked))
Outcome-cases (done a) = inl (a, refl)
Outcome-cases fault = inr (inl refl)
Outcome-cases blocked = inr (inr refl)

-- A call that may return NULL: it gave something, it gave NULL, or it did not return.
pub answer-cases {ℓ κ} :
    {A : Type ℓ} {W : Type κ} (m : Outcome (Option A × W))
    → ((a : A) × (w : W) × (m ≡ done (some a, w)))
      ⊎ (((w : W) × (m ≡ done (none, w))) ⊎ ((m ≡ fault) ⊎ (m ≡ blocked)))
answer-cases (done (some a, w)) = inl (a, w, refl)
answer-cases (done (none, w)) = inr (inl (w, refl))
answer-cases fault = inr (inr (inl refl))
answer-cases blocked = inr (inr (inr refl))

-- The return code of a C function: 0, or a negative number.
pub data Status : Type 0 where
  success failure : Status

abbrev pub is_success : Status → Bool
is_success success = true
is_success failure = false
