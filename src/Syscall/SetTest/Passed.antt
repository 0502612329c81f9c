-- ===== src/Syscall/SetTest/Passed.antt =====
-- Which arguments reach the kernel, against the letters of the test's name in
-- src/syscall/entry.h.
use nextgen.Base.{
  ℕ, suc, ◌+◌, ◌<◌, ◌≡◌, ◌≢◌, ◌⊎◌, refl, sym, ◌∙◌, List, [], ◌∷◌, length, Outcome, done, fault,
  blocked, ◌>>=◌, Outcome-cases, inl, inr, arith,
}
use nextgen.Syscall.SetTest.{
  TestId, v_id, p_id, vp_id, vpv_id, pv_id, pvv_id, pp_id, vpvvpv_id, vpvp_id, vvpv_id, Kernel,
  low_32, test_val_ptr_val_ptr, test_val_ptr_val_val_ptr_val, test_val_val_ptr_val,
  test_ptr_val_val, test_val_ptr_val, test_val_ptr, test_ptr_val, test_ptr_ptr, test_ptr, test_val,
  set_test_syscall,
}

-- By its value, or by its address.
pub data Mode : Type 0 where
  by_value by_address : Mode

-- The letters of a test id.
abbrev pub letters : TestId → List Mode
letters v_id = by_value ∷ []
letters p_id = by_address ∷ []
letters vp_id = by_value ∷ by_address ∷ []
letters vpv_id = by_value ∷ by_address ∷ by_value ∷ []
letters pv_id = by_address ∷ by_value ∷ []
letters pvv_id = by_address ∷ by_value ∷ by_value ∷ []
letters pp_id = by_address ∷ by_address ∷ []
letters vpvvpv_id = by_value ∷ by_address ∷ by_value ∷ by_value ∷ by_address ∷ by_value ∷ []
letters vpvp_id = by_value ∷ by_address ∷ by_value ∷ by_address ∷ []
letters vvpv_id = by_value ∷ by_value ∷ by_address ∷ by_value ∷ []

-- The arguments from number i on, passed as the letters say; reading them may fault.
abbrev pub arguments : List Mode → ℕ → (ℕ → Outcome ℕ) → (ℕ → Outcome ℕ) → Outcome (List ℕ)
arguments [] i array load = done []
arguments (by_value ∷ ms) i array load =
    array i >>= load >>= λ x. arguments ms (suc i) array load >>= λ xs. done (x ∷ xs)
arguments (by_address ∷ ms) i array load =
    array i >>= λ x. arguments ms (suc i) array load >>= λ xs. done (x ∷ xs)

-- The same with what is done with the arguments.
abbrev pass {ℓ} :
    {R : Type ℓ}
    → List Mode
    → ℕ
    → (ℕ → Outcome ℕ)
    → (ℕ → Outcome ℕ)
    → (List ℕ → Outcome R)
    → Outcome R
pass [] i array load f = f []
pass (by_value ∷ ms) i array load f =
    array i >>= load >>= λ x. pass ms (suc i) array load (λ xs. f (x ∷ xs))
pass (by_address ∷ ms) i array load f =
    array i >>= λ x. pass ms (suc i) array load (λ xs. f (x ∷ xs))

bind_assoc {ℓ} :
    {R : Type ℓ} (a : Outcome (List ℕ)) (x : ℕ) (f : List ℕ → Outcome R)
    → (a >>= (λ xs. done (x ∷ xs)) >>= f) ≡ (a >>= λ xs. f (x ∷ xs))
bind_assoc (done xs) x f = refl
bind_assoc fault x f = refl
bind_assoc blocked x f = refl

pass-arguments {ℓ} :
    {R : Type ℓ} (ms : List Mode) (i : ℕ) (array load : ℕ → Outcome ℕ) (f : List ℕ → Outcome R)
    → pass ms i array load f ≡ (arguments ms i array load >>= f)
pass-arguments [] i array load f = refl
pass-arguments (by_value ∷ ms) i array load f = elim (Outcome-cases (array i >>= load)) [
  | inl (x, e) ↦ rw (e) (
      pass-arguments ms (suc i) array load (λ xs. f (x ∷ xs))
      ∙ sym (bind_assoc (arguments ms (suc i) array load) x f))
  | inr (inl e) ↦ rw (e) refl
  | inr (inr e) ↦ rw (e) refl
]
pass-arguments (by_address ∷ ms) i array load f = elim (Outcome-cases (array i)) [
  | inl (x, e) ↦ rw (e) (
      pass-arguments ms (suc i) array load (λ xs. f (x ∷ xs))
      ∙ sym (bind_assoc (arguments ms (suc i) array load) x f))
  | inr (inl e) ↦ rw (e) refl
  | inr (inr e) ↦ rw (e) refl
]

set_test-pass :
    (k : Kernel) (t : TestId) (symbol : ℕ) (array load : ℕ → Outcome ℕ) (w : k.World)
    → t ≢ pvv_id
    → set_test_syscall k t symbol array load w
      ≡ pass (letters t) 0 array load (λ xs. done (low_32 (k.syscall symbol xs w)))
unfolding set_test_syscall test_val test_ptr test_val_ptr test_val_ptr_val test_ptr_val test_ptr_ptr
    test_val_ptr_val_val_ptr_val test_val_ptr_val_ptr test_val_val_ptr_val
set_test-pass k v_id symbol array load w h = refl
set_test-pass k p_id symbol array load w h = refl
set_test-pass k vp_id symbol array load w h = refl
set_test-pass k vpv_id symbol array load w h = refl
set_test-pass k pv_id symbol array load w h = refl
set_test-pass k pvv_id symbol array load w h = absurd (h refl)
set_test-pass k pp_id symbol array load w h = refl
set_test-pass k vpvvpv_id symbol array load w h = refl
set_test-pass k vpvp_id symbol array load w h = refl
set_test-pass k vvpv_id symbol array load w h = refl

-- For each test id but PVV_ID, the kernel gets as many arguments as the id has letters, each passed
-- as its letter says, and the result is the low 32 bits of what the kernel returns. Where reading
-- these arguments faults, so does the test.
pub set_test-letters :
    (k : Kernel) (t : TestId) (symbol : ℕ) (array load : ℕ → Outcome ℕ) (w : k.World)
    → t ≢ pvv_id
    → set_test_syscall k t symbol array load w
      ≡ (arguments (letters t) 0 array load >>= λ xs. done (low_32 (k.syscall symbol xs w)))
set_test-letters k t symbol array load w h =
    set_test-pass k t symbol array load w h ∙ pass-arguments (letters t) 0 array load _

-- For PVV_ID the third argument never reaches the kernel, and the first is passed by its value: two
-- argument arrays whose first two addresses hold the same words cannot be told apart.
set_test-pvv_drops :
    (k : Kernel) (symbol : ℕ) (array other load : ℕ → Outcome ℕ) (w : k.World)
    → (array 0 >>= load) ≡ (other 0 >>= load)
    → (array 1 >>= load) ≡ (other 1 >>= load)
    → set_test_syscall k pvv_id symbol array load w ≡ set_test_syscall k pvv_id symbol other load w
unfolding set_test_syscall test_ptr_val_val
set_test-pvv_drops k symbol array other load w a b = rw (a, b) refl

arguments-done :
    (ms : List Mode) (i : ℕ) (array load : ℕ → Outcome ℕ)
    → ((j : ℕ) → j < i + length ms → (a : ℕ) × (x : ℕ) × (array j ≡ done a) × (load a ≡ done x))
    → (xs : List ℕ) × (arguments ms i array load ≡ done xs)
arguments-done [] i array load h = ([], refl)
arguments-done (by_value ∷ ms) i array load h =
    let (a, x, e, f) = h i (omega arith) in
    let (xs, g) = arguments-done ms (suc i) array load (λ j l. h j (omega arith)) in
    (x ∷ xs, rw (e, f, g) refl)
arguments-done (by_address ∷ ms) i array load h =
    let (a, x, e, f) = h i (omega arith) in
    let (xs, g) = arguments-done ms (suc i) array load (λ j l. h j (omega arith)) in
    (a ∷ xs, rw (e, g) refl)

pvv_cases : (t : TestId) → (t ≡ pvv_id) ⊎ (t ≢ pvv_id)
pvv_cases v_id = inr (λ e. cc)
pvv_cases p_id = inr (λ e. cc)
pvv_cases vp_id = inr (λ e. cc)
pvv_cases vpv_id = inr (λ e. cc)
pvv_cases pv_id = inr (λ e. cc)
pvv_cases pvv_id = inl refl
pvv_cases pp_id = inr (λ e. cc)
pvv_cases vpvvpv_id = inr (λ e. cc)
pvv_cases vpvp_id = inr (λ e. cc)
pvv_cases vvpv_id = inr (λ e. cc)

-- A test returns where a word can be read at each address that its letters stand for.
pub set_test-done :
    (k : Kernel) (t : TestId) (symbol : ℕ) (array load : ℕ → Outcome ℕ) (w : k.World)
    → ((j : ℕ)
        → j < length (letters t)
        → (a : ℕ) × (x : ℕ) × (array j ≡ done a) × (load a ≡ done x))
    → (r : ℕ) × (v : k.World) × (set_test_syscall k t symbol array load w ≡ done (r, v))
unfolding set_test_syscall test_ptr_val_val
set_test-done k t symbol array load w h = elim (pvv_cases t) [
  | inl e ↦
      let (a, x, p, q) = h 0 (rw (e) (omega arith)) in
      let (b, y, r, s) = h 1 (rw (e) (omega arith)) in
      let run = low_32 (k.syscall symbol (x ∷ y ∷ []) w) in (run.0, run.1, rw (e, p, q, r, s) refl)
  | inr other ↦
      let (xs, e) = arguments-done (letters t) 0 array load (λ j l. h j (omega arith)) in
      let run = low_32 (k.syscall symbol xs w) in
      (run.0, run.1, set_test-letters k t symbol array load w other ∙ rw (e) refl)
]
