-- ===== src/Syscall/SetTest.antt =====
-- The test functions of src/syscall/set_test.c, which hand the generated arguments to the kernel.
pub mod Passed
mod Examples
use nextgen.Base.{ℕ, ◌%◌, ◌^◌, List, [], ◌∷◌, Outcome, done, ◌>>=◌}

-- `enum test_id` of src/syscall/entry.h. A V is an argument passed by its value, a P one passed by
-- its address.
pub data TestId : Type 0 where
  v_id p_id vp_id vpv_id pv_id pvv_id pp_id vpvvpv_id vpvp_id vvpv_id : TestId

-- syscall(2) with the state of the system. Its result is the bit pattern of a 64-bit number.
pub record Kernel : Type 1 where
  pub World : Type 0
  pub syscall : ℕ → List ℕ → World → ℕ × World

-- The low 32 bits, which the `int32_t` of a test function keeps.
abbrev pub low_32 {ℓ} : {W : Type ℓ} → ℕ × W → ℕ × W
low_32 r = (r.0 % 2 ^ 32, r.1)

-- `array i` is the address `array[i]`, and `load` reads the word at an address: what is behind
-- NULL, or behind fewer bytes than a word has, cannot be read.
module _ (k : Kernel) where
  abbrev pub Test : Type 0
  Test = ℕ → (ℕ → Outcome ℕ) → (ℕ → Outcome ℕ) → k.World → Outcome (ℕ × k.World)

  -- `*array[i]`
  abbrev pub value : (ℕ → Outcome ℕ) → (ℕ → Outcome ℕ) → ℕ → Outcome ℕ
  value array load i = array i >>= load

  abbrev pub call : ℕ → List ℕ → k.World → Outcome (ℕ × k.World)
  call symbol args w = done (low_32 (k.syscall symbol args w))

  unfoldable pub test_val_ptr_val_ptr : Test
  test_val_ptr_val_ptr symbol array load w = value array load 0 >>= λ a. array 1 >>= λ b.
      value array load 2 >>= λ c. array 3 >>= λ d. call symbol (a ∷ b ∷ c ∷ d ∷ []) w

  unfoldable pub test_val_ptr_val_val_ptr_val : Test
  test_val_ptr_val_val_ptr_val symbol array load w = value array load 0 >>= λ a. array 1 >>= λ b.
      value array load 2 >>= λ c. value array load 3 >>= λ d.
      array 4 >>= λ e. value array load 5 >>= λ f. call symbol (a ∷ b ∷ c ∷ d ∷ e ∷ f ∷ []) w

  unfoldable pub test_val_val_ptr_val : Test
  test_val_val_ptr_val symbol array load w = value array load 0 >>= λ a. value array load 1 >>= λ b.
      array 2 >>= λ c. value array load 3 >>= λ d. call symbol (a ∷ b ∷ c ∷ d ∷ []) w

  unfoldable pub test_ptr_val_val : Test
  test_ptr_val_val symbol array load w =
      value array load 0 >>= λ a. value array load 1 >>= λ b. call symbol (a ∷ b ∷ []) w

  unfoldable pub test_val_ptr_val : Test
  test_val_ptr_val symbol array load w = value array load 0 >>= λ a.
      array 1 >>= λ b. value array load 2 >>= λ c. call symbol (a ∷ b ∷ c ∷ []) w

  unfoldable pub test_val_ptr : Test
  test_val_ptr symbol array load w =
      value array load 0 >>= λ a. array 1 >>= λ b. call symbol (a ∷ b ∷ []) w

  unfoldable pub test_ptr_val : Test
  test_ptr_val symbol array load w =
      array 0 >>= λ a. value array load 1 >>= λ b. call symbol (a ∷ b ∷ []) w

  unfoldable pub test_ptr_ptr : Test
  test_ptr_ptr symbol array load w = array 0 >>= λ a. array 1 >>= λ b. call symbol (a ∷ b ∷ []) w

  unfoldable pub test_ptr : Test
  test_ptr symbol array load w = array 0 >>= λ a. call symbol (a ∷ []) w

  unfoldable pub test_val : Test
  test_val symbol array load w = value array load 0 >>= λ a. call symbol (a ∷ []) w

  -- The function that `set_test_syscall` stores in an entry.
  unfoldable pub set_test_syscall : TestId → Test
  set_test_syscall v_id = test_val
  set_test_syscall p_id = test_ptr
  set_test_syscall pv_id = test_ptr_val
  set_test_syscall vp_id = test_val_ptr
  set_test_syscall vpv_id = test_val_ptr_val
  set_test_syscall pvv_id = test_ptr_val_val
  set_test_syscall pp_id = test_ptr_ptr
  set_test_syscall vvpv_id = test_val_val_ptr_val
  set_test_syscall vpvvpv_id = test_val_ptr_val_val_ptr_val
  set_test_syscall vpvp_id = test_val_ptr_val_ptr
