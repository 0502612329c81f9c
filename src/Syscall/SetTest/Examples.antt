-- ===== src/Syscall/SetTest/Examples.antt =====
-- The test functions of src/syscall/set_test.c at a kernel that adds up its arguments.
use nextgen.Base.{ℕ, ◌+◌, ◌*◌, ◌≡◌, List, [], ◌∷◌, done, ◌>>=◌}
use nextgen.Syscall.SetTest.{vpv_id, Kernel, low_32, set_test_syscall}
use nextgen.Syscall.SetTest.Passed.{arguments, letters, set_test-letters}

abbrev sum : List ℕ → ℕ
sum [] = 0
sum (x ∷ xs) = x + sum xs

abbrev adder : Kernel
adder = record { World = ℕ; syscall = λ symbol args w. (sum args, w + 1) }

set_test-letters_example :
    set_test_syscall adder vpv_id 3 (λ i. done (i + 100)) (λ a. done (a * 2)) 0 ≡ (
      arguments (letters vpv_id) 0 (λ i. done (i + 100)) (λ a. done (a * 2)) >>= λ xs.
      done (low_32 (adder.syscall 3 xs 0)))
set_test-letters_example =
    set_test-letters adder vpv_id 3 (λ i. done (i + 100)) (λ a. done (a * 2)) 0 (λ e. cc)
