-- ===== src/Syscall/Child/Context.antt =====
-- `struct child_ctx` and its accessors in src/syscall/syscall.c. An argument is a pointer to a
-- buffer: NULL, or an address with the bytes there.
use nextgen.Base.{
  ℕ, zero, suc, ◌+◌, ◌*◌, Bool, Option, none, some, List, [], ◌∷◌, if◌then◌else◌, ltb, ◌==◌, take,
  length, get_elem?, ◌++◌, Outcome, done, fault,
}
use nextgen.Syscall.SetTest.{TestId}

abbrev pub Buffer : Type 0
Buffer = ℕ × List ℕ

abbrev pub arg_limit : ℕ
arg_limit = 7

pub record ChildCtx : Type 0 where
  pub pid : ℕ
  pub syscall_number : ℕ
  pub syscall_symbol : ℕ
  pub current_arg : ℕ
  pub total_args : ℕ
  pub arg_value_array : List (Option Buffer)
  pub arg_copy_array : List (Option Buffer)
  pub arg_size_array : List ℕ
  pub ret_value : ℕ
  pub had_error : Bool
  pub sig_num : ℕ
  pub did_jump : Bool
  pub need_alarm : Bool
  pub test_syscall : Option TestId

unfoldable pub set_had_error : Bool → ChildCtx → ChildCtx
set_had_error val child = record child { had_error = val }

unfoldable pub set_ret_value : ℕ → ChildCtx → ChildCtx
set_ret_value val child = record child { ret_value = val }

unfoldable pub set_sig_num : ℕ → ChildCtx → ChildCtx
set_sig_num num child = record child { sig_num = num }

unfoldable pub set_did_jump : Bool → ChildCtx → ChildCtx
set_did_jump val child = record child { did_jump = val }

-- `get_arg_size`: the inner `none` is the return code -1.
unfoldable pub get_arg_size : ChildCtx → ℕ → Outcome (Option ℕ)
get_arg_size child arg_num =
    if ltb arg_limit arg_num then done none else elim (get_elem? child.arg_size_array arg_num) [
      | none ↦ fault
      | some size ↦ done (some size)
    ]

unfoldable pub get_current_arg : ChildCtx → ℕ
get_current_arg child = child.current_arg

-- `set_arg_size` has no effect in the code.
unfoldable pub set_arg_size : ChildCtx → ℕ → ChildCtx
set_arg_size child size = child

-- The bytes from number n on.
abbrev pub drop {ℓ} : {A : Type ℓ} → ℕ → List A → List A
drop zero xs = xs
drop (suc n) [] = []
drop (suc n) (x ∷ xs) = drop n xs

-- memcpy between two arguments.
unfoldable pub memcpy : Option Buffer → Option Buffer → ℕ → Outcome (Option Buffer)
memcpy dst src zero = done dst
memcpy none src (suc n) = fault
memcpy (some d) none (suc n) = fault
memcpy (some d) (some s) (suc n) =
    if ltb n (length d.1)
    then (if ltb n (length s.1)
        then done (some (d.0, take (suc n) s.1 ++ drop (suc n) d.1))
        else fault)
    else fault

-- The address in an argument array, which NULL is too.
unfoldable pub address : List (Option Buffer) → ℕ → Outcome ℕ
address values i = elim (get_elem? values i) [
  | none ↦ fault
  | some p ↦ elim p [ none ↦ done 0 | some b ↦ done b.0 ]
]

unfoldable pub word : ℕ → List ℕ → ℕ
word zero bytes = 0
word (suc n) [] = 0
word (suc n) (b ∷ bytes) = b + 256 * word n bytes

-- The 64-bit word at an address of one of the buffers, if eight bytes are known to be there.
unfoldable pub find_word : List (Option Buffer) → ℕ → Outcome ℕ
unfolding word
find_word [] a = fault
find_word (none ∷ ps) a = find_word ps a
find_word (some (b, bytes) ∷ ps) a =
    let rest = find_word ps a in
    if b == a then (if ltb 7 (length bytes) then done (word 8 bytes) else rest) else rest

unfoldable pub load_word : List (Option Buffer) → ℕ → Outcome ℕ
load_word ps a = if a == 0 then fault else find_word ps a
