-- ===== src/Runtime/Main.antt =====
-- The fuzzer object of src/runtime/fuzzer-syscall.c, get_fuzzer of fuzzer.c, and main.c.
use nextgen.Base.{
  ℕ, Bool, true, false, Option, none, some, List, if◌then◌else◌, Status, success, failure,
  is_success,
}
use nextgen.Memory.Alloc.{Heap, MemoryAllocator, get_default_allocator}
use nextgen.Runtime.{Text, Choice, FuzzerConfig, parse_cmd_line}

-- `struct fuzzer_instance`, over the state that its functions change.
pub record FuzzerInstance (World : Type 0) : Type 0 where
  pub stop : World → Status × World
  pub setup : (World → Status × World) → World → Status × World
  pub start : World → Status × World

abbrev pub sizeof_fuzzer : ℕ
sizeof_fuzzer = 24

unfoldable pub stop_syscall_fuzzer : {World : Type 0} → World → Status × World
stop_syscall_fuzzer w = (success, w)

unfoldable pub start_syscall_fuzzer : {World : Type 0} → World → Status × World
start_syscall_fuzzer w = (success, w)

-- The argument is the member `seed` of the random generator, the only one that is called.
unfoldable pub setup_syscall_fuzzer :
    {World : Type 0} → (World → Status × World) → World → Status × World
setup_syscall_fuzzer seed w =
    let (rtrn, w₁) = seed w in if is_success rtrn then (success, w₁) else (failure, w₁)

unfoldable pub get_syscall_fuzzer :
    {World : Type 0} → MemoryAllocator World → World → Option (FuzzerInstance World) × World
get_syscall_fuzzer allocator w =
    let (place, w₁) = allocator.alloc sizeof_fuzzer w in
    elim place [
      | none ↦ (none, w₁)
      | some _ ↦ (
        some (record {
          stop = stop_syscall_fuzzer;
          setup = setup_syscall_fuzzer;
          start = start_syscall_fuzzer;
        }),
        w₁,
      )
    ]

unfoldable pub get_fuzzer : {World : Type 0} → FuzzerConfig → Option (FuzzerInstance World)
get_fuzzer config = none

abbrev pub sizeof_console : ℕ
sizeof_console = 8

-- get_console_writter of src/io/io.c, whether it gives a structure.
unfoldable pub get_console_writter : (h : Heap) → h.World → Bool × h.World
get_console_writter h w =
    let (console, w₁) = h.malloc sizeof_console w in
    elim console [ none ↦ (false, w₁) | some _ ↦ (true, w₁) ]

-- main.c: the return code, and the configuration, which main does not pass on.
unfoldable pub main :
    (h : Heap)
    → (Text → Option ℕ)
    → (Option Text → h.World → Option Text × h.World)
    → ℕ
    → List (Choice × Option Text)
    → h.World
    → Status × Option FuzzerConfig × h.World
main h stat asprintf argc options w =
    let (console, w₁) = get_console_writter h w in
    if console
    then (let (allocator, w₂) = get_default_allocator h w₁ in
        elim allocator [
          | none ↦ (failure, none, w₂)
          | some a ↦
              let (config, v, w₃) = parse_cmd_line a stat asprintf argc options false w₂ in
              elim config [ none ↦ (failure, none, w₃) | some c ↦ (success, some c, w₃) ]
        ])
    else (failure, none, w₁)
