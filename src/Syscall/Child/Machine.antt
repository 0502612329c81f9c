-- ===== src/Syscall/Child/Machine.antt =====
-- What a child of src/syscall/syscall.c calls: the kernel, the random generator, the generators of
-- arguments, the allocator, the resources, and the log.
use nextgen.Base.{ℕ, ◌≡◌, ◌≤◌, Bool, Option, some, List, Outcome, Status}
use nextgen.Memory.Alloc.{MemoryAllocator}
use nextgen.Syscall.ArgTypes.{ArgContext}
use nextgen.Syscall.SetTest.{Kernel}
use nextgen.Syscall.Child.Context.{Buffer, ChildCtx}

-- The functions of `struct resource_generator` (src/resource/resource.h) that give back. Those that
-- take the address of a pointer also say what the pointer is afterwards.
pub record ResourceGenerator (World : Type 0) : Type 0 where
  pub free_desc : Option Buffer → World → Outcome (Status × World)
  pub free_socket : Option Buffer → World → Outcome (Status × World)
  pub free_filepath : Option Buffer → World → Outcome (Status × Option Buffer × World)
  pub free_dirpath : Option Buffer → World → Outcome (Status × Option Buffer × World)

-- `generate g` is the generator that an entry points to: it may store a new pointer in the argument
-- that it is given, and it may call set_arg_size with a size for the child; it returns a code.
pub record Machine (G : Type 0) : Type 1 where
  pub kernel : Kernel
  pub alarm : kernel.World → kernel.World
  pub range : ℕ → kernel.World → Option ℕ × kernel.World
  pub range-le : (r n : ℕ) (w : kernel.World) → (range r w).0 ≡ some n → n ≤ r
  pub generate :
      G
      → ChildCtx
      → Option Buffer
      → kernel.World
      → Outcome (Status × Option Buffer × Option ℕ × kernel.World)
  pub log_arguments : ChildCtx → List (Option ArgContext) → kernel.World → Status × kernel.World
  pub log_results : Bool → ℕ → ℕ → kernel.World → Status × kernel.World
  pub allocator : MemoryAllocator kernel.World
  pub rsrc_gen : ResourceGenerator kernel.World
