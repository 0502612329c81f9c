-- ===== src/Runtime/Letters.antt =====
-- The option table of src/runtime/nextgen.c: what getopt_long can return, and what that leaves out.
use Prim.Native.String.{String}
use nextgen.Base.{
  ℕ, ◌≡◌, ◌≢◌, refl, Bool, true, false, ◌||◌, Option, none, some, List, [], ◌∷◌, ◌==◌, arith, All,
}
use nextgen.Memory.Alloc.{MemoryAllocator}
use nextgen.Runtime.{
  Text, Choice, opt_n, opt_t, opt_other, HasArg, longopts, optstring, sizeof_config, parse_cmd_line,
}
use nextgen.Runtime.Accepted.{parse_cmd_line-described}
use nextgen.Runtime.Reference.{letter, has}

abbrev in_letters : Choice → List Choice → Bool
in_letters c [] = false
in_letters c (d ∷ rest) = letter c == letter d || in_letters c rest

abbrev in_table : Choice → List (String × HasArg × Choice) → Bool
in_table c [] = false
in_table c ((name, has_arg, d) ∷ rest) = letter c == letter d || in_table c rest

-- What getopt_long documents: it returns what the table has for a long option, a letter of the
-- option string, or '?'.
abbrev pub Returned : Choice × Option Text → Type 0
Returned (c, optarg) =
    (in_table c longopts || (in_letters c optstring || letter c == letter opt_other)) ≡ true

lacks_t : (o : List (Choice × Option Text)) → All Returned o → has opt_t o ≡ false
lacks_t [] h = refl
lacks_t ((c, optarg) ∷ rest) h = ground (arith, lacks_t rest h.1)

module _ {World : Type 0} (allocator : MemoryAllocator World) (stat : Text → Option ℕ)
    (asprintf : Option Text → World → Option Text × World) (printed : Option Text → Text)
    (prints : (optarg : Option Text) (w : World)
      → (asprintf optarg w).0 ≡ some (printed optarg)) where
  -- No command line with --network gives a configuration: the network mode needs the flag that the
  -- letter 't' sets, and getopt_long never returns that letter for the table and the option string.
  pub network-refused :
      (argc place : ℕ) (o : List (Choice × Option Text)) (v : Bool) (w : World)
      → argc ≢ 1
      → (allocator.alloc sizeof_config w).0 ≡ some place
      → All Returned o
      → has opt_n o ≡ true
      → (parse_cmd_line allocator stat asprintf argc o v w).0 ≡ none
  network-refused argc place o v w more room returned network =
      let described =
        parse_cmd_line-described allocator stat asprintf printed prints argc place o v w more
          room in
      ground (arith, described, network, lacks_t o returned)
