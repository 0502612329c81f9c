-- ===== src/Runtime/Region.antt =====
-- The structure that parse_cmd_line of src/runtime/nextgen.c allocates: when it is freed.
use nextgen.Base.{
  ℕ, ◌≡◌, ◌≢◌, Bool, true, false, Option, none, some, List, [], ◌∷◌, arith, Option-cases, inl, inr,
}
use nextgen.Crypto.Setup.{crypto}
use nextgen.Memory.Alloc.{
  default_mem_alloc, default_mem_alloc_shared, default_mem_free, default_mem_free_shared,
  sizeof_allocator, Heap, MemoryAllocator, get_default_allocator,
}
use nextgen.Runtime.{
  Text, Choice, opt_h, opt_p, opt_a, opt_t, opt_e, opt_i, opt_o, opt_f, opt_n, opt_s, opt_c, opt_d,
  opt_v, opt_x, opt_other, FuzzerConfig, Parser, start, Parsed, unwritten, sizeof_config,
  take_option, parse_loop, check_flags, set_crypto_method, check, proceed, refuse, refuse_with_help,
  init_fuzzer_config, parse_cmd_line,
}

abbrev pub is_some : {A : Type 0} → Option A → Bool
is_some none = false
is_some (some a) = true

-- What asprintf allocates is another region.
module _ (h : Heap) (stat : Text → Option ℕ)
    (asprintf : Option Text → h.World → Option Text × h.World)
    (live-asprintf : (optarg : Option Text) (a : ℕ) (w : h.World)
      → h.live w a ≡ true
      → h.live (asprintf optarg w).1 a ≡ true)
    (allocator : MemoryAllocator h.World)
    (live-free : (a : ℕ) (w : h.World) → h.live (allocator.free (some a) w).1 a ≡ false) where
  -- The region is live as long as there is a parser.
  abbrev Kept : ℕ → Parsed allocator stat asprintf → Type 0
  Kept place r = h.live r.2 place ≡ is_some r.0

  check-Kept :
      (place : ℕ) (p : Parser) (o : Option FuzzerConfig) (next : FuzzerConfig → Parser)
      (w : h.World)
      → h.live w place ≡ true
      → Kept place (check allocator stat asprintf place p o next w)
  unfolding check refuse proceed
  check-Kept place p none next w l = live-free place w
  check-Kept place p (some c) next w l = l

  take-Kept :
      (place : ℕ) (c : Choice) (optarg : Option Text) (p : Parser) (w : h.World)
      → h.live w place ≡ true
      → Kept place (take_option allocator stat asprintf place c optarg p w)
  unfolding take_option refuse_with_help refuse proceed
  take-Kept place opt_h optarg p w l = live-free place w
  take-Kept place opt_p optarg p w l = l
  take-Kept place opt_a optarg p w l = l
  take-Kept place opt_t optarg p w l = l
  take-Kept place opt_e optarg p w l = check-Kept place p _ _ w l
  take-Kept place opt_i optarg p w l = check-Kept place p _ _ w l
  take-Kept place opt_o optarg p w l = check-Kept place p _ _ w l
  take-Kept place opt_f optarg p w l = check-Kept place p _ _ w l
  take-Kept place opt_n optarg p w l = check-Kept place p _ _ w l
  take-Kept place opt_s optarg p w l = check-Kept place p _ _ w l
  take-Kept place opt_c optarg p w l = check-Kept place p _ _ w l
  take-Kept place opt_d optarg p w l = l
  take-Kept place opt_v optarg p w l = l
  take-Kept place opt_x optarg p w l = elim (Option-cases (asprintf optarg w).0) [
    | inl e ↦ ground (arith, e, live-free place (asprintf optarg w).1)
    | inr (s, e) ↦ ground (arith, e, live-asprintf optarg place w l)
  ]
  take-Kept place opt_other optarg p w l = live-free place w

  loop-Kept :
      (place : ℕ) (o : List (Choice × Option Text)) (p : Parser) (w : h.World)
      → h.live w place ≡ true
      → Kept place (parse_loop allocator stat asprintf place o p w)
  unfolding parse_loop proceed
  loop-Kept place [] p w l = l
  loop-Kept place ((c, optarg) ∷ rest) p w l =
      let taken = take_option allocator stat asprintf place c optarg p w in
      let here = take-Kept place c optarg p w l in
      elim (Option-cases taken.0) [
        | inl e ↦ ground (arith, e, here)
        | inr (q, e) ↦
            let live : h.live taken.2 place ≡ true = ground (arith, e, here) in
            ground (arith, e, loop-Kept place rest q taken.2 live)
      ]

  flags-Kept :
      (place : ℕ) (p : Parser) (w : h.World)
      → h.live w place ≡ true
      → Kept place (check_flags allocator stat asprintf place p w)
  unfolding check_flags proceed refuse refuse_with_help
  flags-Kept place p w l = ground (arith, live-free place w)

  parse-Kept :
      (argc place : ℕ) (o : List (Choice × Option Text)) (v : Bool) (w : h.World)
      → argc ≢ 1
      → (allocator.alloc sizeof_config w).0 ≡ some place
      → h.live (allocator.alloc sizeof_config w).1 place ≡ true
      → let r = parse_cmd_line allocator stat asprintf argc o v w in h.live r.2 place ≡ is_some r.0
  unfolding parse_cmd_line init_fuzzer_config set_crypto_method
  parse-Kept argc place o v w more room live =
      let config = record unwritten { smart_mode = some true; method = some crypto } in
      let run =
        parse_loop allocator stat asprintf place o (start config v)
          (allocator.alloc sizeof_config w).1 in
      let looped = loop-Kept place o (start config v) (allocator.alloc sizeof_config w).1 live in
      elim (Option-cases run.0) [
        | inl e ↦ ground (arith, more, room, e, looped)
        | inr (p, e) ↦
            let still : h.live run.2 place ≡ true = ground (arith, e, looped) in
            let checked = check_flags allocator stat asprintf place p run.2 in
            let last = flags-Kept place p run.2 still in
            elim (Option-cases checked.0) [
              | inl f ↦ ground (arith, more, room, e, f, last)
              | inr (q, f) ↦ ground (arith, more, room, e, f, last)
            ]
      ]

module _ (h : Heap) (stat : Text → Option ℕ)
    (asprintf : Option Text → h.World → Option Text × h.World)
    (live-asprintf : (optarg : Option Text) (a : ℕ) (w : h.World)
      → h.live w a ≡ true
      → h.live (asprintf optarg w).1 a ≡ true) where
  abbrev default_allocator : MemoryAllocator h.World
  default_allocator = record {
    alloc = default_mem_alloc h;
    shared = default_mem_alloc_shared h;
    free = default_mem_free h;
    free_shared = default_mem_free_shared h;
  }

  is-default :
      (allocator : MemoryAllocator h.World) (w₀ : h.World)
      → (get_default_allocator h w₀).0 ≡ some allocator
      → default_allocator ≡ allocator
  unfolding get_default_allocator
  is-default allocator w₀ e = elim (Option-cases (default_mem_alloc h sizeof_allocator w₀).0) [
    | inl n ↦ ground (arith, n)
    | inr (a, n) ↦ ground (arith, n)
  ]

  default_live-free : (a : ℕ) (w : h.World) → h.live (default_mem_free h (some a) w).1 a ≡ false
  unfolding default_mem_free
  default_live-free a w = ground (arith, h.live-free a a w)

  default_live-alloc :
      (place : ℕ) (w : h.World)
      → (default_mem_alloc h sizeof_config w).0 ≡ some place
      → h.live (default_mem_alloc h sizeof_config w).1 place ≡ true
  unfolding default_mem_alloc
  default_live-alloc place w room = ground (arith, h.live-malloc sizeof_config place place w)

  -- With the default allocator, and an asprintf that leaves live regions live: where argc is not 1
  -- and the configuration's structure is allocated, its region is live after parse_cmd_line exactly
  -- when a configuration is returned; each of the refusals has freed it.
  pub parse_cmd_line-region :
      (allocator : MemoryAllocator h.World) (w₀ : h.World)
      → (get_default_allocator h w₀).0 ≡ some allocator
      → (argc place : ℕ) (o : List (Choice × Option Text)) (v : Bool) (w : h.World) → argc ≢ 1
      → (allocator.alloc sizeof_config w).0 ≡ some place
      → let r = parse_cmd_line allocator stat asprintf argc o v w in h.live r.2 place ≡ is_some r.0
  parse_cmd_line-region allocator w₀ given argc place o v w more =
      rw (← is-default allocator w₀ given) (λ room.
        parse-Kept h stat asprintf live-asprintf default_allocator default_live-free argc place o v
          w more room (default_live-alloc place w room))
