-- ===== src/Runtime/Accepted.antt =====
-- Which command lines parse_cmd_line of src/runtime/nextgen.c takes, and what it makes of them.
use nextgen.Base.{
  ℕ, ◌≡◌, ◌≢◌, refl, Bool, true, false, ◌&&◌, ◌||◌, Option, none, some, List, [], ◌∷◌,
  if◌then◌else◌, arith, Bool-cases, Option-cases, inl, inr,
}
use nextgen.Crypto.Setup.{crypto, no_crypto}
use nextgen.Memory.Alloc.{MemoryAllocator}
use nextgen.Runtime.{
  Text, FuzzerConfig, unwritten, Choice, opt_h, opt_p, opt_a, opt_t, opt_e, opt_i, opt_o, opt_f,
  opt_n, opt_s, opt_c, opt_d, opt_v, opt_x, opt_other, set_input_path, set_output_path,
  set_exec_path, set_fuzz_mode, set_crypto_method, Parser, start, sizeof_config, init_fuzzer_config,
  refuse, refuse_with_help, proceed, check, take_option, parse_loop, check_flags, parse_cmd_line,
}
use nextgen.Runtime.Reference.{
  or_else, has, last_arg, last_text, last_mode, is_good, all_good, is_complete, described,
}

-- The parser behind the options, when none of them is refused.
abbrev after : (Option Text → Text) → Parser → List (Choice × Option Text) → Parser
after printed p o = record {
  config = record {
    exec_path = or_else (last_arg opt_e o) p.config.exec_path;
    input_path = or_else (last_arg opt_i o) p.config.input_path;
    output_path = or_else (last_arg opt_o o) p.config.output_path;
    args = or_else (last_text printed o) p.config.args;
    smart_mode = if has opt_d o then some false else p.config.smart_mode;
    method = if has opt_c o then some no_crypto else p.config.method;
    mode = or_else (last_mode o) p.config.mode;
  };
  i_flag = has opt_i o || p.i_flag;
  o_flag = has opt_o o || p.o_flag;
  f_flag = has opt_f o || p.f_flag;
  n_flag = has opt_n o || p.n_flag;
  e_flag = has opt_e o || p.e_flag;
  p_flag = has opt_p o || p.p_flag;
  a_flag = has opt_a o || p.a_flag;
  t_flag = has opt_t o || p.t_flag;
  s_flag = has opt_s o || p.s_flag;
  verbose = has opt_v o || p.verbose;
}

or_else_assoc : {A : Type 0} (a b c : Option A) → or_else (or_else a b) c ≡ or_else a (or_else b c)
or_else_assoc none b c = refl
or_else_assoc (some a) b c = refl

or_else-none : {A : Type 0} (a : Option A) → or_else a none ≡ a
or_else-none none = refl
or_else-none (some a) = refl

or_false : (a : Bool) → (a || false) ≡ a
or_false true = refl
or_false false = refl

or_swap : (a b c : Bool) → ((a || b) || c) ≡ (b || (a || c))
or_swap true true c = refl
or_swap true false c = refl
or_swap false true c = refl
or_swap false false c = refl

if_or :
    {A : Type 0} (a b : Bool) (x y : A)
    → (if a || b then x else y) ≡ (if b then x else (if a then x else y))
if_or true true x y = refl
if_or true false x y = refl
if_or false true x y = refl
if_or false false x y = refl

module _ {World : Type 0} (allocator : MemoryAllocator World) (stat : Text → Option ℕ)
    (asprintf : Option Text → World → Option Text × World) (printed : Option Text → Text)
    (prints : (optarg : Option Text) (w : World)
      → (asprintf optarg w).0 ≡ some (printed optarg)) where
  take-good :
      (place : ℕ) (c : Choice) (optarg : Option Text) (p : Parser) (w : World)
      → (take_option allocator stat asprintf place c optarg p w).0
        ≡ (if is_good stat c optarg then some (after printed p ((c, optarg) ∷ [])) else none)
  unfolding take_option refuse refuse_with_help proceed check set_exec_path set_input_path
      set_output_path set_fuzz_mode set_crypto_method
  take-good place opt_h optarg p w = ground arith
  take-good place opt_p optarg p w = ground arith
  take-good place opt_a optarg p w = ground arith
  take-good place opt_t optarg p w = ground arith
  take-good place opt_e none p w = ground arith
  take-good place opt_e (some path) p w = ground (arith, Option-cases (stat path))
  take-good place opt_i none p w = ground arith
  take-good place opt_i (some path) p w = ground (arith, Option-cases (stat path))
  take-good place opt_o none p w = ground arith
  take-good place opt_o (some path) p w = ground (arith, Option-cases (stat path))
  take-good place opt_f optarg p w = ground arith
  take-good place opt_n optarg p w = ground arith
  take-good place opt_s optarg p w = ground arith
  take-good place opt_c optarg p w = ground arith
  take-good place opt_d optarg p w = ground arith
  take-good place opt_v optarg p w = ground arith
  take-good place opt_x optarg p w = ground (arith, prints optarg w)
  take-good place opt_other optarg p w = ground arith

  after-nil : (p : Parser) → after printed p [] ≡ p
  after-nil p = refl

  after-cons :
      (p : Parser) (c : Choice) (optarg : Option Text) (rest : List (Choice × Option Text))
      → after printed (after printed p ((c, optarg) ∷ [])) rest
        ≡ after printed p ((c, optarg) ∷ rest)
  after-cons p c optarg rest = simp (or_else_assoc, or_false, or_swap, if_or)

  loop-good :
      (place : ℕ) (o : List (Choice × Option Text)) (p : Parser) (w : World)
      → (parse_loop allocator stat asprintf place o p w).0
        ≡ (if all_good stat o then some (after printed p o) else none)
  unfolding parse_loop proceed
  loop-good place [] p w = refl
  loop-good place ((c, optarg) ∷ rest) p w =
      let taken = take_option allocator stat asprintf place c optarg p w in
      let here = take-good place c optarg p w in
      elim (Bool-cases (is_good stat c optarg)) [
        | inl g ↦
            let next = loop-good place rest (after printed p ((c, optarg) ∷ [])) taken.2 in
            ground (arith, g, here, next, after-cons p c optarg rest)
        | inr b ↦ ground (arith, b, here)
      ]

  check_complete :
      (place : ℕ) (o : List (Choice × Option Text)) (v : Bool) (w : World) (c : FuzzerConfig)
      → (check_flags allocator stat asprintf place (after printed (start c v) o) w).0
        ≡ (if is_complete o then some (after printed (start c v) o) else none)
  unfolding check_flags proceed refuse refuse_with_help
  check_complete place o v w c = ground arith

  after-described :
      (o : List (Choice × Option Text)) (v : Bool)
      → (after printed
          (start (record unwritten { smart_mode = some true; method = some crypto }) v)
          o).config
        ≡ described printed o
  after-described o v = simp or_else-none

  -- Where the structure can be allocated and asprintf succeeds, and argc is not 1, parse_cmd_line
  -- returns a configuration exactly when no option is refused by itself (--help, an unknown one, a
  -- path that stat does not show as wanted), a mode is chosen, and each chosen mode has what it
  -- needs; the configuration is then the one that the last occurrence of each option describes.
  pub parse_cmd_line-described :
      (argc place : ℕ) (o : List (Choice × Option Text)) (v : Bool) (w : World)
      → argc ≢ 1
      → (allocator.alloc sizeof_config w).0 ≡ some place
      → (parse_cmd_line allocator stat asprintf argc o v w).0
        ≡ (if all_good stat o && is_complete o then some (described printed o) else none)
  unfolding parse_cmd_line init_fuzzer_config set_crypto_method
  parse_cmd_line-described argc place o v w more room =
      let config = record unwritten { smart_mode = some true; method = some crypto } in
      let w₁ = (allocator.alloc sizeof_config w).1 in
      let looped = loop-good place o (start config v) w₁ in
      let run = parse_loop allocator stat asprintf place o (start config v) w₁ in
      let checked = check_complete place o v run.2 config in
      let same = after-described o v in
      elim (Bool-cases (all_good stat o)) [
        | inr bad ↦ ground (arith, more, room, bad, looped)
        | inl good ↦ elim (Bool-cases (is_complete o)) [
          | inr bad ↦ ground (arith, more, room, good, bad, looped, checked)
          | inl whole ↦ ground (arith, more, room, good, whole, looped, checked, same)
        ]
      ]
