-- ===== src/Runtime.antt =====
-- parse_cmd_line of src/runtime/nextgen.c with the setters it calls. A text is the list of its bytes.
pub mod Main
pub mod Reference
pub mod Accepted
pub mod Region
pub mod Letters
mod Examples
use Prim.Native.Nat.{bit_and}
use Prim.Native.String.{String}
use nextgen.Base.{
  ℕ, Bool, true, false, not, ◌&&◌, ◌||◌, Option, none, some, List, [], ◌∷◌, ◌==◌, if◌then◌else◌,
}
use nextgen.Crypto.Setup.{CryptoMethod, crypto, no_crypto, other_method}
use nextgen.Memory.Alloc.{MemoryAllocator}

abbrev pub Text : Type 0
Text = List ℕ

-- `enum fuzz_mode`, and any other number.
pub data FuzzMode : Type 0 where
  mode_file mode_syscall mode_network other_mode : FuzzMode

-- `struct fuzzer_config`; `none` is a field that was not written since the structure was allocated.
pub record FuzzerConfig : Type 0 where
  pub exec_path : Option Text
  pub input_path : Option Text
  pub output_path : Option Text
  pub args : Option Text
  pub smart_mode : Option Bool
  pub method : Option CryptoMethod
  pub mode : Option FuzzMode

abbrev pub unwritten : FuzzerConfig
unwritten = record {
  exec_path = none;
  input_path = none;
  output_path = none;
  args = none;
  smart_mode = none;
  method = none;
  mode = none;
}

-- What getopt_long returns, which the switch compares with a letter; `opt_other` is any letter that
-- the switch does not have, the '?' of an unknown option among them.
pub data Choice : Type 0 where
  opt_h opt_p opt_a opt_t opt_e opt_i opt_o opt_f opt_n opt_s opt_c opt_d opt_v opt_x opt_other :
      Choice

-- Whether an option of the table takes an argument.
pub data HasArg : Type 0 where
  no_argument required_argument : HasArg

-- `longopts`: the name, whether it takes an argument, and what getopt_long returns for it.
abbrev pub longopts : List (String × HasArg × Choice)
longopts =
    ("in", required_argument, opt_i)
    ∷ ("out", required_argument, opt_o)
    ∷ ("exec", required_argument, opt_e)
    ∷ ("crypto", required_argument, opt_c)
    ∷ ("port", required_argument, opt_p)
    ∷ ("address", required_argument, opt_a)
    ∷ ("protocol", required_argument, opt_c)
    ∷ ("args", required_argument, opt_x)
    ∷ ("file", no_argument, opt_f)
    ∷ ("network", no_argument, opt_n)
    ∷ ("syscall", no_argument, opt_s)
    ∷ ("help", no_argument, opt_h)
    ∷ ("dumb", no_argument, opt_d)
    ∷ ("verbose", no_argument, opt_v)
    ∷ []

-- The letters of `optstring`.
abbrev pub optstring : List Choice
optstring = opt_p ∷ opt_e ∷ []

-- The bits of `st_mode`.
abbrev pub s_ifdir : ℕ
s_ifdir = 16384

abbrev pub s_ixusr : ℕ
s_ixusr = 64

unfoldable pub set_fuzz_mode : FuzzerConfig → FuzzMode → Option FuzzerConfig
set_fuzz_mode config mode_file = some (record config { mode = some mode_file })
set_fuzz_mode config mode_syscall = some (record config { mode = some mode_syscall })
set_fuzz_mode config mode_network = some (record config { mode = some mode_network })
set_fuzz_mode config other_mode = none

unfoldable pub set_crypto_method : FuzzerConfig → CryptoMethod → Option FuzzerConfig
set_crypto_method config crypto = some (record config { method = some crypto })
set_crypto_method config no_crypto = some (record config { method = some no_crypto })
set_crypto_method config other_method = none

-- `stat` gives the mode of a path, `none` where it fails. The setters return `none` for -1, when
-- they leave the configuration alone.
module _ (stat : Text → Option ℕ) where
  unfoldable pub set_input_path : Option FuzzerConfig → Option Text → Option FuzzerConfig
  set_input_path none path = none
  set_input_path (some config) none = none
  set_input_path (some config) (some path) = elim (stat path) [
    | none ↦ none
    | some st_mode ↦
        if bit_and st_mode s_ifdir == 0
        then none
        else some (record config { input_path = some path })
  ]

  unfoldable pub set_output_path : Option FuzzerConfig → Option Text → Option FuzzerConfig
  set_output_path none path = none
  set_output_path (some config) none = none
  set_output_path (some config) (some path) = elim (stat path) [
    | none ↦ some (record config { output_path = some path })
    | some st_mode ↦ none
  ]

  unfoldable pub set_exec_path : Option FuzzerConfig → Option Text → Option FuzzerConfig
  set_exec_path none path = none
  set_exec_path (some config) none = none
  set_exec_path (some config) (some path) = elim (stat path) [
    | none ↦ none
    | some st_mode ↦
        if bit_and st_mode s_ixusr == 0
        then none
        else some (record config { exec_path = some path })
  ]

-- The local variables of parse_cmd_line with what `config` points to, and the io module's verbosity.
pub record Parser : Type 0 where
  pub config : FuzzerConfig
  pub i_flag : Bool
  pub o_flag : Bool
  pub f_flag : Bool
  pub n_flag : Bool
  pub e_flag : Bool
  pub p_flag : Bool
  pub a_flag : Bool
  pub t_flag : Bool
  pub s_flag : Bool
  pub verbose : Bool

abbrev pub start : FuzzerConfig → Bool → Parser
start c v = record {
  config = c;
  i_flag = false;
  o_flag = false;
  f_flag = false;
  n_flag = false;
  e_flag = false;
  p_flag = false;
  a_flag = false;
  t_flag = false;
  s_flag = false;
  verbose = v;
}

abbrev pub sizeof_config : ℕ
sizeof_config = 48

-- `asprintf` with the format "%s": the text it allocated, or `none` for a negative result.
module _ {World : Type 0} (allocator : MemoryAllocator World) (stat : Text → Option ℕ)
    (asprintf : Option Text → World → Option Text × World) where
  unfoldable pub init_fuzzer_config : World → Option ℕ × World
  init_fuzzer_config w = allocator.alloc sizeof_config w

  -- A refusal: the configuration is freed and NULL is returned.
  abbrev pub Parsed : Type 0
  Parsed = Option Parser × Bool × World

  unfoldable pub refuse : ℕ → Parser → World → Parsed
  refuse place p w = (none, p.verbose, (allocator.free (some place) w).1)

  -- The same behind display_help_banner, which sets the verbosity.
  unfoldable pub refuse_with_help : ℕ → World → Parsed
  refuse_with_help place w = (none, true, (allocator.free (some place) w).1)

  unfoldable pub proceed : Parser → World → Parsed
  proceed p w = (some p, p.verbose, w)

  -- The end of a case whose setter may fail.
  unfoldable pub check : ℕ → Parser → Option FuzzerConfig → (FuzzerConfig → Parser) → World → Parsed
  check place p none next w = refuse place p w
  check place p (some c) next w = proceed (next c) w

  -- The switch: `optarg` is the argument of the option.
  unfoldable pub take_option : ℕ → Choice → Option Text → Parser → World → Parsed
  take_option place opt_h optarg p w = refuse_with_help place w
  take_option place opt_p optarg p w = proceed (record p { p_flag = true }) w
  take_option place opt_a optarg p w = proceed (record p { a_flag = true }) w
  take_option place opt_t optarg p w = proceed (record p { t_flag = true }) w
  take_option place opt_e optarg p w =
      check place p (set_exec_path stat (some p.config) optarg)
        (λ c. record p { config = c; e_flag = true }) w
  take_option place opt_i optarg p w =
      check place p (set_input_path stat (some p.config) optarg)
        (λ c. record p { config = c; i_flag = true }) w
  take_option place opt_o optarg p w =
      check place p (set_output_path stat (some p.config) optarg)
        (λ c. record p { config = c; o_flag = true }) w
  take_option place opt_f optarg p w =
      check place p (set_fuzz_mode p.config mode_file) (λ c. record p { config = c; f_flag = true })
        w
  take_option place opt_n optarg p w =
      check place p (set_fuzz_mode p.config mode_network)
        (λ c. record p { config = c; n_flag = true }) w
  take_option place opt_s optarg p w =
      check place p (set_fuzz_mode p.config mode_syscall)
        (λ c. record p { config = c; s_flag = true }) w
  take_option place opt_c optarg p w =
      check place p (set_crypto_method p.config no_crypto) (λ c. record p { config = c }) w
  take_option place opt_d optarg p w =
      proceed (record p { config = record p.config { smart_mode = some false } }) w
  take_option place opt_v optarg p w = proceed (record p { verbose = true }) w
  take_option place opt_x optarg p w =
      let (text, w₁) = asprintf optarg w in
      elim text [
        | none ↦ refuse place p w₁
        | some t ↦ proceed (record p { config = record p.config { args = some t } }) w₁
      ]
  take_option place opt_other optarg p w = refuse_with_help place w

  -- The loop, over what getopt_long returns and its argument, until it returns -1.
  unfoldable pub parse_loop : ℕ → List (Choice × Option Text) → Parser → World → Parsed
  parse_loop place [] p w = proceed p w
  parse_loop place ((ch, optarg) ∷ rest) p w =
      let (taken, v, w₁) = take_option place ch optarg p w in
      elim taken [ none ↦ (none, v, w₁) | some q ↦ parse_loop place rest q w₁ ]

  -- The tests behind the loop.
  unfoldable pub check_flags : ℕ → Parser → World → Parsed
  check_flags place p w =
      if not p.f_flag && (not p.n_flag && not p.s_flag)
      then refuse_with_help place w
      else if p.f_flag && (not p.i_flag || (not p.o_flag || not p.e_flag))
      then refuse place p w
      else if p.n_flag && (not p.a_flag || (not p.t_flag || not p.o_flag))
      then refuse place p w
      else if p.s_flag && not p.o_flag
      then refuse place p w
      else proceed p w

  -- `argc` is the number of words on the command line, `options` what getopt_long makes of them.
  -- The results: the configuration, `none` for NULL, and the verbosity.
  unfoldable pub parse_cmd_line :
      ℕ → List (Choice × Option Text) → Bool → World → Option FuzzerConfig × Bool × World
  parse_cmd_line argc options verbose w =
      if argc == 1
      then (none, true, w)
      else let (allocated, w₁) = init_fuzzer_config w in
        elim allocated [
          | none ↦ (none, verbose, w₁)
          | some place ↦
              elim (set_crypto_method (record unwritten { smart_mode = some true }) crypto) [
                | none ↦ (none, verbose, w₁)
                | some config ↦
                    let (looped, v, w₂) = parse_loop place options (start config verbose) w₁ in
                    elim looped [
                      | none ↦ (none, v, w₂)
                      | some p ↦
                          let (checked, u, w₃) = check_flags place p w₂ in
                          elim checked [ none ↦ (none, u, w₃) | some q ↦ (some q.config, u, w₃) ]
                    ]
              ]
        ]
