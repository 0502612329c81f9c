-- ===== src/Runtime/Reference.antt =====
-- A description of what parse_cmd_line of src/runtime/nextgen.c should make of a command line, without
-- its loop.
use Prim.Native.Nat.{bit_and}
use nextgen.Base.{
  ℕ, Bool, true, false, not, ◌&&◌, ◌||◌, Option, none, some, List, [], ◌∷◌, ◌==◌, if◌then◌else◌,
}
use nextgen.Crypto.Setup.{crypto, no_crypto}
use nextgen.Runtime.{
  Text, FuzzMode, mode_file, mode_syscall, mode_network, FuzzerConfig, Choice, opt_h, opt_p, opt_a,
  opt_t, opt_e, opt_i, opt_o, opt_f, opt_n, opt_s, opt_c, opt_d, opt_v, opt_x, opt_other, s_ifdir,
  s_ixusr,
}

-- The letter of an option; 63 is '?'.
abbrev pub letter : Choice → ℕ
letter opt_h = 104
letter opt_p = 112
letter opt_a = 97
letter opt_t = 116
letter opt_e = 101
letter opt_i = 105
letter opt_o = 111
letter opt_f = 102
letter opt_n = 110
letter opt_s = 115
letter opt_c = 99
letter opt_d = 100
letter opt_v = 118
letter opt_x = 120
letter opt_other = 63

abbrev pub or_else : {A : Type 0} → Option A → Option A → Option A
or_else none b = b
or_else (some a) b = some a

-- The option is on the command line.
abbrev pub has : Choice → List (Choice × Option Text) → Bool
has c [] = false
has c ((d, optarg) ∷ rest) = letter c == letter d || has c rest

-- The argument of its last occurrence.
abbrev pub last_arg : Choice → List (Choice × Option Text) → Option Text
last_arg c [] = none
last_arg c ((d, optarg) ∷ rest) =
    or_else (last_arg c rest) (if letter c == letter d then optarg else none)

-- What asprintf makes of the last argument of --args.
abbrev pub last_text : (Option Text → Text) → List (Choice × Option Text) → Option Text
last_text printed [] = none
last_text printed ((d, optarg) ∷ rest) =
    or_else (last_text printed rest)
      (if letter opt_x == letter d then some (printed optarg) else none)

abbrev pub mode_of : Choice → Option FuzzMode
mode_of opt_f = some mode_file
mode_of opt_n = some mode_network
mode_of opt_s = some mode_syscall
mode_of c = none

-- The last mode on the command line.
abbrev pub last_mode : List (Choice × Option Text) → Option FuzzMode
last_mode [] = none
last_mode ((d, optarg) ∷ rest) = or_else (last_mode rest) (mode_of d)

abbrev is_directory : Option ℕ → Bool
is_directory none = false
is_directory (some st_mode) = not (bit_and st_mode s_ifdir == 0)

abbrev is_executable : Option ℕ → Bool
is_executable none = false
is_executable (some st_mode) = not (bit_and st_mode s_ixusr == 0)

abbrev is_free : Option ℕ → Bool
is_free none = true
is_free (some st_mode) = false

module _ (stat : Text → Option ℕ) where
  -- An option that is not refused by itself.
  abbrev pub is_good : Choice → Option Text → Bool
  is_good opt_h optarg = false
  is_good opt_other optarg = false
  is_good opt_e none = false
  is_good opt_e (some path) = is_executable (stat path)
  is_good opt_i none = false
  is_good opt_i (some path) = is_directory (stat path)
  is_good opt_o none = false
  is_good opt_o (some path) = is_free (stat path)
  is_good c optarg = true

  abbrev pub all_good : List (Choice × Option Text) → Bool
  all_good [] = true
  all_good ((c, optarg) ∷ rest) = is_good c optarg && all_good rest

-- A mode is chosen, and what each chosen mode needs is there.
abbrev pub is_complete : List (Choice × Option Text) → Bool
is_complete o =
    (has opt_f o || (has opt_n o || has opt_s o))
    && ((not (has opt_f o) || (has opt_i o && (has opt_o o && has opt_e o)))
        && ((not (has opt_n o) || (has opt_a o && (has opt_t o && has opt_o o)))
            && (not (has opt_s o) || has opt_o o)))

-- What the options of a command line ask for: of an option that is given twice the last one counts.
abbrev pub described : (Option Text → Text) → List (Choice × Option Text) → FuzzerConfig
described printed o = record {
  exec_path = last_arg opt_e o;
  input_path = last_arg opt_i o;
  output_path = last_arg opt_o o;
  args = last_text printed o;
  smart_mode = if has opt_d o then some false else some true;
  method = if has opt_c o then some no_crypto else some crypto;
  mode = last_mode o;
}
