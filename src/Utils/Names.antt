-- ===== src/Utils/Names.antt =====
-- File names in src/utils/utils.c (get_extension, generate_name) and what src/plugins/plugin.c does
-- with the names in its directory. A text is the list of its bytes, without the NUL.
use nextgen.Base.{
  ℕ, ◌+◌, ◌%◌, ◌^◌, ◌≡◌, ◌≢◌, refl, Bool, true, false, Option, none, some, List, [], ◌∷◌, ◌++◌,
  ◌&&◌, ◌==◌, if◌then◌else◌, All, Status, success, failure, arith, Bool-cases, Option-cases, inl,
  inr,
}

-- The bytes of '.', of '\n', and of "so".
abbrev pub dot : ℕ
dot = 46

abbrev pub newline : ℕ
newline = 10

-- What strrchr finds, without the byte itself: the text behind the last occurrence.
unfoldable pub behind_last : ℕ → List ℕ → Option (List ℕ)
behind_last c [] = none
behind_last c (x ∷ xs) = elim (behind_last c xs) [
  | some t ↦ some t
  | none ↦ if x == c then some xs else none
]

-- `get_extension`, where asprintf gives a text; `none` is -1.
unfoldable pub get_extension : List ℕ → Option (List ℕ)
get_extension path = elim (behind_last dot path) [
  | none ↦ none
  | some t ↦ some (t ++ (newline ∷ []))
]

-- strncmp over the length of the first text, whether it is 0.
unfoldable pub starts_with : List ℕ → List ℕ → Bool
starts_with [] text = true
starts_with (c ∷ cs) [] = false
starts_with (c ∷ cs) (x ∷ xs) = c == x && starts_with cs xs

-- `enum name_type`
pub data NameType : Type 0 where
  file_name dir_name : NameType

-- `generate_name`, where the allocations succeed: `random_data` is what rand_bytes gives, `hash` is
-- sha256. The last `none` is -1.
unfoldable pub generate_name :
    Option (List ℕ) → (List ℕ → Option (List ℕ)) → Option (List ℕ) → NameType → Option (List ℕ)
generate_name random_data hash none file_name = none
generate_name none hash (some extension) file_name = none
generate_name (some random_data) hash (some extension) file_name = elim (hash random_data) [
  | none ↦ none
  | some tmp ↦ elim (behind_last dot extension) [
    | none ↦ some (tmp ++ (dot ∷ extension))
    | some _ ↦ some (tmp ++ extension)
  ]
]
generate_name none hash extension dir_name = none
generate_name (some random_data) hash extension dir_name = hash random_data

-- The directory walk of `count_plugins`, over the names that readdir gives, with the counter.
unfoldable pub count_plugins : List (List ℕ) → ℕ → ℕ
count_plugins [] count = count
count_plugins (name ∷ names) count = elim (starts_with (dot ∷ []) name) [
  | true ↦ count_plugins names count
  | false ↦ elim (get_extension name) [
    | none ↦ count_plugins names count
    | some extension ↦
        count_plugins names
          (if starts_with (dot ∷ 115 ∷ 111 ∷ []) extension then (count + 1) % 2 ^ 32 else count)
  ]
]

-- `setup_plugin_module`: `load` is the part of load_all_plugins behind its check of the counter.
unfoldable pub setup_plugin_module : Option (List (List ℕ)) → ℕ → (ℕ → Status) → Status × ℕ
setup_plugin_module none count load = (failure, count)
setup_plugin_module (some names) count load =
    let counted = count_plugins names count in
    if counted == 0 then (success, counted) else (load counted, counted)

-- No byte of a text is the one given.
abbrev pub Lacks : ℕ → List ℕ → Type 0
Lacks c t = All (λ x. x ≢ c) t

behind_last-Lacks : (c : ℕ) (t : List ℕ) → Lacks c t → behind_last c t ≡ none
unfolding behind_last
behind_last-Lacks c [] h = refl
behind_last-Lacks c (x ∷ t) h = ground (arith, behind_last-Lacks c t h.1, h.0)

behind_last-append : (c : ℕ) (s t : List ℕ) → Lacks c t → behind_last c (s ++ (c ∷ t)) ≡ some t
unfolding behind_last
behind_last-append c [] t h = ground (arith, behind_last-Lacks c t h)
behind_last-append c (x ∷ s) t h = ground (arith, behind_last-append c s t h)

behind_none-start : (c : ℕ) (t : List ℕ) → behind_last c t ≡ none → starts_with (c ∷ []) t ≡ false
unfolding behind_last starts_with
behind_none-start c [] e = refl
behind_none-start c (y ∷ t) e = elim (Option-cases (behind_last c t)) [
  | inr (v, n) ↦ ground (arith, n)
  | inl n ↦ ground (arith, n)
]

-- The text behind the last occurrence does not begin with that byte.
behind_last-start :
    (c : ℕ) (t u : List ℕ) → behind_last c t ≡ some u → starts_with (c ∷ []) u ≡ false
unfolding behind_last starts_with
behind_last-start c [] u e = ground arith
behind_last-start c (x ∷ t) u e = elim (Option-cases (behind_last c t)) [
  | inr (v, n) ↦ ground (arith, n, behind_last-start c t v n)
  | inl n ↦ ground (arith, n, behind_none-start c t n)
]

not-shared_object :
    (u : List ℕ)
    → starts_with (dot ∷ []) u ≡ false
    → starts_with (dot ∷ 115 ∷ 111 ∷ []) (u ++ (newline ∷ [])) ≡ false
unfolding starts_with
not-shared_object [] h = refl
not-shared_object (x ∷ u) h = ground (arith, h)

-- count_plugins never counts a file, whatever the directory holds: the extension has no dot before
-- it, and is compared with one that has.
count_plugins_same : (names : List (List ℕ)) (count : ℕ) → count_plugins names count ≡ count
unfolding count_plugins get_extension
count_plugins_same [] count = refl
count_plugins_same (name ∷ names) count = elim (Bool-cases (starts_with (dot ∷ []) name)) [
  | inl b ↦ ground (arith, b, count_plugins_same names count)
  | inr b ↦ elim (Option-cases (behind_last dot name)) [
    | inl n ↦ ground (arith, b, n, count_plugins_same names count)
    | inr (u, n) ↦ ground (
      arith,
      b,
      n,
      not-shared_object u (behind_last-start dot name u n),
      count_plugins_same names count,
    )
  ]
]

-- setup_plugin_module, where the directory can be read, returns 0 and loads nothing, whatever the
-- directory holds and whatever loading would do.
setup_plugin-none :
    (names : List (List ℕ)) (load : ℕ → Status)
    → setup_plugin_module (some names) 0 load ≡ (success, 0)
unfolding setup_plugin_module
setup_plugin-none names load = ground (arith, count_plugins_same names 0)

-- The extension of a generated file name is the one asked for, with a newline behind it, where the
-- random bytes and their hash can be had, whether it was given with its dot or without.
pub get_extension-generate_name :
    (random : List ℕ) (hash : List ℕ → Option (List ℕ)) (tmp extension : List ℕ)
    → hash random ≡ some tmp
    → Lacks dot extension
    → (given : Bool)
    → (name : List ℕ) × (generate_name
          (some random)
          hash
          (some (if given then dot ∷ extension else extension))
          file_name
        ≡ some name)
      × (get_extension name ≡ some (extension ++ (newline ∷ [])))
unfolding generate_name get_extension
get_extension-generate_name random hash tmp extension h l given = (
  tmp ++ (dot ∷ extension),
  ground (arith, h, behind_last-Lacks dot extension l, behind_last-append dot [] extension l),
  ground (arith, behind_last-append dot tmp extension l),
)
