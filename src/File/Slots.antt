-- ===== src/File/Slots.antt =====
-- The walks over a directory of src/file/file.c and src/utils/utils.c: what they count and write.
use nextgen.Base.{
  ℕ, zero, suc, ◌+◌, ◌%◌, ◌^◌, ◌≡◌, ◌≤◌, ◌<◌, refl, ◌∙◌, subst, true, false, Option, none, some,
  List, [], ◌∷◌, ◌==◌, if◌then◌else◌, get_elem?, set, length, replicate, get_elem?-set, length-set,
  length-replicate, arith, done, Bool-cases, Option-cases, inl, inr, success, is_success,
}
use nextgen.Utils.Names.{dot, starts_with}
use nextgen.File.{
  Text, FileCalls, FileCtx, join, has_ifreg, count_loop, count_files_directory, init_file_ctx,
  fill_loop,
}

-- The first `i` slots are written, and no other.
pub record Written (array : List (Option FileCtx)) (i : ℕ) : Type 0 where
  pub few : i ≤ length array
  pub low : (j : ℕ) → j < i → (c : FileCtx) × (get_elem? array j ≡ some (some c))
  pub high : (j : ℕ) → i ≤ j → j < length array → get_elem? array j ≡ some none

-- The names that do not begin with a dot and that stat calls a file.
abbrev pub files_in : (Text → Option ℕ) → Text → List Text → ℕ
files_in st dir [] = 0
files_in st dir (name ∷ names) =
    let rest = files_in st dir names in
    elim (starts_with (dot ∷ []) name) [
      | true ↦ rest
      | false ↦ elim (st (join dir name)) [
        | none ↦ rest
        | some st_mode ↦ if has_ifreg st_mode then suc rest else rest
      ]
    ]

get_elem?-replicate : {A : Type 0} (n j : ℕ) (a : A) → j < n → get_elem? (replicate n a) j ≡ some a
get_elem?-replicate zero j a h = absurd (omega arith)
get_elem?-replicate (suc n) zero a h = refl
get_elem?-replicate (suc n) (suc j) a h = get_elem?-replicate n j a (omega arith)

pub fresh-Written : (n : ℕ) → Written (replicate n none) 0
fresh-Written n = record {
  few = omega arith;
  low = λ j h. absurd (omega arith);
  high = λ j lo hi. get_elem?-replicate n j none (subst (λ m. j < m) (length-replicate n none) hi);
}

pub set-Written :
    (array : List (Option FileCtx)) (i : ℕ) (c : FileCtx)
    → Written array i
    → i < length array
    → Written (set array i (some c)) (suc i)
set-Written array i c h lt = record {
  few = omega (arith, length-set array i (some c));
  low = λ j below. elim (Bool-cases (i == j)) [
    | inl here ↦ (c, ground (arith, here, get_elem?-set array i j (some c)))
    | inr other ↦
        let (d, e) = h.low j (ground (arith, other)) in
        (d, ground (arith, other, e, get_elem?-set array i j (some c)))
  ];
  high = λ j lo hi. ground (
    arith,
    get_elem?-set array i j (some c),
    h.high j (omega arith) (omega (arith, length-set array i (some c))),
  );
}

-- The walk returns; if it gives an array, the slots up to the counter are written.
abbrev pub Grown : List (Option FileCtx) → ℕ → Option (List (Option FileCtx) × ℕ) → Type 0
Grown array total none = Unit
Grown array total (some (out, i)) = Written out i × (i ≡ total) × (length out ≡ length array)

Grown-same :
    (a b : List (Option FileCtx)) (m n : ℕ) (o : Option (List (Option FileCtx) × ℕ))
    → m ≡ n
    → length b ≡ length a
    → Grown b m o
    → Grown a n o
Grown-same a b m n none e l g = tt
Grown-same a b m n (some (out, i)) e l g = (g.0, g.1 ∙ e, g.2 ∙ l)

-- The directory does not change: its names are `names`, and stat answers by `st`.
module _ {World : Type 0} (os : FileCalls World) (st : Text → Option ℕ)
    (prints : (t : Text) (w : World) → (os.asprintf t w).0 ≡ some t)
    (stats : (path : Text) (w : World) → (os.stat path w).0 ≡ st path) where
  count_loop-files :
      (dir : Text) (names : List Text) (count : ℕ) (w : World)
      → count + files_in st dir names < 2 ^ 32
      → (count_loop os dir names count w).0 ≡ success
      → (count_loop os dir names count w).1 ≡ count + files_in st dir names
  unfolding count_loop
  count_loop-files dir [] count w few ok = omega arith
  count_loop-files dir (name ∷ names) count w few ok =
      let printed = prints (join dir name) w in
      let w₁ = (os.asprintf (join dir name) w).1 in
      let seen = stats (join dir name) w₁ in
      let w₂ = (os.stat (join dir name) w₁).1 in
      elim (Bool-cases (starts_with (dot ∷ []) name)) [
        | inl b ↦ ground (arith, b, count_loop-files dir names count w)
        | inr b ↦ elim (Option-cases (st (join dir name))) [
          | inl n ↦ ground (arith, b, printed, seen, n)
          | inr (mode, n) ↦ elim (Bool-cases (has_ifreg mode)) [
            | inl r ↦
                let next : (count + 1) % 2 ^ 32 ≡ suc count = ground (arith, b, n, r) in
                ground
                  (arith, b, printed, seen, n, r, next, count_loop-files dir names (suc count) w₂)
            | inr r ↦ ground (arith, b, printed, seen, n, r, count_loop-files dir names count w₂)
          ]
        ]
      ]

  -- The walk over the names from a slot on returns, with the slots up to the total written.
  unfoldable pub Fills : Text → List Text → List (Option FileCtx) → ℕ → World → Type 0
  Fills dir names array i w =
      (o : Option (List (Option FileCtx) × ℕ)) × (w' : World) × (fill_loop os dir names array i w
        ≡ done (o, w'))
      × Grown array (i + files_in st dir names) o

  Fills-file :
      (dir name : Text) (names : List Text) (array : List (Option FileCtx)) (i mode : ℕ) (w : World)
      → starts_with (dot ∷ []) name ≡ false
      → st (join dir name) ≡ some mode
      → has_ifreg mode ≡ true
      → i < length array
      → length array < 2 ^ 32
      → ((c : FileCtx) (w' : World) → Fills dir names (set array i (some c)) (suc i) w')
      → Fills dir (name ∷ names) array i w
  unfolding fill_loop Fills
  Fills-file dir name names array i mode w b n r lt small rest =
      let printed = prints (join dir name) w in
      let w₁ = (os.asprintf (join dir name) w).1 in
      let seen = stats (join dir name) w₁ in
      let w₂ = (os.stat (join dir name) w₁).1 in
      let file = init_file_ctx os (some (join dir name)) w₂ in
      elim (Option-cases file.0) [
        | inl e ↦ (none, file.1, ground (arith, b, printed, seen, n, r, lt, e), tt)
        | inr (c, e) ↦
            let next : (i + 1) % 2 ^ 32 ≡ suc i = omega arith in
            let (o, w', run, grown) = rest c file.1 in
            (
              o,
              w',
              ground (arith, b, printed, seen, n, r, lt, e, next, run),
              Grown-same array (set array i (some c)) (suc i + files_in st dir names)
                  (i + files_in st dir (name ∷ names)) o (ground (arith, b, n, r))
                  (length-set array i (some c)) grown,
            )
      ]

  pub fill_loop-Grown :
      (dir : Text) (names : List Text) (array : List (Option FileCtx)) (i : ℕ) (w : World)
      → Written array i
      → length array < 2 ^ 32
      → i + files_in st dir names ≤ length array
      → Fills dir names array i w
  unfolding fill_loop Fills
  fill_loop-Grown dir [] array i w h small room = (some (array, i), w, refl, (h, omega arith, refl))
  fill_loop-Grown dir (name ∷ names) array i w h small room =
      let printed = prints (join dir name) w in
      let w₁ = (os.asprintf (join dir name) w).1 in
      let seen = stats (join dir name) w₁ in
      let w₂ = (os.stat (join dir name) w₁).1 in
      elim (Bool-cases (starts_with (dot ∷ []) name)) [
        | inl b ↦
            let (o, w', run, grown) =
              fill_loop-Grown dir names array i w h small (ground (arith, b, room)) in
            (
              o,
              w',
              ground (arith, b, run),
              Grown-same array array (i + files_in st dir names)
                  (i + files_in st dir (name ∷ names)) o (ground (arith, b)) refl grown,
            )
        | inr b ↦ elim (Option-cases (st (join dir name))) [
          | inl n ↦ (none, w₂, ground (arith, b, printed, seen, n), tt)
          | inr (mode, n) ↦ elim (Bool-cases (has_ifreg mode)) [
            | inl r ↦
                Fills-file dir name names array i mode w b n r (ground (arith, b, n, r, room)) small
                  (λ c w'.
                    fill_loop-Grown dir names (set array i (some c)) (suc i) w'
                      (set-Written array i c h (ground (arith, b, n, r, room)))
                      (omega (arith, length-set array i (some c)))
                      (ground (arith, b, n, r, room, length-set array i (some c))))
            | inr r ↦
                let (o, w', run, grown) =
                  fill_loop-Grown dir names array i w₂ h small (ground (arith, b, n, r, room)) in
                (
                  o,
                  w',
                  ground (arith, b, printed, seen, n, r, run),
                  Grown-same array array (i + files_in st dir names)
                      (i + files_in st dir (name ∷ names)) o (ground (arith, b, n, r)) refl grown,
                )
          ]
        ]
      ]

  pub count_files-files :
      (count : ℕ) (dir : Text) (names : List Text) (w : World)
      → ((v : World) → (os.opendir dir v).0 ≡ some names)
      → count + files_in st dir names < 2 ^ 32
      → (count_files_directory os count dir w).0 ≡ success
      → (count_files_directory os count dir w).1 ≡ count + files_in st dir names
  unfolding count_files_directory
  count_files-files count dir names w opens few ok =
      let opened = opens w in
      let w₁ = (os.opendir dir w).1 in
      elim (Bool-cases (is_success (count_loop os dir names count w₁).0)) [
        | inl s ↦ ground (arith, opened, s, count_loop-files dir names count w₁ few)
        | inr s ↦ ground (arith, opened, s)
      ]
