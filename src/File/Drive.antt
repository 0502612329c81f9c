-- ===== src/File/Drive.antt =====
-- A disk in memory, for the tests of the file functions.
use nextgen.Base.{
  ℕ, zero, suc, ◌^◌, ◌≡◌, ◌≢◌, refl, subst, Bool, true, false, ◌&&◌, Option, none, some, List, [],
  ◌∷◌, ◌++◌, ◌==◌, ltb, if◌then◌else◌, get_elem?, length, replicate, take, arith, Bool-cases, inl,
  inr, success,
}
use nextgen.File.{Text, FileCalls}
use nextgen.File.Disk.{Perm, Disk, drop}

abbrev pub text_eq : Text → Text → Bool
text_eq [] [] = true
text_eq [] (y ∷ ys) = false
text_eq (x ∷ xs) [] = false
text_eq (x ∷ xs) (y ∷ ys) = x == y && text_eq xs ys

pub text_eq_refl : (p : Text) → text_eq p p ≡ true
text_eq_refl [] = refl
text_eq_refl (x ∷ p) = ground (arith, text_eq_refl p)

pub text_eq_sound : (p q : Text) → text_eq p q ≡ true → p ≡ q
text_eq_sound [] [] e = refl
text_eq_sound [] (y ∷ q) e = ground arith
text_eq_sound (x ∷ p) [] e = ground arith
text_eq_sound (x ∷ p) (y ∷ q) e =
    let first : x ≡ y = ground arith in
    let rest = text_eq_sound p q (ground arith) in rw (first, rest) refl

pub text_eq-ne : (p q : Text) → p ≢ q → text_eq p q ≡ false
text_eq-ne p q ne = elim (Bool-cases (text_eq p q)) [
  | inl e ↦ absurd (ne (text_eq_sound p q e))
  | inr e ↦ e
]

pub apart : (p q : Text) → text_eq p q ≡ false → p ≢ q
apart p q f e =
    let t : text_eq p q ≡ true = subst (λ r. text_eq p r ≡ true) e (text_eq_refl p) in
    ground (arith, f, t)

-- The descriptors and the mappings are positions in lists of paths.
pub record Drive : Type 0 where
  pub content : Text → Option (List ℕ)
  pub descriptors : List Text
  pub position : ℕ → ℕ
  pub mappings : List Text
  pub started : List (Option Text × Text × Option (List ℕ))

abbrev pub put : Text → Option (List ℕ) → Drive → Drive
put p v w = record w { content = λ q. if text_eq q p then v else w.content q }

put-here : (p : Text) (v : Option (List ℕ)) (w : Drive) → (put p v w).content p ≡ v
put-here p v w = ground (arith, text_eq_refl p)

put-other :
    (p q : Text) (v : Option (List ℕ)) (w : Drive) → q ≢ p → (put p v w).content q ≡ w.content q
put-other p q v w ne = ground (arith, text_eq-ne q p ne)

pub get_elem?-end :
    {A : Type 0} (xs : List A) (a : A) → get_elem? (xs ++ (a ∷ [])) (length xs) ≡ some a
get_elem?-end [] a = refl
get_elem?-end (x ∷ xs) a = get_elem?-end xs a

pub get_elem?-kept :
    {A : Type 0} (xs : List A) (a b : A) (i : ℕ)
    → get_elem? xs i ≡ some b
    → get_elem? (xs ++ (a ∷ [])) i ≡ some b
get_elem?-kept [] a b i e = cc
get_elem?-kept (x ∷ xs) a b zero e = e
get_elem?-kept (x ∷ xs) a b (suc i) e = get_elem?-kept xs a b i e

abbrev pub drive_open : Text → Drive → Option ℕ × Drive
drive_open p w = elim (w.content p) [
  | none ↦ (none, w)
  | some bs ↦ (some (length w.descriptors), record w { descriptors = w.descriptors ++ (p ∷ []) })
]

abbrev pub drive_fstat : ℕ → Drive → Option (ℕ × ℕ) × Drive
drive_fstat fd w = elim (get_elem? w.descriptors fd) [
  | none ↦ (none, w)
  | some p ↦ elim (w.content p) [ none ↦ (none, w) | some bs ↦ (some (33188, length bs), w) ]
]

-- A directory with two files and a hidden one.
abbrev pub drive_calls : FileCalls Drive
drive_calls = record {
  opendir = λ p w. (some ((46 ∷ []) ∷ (97 ∷ 46 ∷ 98 ∷ []) ∷ (99 ∷ 46 ∷ 98 ∷ []) ∷ []), w);
  closedir = λ w. (success, w);
  asprintf = λ t w. (some t, w);
  stat = λ p w. (some 33188, w);
  malloc = λ n w. (true, w);
  open_file = drive_open;
  fstat = drive_fstat;
  close = λ fd w. w;
}

-- Files can be created on a disk that is not read-only.
abbrev pub drive_creat : Bool → Text → Drive → Option ℕ × Drive
drive_creat false p w = (none, w)
drive_creat true p w = (
  some (length w.descriptors),
  put p (some []) (record w { descriptors = w.descriptors ++ (p ∷ []) }),
)

abbrev pub drive_lseek : ℕ → ℕ → Drive → Bool × Drive
drive_lseek fd offset w = elim (ltb offset (2 ^ 63)) [
  | true ↦ (true, record w { position = λ e. if e == fd then offset else w.position e })
  | false ↦ (false, w)
]

abbrev pub drive_write : ℕ → List ℕ → Drive → Option ℕ × Drive
drive_write fd bs w = elim (get_elem? w.descriptors fd) [
  | none ↦ (none, w)
  | some p ↦ (some (length bs), put p (some (replicate (w.position fd) 0 ++ bs)) w)
]

abbrev pub drive_mmap : ℕ → Perm → ℕ → Drive → Option ℕ × Drive
drive_mmap n perm fd w = elim (get_elem? w.descriptors fd) [
  | none ↦ (none, w)
  | some p ↦ (some (length w.mappings), record w { mappings = w.mappings ++ (p ∷ []) })
]

abbrev pub drive_load : ℕ → ℕ → Drive → List ℕ
drive_load a n w = elim (get_elem? w.mappings a) [
  | none ↦ []
  | some p ↦ elim (w.content p) [ none ↦ [] | some bs ↦ take n bs ]
]

abbrev pub drive_store : ℕ → List ℕ → Drive → Drive
drive_store a bs w = elim (get_elem? w.mappings a) [
  | none ↦ w
  | some p ↦ elim (w.content p) [
    | none ↦ w
    | some old ↦ put p (some (bs ++ drop (length bs) old)) w
  ]
]

abbrev pub drive : Bool → Disk
drive writable = record {
  World = Drive;
  os = drive_calls;
  creat = drive_creat writable;
  lseek = drive_lseek;
  write = drive_write;
  mmap = drive_mmap;
  load = drive_load;
  store = drive_store;
  munmap = λ a n w. w;
  fsync = λ fd w. (success, w);
  unlink = λ p w. (success, put p none w);
}
