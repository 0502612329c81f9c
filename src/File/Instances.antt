-- ===== src/File/Instances.antt =====
-- The disk in memory does what the calls of the system promise.
use nextgen.Base.{
  ℕ, ◌^◌, ◌≤◌, ◌≡◌, ◌≢◌, refl, ap, Bool, true, false, Option, none, some, List, [], ◌∷◌, ◌++◌, ltb,
  get_elem?, length, replicate, take, arith, Bool-cases, Option-cases, inl, inr,
}
use nextgen.File.{Text}
use nextgen.File.Disk.{Perm, IsLawful, drop}
use nextgen.File.Drive.{
  Drive, text_eq_refl, text_eq-ne, get_elem?-end, get_elem?-kept, drive_open, drive_fstat,
  drive_calls, drive_creat, drive_lseek, drive_write, drive_mmap, drive_load, drive_store, drive,
}

module _ (writable : Bool) where
  pub d_path_of-open :
      (p : Text) (fd : ℕ) (w : Drive)
      → (drive_open p w).0 ≡ some fd
      → get_elem? (drive_open p w).1.descriptors fd ≡ some p
  d_path_of-open p fd w e = elim (Option-cases (w.content p)) [
    | inl n ↦ ground (arith, n)
    | inr (bs, n) ↦ ground (arith, n, get_elem?-end w.descriptors p)
  ]

  pub d_text-asprintf : (t u : Text) (w : Drive) → (drive_calls.asprintf t w).0 ≡ some u → u ≡ t
  d_text-asprintf t u w e = ground (arith, e)

  pub d_content-open : (p q : Text) (w : Drive) → (drive_open p w).1.content q ≡ w.content q
  d_content-open p q w = ground (arith, Option-cases (w.content p))

  pub d_fstat-same : (fd : ℕ) (w : Drive) → (drive_fstat fd w).1 ≡ w
  d_fstat-same fd w = elim (Option-cases (get_elem? w.descriptors fd)) [
    | inl n ↦ ground (arith, n)
    | inr (p, n) ↦ ground (arith, n, Option-cases (w.content p))
  ]

  pub d_size-fstat :
      (fd mode size : ℕ) (p : Text) (bs : List ℕ) (w : Drive)
      → get_elem? w.descriptors fd ≡ some p
      → w.content p ≡ some bs
      → (drive_fstat fd w).0 ≡ some (mode, size)
      → size ≡ length bs
  d_size-fstat fd mode size p bs w at c e = ground (arith, at, c, e)

  pub d_path_of-creat :
      (p : Text) (fd : ℕ) (w : Drive)
      → (drive_creat writable p w).0 ≡ some fd
      → get_elem? (drive_creat writable p w).1.descriptors fd ≡ some p
  d_path_of-creat p fd w e = elim (Bool-cases writable) [
    | inl n ↦ ground (arith, n, e, get_elem?-end w.descriptors p)
    | inr n ↦ ground (arith, n, e)
  ]

  pub d_content-creat_here :
      (p : Text) (fd : ℕ) (w : Drive)
      → (drive_creat writable p w).0 ≡ some fd
      → (drive_creat writable p w).1.content p ≡ some []
  d_content-creat_here p fd w e = elim (Bool-cases writable) [
    | inl n ↦ ground (arith, n, e, text_eq_refl p)
    | inr n ↦ ground (arith, n, e)
  ]

  pub d_content-creat :
      (p q : Text) (w : Drive) → q ≢ p → (drive_creat writable p w).1.content q ≡ w.content q
  d_content-creat p q w ne = elim (Bool-cases writable) [
    | inl n ↦ ground (arith, n, text_eq-ne q p ne)
    | inr n ↦ ground (arith, n)
  ]

  pub d_content-creat_none :
      (p q : Text) (w : Drive)
      → (drive_creat writable p w).0 ≡ none
      → (drive_creat writable p w).1.content q ≡ w.content q
  d_content-creat_none p q w e = elim (Bool-cases writable) [
    | inl n ↦ ground (arith, n, e)
    | inr n ↦ ground (arith, n)
  ]

  pub d_mapped-creat :
      (p : Text) (a : ℕ) (w : Drive)
      → get_elem? (drive_creat writable p w).1.mappings a ≡ get_elem? w.mappings a
  d_mapped-creat p a w = ground (arith, Bool-cases writable)

  pub d_lseek_negative :
      (fd offset : ℕ) (w : Drive) → 2 ^ 63 ≤ offset → (drive_lseek fd offset w).0 ≡ false
  d_lseek_negative fd offset w h = ground arith

  pub d_position-lseek :
      (fd offset : ℕ) (w : Drive)
      → (drive_lseek fd offset w).0 ≡ true
      → (drive_lseek fd offset w).1.position fd ≡ offset
  d_position-lseek fd offset w e = ground arith

  pub d_lseek-rest :
      (fd offset : ℕ) (w : Drive)
      → ((drive_lseek fd offset w).1.content ≡ w.content)
        × ((drive_lseek fd offset w).1.descriptors ≡ w.descriptors)
        × ((drive_lseek fd offset w).1.mappings ≡ w.mappings)
  d_lseek-rest fd offset w = elim (Bool-cases (ltb offset (2 ^ 63))) [
    | inl e ↦ (ground (arith, e), ground (arith, e), ground (arith, e))
    | inr e ↦ (ground (arith, e), ground (arith, e), ground (arith, e))
  ]

  pub d_content-write_here :
      (fd b : ℕ) (p : Text) (w : Drive)
      → get_elem? w.descriptors fd ≡ some p
      → (drive_write fd (b ∷ []) w).1.content p ≡ some (replicate (w.position fd) 0 ++ (b ∷ []))
  d_content-write_here fd b p w at = ground (arith, at, text_eq_refl p)

  pub d_content-write :
      (fd : ℕ) (bs : List ℕ) (p q : Text) (w : Drive)
      → get_elem? w.descriptors fd ≡ some p
      → q ≢ p
      → (drive_write fd bs w).1.content q ≡ w.content q
  d_content-write fd bs p q w at ne = ground (arith, at, text_eq-ne q p ne)

  pub d_write-rest :
      (fd : ℕ) (bs : List ℕ) (w : Drive)
      → ((drive_write fd bs w).1.descriptors ≡ w.descriptors)
        × ((drive_write fd bs w).1.mappings ≡ w.mappings)
  d_write-rest fd bs w = elim (Option-cases (get_elem? w.descriptors fd)) [
    | inl e ↦ (ground (arith, e), ground (arith, e))
    | inr (p, e) ↦ (ground (arith, e), ground (arith, e))
  ]

  pub d_mapped-mmap_here :
      (n fd a : ℕ) (perm : Perm) (p : Text) (w : Drive)
      → get_elem? w.descriptors fd ≡ some p
      → (drive_mmap n perm fd w).0 ≡ some a
      → get_elem? (drive_mmap n perm fd w).1.mappings a ≡ some p
  d_mapped-mmap_here n fd a perm p w at e = ground (arith, at, get_elem?-end w.mappings p)

  pub d_mapped-mmap :
      (n fd b : ℕ) (perm : Perm) (q : Text) (w : Drive)
      → get_elem? w.mappings b ≡ some q
      → get_elem? (drive_mmap n perm fd w).1.mappings b ≡ some q
  d_mapped-mmap n fd b perm q w at = elim (Option-cases (get_elem? w.descriptors fd)) [
    | inl e ↦ ground (arith, e)
    | inr (p, e) ↦ ground (arith, e, get_elem?-kept w.mappings p q b at)
  ]

  pub d_content-mmap :
      (n fd : ℕ) (perm : Perm) (q : Text) (w : Drive)
      → (drive_mmap n perm fd w).1.content q ≡ w.content q
  d_content-mmap n fd perm q w = ground (arith, Option-cases (get_elem? w.descriptors fd))

  pub d_load-mapped :
      (a n : ℕ) (p : Text) (bs : List ℕ) (w : Drive)
      → get_elem? w.mappings a ≡ some p
      → w.content p ≡ some bs
      → drive_load a n w ≡ take n bs
  d_load-mapped a n p bs w at c = ground (arith, at, c)

  pub d_content-store_here :
      (a : ℕ) (p : Text) (old bs : List ℕ) (w : Drive)
      → get_elem? w.mappings a ≡ some p
      → w.content p ≡ some old
      → (drive_store a bs w).content p ≡ some (bs ++ drop (length bs) old)
  d_content-store_here a p old bs w at c = ground (arith, at, c, text_eq_refl p)

  pub d_content-store :
      (a : ℕ) (p q : Text) (bs : List ℕ) (w : Drive)
      → get_elem? w.mappings a ≡ some p
      → q ≢ p
      → (drive_store a bs w).content q ≡ w.content q
  d_content-store a p q bs w at ne = elim (Option-cases (w.content p)) [
    | inl c ↦ ground (arith, at, c)
    | inr (old, c) ↦ ground (arith, at, c, text_eq-ne q p ne)
  ]

  pub d_mapped-store :
      (a b : ℕ) (bs : List ℕ) (w : Drive)
      → get_elem? (drive_store a bs w).mappings b ≡ get_elem? w.mappings b
  d_mapped-store a b bs w = elim (Option-cases (get_elem? w.mappings a)) [
    | inl e ↦ ground (arith, e)
    | inr (p, e) ↦ ground (arith, e, Option-cases (w.content p))
  ]

  abbrev pub drive-IsLawful : IsLawful (drive writable)
  drive-IsLawful = record {
    content = λ w. w.content;
    path_of = λ w fd. get_elem? w.descriptors fd;
    position = λ w. w.position;
    mapped = λ w a. get_elem? w.mappings a;
    path_of-open = d_path_of-open;
    content-open = d_content-open;
    content-fstat = λ fd q w. ap (λ (v : Drive). v.content q) (d_fstat-same fd w);
    path_of-fstat = λ fd e w. ap (λ (v : Drive). get_elem? v.descriptors e) (d_fstat-same fd w);
    size-fstat = d_size-fstat;
    text-asprintf = d_text-asprintf;
    content-asprintf = λ t q w. refl;
    path_of-asprintf = λ t e w. refl;
    mapped-asprintf = λ t a w. refl;
    content-close = λ fd q w. refl;
    path_of-creat = d_path_of-creat;
    content-creat_here = d_content-creat_here;
    content-creat = d_content-creat;
    content-creat_none = d_content-creat_none;
    mapped-creat = d_mapped-creat;
    lseek_negative = d_lseek_negative;
    position-lseek = d_position-lseek;
    content-lseek = λ fd o q w. ap (λ (c : Text → Option (List ℕ)). c q) (d_lseek-rest fd o w).0;
    path_of-lseek = λ fd o e w. ap (λ (c : List Text). get_elem? c e) (d_lseek-rest fd o w).1;
    mapped-lseek = λ fd o a w. ap (λ (c : List Text). get_elem? c a) (d_lseek-rest fd o w).2;
    content-write_here = λ fd b p w at c one. d_content-write_here fd b p w at;
    content-write = d_content-write;
    path_of-write = λ fd e bs w. ap (λ (c : List Text). get_elem? c e) (d_write-rest fd bs w).0;
    mapped-write = λ fd a bs w. ap (λ (c : List Text). get_elem? c a) (d_write-rest fd bs w).1;
    mapped-mmap_here = d_mapped-mmap_here;
    mapped-mmap = d_mapped-mmap;
    content-mmap = d_content-mmap;
    load-mapped = λ a n p bs w at c le. d_load-mapped a n p bs w at c;
    content-store_here = λ a p old bs w at c le. d_content-store_here a p old bs w at c;
    content-store = d_content-store;
    mapped-store = d_mapped-store;
    content-munmap = λ a n q w. refl;
    content-fsync = λ fd q w. refl;
  }
