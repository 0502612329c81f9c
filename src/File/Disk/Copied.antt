-- ===== src/File/Disk/Copied.antt =====
-- What map_file_in, map_file_out and copy_file_to of src/utils/utils.c read and write.
use nextgen.Base.{
  ℕ, zero, suc, ◌+◌, ◌%◌, ◌^◌, ◌-◌, ◌≡◌, ◌≢◌, ◌<◌, refl, sym, ap, subst, ◌∙◌, true, some, List, [],
  ◌∷◌, ◌++◌, ◌==◌, length, length-append, length-replicate, replicate, take, arith, ltb, ltb→lt,
  Bool-cases, Option-cases, inl, inr, success, is_success,
}
use nextgen.File.{Text, get_file_size, s_isreg}
use nextgen.File.Disk.{
  Perm, read, read_write, Disk, IsLawful, drop, map_file_in, map_file_out, copy_file_to,
}

take_all : {A : Type 0} (n : ℕ) (xs : List A) → n ≡ length xs → take n xs ≡ xs
take_all zero [] e = refl
take_all zero (x ∷ xs) e = absurd (omega arith)
take_all (suc n) [] e = absurd (omega arith)
take_all (suc n) (x ∷ xs) e = ap (λ (r : List _). x ∷ r) (take_all n xs (omega arith))

drop_all : {A : Type 0} (n : ℕ) (xs : List A) → n ≡ length xs → drop n xs ≡ []
drop_all zero [] e = refl
drop_all zero (x ∷ xs) e = absurd (omega arith)
drop_all (suc n) [] e = absurd (omega arith)
drop_all (suc n) (x ∷ xs) e = drop_all n xs (omega arith)

append_nil : {A : Type 0} (xs : List A) → xs ++ [] ≡ xs
append_nil [] = refl
append_nil (x ∷ xs) = ap (λ (r : List _). x ∷ r) (append_nil xs)

module _ (d : Disk) (law : IsLawful d) where
  open law use {content, path_of, position, mapped}

  -- Storing as many bytes as the file has replaces them all.
  pub store-whole :
      (a : ℕ) (p : Text) (old bs : List ℕ) (w : d.World)
      → mapped w a ≡ some p
      → content w p ≡ some old
      → length bs ≡ length old
      → content (d.store a bs w) p ≡ some bs
  store-whole a p old bs w m c same =
      let rest : bs ++ drop (length bs) old ≡ bs =
        rw (drop_all (length bs) old same, append_nil) refl in
      law.content-store_here a p old bs w m c (omega arith) ∙ ap some rest

  -- Loading as many bytes as the file has gives its content.
  pub load-whole :
      (a n : ℕ) (p : Text) (bs : List ℕ) (w : d.World)
      → mapped w a ≡ some p
      → content w p ≡ some bs
      → n ≡ length bs
      → d.load a n w ≡ bs
  load-whole a n p bs w m c same = law.load-mapped a n p bs w m c (omega arith) ∙ take_all n bs same

  -- What a world holds when a file was mapped.
  pub record Mapping (w : d.World) (p : Text) (bs : List ℕ) (w' : d.World) (a n : ℕ) : Type 0 where
    pub place : mapped w' a ≡ some p
    pub size : n ≡ length bs
    pub same : (q : Text) → content w' q ≡ content w q

  pub map_file_in-Mapping :
      (fd a n : ℕ) (perm : Perm) (p : Text) (bs : List ℕ) (w : d.World)
      → path_of w fd ≡ some p
      → content w p ≡ some bs
      → (map_file_in d fd perm w).0 ≡ some (a, n)
      → Mapping w p bs (map_file_in d fd perm w).1 a n
  unfolding map_file_in get_file_size
  map_file_in-Mapping fd a n perm p bs w at whole ok =
      let measured = d.os.fstat fd w in
      elim (Option-cases measured.0) [
        | inl e ↦ ground (arith, e, ok)
        | inr ((mode, size), e) ↦ elim (Bool-cases (s_isreg mode)) [
          | inr r ↦ ground (arith, e, r, ok)
          | inl r ↦
              let mapping = d.mmap size perm fd measured.1 in
              elim (Option-cases mapping.0) [
                | inl f ↦ ground (arith, e, r, f, ok)
                | inr (b, f) ↦
                    let ran : (map_file_in d fd perm w).1 ≡ mapping.1 = ground (arith, e, r, f) in
                    let here : b ≡ a = ground (arith, e, r, f, ok) in
                    let long : size ≡ n = ground (arith, e, r, f, ok) in
                    let opened = law.path_of-fstat fd fd w ∙ at in
                    subst (λ v. Mapping w p bs v a n) (sym ran)
                      (record {
                        place =
                            subst (λ c. mapped mapping.1 c ≡ some p) here
                              (law.mapped-mmap_here size fd b perm p measured.1 opened f);
                        size = sym long ∙ law.size-fstat fd mode size p bs w at whole e;
                        same = λ q.
                            law.content-mmap size fd perm q measured.1 ∙ law.content-fstat fd q w;
                      })
              ]
        ]
      ]

  -- What map_file_out leaves: the bytes at the path, and every other file as it was.
  pub record WroteOut (w : d.World) (path : Text) (bs : List ℕ) (w' : d.World) : Type 0 where
    pub there : content w' path ≡ some bs
    pub others : (q : Text) → q ≢ path → content w' q ≡ content w q

  gap-length : (n : ℕ) → length {A = ℕ} (replicate n 0 ++ (0 ∷ [])) ≡ suc n
  gap-length n =
      omega (arith, length-append {A = ℕ} (replicate n 0) (0 ∷ []), length-replicate {A = ℕ} n 0)

  -- The calls of map_file_out, all of them successful.
  copied-out :
      (path src : Text) (buf size fd a : ℕ) (bs : List ℕ) (w : d.World)
      → src ≢ path
      → mapped w buf ≡ some src
      → content w src ≡ some bs
      → size ≡ length bs
      → size < 2 ^ 63
      → let w₁ = (d.creat path w).1 in
        let offset : ℕ = (size + (2 ^ 64 - 1)) % 2 ^ 64 in
        let w₂ = (d.lseek fd offset w₁).1 in
        let w₃ = (d.write fd (0 ∷ []) w₂).1 in
        let w₄ = (d.mmap size read_write fd w₃).1 in
        (d.creat path w).0 ≡ some fd
        → (d.lseek fd offset w₁).0 ≡ true
        → (d.write fd (0 ∷ []) w₂).0 ≡ some 1
        → (d.mmap size read_write fd w₃).0 ≡ some a
        → WroteOut w path bs (d.os.close fd (d.munmap a size (d.store a (d.load buf size w₄) w₄)))
  copied-out path src buf size fd a bs w other place whole long small e₁ e₂ e₃ e₅ =
      let w₁ = (d.creat path w).1 in
      let offset : ℕ = (size + (2 ^ 64 - 1)) % 2 ^ 64 in
      let w₂ = (d.lseek fd offset w₁).1 in
      let w₃ = (d.write fd (0 ∷ []) w₂).1 in
      let w₄ = (d.mmap size read_write fd w₃).1 in
      let far : offset < 2 ^ 63 = elim (Bool-cases (ltb offset (2 ^ 63))) [
        | inl l ↦ ltb→lt offset (2 ^ 63) l
        | inr g ↦ absurd (ground (arith, e₂, law.lseek_negative fd offset w₁ (ground (arith, g))))
      ] in
      let one_less : suc offset ≡ size = omega (arith, far) in
      let opened = law.path_of-lseek fd offset fd w₁ ∙ law.path_of-creat path fd w e₁ in
      let kept : (q : Text) → q ≢ path → content w₄ q ≡ content w q = λ q ne.
        law.content-mmap size fd read_write q w₃
        ∙ law.content-write fd (0 ∷ []) path q w₂ opened ne
        ∙ law.content-lseek fd offset q w₁
        ∙ law.content-creat path q w ne in
      let empty = law.content-lseek fd offset path w₁ ∙ law.content-creat_here path fd w e₁ in
      let at = law.position-lseek fd offset w₁ e₂ in
      let grown : content w₄ path ≡ some (replicate offset 0 ++ (0 ∷ [])) =
        law.content-mmap size fd read_write path w₃
        ∙ law.content-write_here fd 0 path w₂ opened empty e₃
        ∙ ap (λ k. some (replicate k 0 ++ (0 ∷ []))) at in
      let here =
        law.mapped-mmap_here size fd a read_write path w₃
          (law.path_of-write fd fd (0 ∷ []) w₂ ∙ opened) e₅ in
      let still = law.mapped-mmap size fd buf read_write src w₃ (
        law.mapped-write fd buf (0 ∷ []) w₂
        ∙ law.mapped-lseek fd offset buf w₁
        ∙ law.mapped-creat path buf w
        ∙ place) in
      let loaded = load-whole buf size src bs w₄ still (kept src other ∙ whole) long in
      let n : length bs ≡ length {A = ℕ} (replicate offset 0 ++ (0 ∷ [])) =
        omega (arith, one_less, gap-length offset) in
      let stored = d.store a (d.load buf size w₄) w₄ in
      record {
        there =
            law.content-close fd path (d.munmap a size stored)
            ∙ law.content-munmap a size path stored
            ∙ ap (λ bytes. content (d.store a bytes w₄) path) loaded
            ∙ store-whole a path (replicate offset 0 ++ (0 ∷ [])) bs w₄ here grown n;
        others = λ q ne.
            law.content-close fd q (d.munmap a size stored)
            ∙ law.content-munmap a size q stored
            ∙ law.content-store a path q (d.load buf size w₄) w₄ here ne
            ∙ kept q ne;
      }

  -- The part behind the opening of the output file.
  pub map_file_out-WroteOut :
      (path src : Text) (buf size : ℕ) (bs : List ℕ) (w : d.World)
      → src ≢ path
      → mapped w buf ≡ some src
      → content w src ≡ some bs
      → size ≡ length bs
      → size < 2 ^ 63
      → (map_file_out d path buf size w).0 ≡ success
      → WroteOut w path bs (map_file_out d path buf size w).1
  unfolding map_file_out
  map_file_out-WroteOut path src buf size bs w other place whole long small ok =
      let w₁ = (d.creat path w).1 in
      let offset : ℕ = (size + (2 ^ 64 - 1)) % 2 ^ 64 in
      elim (Option-cases (d.creat path w).0) [
        | inl e₁ ↦ ground (arith, e₁, ok)
        | inr (fd, e₁) ↦
            let w₂ = (d.lseek fd offset w₁).1 in
            let w₃ = (d.write fd (0 ∷ []) w₂).1 in
            let w₄ = (d.mmap size read_write fd w₃).1 in
            elim (Bool-cases (d.lseek fd offset w₁).0) [
              | inr e₂ ↦ ground (arith, e₁, e₂, ok)
              | inl e₂ ↦ elim (Option-cases (d.write fd (0 ∷ []) w₂).0) [
                | inl e₃ ↦ ground (arith, e₁, e₂, e₃, ok)
                | inr (n, e₃) ↦ elim (Bool-cases (n == 1)) [
                  | inr e₄ ↦ ground (arith, e₁, e₂, e₃, e₄, ok)
                  | inl e₄ ↦ elim (Option-cases (d.mmap size read_write fd w₃).0) [
                    | inl e₅ ↦ ground (arith, e₁, e₂, e₃, e₄, e₅, ok)
                    | inr (a, e₅) ↦
                        let one : (d.write fd (0 ∷ []) w₂).0 ≡ some 1 = ground (arith, e₃, e₄) in
                        let last =
                          d.os.close fd (d.munmap a size (d.store a (d.load buf size w₄) w₄)) in
                        let ran : (map_file_out d path buf size w).1 ≡ last =
                          ground (arith, e₁, e₂, e₃, e₄, e₅) in
                        subst (WroteOut w path bs) (sym ran) (
                          copied-out path src buf size fd a bs w other place whole long small e₁ e₂
                            one e₅)
                  ]
                ]
              ]
            ]
      ]

  -- When copy_file_to returns 0 for a source of less than 2 ^ 63 bytes and another path, the file at
  -- that path has exactly the bytes of the source, and every other file, the source among them, is as
  -- it was.
  pub copy_file_to-WroteOut :
      (src dst : Text) (bs : List ℕ) (w : d.World)
      → src ≢ dst
      → content w src ≡ some bs
      → length bs < 2 ^ 63
      → (copy_file_to d src dst w).0 ≡ success
      → WroteOut w dst bs (copy_file_to d src dst w).1
  unfolding copy_file_to
  copy_file_to-WroteOut src dst bs w other whole small ok =
      let w₁ = (d.os.open_file src w).1 in
      elim (Option-cases (d.os.open_file src w).0) [
        | inl e₁ ↦ ground (arith, e₁, ok)
        | inr (file, e₁) ↦
            let w₂ = (map_file_in d file read w₁).1 in
            elim (Option-cases (map_file_in d file read w₁).0) [
              | inl e₂ ↦ ground (arith, e₁, e₂, ok)
              | inr ((a, n), e₂) ↦
                  let w₃ = (map_file_out d dst a n w₂).1 in
                  elim (Bool-cases (is_success (map_file_out d dst a n w₂).0)) [
                    | inr e₃ ↦ ground (arith, e₁, e₂, e₃, ok)
                    | inl e₃ ↦
                        let w₄ = (d.fsync file w₃).1 in
                        let last = d.os.close file (d.munmap a n w₄) in
                        let ran : (copy_file_to d src dst w).1 ≡ last =
                          ground (arith, e₁, e₂, e₃) in
                        let before = law.content-open src src w ∙ whole in
                        let mapping =
                          map_file_in-Mapping file a n read src bs w₁
                            (law.path_of-open src file w e₁) before e₂ in
                        let out =
                          map_file_out-WroteOut dst src a n bs w₂ other mapping.place
                            (mapping.same src ∙ before) mapping.size (omega (arith, mapping.size))
                            (ground (arith, e₃)) in
                        let done_with : (q : Text) → content last q ≡ content w₃ q = λ q.
                          law.content-close file q (d.munmap a n w₄)
                          ∙ law.content-munmap a n q w₄
                          ∙ law.content-fsync file q w₃ in
                        subst (WroteOut w dst bs) (sym ran) (record {
                          there = done_with dst ∙ out.there;
                          others = λ q ne.
                              done_with q
                              ∙ out.others q ne
                              ∙ mapping.same q
                              ∙ law.content-open src q w;
                        })
                  ]
            ]
      ]
