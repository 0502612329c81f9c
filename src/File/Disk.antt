-- ===== src/File/Disk.antt =====
-- Files on disk: map_file_in, map_file_out and copy_file_to of src/utils/utils.c, over the calls of
-- the system, which are parameters with what they document.
pub mod Copied
use nextgen.Base.{
  ℕ, zero, suc, ◌+◌, ◌%◌, ◌^◌, ◌-◌, ◌≡◌, ◌≢◌, ◌≤◌, Bool, true, false, Option, none, some, List, [],
  ◌∷◌, ◌++◌, ◌==◌, if◌then◌else◌, length, replicate, take, Status, success, failure, is_success,
}
use nextgen.File.{Text, FileCalls, get_file_size}

-- The protections asked of mmap.
pub data Perm : Type 0 where
  read read_write : Perm

-- `creat` is open with O_RDWR | O_CREAT | O_TRUNC. The offset of `lseek` is on 64 bits, a negative
-- one from 2 ^ 63 on. `mmap` maps the file of a descriptor MAP_SHARED from its beginning. `load` and
-- `store` are the program's accesses to memory.
pub record Disk : Type 1 where
  pub World : Type 0
  pub os : FileCalls World
  pub creat : Text → World → Option ℕ × World
  pub lseek : ℕ → ℕ → World → Bool × World
  pub write : ℕ → List ℕ → World → Option ℕ × World
  pub mmap : ℕ → Perm → ℕ → World → Option ℕ × World
  pub load : ℕ → ℕ → World → List ℕ
  pub store : ℕ → List ℕ → World → World
  pub munmap : ℕ → ℕ → World → World
  pub fsync : ℕ → World → Status × World
  pub unlink : Text → World → Status × World

abbrev pub drop : {A : Type 0} → ℕ → List A → List A
drop zero xs = xs
drop (suc n) [] = []
drop (suc n) (x ∷ xs) = drop n xs

-- What the calls promise, for regular files that have one path each. `content`: the bytes of the file
-- at a path; `path_of`: the path that a descriptor was opened with; `position`: its file offset;
-- `mapped`: the path of the file that is mapped at an address.
pub record IsLawful (d : Disk) : Type 0 where
  pub content : d.World → Text → Option (List ℕ)
  pub path_of : d.World → ℕ → Option Text
  pub position : d.World → ℕ → ℕ
  pub mapped : d.World → ℕ → Option Text
  pub path_of-open :
      (p : Text) (fd : ℕ) (w : d.World)
      → (d.os.open_file p w).0 ≡ some fd
      → path_of (d.os.open_file p w).1 fd ≡ some p
  pub content-open : (p q : Text) (w : d.World) → content (d.os.open_file p w).1 q ≡ content w q
  pub content-fstat :
      (fd : ℕ) (q : Text) (w : d.World) → content (d.os.fstat fd w).1 q ≡ content w q
  pub path_of-fstat : (fd e : ℕ) (w : d.World) → path_of (d.os.fstat fd w).1 e ≡ path_of w e
  pub size-fstat :
      (fd mode size : ℕ) (p : Text) (bs : List ℕ) (w : d.World)
      → path_of w fd ≡ some p
      → content w p ≡ some bs
      → (d.os.fstat fd w).0 ≡ some (mode, size)
      → size ≡ length bs
  pub text-asprintf : (t u : Text) (w : d.World) → (d.os.asprintf t w).0 ≡ some u → u ≡ t
  pub content-asprintf : (t q : Text) (w : d.World) → content (d.os.asprintf t w).1 q ≡ content w q
  pub path_of-asprintf :
      (t : Text) (e : ℕ) (w : d.World) → path_of (d.os.asprintf t w).1 e ≡ path_of w e
  pub mapped-asprintf :
      (t : Text) (a : ℕ) (w : d.World) → mapped (d.os.asprintf t w).1 a ≡ mapped w a
  pub content-close : (fd : ℕ) (q : Text) (w : d.World) → content (d.os.close fd w) q ≡ content w q
  pub path_of-creat :
      (p : Text) (fd : ℕ) (w : d.World)
      → (d.creat p w).0 ≡ some fd
      → path_of (d.creat p w).1 fd ≡ some p
  pub content-creat_here :
      (p : Text) (fd : ℕ) (w : d.World)
      → (d.creat p w).0 ≡ some fd
      → content (d.creat p w).1 p ≡ some []
  pub content-creat : (p q : Text) (w : d.World) → q ≢ p → content (d.creat p w).1 q ≡ content w q
  pub content-creat_none :
      (p q : Text) (w : d.World) → (d.creat p w).0 ≡ none → content (d.creat p w).1 q ≡ content w q
  pub mapped-creat : (p : Text) (a : ℕ) (w : d.World) → mapped (d.creat p w).1 a ≡ mapped w a
  pub lseek_negative :
      (fd offset : ℕ) (w : d.World) → 2 ^ 63 ≤ offset → (d.lseek fd offset w).0 ≡ false
  pub position-lseek :
      (fd offset : ℕ) (w : d.World)
      → (d.lseek fd offset w).0 ≡ true
      → position (d.lseek fd offset w).1 fd ≡ offset
  pub content-lseek :
      (fd offset : ℕ) (q : Text) (w : d.World) → content (d.lseek fd offset w).1 q ≡ content w q
  pub path_of-lseek :
      (fd offset e : ℕ) (w : d.World) → path_of (d.lseek fd offset w).1 e ≡ path_of w e
  pub mapped-lseek : (fd offset a : ℕ) (w : d.World) → mapped (d.lseek fd offset w).1 a ≡ mapped w a
  -- A write behind the end of an empty file fills the gap with zeros.
  pub content-write_here :
      (fd b : ℕ) (p : Text) (w : d.World)
      → path_of w fd ≡ some p
      → content w p ≡ some []
      → (d.write fd (b ∷ []) w).0 ≡ some 1
      → content (d.write fd (b ∷ []) w).1 p ≡ some (replicate (position w fd) 0 ++ (b ∷ []))
  pub content-write :
      (fd : ℕ) (bs : List ℕ) (p q : Text) (w : d.World)
      → path_of w fd ≡ some p
      → q ≢ p
      → content (d.write fd bs w).1 q ≡ content w q
  pub path_of-write :
      (fd e : ℕ) (bs : List ℕ) (w : d.World) → path_of (d.write fd bs w).1 e ≡ path_of w e
  pub mapped-write :
      (fd a : ℕ) (bs : List ℕ) (w : d.World) → mapped (d.write fd bs w).1 a ≡ mapped w a
  pub mapped-mmap_here :
      (n fd a : ℕ) (perm : Perm) (p : Text) (w : d.World)
      → path_of w fd ≡ some p
      → (d.mmap n perm fd w).0 ≡ some a
      → mapped (d.mmap n perm fd w).1 a ≡ some p
  pub mapped-mmap :
      (n fd b : ℕ) (perm : Perm) (q : Text) (w : d.World)
      → mapped w b ≡ some q
      → mapped (d.mmap n perm fd w).1 b ≡ some q
  pub content-mmap :
      (n fd : ℕ) (perm : Perm) (q : Text) (w : d.World)
      → content (d.mmap n perm fd w).1 q ≡ content w q
  pub load-mapped :
      (a n : ℕ) (p : Text) (bs : List ℕ) (w : d.World)
      → mapped w a ≡ some p
      → content w p ≡ some bs
      → n ≤ length bs
      → d.load a n w ≡ take n bs
  pub content-store_here :
      (a : ℕ) (p : Text) (old bs : List ℕ) (w : d.World)
      → mapped w a ≡ some p
      → content w p ≡ some old
      → length bs ≤ length old
      → content (d.store a bs w) p ≡ some (bs ++ drop (length bs) old)
  pub content-store :
      (a : ℕ) (p q : Text) (bs : List ℕ) (w : d.World)
      → mapped w a ≡ some p
      → q ≢ p
      → content (d.store a bs w) q ≡ content w q
  pub mapped-store : (a b : ℕ) (bs : List ℕ) (w : d.World) → mapped (d.store a bs w) b ≡ mapped w b
  pub content-munmap : (a n : ℕ) (q : Text) (w : d.World) → content (d.munmap a n w) q ≡ content w q
  pub content-fsync : (fd : ℕ) (q : Text) (w : d.World) → content (d.fsync fd w).1 q ≡ content w q

module _ (d : Disk) where
  -- The results: the address and the size.
  unfoldable pub map_file_in : ℕ → Perm → d.World → Option (ℕ × ℕ) × d.World
  map_file_in fd perm w =
      let (measured, w₁) = get_file_size d.os fd w in
      elim measured [
        | none ↦ (none, w₁)
        | some size ↦
            let (buf, w₂) = d.mmap size perm fd w₁ in
            elim buf [ none ↦ (none, w₂) | some a ↦ (some (a, size), w₂) ]
      ]

  -- The descriptor is closed on every return behind its opening.
  unfoldable pub map_file_out : Text → ℕ → ℕ → d.World → Status × d.World
  map_file_out path buf size w =
      let (opened, w₁) = d.creat path w in
      elim opened [
        | none ↦ (failure, w₁)
        | some fd ↦
            let (found, w₂) = d.lseek fd ((size + (2 ^ 64 - 1)) % 2 ^ 64) w₁ in
            if found
            then (let (ret, w₃) = d.write fd (0 ∷ []) w₂ in
                elim ret [
                  | none ↦ (failure, d.os.close fd w₃)
                  | some n ↦
                      if n == 1
                      then (let (dst, w₄) = d.mmap size read_write fd w₃ in
                          elim dst [
                            | none ↦ (failure, d.os.close fd w₄)
                            | some a ↦ (
                              success,
                              d.os.close fd (d.munmap a size (d.store a (d.load buf size w₄) w₄)),
                            )
                          ])
                      else (failure, d.os.close fd w₃)
                ])
            else (failure, d.os.close fd w₂)
      ]

  unfoldable pub copy_file_to : Text → Text → d.World → Status × d.World
  copy_file_to src dst w =
      let (opened, w₁) = d.os.open_file src w in
      elim opened [
        | none ↦ (failure, w₁)
        | some file ↦
            let (mapping, w₂) = map_file_in file read w₁ in
            elim mapping [
              | none ↦ (failure, d.os.close file w₂)
              | some (file_buffer, file_size) ↦
                  let (out, w₃) = map_file_out dst file_buffer file_size w₂ in
                  if is_success out
                  then (let (synced, w₄) = d.fsync file w₃ in
                      (synced, d.os.close file (d.munmap file_buffer file_size w₄)))
                  else (failure, d.os.close file (d.munmap file_buffer file_size w₃))
            ]
      ]
