-- ===== src/Memory/External.antt =====
-- What src/memory calls of other projects: the intrusive lists and the spin lock of Concurrency
-- Kit, and the system's mmap. Each is a record of operations with the behaviour documented for it.
use nextgen.Base.{ℕ, ◌≡◌, Bool, true, false, Option, none, some, List, [], ◌∷◌, ◌==◌, if◌then◌else◌}
use mathlib.Core.Option

-- A list without the first occurrence of an element, `none` if it has none.
abbrev pub erase? : ℕ → List ℕ → Option (List ℕ)
erase? a [] = none
erase? a (x ∷ xs) = if x == a then some xs else Option.map (λ ys. x ∷ ys) (erase? a xs)

-- CK_SLIST over elements that are known by their addresses. `to_list` is what CK_SLIST_FOREACH
-- visits. CK_SLIST_REMOVE of an element that is not there runs off the end of the list and reads
-- through NULL, which is `none` here.
pub record Slist : Type 1 where
  pub Head : Type 0
  pub init : Head
  pub first : Head → Option ℕ
  pub insert_head : ℕ → Head → Head
  pub remove : ℕ → Head → Option Head
  pub to_list : Head → List ℕ
  pub to_list-init : to_list init ≡ []
  pub first-nil : (h : Head) → to_list h ≡ [] → first h ≡ none
  pub first-cons : (h : Head) (a : ℕ) (xs : List ℕ) → to_list h ≡ a ∷ xs → first h ≡ some a
  pub to_list-insert_head : (a : ℕ) (h : Head) → to_list (insert_head a h) ≡ a ∷ to_list h
  pub to_list-remove : (a : ℕ) (h : Head) → Option.map to_list (remove a h) ≡ erase? a (to_list h)

-- ck_spinlock. `lock` is `none` while another holder makes the caller spin.
pub record Spinlock : Type 1 where
  pub Lock : Type 0
  pub initializer : Lock
  pub lock : Lock → Option Lock
  pub unlock : Lock → Lock
  pub held : Lock → Bool
  pub held-initializer : held initializer ≡ false
  pub lock_free : (l : Lock) → held l ≡ false → (l' : Lock) × (lock l ≡ some l') × (held l' ≡ true)
  pub lock_held : (l : Lock) → held l ≡ true → lock l ≡ none
  pub held-unlock : (l : Lock) → held (unlock l) ≡ false

-- mmap of anonymous shared memory. `mapped w a` says that a region begins at `a`.
pub record Mmap : Type 1 where
  pub World : Type 0
  pub mmap : ℕ → World → Option ℕ × World
  pub mapped : World → ℕ → Bool
  pub mmap_fresh : (n a : ℕ) (w : World) → (mmap n w).0 ≡ some a → mapped w a ≡ false
  pub mmap_maps : (n a : ℕ) (w : World) → (mmap n w).0 ≡ some a → mapped (mmap n w).1 a ≡ true
  pub mmap_keeps : (n a : ℕ) (w : World) → mapped w a ≡ true → mapped (mmap n w).1 a ≡ true
