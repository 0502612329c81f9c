-- ===== src/Memory/Instances.antt =====
-- Concrete lists, locks and memories: the assumptions on foreign code in src/memory can be met.
use mathlib.Core.Option
use nextgen.Base.{
  ℕ, zero, suc, ◌+◌, ◌≤◌, ◌<◌, ◌≡◌, refl, Bool, true, false, not, Option, none, some, List, [], ◌∷◌,
  arith, ◌==◌, if◌then◌else◌, ltb, leb, ◌&&◌,
}
use nextgen.Memory.External.{Slist, Spinlock, Mmap, erase?}
use nextgen.Memory.Alloc.{Heap}

abbrev pub head_of : List ℕ → Option ℕ
head_of [] = none
head_of (x ∷ xs) = some x

pub head_of-nil : (h : List ℕ) → h ≡ [] → head_of h ≡ none
head_of-nil h e = rw e

pub head_of-cons : (h : List ℕ) (a : ℕ) (xs : List ℕ) → h ≡ a ∷ xs → head_of h ≡ some a
head_of-cons h a xs e = rw e

pub map_self : (o : Option (List ℕ)) → Option.map (λ (x : List ℕ). x) o ≡ o
map_self none = refl
map_self (some x) = refl

-- A singly linked list as a list.
abbrev pub list_slist : Slist
list_slist = record {
  Head = List ℕ;
  init = [];
  first = head_of;
  insert_head = λ a h. a ∷ h;
  remove = erase?;
  to_list = λ h. h;
  to_list-init = refl;
  first-nil = head_of-nil;
  first-cons = head_of-cons;
  to_list-insert_head = λ a h. refl;
  to_list-remove = λ a h. map_self (erase? a h);
}

abbrev pub take_lock : Bool → Option Bool
take_lock true = none
take_lock false = some true

pub take_lock-free : (l : Bool) → l ≡ false → (l' : Bool) × (take_lock l ≡ some l') × (l' ≡ true)
take_lock-free l e = (true, rw e, refl)

pub take_lock-held : (l : Bool) → l ≡ true → take_lock l ≡ none
take_lock-held l e = rw e

-- A lock as a flag.
abbrev pub flag_lock : Spinlock
flag_lock = record {
  Lock = Bool;
  initializer = false;
  lock = take_lock;
  unlock = λ l. false;
  held = λ l. l;
  held-initializer = refl;
  lock_free = take_lock-free;
  lock_held = take_lock-held;
  held-unlock = λ l. refl;
}

abbrev pub next_region : ℕ → ℕ → Option ℕ × ℕ
next_region zero w = (none, w)
next_region (suc n) w = (some w, suc w)

pub next_region-fresh : (n a w : ℕ) → (next_region n w).0 ≡ some a → ltb a w ≡ false
next_region-fresh zero a w e = cc
next_region-fresh (suc n) a w e = ground arith

pub next_region-maps : (n a w : ℕ) → (next_region n w).0 ≡ some a → ltb a (next_region n w).1 ≡ true
next_region-maps zero a w e = cc
next_region-maps (suc n) a w e = ground arith

pub next_region-keeps : (n a w : ℕ) → ltb a w ≡ true → ltb a (next_region n w).1 ≡ true
next_region-keeps zero a w e = e
next_region-keeps (suc n) a w e = ground arith

-- Regions are numbered; the state is the next number.
abbrev pub counter_mmap : Mmap
counter_mmap = record {
  World = ℕ;
  mmap = next_region;
  mapped = λ w a. ltb a w;
  mmap_fresh = next_region-fresh;
  mmap_maps = next_region-maps;
  mmap_keeps = next_region-keeps;
}

-- A memory that never gives an address twice.
pub record Cells : Type 0 where
  pub next : ℕ
  pub freed : ℕ → Bool
  pub byte : ℕ → ℕ

abbrev pub cells_live : Cells → ℕ → Bool
cells_live w a = ltb a w.next && not (w.freed a)

abbrev pub cells_malloc : ℕ → Cells → Option ℕ × Cells
cells_malloc zero w = (none, w)
cells_malloc (suc n) w = (
  some w.next,
  record w { next = suc w.next; freed = λ b. if b == w.next then false else w.freed b },
)

abbrev pub cells_free : ℕ → Cells → Cells
cells_free a w = record w { freed = λ b. if b == a then true else w.freed b }

abbrev pub cells_memset : ℕ → ℕ → ℕ → Cells → Cells
cells_memset a v n w = record w { byte = λ i. if leb a i && ltb i (a + n) then v else w.byte i }

pub cells_malloc-fresh :
    (n a : ℕ) (w : Cells) → (cells_malloc n w).0 ≡ some a → cells_live w a ≡ false
cells_malloc-fresh zero a w e = cc
cells_malloc-fresh (suc n) a w e = ground arith

pub cells_live-malloc :
    (n a b : ℕ) (w : Cells)
    → (cells_malloc n w).0 ≡ some a
    → cells_live (cells_malloc n w).1 b ≡ (if a == b then true else cells_live w b)
cells_live-malloc zero a b w e = cc
cells_live-malloc (suc n) a b w e = ground arith

pub cells_live-malloc_none :
    (n b : ℕ) (w : Cells)
    → (cells_malloc n w).0 ≡ none
    → cells_live (cells_malloc n w).1 b ≡ cells_live w b
cells_live-malloc_none zero b w e = refl
cells_live-malloc_none (suc n) b w e = cc

pub cells_live-free :
    (a b : ℕ) (w : Cells)
    → cells_live (cells_free a w) b ≡ (if a == b then false else cells_live w b)
cells_live-free a b w = ground arith

pub cells_byte-memset :
    (a v n i : ℕ) (w : Cells) → a ≤ i → i < a + n → (cells_memset a v n w).byte i ≡ v
cells_byte-memset a v n i w lo hi = ground arith

abbrev pub cells_heap : Heap
cells_heap = record {
  World = Cells;
  malloc = cells_malloc;
  free = cells_free;
  mmap = cells_malloc;
  munmap = λ a n w. cells_free a w;
  memset = cells_memset;
  live = cells_live;
  byte = λ w i. w.byte i;
  malloc_fresh = cells_malloc-fresh;
  live-malloc = cells_live-malloc;
  live-malloc_none = cells_live-malloc_none;
  mmap_fresh = cells_malloc-fresh;
  live-mmap = cells_live-malloc;
  live-mmap_none = cells_live-malloc_none;
  live-free = cells_live-free;
  live-munmap = λ a n b w. cells_live-free a b w;
  live-memset = λ a v n b w. refl;
  byte-memset = cells_byte-memset;
}

abbrev pub no_cells : Cells
no_cells = record { next = 1; freed = λ a. false; byte = λ i. 7 }
