-- ===== src/Memory/Pool/View.antt =====
-- The pool of src/memory/memory.c seen as two lists of blocks, and what its operations do to them.
use nextgen.Base.{
  ℕ, zero, suc, ◌≡◌, refl, sym, ◌∙◌, Bool, false, none, some, List, [], ◌∷◌, arith, Outcome, done,
  fault, blocked, map_outcome, if◌then◌else◌, Bool-cases, Option-cases, inl, inr, ◌⊎◌, List-cases,
}
use nextgen.Memory.External.{Slist, Spinlock, erase?}
use nextgen.Memory.Pool.{MemPoolShared, get_round, mem_get_shared_block, free_block}

pub record PoolView : Type 0 where
  pub held : Bool
  pub free : List ℕ
  pub allocated : List ℕ

-- Take the block at the head of the free list; with none free, or under a held lock, spin.
unfoldable pub get_view : PoolView → Outcome (ℕ × PoolView)
get_view v = if v.held then blocked else elim v.free [
  | [] ↦ blocked
  | b ∷ rest ↦ done (b, record { held = false; free = rest; allocated = b ∷ v.allocated })
]

-- Give an allocated block back; a block that is not allocated is an invalid read.
unfoldable pub free_view : ℕ → PoolView → Outcome PoolView
free_view b v = if v.held then blocked else elim (erase? b v.allocated) [
  | none ↦ fault
  | some rest ↦ done (record { held = false; free = b ∷ v.free; allocated = rest })
]

module _ (sl : Slist) (sp : Spinlock) where
  abbrev pub view : MemPoolShared sl sp → PoolView
  view pool = record {
    held = sp.held pool.lock;
    free = sl.to_list pool.free_list;
    allocated = sl.to_list pool.allocated_list;
  }

-- CK_SLIST_REMOVE follows the view, in both of its outcomes.
remove-erase? :
    (sl : Slist) (b : ℕ) (h : sl.Head)
    → ((sl.remove b h ≡ none) × (erase? b (sl.to_list h) ≡ none))
      ⊎ ((r : sl.Head) × (sl.remove b h ≡ some r) × (erase? b (sl.to_list h) ≡ some (sl.to_list r)))
remove-erase? sl b h = elim (Option-cases (sl.remove b h)) [
  | inl e ↦ inl (e, sym (sl.to_list-remove b h) ∙ rw e)
  | inr (r, e) ↦ inr (r, e, sym (sl.to_list-remove b h) ∙ rw e)
]

module _ (sl : Slist) (sp : Spinlock) where
  -- An empty free list keeps the caller spinning, however many rounds it makes.
  get-blocked :
      (rounds : ℕ) (pool : MemPoolShared sl sp)
      → sp.held pool.lock ≡ false
      → sl.to_list pool.free_list ≡ []
      → mem_get_shared_block sl sp rounds pool ≡ blocked
  unfolding mem_get_shared_block get_round
  get-blocked zero pool h e = refl
  get-blocked (suc n) pool h e =
      let f = sp.lock_free pool.lock h in
      ground (
        arith,
        f,
        sl.first-nil pool.free_list e,
        get-blocked n (record pool { lock = sp.unlock f.0 }) (sp.held-unlock f.0) e,
      )

  get-cons :
      (n : ℕ) (pool : MemPoolShared sl sp) (b : ℕ) (rest : List ℕ)
      → sp.held pool.lock ≡ false
      → sl.to_list pool.free_list ≡ b ∷ rest
      → map_outcome (λ r. (r.0, view sl sp r.1)) (mem_get_shared_block sl sp (suc n) pool)
        ≡ get_view (view sl sp pool)
  unfolding get_round mem_get_shared_block get_view
  get-cons n pool b rest h e = ground (
    arith,
    sp.lock_free pool.lock h,
    sp.held-unlock (sp.lock_free pool.lock h).0,
    remove-erase? sl b pool.free_list,
    sl.first-cons pool.free_list b rest e,
    sl.to_list-insert_head b pool.allocated_list,
  )

  -- mem_get_shared_block, given at least one round, does on the two lists what `get_view` says:
  -- it moves the head of the free list to the allocated list, gives that block and leaves the lock
  -- open; with the lock held or the free list empty it spins and returns nothing.
  pub get-refines :
      (n : ℕ) (pool : MemPoolShared sl sp)
      → map_outcome (λ r. (r.0, view sl sp r.1)) (mem_get_shared_block sl sp (suc n) pool)
        ≡ get_view (view sl sp pool)
  get-refines n pool = elim (Bool-cases (sp.held pool.lock)) [
    | inl h ↦
        unfold get_round mem_get_shared_block get_view in ground (arith, sp.lock_held pool.lock h)
    | inr h ↦ elim (List-cases (sl.to_list pool.free_list)) [
      | inl e ↦ unfold get_view in ground (arith, get-blocked (suc n) pool h e)
      | inr (b, rest, e) ↦ get-cons n pool b rest h e
    ]
  ]

  -- free_block, which is mem_free_shared_block behind its checks for NULL, does on the two lists
  -- what `free_view` says: it moves the block from the allocated list to the head of the free list
  -- and leaves the lock open; a block that is not allocated is an invalid read, and a held lock
  -- makes it spin.
  pub free-refines :
      (b : ℕ) (pool : MemPoolShared sl sp)
      → map_outcome (view sl sp) (free_block sl sp b pool) ≡ free_view b (view sl sp pool)
  unfolding free_block free_view
  free-refines b pool = elim (Bool-cases (sp.held pool.lock)) [
    | inl h ↦ ground (arith, sp.lock_held pool.lock h)
    | inr h ↦ ground (
      arith,
      sp.lock_free pool.lock h,
      sp.held-unlock (sp.lock_free pool.lock h).0,
      remove-erase? sl b pool.allocated_list,
      sl.to_list-insert_head b pool.free_list,
    )
  ]
