-- ===== src/Memory/Pool/Exclusive.antt =====
-- Who holds which block of the pool of src/memory/memory.c, over any history of its calls. Each
-- call holds the pool's lock from start to end, so that the processes' calls come one after another.
use nextgen.Base.{
  ℕ, suc, ◌+◌, ◌≤◌, ◌≡◌, refl, sym, ap, ◌∙◌, false, none, some, List, [], ◌∷◌, arith, Outcome, done,
  fault, ◌>>=◌, map_outcome, if◌then◌else◌, ◌==◌, Outcome-cases, count, inl, inr, Option-cases,
}
use nextgen.Memory.External.{Slist, Spinlock, erase?}
use nextgen.Memory.Pool.{MemPoolShared, mem_get_shared_block, free_block}
use nextgen.Memory.Pool.View.{PoolView, view, get_view, free_view, get-refines, free-refines}

count-erase? :
    (a b : ℕ) (xs ys : List ℕ)
    → erase? b xs ≡ some ys
    → count a xs ≡ (if b == a then suc (count a ys) else count a ys)
count-erase? a b [] ys e = cc
count-erase? a b (x ∷ xs) ys e = elim (Option-cases (erase? b xs)) [
  | inl n ↦ ground arith
  | inr (zs, s) ↦ ground (arith, count-erase? a b xs zs s)
]

-- An element that does not occur cannot be removed.
erase?-none : (b : ℕ) (xs : List ℕ) → count b xs ≡ 0 → erase? b xs ≡ none
erase?-none b [] e = refl
erase?-none b (x ∷ xs) e = ground (arith, erase?-none b xs)

-- What the two operations did, where they returned.
record Got (v : PoolView) (b : ℕ) (w : PoolView) : Type 0 where
  was_open : v.held ≡ false
  is_open : w.held ≡ false
  head : v.free ≡ b ∷ w.free
  handed : w.allocated ≡ b ∷ v.allocated

record Freed (v : PoolView) (b : ℕ) (w : PoolView) : Type 0 where
  was_open : v.held ≡ false
  is_open : w.held ≡ false
  given : w.free ≡ b ∷ v.free
  taken : erase? b v.allocated ≡ some w.allocated

get_view-Got : (v w : PoolView) (b : ℕ) → get_view v ≡ done (b, w) → Got v b w
unfolding get_view
get_view-Got v w b e = ground arith

free_view-Freed : (v w : PoolView) (b : ℕ) → free_view b v ≡ done w → Freed v b w
unfolding free_view
free_view-Freed v w b e = ground arith

-- The occurrences of a block in the two lists together.
abbrev pub owned : ℕ → PoolView → ℕ
owned a v = count a v.free + count a v.allocated

Got-owned : (v w : PoolView) (b a : ℕ) → Got v b w → owned a w ≡ owned a v
Got-owned v w b a g = ground (arith, ap (count a) g.head, ap (count a) g.handed)

Freed-owned : (v w : PoolView) (b a : ℕ) → Freed v b w → owned a w ≡ owned a v
Freed-owned v w b a f =
    ground (arith, ap (count a) f.given, count-erase? a b v.allocated w.allocated f.taken)

-- A call of the pool by any process.
pub data Call : Type 0 where
  gets : Call
  frees : ℕ → Call

module _ (sl : Slist) (sp : Spinlock) where
  unfoldable pub step : Call → MemPoolShared sl sp → Outcome (MemPoolShared sl sp)
  step gets pool = mem_get_shared_block sl sp 1 pool >>= λ r. done r.1
  step (frees b) pool = free_block sl sp b pool

  unfoldable pub run : List Call → MemPoolShared sl sp → Outcome (MemPoolShared sl sp)
  run [] pool = done pool
  run (c ∷ cs) pool = step c pool >>= run cs

  get-Got :
      (pool q : MemPoolShared sl sp) (n b : ℕ)
      → mem_get_shared_block sl sp (suc n) pool ≡ done (b, q)
      → Got (view sl sp pool) b (view sl sp q)
  get-Got pool q n b e = get_view-Got _ _ b (sym (get-refines sl sp n pool) ∙ rw e)

  free-Freed :
      (pool q : MemPoolShared sl sp) (b : ℕ)
      → free_block sl sp b pool ≡ done q
      → Freed (view sl sp pool) b (view sl sp q)
  free-Freed pool q b e = free_view-Freed _ _ b (sym (free-refines sl sp b pool) ∙ rw e)

  owned-step :
      (c : Call) (pool q : MemPoolShared sl sp) (a : ℕ)
      → step c pool ≡ done q
      → owned a (view sl sp q) ≡ owned a (view sl sp pool)
  unfolding step
  owned-step gets pool q a e = elim (Outcome-cases (mem_get_shared_block sl sp 1 pool)) [
    | inl ((b, r), h) ↦
        let same : r ≡ q = ground (arith, h) in
        rw (← same) (Got-owned _ _ b a (get-Got pool r 0 b h))
    | inr h ↦ ground (arith, h)
  ]
  owned-step (frees b) pool q a e = Freed-owned _ _ b a (free-Freed pool q b e)

  -- Over any history of calls that returns, each block stands as often in the two lists together
  -- as it did before: no block is lost, and none is made up.
  pub owned-run :
      (cs : List Call) (pool q : MemPoolShared sl sp) (a : ℕ)
      → run cs pool ≡ done q
      → owned a (view sl sp q) ≡ owned a (view sl sp pool)
  unfolding run
  owned-run [] pool q a e = ground arith
  owned-run (c ∷ cs) pool q a e = elim (Outcome-cases (step c pool)) [
    | inl (r, h) ↦ owned-run cs r q a (ground (arith, h)) ∙ owned-step c pool r a h
    | inr h ↦ ground (arith, h)
  ]

  -- No two entries of the two lists are the same block.
  abbrev pub Distinct : MemPoolShared sl sp → Type 0
  Distinct pool = (a : ℕ) → owned a (view sl sp pool) ≤ 1

  -- From a pool of distinct blocks, after any history of calls that returns, a block that
  -- mem_get_shared_block gives is one that nobody holds, and is held once from then on.
  pub run-get-exclusive :
      (cs : List Call) (pool q r : MemPoolShared sl sp) (n b : ℕ)
      → Distinct pool
      → run cs pool ≡ done q
      → mem_get_shared_block sl sp (suc n) q ≡ done (b, r)
      → (count b (sl.to_list q.allocated_list) ≡ 0) × (count b (sl.to_list r.allocated_list) ≡ 1)
  run-get-exclusive cs pool q r n b d e g =
      let got = get-Got q r n b g in
      ground (arith, d b, owned-run cs pool q b e, ap (count b) got.head, ap (count b) got.handed)

  pub get-handed :
      (pool q : MemPoolShared sl sp) (n b : ℕ)
      → mem_get_shared_block sl sp (suc n) pool ≡ done (b, q)
      → sl.to_list q.allocated_list ≡ b ∷ sl.to_list pool.allocated_list
  get-handed pool q n b e = (get-Got pool q n b e).handed

  -- Taking a block and giving it back leaves both lists as they were, in the same order.
  pub get-free :
      (pool q : MemPoolShared sl sp) (n b : ℕ)
      → mem_get_shared_block sl sp (suc n) pool ≡ done (b, q)
      → map_outcome (view sl sp) (free_block sl sp b q) ≡ done (view sl sp pool)
  unfolding free_view
  get-free pool q n b e =
      let got = get-Got pool q n b e in free-refines sl sp b q ∙ ground (arith, got)

  -- From distinct blocks, a block that has been given back cannot be given back again: the second
  -- mem_free_shared_block walks off the allocated list.
  free_block-free_block :
      (pool q : MemPoolShared sl sp) (b : ℕ)
      → Distinct pool
      → free_block sl sp b pool ≡ done q
      → map_outcome (view sl sp) (free_block sl sp b q) ≡ fault
  unfolding free_view
  free_block-free_block pool q b d e =
      let f = free-Freed pool q b e in
      free-refines sl sp b q
      ∙ ground (
        arith,
        f,
        erase?-none b (sl.to_list q.allocated_list),
        d b,
        Freed-owned (view sl sp pool) (view sl sp q) b b f,
        ap (count b) f.given,
      )
