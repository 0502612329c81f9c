-- ===== src/Syscall/Children/Slots.antt =====
-- Which slot a child of src/syscall/syscall.c is in.
use nextgen.Base.{
  ℕ, zero, suc, ◌+◌, ◌<◌, ◌≡◌, ◌≢◌, refl, ap, true, some, List, [], ◌∷◌, length, All, arith, map,
}
use nextgen.Syscall.Child.Context.{ChildCtx}
use nextgen.Syscall.Children.{
  Family, index_from, get_child_index_number, write_pid, Parent, kill_all,
}

-- The slots below a number are taken, and the one at it is free.
abbrev pub IsFirstFree : ℕ → List ChildCtx → Type 0
IsFirstFree i [] = ⊥
IsFirstFree zero (c ∷ cs) = c.pid ≡ 0
IsFirstFree (suc i) (c ∷ cs) = (c.pid ≢ 0) × IsFirstFree i cs

-- No slot has the pid.
abbrev pub IsFresh : ℕ → List ChildCtx → Type 0
IsFresh p cs = All (λ (c : ChildCtx). c.pid ≢ p) cs

index-write_pid :
    (i k : ℕ) (cs : List ChildCtx) (p : ℕ)
    → i < length cs
    → IsFresh p cs
    → index_from k (write_pid i p cs) p ≡ some (k + i)
unfolding index_from write_pid
index-write_pid i k [] p lt h = absurd (omega arith)
index-write_pid zero k (c ∷ cs) p lt h = ground arith
index-write_pid (suc i) k (c ∷ cs) p lt h =
    ground (arith, index-write_pid i (k + 1) cs p (omega arith) h.1, h.0)

pub length-write_pid : (i p : ℕ) (cs : List ChildCtx) → length (write_pid i p cs) ≡ length cs
unfolding write_pid
length-write_pid i p [] = refl
length-write_pid zero p (c ∷ cs) = refl
length-write_pid (suc i) p (c ∷ cs) = ap suc (length-write_pid i p cs)

-- A child that writes its pid to its slot, where no slot has that pid yet, finds itself at that
-- number.
get_index-write_pid :
    (f : Family) (i p : ℕ)
    → i < length f.children
    → IsFresh p f.children
    → get_child_index_number (record f { children = write_pid i p f.children }) p ≡ some i
unfolding get_child_index_number
get_index-write_pid f i p lt h = ground (arith, index-write_pid i 0 f.children p lt h)

module _ (s : Parent) where
  -- If no kill fails, kill_all_children sends a signal to the pid of each slot in order, also to the
  -- pid 0 of a free slot, by which kill means all processes of the caller's group.
  kill_all-pids :
      (cs : List ChildCtx) (w : s.World)
      → ((p : ℕ) (v : s.World) → (s.kill p v).0 ≡ true)
      → (kill_all s cs w).0 ≡ map (λ (c : ChildCtx). c.pid) cs
  unfolding kill_all
  kill_all-pids [] w h = refl
  kill_all-pids (c ∷ cs) w h = ground (arith, h c.pid w, kill_all-pids cs (s.kill c.pid w).1 h)
