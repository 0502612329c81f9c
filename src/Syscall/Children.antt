-- ===== src/Syscall/Children.antt =====
-- The children of src/syscall/syscall.c as their parent sees them: looking them up, creating them,
-- the main loop, killing them, and the handler of src/syscall/signals.c for their ends.
pub mod Slots
pub mod Count
pub mod Fill
mod Examples
use nextgen.Base.{
  ℕ, zero, suc, ◌+◌, ◌-◌, ◌%◌, ◌^◌, ◌≡◌, Bool, true, false, Option, none, some, List, [], ◌∷◌,
  if◌then◌else◌, ltb, ◌==◌, length, get_elem?, Outcome, done, fault, Status, success, failure,
}
use nextgen.Syscall.Child.Context.{ChildCtx}

-- The pid of a free slot.
abbrev pub empty_pid : ℕ
empty_pid = 0

-- The array of contexts, of which there are total_children, and the counter in the global state.
pub record Family : Type 0 where
  pub children : List ChildCtx
  pub running_children : ℕ

unfoldable pub set_child_pid : ℕ → ChildCtx → ChildCtx
set_child_pid pid child = record child { pid = pid }

-- `get_child_from_index`: the inner `none` is NULL.
unfoldable pub get_child_from_index : Family → ℕ → Outcome (Option ChildCtx)
get_child_from_index f i =
    if ltb (length f.children) i
    then done none
    else elim (get_elem? f.children i) [ none ↦ fault | some c ↦ done (some c) ]

-- The loop of `get_child_index_number` and `get_child_ctx_from_pid`, from number i on.
unfoldable pub index_from : ℕ → List ChildCtx → ℕ → Option ℕ
index_from i [] pid = none
index_from i (c ∷ cs) pid = elim (c.pid == pid) [
  | true ↦ some i
  | false ↦ index_from (i + 1) cs pid
]

unfoldable pub get_child_index_number : Family → ℕ → Option ℕ
get_child_index_number f pid = index_from 0 f.children pid

unfoldable pub get_child_ctx_from_pid : Family → ℕ → Option ℕ
get_child_ctx_from_pid f pid = index_from 0 f.children pid

-- A write of a pid to the slot at a number.
unfoldable pub write_pid : ℕ → ℕ → List ChildCtx → List ChildCtx
write_pid i pid [] = []
write_pid zero pid (c ∷ cs) = record c { pid = pid } ∷ cs
write_pid (suc i) pid (c ∷ cs) = c ∷ write_pid i pid cs

-- What fork gives the parent.
pub data Forked : Type 0 where
  child_pid : ℕ → Forked
  no_child : Forked

-- The calls of create_child to the system and to its own epoch sections; `false` is a failure.
-- A pid is never that of a free slot.
pub record Parent : Type 1 where
  pub World : Type 0
  pub epoch_start : World → Bool × World
  pub epoch_stop : World → World
  pub pipe : World → Bool × World
  pub fork : World → Forked × World
  pub read : World → Bool × World
  pub kill : ℕ → World → Bool × World
  pub fork-pid : (w : World) (p : ℕ) → (fork w).0 ≡ child_pid p → p ≡ 0 → ⊥

module _ (s : Parent) where
  open s use {World}

  -- create_child at a free slot. The child writes its pid and counts itself before it sends the byte
  -- that the parent reads.
  unfoldable pub fork_child : ℕ → Family → World → Status × Family × World
  fork_child i f w =
      let (piped, w₁) = s.pipe w in
      if piped
      then (let (forked, w₂) = s.fork w₁ in
          elim forked [
            | no_child ↦ (failure, f, w₂)
            | child_pid p ↦
                let (answered, w₃) = s.read w₂ in
                (
                  if answered then success else failure,
                  record {
                    children = write_pid i p f.children;
                    running_children = (f.running_children + 1) % 2 ^ 32;
                  },
                  w₃,
                )
          ])
      else (failure, f, w₁)

  -- The loop of create_child over the slots from number i on.
  unfoldable pub create_loop : List ChildCtx → ℕ → Family → World → Status × Family × World
  create_loop [] i f w = (success, f, w)
  create_loop (c ∷ cs) i f w =
      let (started, w₁) = s.epoch_start w in
      elim started [
        | false ↦ (failure, f, w₁)
        | true ↦
            let w₂ = s.epoch_stop w₁ in
            elim (c.pid == empty_pid) [
              | true ↦ fork_child i f w₂
              | false ↦ create_loop cs (i + 1) f w₂
            ]
      ]

  unfoldable pub create_child : Family → World → Status × Family × World
  create_child f w = create_loop f.children 0 f w

  -- One round of the loop of start_main_syscall_loop, while the stop flag is not set.
  unfoldable pub main_round : Family → World → Status × Family × World
  main_round f w =
      if ltb f.running_children (length f.children) then create_child f w else (success, f, w)

  unfoldable pub main_rounds : ℕ → Family → World → Status × Family × World
  main_rounds zero f w = (success, f, w)
  main_rounds (suc n) f w =
      let r = main_round f w in elim r.0 [ failure ↦ r | success ↦ main_rounds n r.1 r.2 ]

  -- `kill_all_children`, with the pids that were sent a signal.
  unfoldable pub kill_all : List ChildCtx → World → List ℕ × World
  kill_all [] w = ([], w)
  kill_all (c ∷ cs) w =
      let (killed, w₁) = s.kill c.pid w in
      elim killed [
        | false ↦ (c.pid ∷ [], w₁)
        | true ↦ let (rest, w₂) = kill_all cs w₁ in (c.pid ∷ rest, w₂)
      ]

-- What exit_child does to the slot at a number and to the counter: two writes, taken as one step.
unfoldable pub exit_slot : ℕ → Family → Family
exit_slot i f = record {
  children = write_pid i empty_pid f.children;
  running_children = (f.running_children + 2 ^ 32 - 1) % 2 ^ 32;
}

-- `child_exit_handler` over the children that waitpid reports, with whether each exited by itself.
unfoldable pub child_exit_handler : List (ℕ × Bool) → Family → Family
child_exit_handler [] f = f
child_exit_handler ((pid, false) ∷ ends) f = child_exit_handler ends f
child_exit_handler ((pid, true) ∷ ends) f = elim (get_child_ctx_from_pid f pid) [
  | none ↦ f
  | some i ↦ child_exit_handler ends (record f { children = write_pid i empty_pid f.children })
]
