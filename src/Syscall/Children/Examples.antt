-- ===== src/Syscall/Children/Examples.antt =====
-- The children of src/syscall/syscall.c: a family of two slots.
use nextgen.Base.{ℕ, All, ◌≢◌, suc, ◌≤◌, ◌≡◌, refl, true, [], ◌∷◌, length, arith, success}
use nextgen.Syscall.Child.Context.{ChildCtx}
use nextgen.Syscall.Child.Toy.{child}
use nextgen.Syscall.Children.{
  Family, write_pid, child_pid, Parent, fork_child, create_loop, create_child, main_round,
  main_rounds, exit_slot,
}
use nextgen.Syscall.Children.Count.{taken, IsCounted, round, exit, Reach, here, next, Reach-bounded}
use nextgen.Syscall.Children.Fill.{Serves, main_rounds_fill}

abbrev free_slot : ChildCtx
free_slot = record child { pid = 0 }

abbrev two_free : Family
two_free = record { children = free_slot ∷ free_slot ∷ []; running_children = 0 }

first_pid : (w p : ℕ) → child_pid (suc w) ≡ child_pid p → p ≡ 0 → ⊥
first_pid w p e z = ground arith

-- The n-th fork gives pid n.
abbrev willing : Parent
willing = record {
  World = ℕ;
  epoch_start = λ w. (true, w);
  epoch_stop = λ w. w;
  pipe = λ w. (true, w);
  fork = λ w. (child_pid (suc w), suc w);
  read = λ w. (true, w);
  kill = λ p w. (true, w);
  fork-pid = first_pid;
}

two_free-IsCounted : IsCounted two_free
two_free-IsCounted = record { counted = refl; small = omega arith }

willing-Serves : Serves willing
willing-Serves = record {
  starts = λ w. refl;
  pipes = λ w. refl;
  forks = λ w. (suc w, refl);
  answers = λ w. refl;
}

main_rounds_fill_example :
    ((main_rounds willing 5 two_free 8).0 ≡ success)
    × All (λ c. c.pid ≢ 0) (main_rounds willing 5 two_free 8).1.children
    × ((main_rounds willing 5 two_free 8).1.running_children ≡ 2)
    × (length (main_rounds willing 5 two_free 8).1.children ≡ 2)
main_rounds_fill_example =
    main_rounds_fill willing 5 two_free 8 willing-Serves two_free-IsCounted (omega arith)

-- After a round and the end of the child that it made, both slots are free again.
abbrev one_taken : Family
one_taken = record {
  children = record free_slot { pid = 9 } ∷ free_slot ∷ [];
  running_children = 1;
}

one_made : one_taken ≡ (main_round willing two_free 8).1
unfolding main_round create_child create_loop fork_child write_pid
one_made = refl

there_and_back : Reach willing two_free (exit_slot 0 one_taken)
there_and_back =
    next (next here (round 8 one_made))
      (exit 0 (record free_slot { pid = 9 }) refl (λ e. ground arith) refl)

Reach-bounded_example :
    ((exit_slot 0 one_taken).running_children ≡ taken (exit_slot 0 one_taken).children)
    × ((exit_slot 0 one_taken).running_children ≤ length (exit_slot 0 one_taken).children)
Reach-bounded_example = Reach-bounded willing two_free two_free-IsCounted there_and_back
