-- ===== src/Syscall/Loop/Examples.antt =====
-- The loop of a child of src/syscall/syscall.c on a small machine.
use nextgen.Base.{
  ℕ, suc, ◌-◌, ◌≡◌, refl, false, none, some, [], ◌∷◌, replicate, arith, done, fault, success,
}
use nextgen.Concurrent.Epoch.{
  CkEpoch, epoch_start, start_section, store_slot, epoch_stop, end_section,
}
use nextgen.Syscall.Children.{Family, get_child_ctx_from_pid, index_from}
use nextgen.Syscall.Table.{get_entry}
use nextgen.Syscall.SetTest.{set_test_syscall, test_val_ptr_val}
use nextgen.Syscall.Child.Context.{
  memcpy, address, load_word, find_word, word, set_arg_size, set_had_error, set_ret_value,
  set_did_jump, set_sig_num,
}
use nextgen.Syscall.Child.Run.{
  check_for_failure, pick_syscall, generate_argument, generate_loop, generate_arguments,
  mutate_arguments, generate_test_case, test_syscall, free_argument, free_loop, free_old_arguments,
}
use nextgen.Syscall.Child.Toy.{toy, table, child, generated, word_of, counters, tested}
use nextgen.Syscall.Loop.{
  Guards, LoopState, bad_signal, record_signal, interrupted, after_jump, enter_section,
  leave_section, log_the_results, free_arguments, prepare, test_and_free, round, crashed_round,
  rounds,
}
use nextgen.Syscall.Loop.Sections.{Open, rounds-Open}
use nextgen.Syscall.Loop.Jump.{crashed_round-stuck}

abbrev counting : CkEpoch
counting = record {
  Record = ℕ;
  Section = ℕ;
  register = 0;
  begin = λ r. (r, suc r);
  end = λ r s. r - 1;
  active = λ r. r;
  active-register = refl;
  active-begin = λ r. refl;
  active-end = λ r s. refl;
}

abbrev guards : Guards toy
guards = record { ck = counting; sizeof_section = 16; reallocarray = λ w. (false, w) }

abbrev fresh : LoopState toy guards
fresh = record {
  thread = record { epoch_record = 0; section = replicate 8 none; section_count = 0; buf_size = 8 };
  child = child;
  state = counters;
  world = 50;
}

fresh-Open : Open toy guards table 0 fresh
fresh-Open = record {
  valid = record {
    sized = refl;
    fits = omega arith;
    small = omega arith;
    open_slots = λ i h. absurd (omega arith);
    counted = refl;
  };
  depth = refl;
  room = omega arith;
}

-- After one round the buffer has been freed, the result and the counter are kept, and the clock has gone on.
abbrev after_round : LoopState toy guards
after_round = record fresh {
  child = record tested {
    arg_value_array = some (100, word_of 40) ∷ none ∷ some (102, word_of 42) ∷ [];
  };
  state = record counters { test_counter = 6 };
  world = 64;
}

one_round : rounds toy guards table 1 fresh ≡ done (success, after_round)
unfolding rounds round prepare enter_section leave_section epoch_start start_section store_slot
    epoch_stop end_section generate_test_case pick_syscall generate_arguments generate_loop
    generate_argument memcpy set_arg_size mutate_arguments get_entry test_and_free test_syscall
    set_test_syscall test_val_ptr_val address load_word find_word word check_for_failure
    log_the_results free_arguments free_old_arguments free_loop free_argument
one_round = refl

rounds-Open_example : Open toy guards table 0 after_round
rounds-Open_example = rounds-Open toy guards table 1 fresh after_round fresh-Open one_round

-- The only child, which sends the signal to itself.
abbrev only_child : Family
only_child = record { children = child ∷ []; running_children = 1 }

abbrev prepared : LoopState toy guards
prepared = record fresh { child = generated; world = 53 }

prepare_runs : prepare toy guards table fresh ≡ done (success, prepared)
unfolding prepare enter_section leave_section epoch_start start_section store_slot epoch_stop
    end_section generate_test_case pick_syscall generate_arguments generate_loop generate_argument
    memcpy set_arg_size mutate_arguments get_entry
prepare_runs = refl

-- The buffer of the interrupted test has been freed.
abbrev freed : LoopState toy guards
freed =
    record (interrupted toy guards table (record_signal (bad_signal 11) generated) 99 prepared) {
      child = record (record_signal (bad_signal 11) generated) {
        arg_value_array = some (100, word_of 40) ∷ none ∷ some (102, word_of 42) ∷ [];
      };
    }

jump_runs :
    after_jump toy guards table
      (interrupted toy guards table (record_signal (bad_signal 11) generated) 99 prepared)
    ≡ done (success, freed)
unfolding after_jump enter_section leave_section epoch_start start_section store_slot epoch_stop
    end_section log_the_results free_arguments free_old_arguments get_entry free_loop free_argument
    record_signal set_had_error set_ret_value set_did_jump set_sig_num
jump_runs = refl

crashed_round-stuck_example :
    (leave_section toy guards table freed ≡ fault)
    × (crashed_round toy guards table (bad_signal 11) 77 0 only_child 99 fresh ≡ fault)
unfolding get_child_ctx_from_pid index_from
crashed_round-stuck_example =
    crashed_round-stuck toy guards table (bad_signal 11) 77 0 only_child 99 fresh prepared freed
      fresh-Open (omega arith) prepare_runs refl jump_runs
