-- ===== src/Concurrent/Epoch/Examples.antt =====
-- The theorems about src/concurrent/epoch.c at concrete threads.
use nextgen.Base.{
  ℕ, zero, suc, ◌-◌, ◌<◌, ◌≡◌, ◌≢◌, ◌↔◌, refl, Bool, false, Option, none, some, ◌∷◌, arith,
  get_elem?, replicate, done, fault,
}
use nextgen.Memory.Alloc.{MemoryAllocator}
use nextgen.Concurrent.Epoch.{CkEpoch, ThreadCtx, epoch_start, epoch_stop, stop_all_sections}
use nextgen.Concurrent.Epoch.Nesting.{IsValid, start-fault}
use nextgen.Concurrent.Epoch.Stopping.{stop-IsValid, stop_all-IsValid}

-- A record that only counts its sections.
abbrev counting : CkEpoch
counting = record {
  Record = ℕ;
  Section = ℕ;
  register = 0;
  begin = λ r. (r, suc r);
  end = λ r s. r - 1;
  active = λ r. r;
  active-register = refl;
  active-begin = λ r. refl;
  active-end = λ r s. refl;
}

abbrev give : ℕ → ℕ → Option ℕ × ℕ
give n zero = (none, zero)
give n (suc w) = (some (suc w), w)

abbrev take_back : Option ℕ → ℕ → Option ℕ × ℕ
take_back p w = (none, w)

-- The state is the number of allocations that will still succeed.
abbrev limited : MemoryAllocator ℕ
limited = record {
  alloc = give;
  shared = give;
  free = take_back;
  free_shared = λ p n w. take_back p w;
}

abbrev refuse : ℕ → Bool × ℕ
refuse w = (false, w)

abbrev one_open : ThreadCtx counting
one_open = record {
  epoch_record = 1;
  section = some (50, 0) ∷ replicate 7 none;
  section_count = 1;
  buf_size = 8;
}

abbrev full : ThreadCtx counting
full = record {
  epoch_record = 8;
  section = replicate 8 (some (50, 0));
  section_count = 8;
  buf_size = 8;
}

abbrev fresh : ThreadCtx counting
fresh = record { epoch_record = 0; section = replicate 8 none; section_count = 0; buf_size = 8 }

one_open-slots : (i : ℕ) → i < 1 → get_elem? one_open.section i ≢ some none
one_open-slots zero h = λ e. cc
one_open-slots (suc i) h = absurd (omega arith)

IsValid-one_open : IsValid counting one_open
IsValid-one_open = record {
  sized = refl;
  fits = omega arith;
  small = omega arith;
  open_slots = one_open-slots;
  counted = refl;
}

abbrev empty : Option (ℕ × ℕ)
empty = none

full-slots : (n i : ℕ) → get_elem? (replicate n (some (50, 0))) i ≢ some empty
full-slots zero i = λ e. cc
full-slots (suc n) zero = λ e. cc
full-slots (suc n) (suc i) = full-slots n i

IsValid-full : IsValid counting full
IsValid-full = record {
  sized = refl;
  fits = omega arith;
  small = omega arith;
  open_slots = λ i h. full-slots 8 i;
  counted = refl;
}

IsValid-fresh : IsValid counting fresh
IsValid-fresh = record {
  sized = refl;
  fits = omega arith;
  small = omega arith;
  open_slots = λ i h. absurd (omega arith);
  counted = refl;
}

start-fault_example :
    (epoch_start counting limited refuse 16 full 5 ≡ fault) ↔ (full.section_count ≡ full.buf_size)
start-fault_example = start-fault counting limited refuse 16 full 5 IsValid-full

stop-IsValid_example :
    (q : ThreadCtx counting × ℕ) × (epoch_stop counting limited one_open 5 ≡ done q)
    × IsValid counting q.0
    × (q.0.section_count ≡ 0)
stop-IsValid_example = stop-IsValid counting limited one_open 5 0 IsValid-one_open refl

stop_all-IsValid_example :
    (q : ThreadCtx counting × ℕ) × (stop_all_sections counting limited full 5 ≡ done q)
    × IsValid counting q.0
    × (q.0.section_count ≡ 0)
stop_all-IsValid_example = stop_all-IsValid counting limited full 5 IsValid-full
