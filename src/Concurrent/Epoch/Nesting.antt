-- ===== src/Concurrent/Epoch/Nesting.antt =====
-- How deep the sections of src/concurrent/epoch.c nest, and that each is closed again.
use nextgen.Base.{
  ℕ, ◌+◌, ◌^◌, ◌≤◌, ◌<◌, ◌≡◌, ◌≢◌, ◌↔◌, refl, ◌∙◌, Bool, true, none, some, arith, if◌then◌else◌,
  length, get_elem?, set, length-set, get_elem?-set, done, fault, Status, success, failure,
  is_success, Option-cases, inl, inr,
}
use nextgen.Memory.Alloc.{MemoryAllocator}
use nextgen.Concurrent.Epoch.{CkEpoch, ThreadCtx, store_slot, start_section, epoch_start}

-- The open sections fill the slots below the counter, the array has the size that is recorded, and
-- the epoch record is in as many sections as are counted.
pub record IsValid (ck : CkEpoch) (t : ThreadCtx ck) : Type 0 where
  pub sized : length t.section ≡ t.buf_size
  pub fits : t.section_count ≤ t.buf_size
  pub small : t.buf_size < 2 ^ 31
  pub open_slots : (i : ℕ) → i < t.section_count → get_elem? t.section i ≢ some none
  pub counted : ck.active t.epoch_record ≡ t.section_count

module _ (ck : CkEpoch) {World : Type 0} (al : MemoryAllocator World)
    (realloc : World → Bool × World) (size : ℕ) where
  -- In a well-formed thread, starting a section writes outside the array exactly when the array is
  -- full: the test that should make it grow lets a full array pass.
  pub start-fault :
      (t : ThreadCtx ck) (w : World)
      → IsValid ck t
      → (epoch_start ck al realloc size t w ≡ fault) ↔ (t.section_count ≡ t.buf_size)
  unfolding epoch_start start_section store_slot
  start-fault t w v = elim (Option-cases (al.alloc size w).0) [
    | inl e ↦ (λ h. ground (arith, e, v.sized, v.fits), λ h. ground (arith, e, v.sized))
    | inr (a, e) ↦ (λ h. ground (arith, e, v.sized, v.fits), λ h. ground (arith, e, v.sized))
  ]

  -- In a well-formed thread with a free slot, epoch_start returns and leaves a well-formed thread,
  -- with one section more if it succeeded and as many as before if the allocation failed.
  pub start-counted :
      (t : ThreadCtx ck) (w : World)
      → IsValid ck t
      → t.section_count < t.buf_size
      → (r : Status × ThreadCtx ck × World) × (epoch_start ck al realloc size t w ≡ done r)
        × IsValid ck r.1
        × (r.1.section_count ≡ (if is_success r.0 then t.section_count + 1 else t.section_count))
  unfolding epoch_start start_section store_slot
  start-counted t w v room = elim (Option-cases (al.alloc size w).0) [
    | inl e ↦ (
      (failure, record t { section = set t.section t.section_count none }, (al.alloc size w).1),
      ground (arith, e, v.sized),
      record {
        sized = length-set t.section t.section_count none ∙ v.sized;
        fits = v.fits;
        small = v.small;
        open_slots =
            λ i h. ground (arith, get_elem?-set t.section t.section_count i none, v.open_slots i);
        counted = v.counted;
      },
      refl,
    )
    | inr (a, e) ↦ (
      (success, opened a, (al.alloc size w).1),
      ground (arith, e, v.sized, v.fits, v.small),
      record {
        sized = length-set t.section t.section_count _ ∙ v.sized;
        fits = omega arith;
        small = v.small;
        open_slots = λ i h. ground (
          arith,
          get_elem?-set t.section t.section_count i (some (a, (ck.begin t.epoch_record).0)),
          v.open_slots i,
        );
        counted = ck.active-begin t.epoch_record ∙ omega (arith, v.counted);
      },
      refl,
    )
  ]
    where
      opened : ℕ → ThreadCtx ck
      opened a = record t {
        epoch_record = (ck.begin t.epoch_record).1;
        section = set t.section t.section_count (some (a, (ck.begin t.epoch_record).0));
        section_count = t.section_count + 1;
      }

  -- An array that holds the counter is not grown.
  pub start-buf_size :
      (t : ThreadCtx ck) (w : World) (r : Status × ThreadCtx ck × World)
      → t.section_count ≤ t.buf_size
      → epoch_start ck al realloc size t w ≡ done r
      → r.1.buf_size ≡ t.buf_size
  unfolding epoch_start start_section store_slot
  start-buf_size t w r fits e = elim (Option-cases (al.alloc size w).0) [
    | inl n ↦ ground (arith, n)
    | inr (a, n) ↦ ground (arith, n)
  ]

  -- It succeeds where the section can be allocated.
  pub start_success :
      (t : ThreadCtx ck) (w : World) (r : Status × ThreadCtx ck × World) (a : ℕ)
      → t.section_count ≤ t.buf_size
      → (al.alloc size w).0 ≡ some a
      → epoch_start ck al realloc size t w ≡ done r
      → is_success r.0 ≡ true
  unfolding epoch_start start_section store_slot
  start_success t w r a fits n e = ground (arith, n)
