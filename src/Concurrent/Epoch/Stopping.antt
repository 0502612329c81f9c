-- ===== src/Concurrent/Epoch/Stopping.antt =====
-- How the sections of src/concurrent/epoch.c are ended.
use nextgen.Base.{
  ℕ, zero, suc, ◌+◌, ◌-◌, ◌%◌, ◌^◌, ◌≤◌, ◌<◌, ◌≡◌, ◌≢◌, ◌⊎◌, refl, ◌∙◌, Option, none, some, arith,
  length, get_elem?, set, length-set, get_elem?-set, get_elem?-none, get_elem?-some, done, fault,
  inl, inr,
}
use nextgen.Memory.Alloc.{MemoryAllocator}
use nextgen.Concurrent.Epoch.{
  CkEpoch, ThreadCtx, end_section, epoch_stop, stop_loop, stop_all_sections,
}
use nextgen.Concurrent.Epoch.Nesting.{IsValid}

slot_cases :
    {A : Type 0} (o : Option (Option (ℕ × A)))
    → (o ≡ none) ⊎ ((o ≡ some none) ⊎ ((a : ℕ) × (s : A) × (o ≡ some (some (a, s)))))
slot_cases none = inl refl
slot_cases (some none) = inr (inl refl)
slot_cases (some (some (a, s))) = inr (inr (a, s, refl))

module _ (ck : CkEpoch) {World : Type 0} (al : MemoryAllocator World) where
  -- What ending the section in slot `i` changes.
  record Ended (i : ℕ) (t q : ThreadCtx ck) : Type 0 where
    same_length : length q.section ≡ length t.section
    same_size : q.buf_size ≡ t.buf_size
    same_count : q.section_count ≡ t.section_count
    one_less : ck.active q.epoch_record ≡ ck.active t.epoch_record - 1
    others : (j : ℕ) → i ≢ j → get_elem? q.section j ≡ get_elem? t.section j

  end_section-Ended :
      (t : ThreadCtx ck) (w : World) (i : ℕ)
      → i < length t.section
      → get_elem? t.section i ≢ some none
      → (q : ThreadCtx ck × World) × (end_section ck al i t w ≡ done q) × Ended i t q.0
  unfolding end_section
  end_section-Ended t w i lt open_slot = elim (slot_cases (get_elem? t.section i)) [
    | inl e ↦ absurd (get_elem?-some t.section i lt e)
    | inr (inl e) ↦ absurd (open_slot e)
    | inr (inr (a, s, e)) ↦ (
      (after a s, (al.free (some a) w).1),
      rw (e, end_section) refl,
      record {
        same_length = length-set t.section i (left a s);
        same_size = refl;
        same_count = refl;
        one_less = ck.active-end t.epoch_record s;
        others = λ j ne. ground (arith, get_elem?-set t.section i j (left a s));
      },
    )
  ]
    where
      left : ℕ → ck.Section → Option (ℕ × ck.Section)
      left a s = elim (al.free (some a) w).0 [ none ↦ none | some b ↦ some (b, s) ]

      after : ℕ → ck.Section → ThreadCtx ck
      after a s = record t {
        epoch_record = ck.end t.epoch_record s;
        section = set t.section i (left a s);
      }

  end_at-IsValid :
      (t : ThreadCtx ck) (w : World) (m : ℕ)
      → IsValid ck t
      → t.section_count ≡ suc m
      → (q : ThreadCtx ck × World) × (end_section ck al m (record t { section_count = m }) w
          ≡ done q)
        × IsValid ck q.0
        × (q.0.section_count ≡ m)
  end_at-IsValid t w m v e =
      let (q, eq, ended) =
        end_section-Ended (record t { section_count = m }) w m (omega (arith, v.sized, v.fits))
          (v.open_slots m (omega arith)) in
      (
        q,
        eq,
        record {
          sized = omega (arith, ended.same_length, ended.same_size, v.sized);
          fits = omega (arith, ended.same_count, ended.same_size, v.fits);
          small = omega (arith, ended.same_size, v.small);
          open_slots = λ i h. ground (arith, ended.others i, v.open_slots i, ended.same_count);
          counted = omega (arith, ended.one_less, ended.same_count, v.counted);
        },
        ended.same_count,
      )

  -- In a well-formed thread with a section open, epoch_stop ends the innermost one and leaves a
  -- well-formed thread with one section fewer.
  pub stop-IsValid :
      (t : ThreadCtx ck) (w : World) (n : ℕ)
      → IsValid ck t
      → t.section_count ≡ suc n
      → (q : ThreadCtx ck × World) × (epoch_stop ck al t w ≡ done q)
        × IsValid ck q.0
        × (q.0.section_count ≡ n)
  unfolding epoch_stop
  stop-IsValid t w n v e =
      let (q, eq, valid, left) =
        end_at-IsValid t w ((t.section_count + 2 ^ 32 - 1) % 2 ^ 32) v
          (omega (arith, v.fits, v.small)) in
      (q, eq, valid, omega (arith, left))

  -- With no section open epoch_stop counts down from 0 and reads outside the array.
  pub stop-fault :
      (t : ThreadCtx ck) (w : World)
      → IsValid ck t
      → t.section_count ≡ 0
      → epoch_stop ck al t w ≡ fault
  unfolding epoch_stop end_section
  stop-fault t w v e =
      rw
        (
          get_elem?-none t.section ((t.section_count + 2 ^ 32 - 1) % 2 ^ 32)
              (omega (arith, v.sized, v.small)),
          end_section,
        )
        refl

  stop_loop-valid :
      (n i : ℕ) (t : ThreadCtx ck) (w : World)
      → i + n ≤ length t.section
      → ((j : ℕ) → i ≤ j → j < i + n → get_elem? t.section j ≢ some none)
      → ck.active t.epoch_record ≡ n
      → (q : ThreadCtx ck × World) × (stop_loop ck al n i t w ≡ done q)
        × (length q.0.section ≡ length t.section)
        × (q.0.buf_size ≡ t.buf_size)
        × (ck.active q.0.epoch_record ≡ 0)
  unfolding stop_loop
  stop_loop-valid zero i t w fits slots counted = ((t, w), refl, refl, refl, counted)
  stop_loop-valid (suc n) i t w fits slots counted =
      let ((q, w'), eq, ended) =
        end_section-Ended t w i (omega arith) (slots i (omega arith) (omega arith)) in
      let (r, eq', len, siz, act) =
        stop_loop-valid n (i + 1) q w' (omega (arith, ended.same_length))
          (λ j lo hi. ground (arith, ended.others j, slots j)) (omega (arith, ended.one_less)) in
      (r, rw eq eq', len ∙ ended.same_length, siz ∙ ended.same_size, act)

  -- stop_all_sections leaves any well-formed thread well-formed and in no section.
  pub stop_all-IsValid :
      (t : ThreadCtx ck) (w : World)
      → IsValid ck t
      → (q : ThreadCtx ck × World) × (stop_all_sections ck al t w ≡ done q)
        × IsValid ck q.0
        × (q.0.section_count ≡ 0)
  unfolding stop_all_sections
  stop_all-IsValid t w v =
      let (r, eq, len, siz, act) =
        stop_loop-valid t.section_count 0 t w (omega (arith, v.sized, v.fits))
          (λ j lo hi. v.open_slots j (omega arith)) v.counted in
      (
        (record r.0 { section_count = 0 }, r.1),
        rw eq refl,
        record {
          sized = omega (arith, len, siz, v.sized);
          fits = omega arith;
          small = omega (arith, siz, v.small);
          open_slots = λ i h. absurd (omega arith);
          counted = act;
        },
        refl,
      )

  pub stop-buf_size :
      (t : ThreadCtx ck) (w : World) (q : ThreadCtx ck × World)
      → epoch_stop ck al t w ≡ done q
      → q.0.buf_size ≡ t.buf_size
  unfolding epoch_stop end_section
  stop-buf_size t w q e =
      elim (slot_cases (get_elem? t.section ((t.section_count + 2 ^ 32 - 1) % 2 ^ 32))) [
        | inl n ↦ ground (arith, n)
        | inr (inl n) ↦ ground (arith, n)
        | inr (inr (a, s, n)) ↦ ground (arith, n)
      ]
