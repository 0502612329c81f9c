-- ===== src/Concurrent/Epoch.antt =====
-- The epoch-protected sections of src/concurrent/epoch.c, over the epochs of Concurrency Kit and an
-- allocator. The thread structure's array of sections is a list of slots: its length is the size
-- that was allocated, and a slot is NULL or the address of a section with that section.
pub mod Nesting
pub mod Stopping
pub mod Init
mod Examples
use nextgen.Base.{
  take, List, ℕ, zero, suc, ◌+◌, ◌-◌, ◌*◌, ◌%◌, ◌^◌, ◌≡◌, Bool, Option, none, some, List, [], ◌++◌,
  if◌then◌else◌, ltb, length, get_elem?, set, replicate, Outcome, done, fault, ◌>>=◌, Status,
  success, failure,
}
use nextgen.Memory.Alloc.{MemoryAllocator}

-- ck_epoch. `active` counts the sections that a record is in.
pub record CkEpoch : Type 1 where
  pub Record : Type 0
  pub Section : Type 0
  pub register : Record
  pub begin : Record → Section × Record
  pub end : Record → Section → Record
  pub active : Record → ℕ
  pub active-register : active register ≡ 0
  pub active-begin : (r : Record) → active (begin r).1 ≡ suc (active r)
  pub active-end : (r : Record) (s : Section) → active (end r s) ≡ active r - 1

abbrev pub sizeof_thread_ctx : ℕ
sizeof_thread_ctx = 24

-- `struct thread_ctx`
pub record ThreadCtx (ck : CkEpoch) : Type 0 where
  pub epoch_record : ck.Record
  pub section : List (Option (ℕ × ck.Section))
  pub section_count : ℕ
  pub buf_size : ℕ

-- An array that reallocarray gives another length.
abbrev resize {ℓ} : {A : Type ℓ} → ℕ → List (Option A) → List (Option A)
resize n xs = take n xs ++ replicate (n - length xs) none

module _ (ck : CkEpoch) {World : Type 0} (allocator : MemoryAllocator World) where
  abbrev pub Slot : Type 0
  Slot = Option (ℕ × ck.Section)

  -- A write to `section[i]`.
  unfoldable pub store_slot : ThreadCtx ck → ℕ → Slot → Outcome (ThreadCtx ck)
  store_slot t i slot =
      if ltb i (length t.section) then done (record t { section = set t.section i slot }) else fault

  -- What follows once the array is thought to be large enough.
  unfoldable pub start_section :
      ℕ → ℕ → ThreadCtx ck → World → Outcome (Status × ThreadCtx ck × World)
  unfolding store_slot
  start_section sizeof_section count t w =
      let (place, w₁) = allocator.alloc sizeof_section w in
      elim place [
        | none ↦ store_slot t count none >>= λ t'. done (failure, t', w₁)
        | some a ↦
            let (section, r) = ck.begin t.epoch_record in
            store_slot (record t { epoch_record = r }) count (some (a, section)) >>= λ t'.
            done (success, record t' { section_count = (t'.section_count + 1) % 2 ^ 32 }, w₁)
      ]

  -- `epoch_start`. `reallocarray` says whether the larger array could be had.
  unfoldable pub epoch_start :
      (World → Bool × World) → ℕ → ThreadCtx ck → World → Outcome (Status × ThreadCtx ck × World)
  unfolding start_section
  epoch_start reallocarray sizeof_section t w =
      if ltb t.buf_size t.section_count
      then (let (grown, w₁) = reallocarray w in
          if grown
          then start_section sizeof_section t.section_count
              (record t {
                section = resize (t.buf_size * 2 % 2 ^ 32) t.section;
                buf_size = t.buf_size * 2 % 2 ^ 32;
              })
              w₁
          else done (failure, record t { section = [] }, w₁))
      else start_section sizeof_section t.section_count t w

  -- epoch_end and free on `section[i]`.
  unfoldable pub end_section : ℕ → ThreadCtx ck → World → Outcome (ThreadCtx ck × World)
  end_section i t w = elim (get_elem? t.section i) [
    | none ↦ fault
    | some none ↦ fault
    | some (some (a, s)) ↦
        let (p, w₁) = allocator.free (some a) w in
        done (
          record t {
            epoch_record = ck.end t.epoch_record s;
            section = set t.section i (elim p [ none ↦ none | some b ↦ some (b, s) ]);
          },
          w₁,
        )
  ]

  -- `epoch_stop`: the counter is an unsigned 32-bit number.
  unfoldable pub epoch_stop : ThreadCtx ck → World → Outcome (ThreadCtx ck × World)
  unfolding end_section
  epoch_stop t w =
      let count = (t.section_count + 2 ^ 32 - 1) % 2 ^ 32 in
      end_section count (record t { section_count = count }) w

  stop_loop : ℕ → ℕ → ThreadCtx ck → World → Outcome (ThreadCtx ck × World)
  unfolding end_section
  stop_loop zero i t w = done (t, w)
  stop_loop (suc n) i t w = end_section i t w >>= λ r. stop_loop n (i + 1) r.0 r.1

  pub stop_all_sections : ThreadCtx ck → World → Outcome (ThreadCtx ck × World)
  unfolding stop_loop
  stop_all_sections t w =
      stop_loop t.section_count 0 t w >>= λ r. done (record r.0 { section_count = 0 }, r.1)

  -- `init_thread`. Where the array cannot be had, the thread structure is freed, which sets the
  -- pointer to it to NULL, and then `thread->record` is read through that pointer.
  pub init_thread : ℕ → World → Outcome (Option (ThreadCtx ck) × World)
  init_thread sizeof_record w =
      let (thread, w₁) = allocator.alloc sizeof_thread_ctx w in
      elim thread [
        | none ↦ done (none, w₁)
        | some t ↦
            let (place, w₂) = allocator.alloc sizeof_record w₁ in
            elim place [
              | none ↦ done (none, (allocator.free (some t) w₂).1)
              | some r ↦
                  let (section, w₃) = allocator.alloc (8 * 8) w₂ in
                  elim section [
                    | none ↦ elim (allocator.free (some t) w₃).0 [
                      | none ↦ fault
                      | some t' ↦
                          done (none, (allocator.free (some r) (allocator.free (some t) w₃).1).1)
                    ]
                    | some s ↦ done (
                      some (record {
                        epoch_record = ck.register;
                        section = replicate 8 none;
                        section_count = 0;
                        buf_size = 8;
                      }),
                      w₃,
                    )
                  ]
            ]
      ]
