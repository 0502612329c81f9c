-- ===== src/Concurrent/Epoch/Init.antt =====
-- What init_thread of src/concurrent/epoch.c returns when an allocation fails.
use nextgen.Base.{
  ℕ, ◌*◌, ◌≡◌, ◌≢◌, ◌↔◌, refl, subst, Option, none, some, arith, replicate, done, fault,
  Option-cases, inl, inr,
}
use nextgen.Memory.Alloc.{MemoryAllocator}
use nextgen.Concurrent.Epoch.{CkEpoch, ThreadCtx, init_thread, sizeof_thread_ctx}
use nextgen.Concurrent.Epoch.Nesting.{IsValid}

abbrev new_thread : (ck : CkEpoch) → ThreadCtx ck
new_thread ck = record {
  epoch_record = ck.register;
  section = replicate 8 none;
  section_count = 0;
  buf_size = 8;
}

IsValid-new_thread : (ck : CkEpoch) → IsValid ck (new_thread ck)
IsValid-new_thread ck = record {
  sized = refl;
  fits = omega arith;
  small = omega arith;
  open_slots = λ i h. absurd (omega arith);
  counted = ck.active-register;
}

module _ (ck : CkEpoch) {World : Type 0} (al : MemoryAllocator World) where
  init-new_thread :
      (size : ℕ) (w w' : World) (t : ThreadCtx ck)
      → init_thread ck al size w ≡ done (some t, w')
      → new_thread ck ≡ t
  unfolding init_thread
  init-new_thread size w w' t e = ground arith

  -- A thread that init_thread returns is well-formed, with no section open and room for eight.
  init-IsValid :
      (size : ℕ) (w w' : World) (t : ThreadCtx ck)
      → init_thread ck al size w ≡ done (some t, w')
      → IsValid ck t × (t.section_count ≡ 0) × (t.buf_size ≡ 8)
  init-IsValid size w w' t e =
      subst (λ u. IsValid ck u × (u.section_count ≡ 0) × (u.buf_size ≡ 8))
        (init-new_thread size w w' t e) (IsValid-new_thread ck, refl, refl)

  -- Where the allocator's free sets the pointer to NULL, init_thread reads through NULL exactly when
  -- the thread structure and its record could be allocated and the array of sections could not.
  init-fault :
      ((p : Option ℕ) (w : World) → (al.free p w).0 ≡ none)
      → (size : ℕ) (w : World)
      → let r = al.alloc sizeof_thread_ctx w in
        let s = al.alloc size r.1 in
        (init_thread ck al size w ≡ fault)
        ↔ ((r.0 ≢ none) × (s.0 ≢ none) × ((al.alloc (8 * 8) s.1).0 ≡ none))
  unfolding init_thread
  init-fault free_null size w =
      let r = al.alloc sizeof_thread_ctx w in
      let s = al.alloc size r.1 in
      let z = al.alloc (8 * 8) s.1 in
      elim (Option-cases r.0) [
        | inl e ↦ (λ f. ground (arith, e), λ p. absurd (p.0 e))
        | inr (t, e) ↦ elim (Option-cases s.0) [
          | inl e' ↦ (λ f. ground (arith, e, e'), λ p. absurd (p.1 e'))
          | inr (u, e') ↦ elim (Option-cases z.0) [
            | inl e'' ↦ (
              λ f. (λ x. ground arith, λ x. ground arith, e''),
              λ p. ground (arith, e, e', e'', free_null (some t) z.1),
            )
            | inr (v, e'') ↦ (λ f. ground (arith, e, e', e''), λ p. ground arith)
          ]
        ]
      ]
