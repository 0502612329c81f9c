-- ===== src/Crypto/Setup/Ready.antt =====
-- When the random numbers of src/crypto/crypto.c may be asked for.
use nextgen.Base.{
  ℕ, ◌≡◌, ◌≢◌, ◌↔◌, refl, true, none, some, arith, done, fault, Status, success, failure,
  Bool-cases, inl, inr, ◌⊎◌,
}
use nextgen.Crypto.Range.{BigNum, rand_range_no_crypto}
use nextgen.Crypto.Setup.{
  CryptoMethod, crypto, no_crypto, other_method, range_crypto, range_no_crypto, CryptoState,
  Entropy, setup_rand_range, Hardware, accelerated, absent, broken, setup_hardware_acceleration,
  rand_range, choose_hardware, setup_crypto_module, using_hardware_prng,
}

Hardware-cases : (h : Hardware) → (h ≡ accelerated) ⊎ ((h ≡ absent) ⊎ (h ≡ broken))
Hardware-cases accelerated = inl refl
Hardware-cases absent = inr (inl refl)
Hardware-cases broken = inr (inr refl)

-- A module that counts as set up has its generator.
abbrev pub IsReady : CryptoState → Type 0
IsReady s = s.crypto_setup ≡ true → s.rand_range_pointer ≢ none

module _ (bn : BigNum) (os : Entropy bn.World) where
  choose-IsReady :
      (s t : CryptoState) (w w' : bn.World) (r : Status)
      → s.rand_range_pointer ≡ some range_crypto
      → choose_hardware bn os s w ≡ done (r, t, w')
      → IsReady t
  unfolding choose_hardware
  choose-IsReady s t w w' r p e = ground arith

  -- Whatever setup_crypto_module returns, a module that counts as set up has its generator.
  pub setup-IsReady :
      (m : CryptoMethod) (s t : CryptoState) (w w' : bn.World) (r : Status)
      → IsReady s
      → setup_crypto_module bn os m s w ≡ done (r, t, w')
      → IsReady t
  unfolding setup_crypto_module setup_rand_range
  setup-IsReady no_crypto s t w w' r ready e = ground arith
  setup-IsReady other_method s t w w' r ready e = ground arith
  setup-IsReady crypto s t w w' r ready e =
      ground (arith, choose-IsReady (setup_rand_range crypto s).1 t w w' r)

  -- In such a module rand_range faults only on a division by zero: at range 0, and with the
  -- generator that is not cryptographic.
  rand_range-fault :
      (range : ℕ) (s : CryptoState) (w : bn.World)
      → IsReady s
      → (rand_range bn os range s w ≡ fault)
        ↔ ((s.crypto_setup ≡ true) × (s.rand_range_pointer ≡ some range_no_crypto) × (range ≡ 0))
  unfolding rand_range rand_range_no_crypto
  rand_range-fault range s w ready =
      (λ f. ground (arith, ready), λ p. ground (arith, p.0, p.1, p.2))

  choose-setup :
      (s t : CryptoState) (w w' : bn.World)
      → choose_hardware bn os s w ≡ done (success, t, w')
      → (t.crypto_setup ≡ true)
        × ((t.software_prng ≡ 0) ↔ ((setup_hardware_acceleration bn os w).0 ≡ accelerated))
  unfolding choose_hardware
  choose-setup s t w w' e = elim (Hardware-cases (setup_hardware_acceleration bn os w).0) [
    | inl h ↦ (ground (arith, h), (λ x. h, λ x. ground (arith, h)))
    | inr (inl h) ↦ (ground (arith, h), (λ x. ground (arith, h), λ x. ground (arith, h)))
    | inr (inr h) ↦ ground (arith, h)
  ]

  -- The module is set up once: after a call of setup_crypto_module that succeeded, whatever the
  -- method, every further call fails and changes nothing.
  setup_once :
      (m m' : CryptoMethod) (s t : CryptoState) (w w' w'' : bn.World)
      → setup_crypto_module bn os m s w ≡ done (success, t, w')
      → setup_crypto_module bn os m' t w'' ≡ done (failure, t, w'')
  unfolding setup_crypto_module setup_rand_range
  setup_once no_crypto m' s t w w' w'' e = ground arith
  setup_once other_method m' s t w w' w'' e = ground arith
  setup_once crypto m' s t w w' w'' e =
      ground (arith, choose-setup (setup_rand_range crypto s).1 t w w')

  -- After a successful setup with cryptographic numbers, using_hardware_prng returns 0, which the
  -- code reads as false, exactly when the hardware generator was found and chosen.
  using_hardware-setup :
      (s t : CryptoState) (w w' : bn.World)
      → setup_crypto_module bn os crypto s w ≡ done (success, t, w')
      → (using_hardware_prng t ≡ 0) ↔ ((setup_hardware_acceleration bn os w).0 ≡ accelerated)
  unfolding setup_crypto_module setup_rand_range using_hardware_prng
  using_hardware-setup s t w w' e = elim (Bool-cases s.crypto_setup) [
    | inl b ↦ ground (arith, b)
    | inr b ↦ (choose-setup (setup_rand_range crypto s).1 t w w' (ground (arith, b))).1
  ]
