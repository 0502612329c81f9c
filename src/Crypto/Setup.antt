-- ===== src/Crypto/Setup.antt =====
-- Setting up the random numbers of src/crypto/crypto.c: the module's three static variables, the
-- choice of a generator, and the seeding from /dev/urandom.
pub mod Ready
mod Examples
use nextgen.Base.{
  ℕ, zero, suc, ◌+◌, Bool, true, false, Option, none, some, ◌==◌, if◌then◌else◌, Outcome, done,
  fault, ◌>>=◌, Status, success, failure,
}
use nextgen.Crypto.Range.{BigNum, rand_range_crypto, rand_range_no_crypto}

-- `enum crypto_method`, and any other number that a caller may pass.
pub data CryptoMethod : Type 0 where
  crypto no_crypto other_method : CryptoMethod

-- The two functions that `rand_range_pointer` may point to.
pub data RandRange : Type 0 where
  range_no_crypto range_crypto : RandRange

pub record CryptoState : Type 0 where
  pub rand_range_pointer : Option RandRange
  pub software_prng : ℕ
  pub crypto_setup : Bool

abbrev pub initial : CryptoState
initial = record { rand_range_pointer = none; software_prng = 0; crypto_setup = false }

unfoldable pub using_hardware_prng : CryptoState → ℕ
using_hardware_prng s = s.software_prng

unfoldable pub setup_rand_range : CryptoMethod → CryptoState → Status × CryptoState
setup_rand_range no_crypto s = (success, record s { rand_range_pointer = some range_no_crypto })
setup_rand_range crypto s = (success, record s { rand_range_pointer = some range_crypto })
setup_rand_range other_method s = (failure, s)

-- The three results of `setup_hardware_acceleration`: 0, 1 and -1.
pub data Hardware : Type 0 where
  accelerated absent broken : Hardware

-- What the engine calls of LibreSSL, rand, and the file calls answer. `read` gives the number of
-- bytes that were read, `sha512` says whether the buffer could be hashed.
pub record Entropy (World : Type 0) : Type 0 where
  pub engine_by_id : World → Bool × World
  pub engine_init : World → Bool × World
  pub engine_set_default : World → Bool × World
  pub rand : World → ℕ × World
  pub malloc : ℕ → World → Bool × World
  pub open_urandom : World → Bool × World
  pub read : ℕ → World → ℕ × World
  pub sha512 : World → Bool × World
  pub rand_add : World → World

module _ (bn : BigNum) (os : Entropy bn.World) where
  unfoldable pub setup_hardware_acceleration : bn.World → Hardware × bn.World
  setup_hardware_acceleration w =
      let (engine, w₁) = os.engine_by_id w in
      if engine
      then (let (ready, w₂) = os.engine_init w₁ in
          if ready
          then (let (chosen, w₃) = os.engine_set_default w₂ in
              if chosen then (accelerated, w₃) else (broken, w₃))
          else (broken, w₂))
      else (absent, w₁)

  -- `rand_range`: `done none` is the return code -1; a call through a pointer that is not set
  -- faults.
  unfoldable pub rand_range : ℕ → CryptoState → bn.World → Outcome (Option ℕ × bn.World)
  rand_range range s w =
      if s.crypto_setup
      then elim s.rand_range_pointer [
        | none ↦ fault
        | some range_no_crypto ↦
            let (number, w₁) = os.rand w in
            rand_range_no_crypto range number >>= λ n. done (some n, w₁)
        | some range_crypto ↦ done (rand_range_crypto bn range w)
      ]
      else done (none, w)

  -- One buffer of /dev/urandom is read, hashed and added.
  unfoldable pub add_entropy : ℕ → bn.World → Status × bn.World
  add_entropy len w =
      let (got, w₁) = os.read len w in
      if got == len
      then (let (hashed, w₂) = os.sha512 w₁ in
          if hashed then (success, os.rand_add w₂) else (failure, w₂))
      else (failure, w₁)

  -- The loop of `seed_prng`.
  unfoldable pub seed_loop : ℕ → CryptoState → bn.World → Outcome (Status × bn.World)
  seed_loop zero s w = done (success, w)
  seed_loop (suc n) s w = rand_range 4096 s w >>= λ r. elim r.0 [
    | none ↦ done (failure, r.1)
    | some buf_len ↦
        let (room, w₁) = os.malloc (buf_len + 1) r.1 in
        elim room [
          | false ↦ done (failure, w₁)
          | true ↦
              let (added, w₂) = add_entropy buf_len w₁ in
              elim added [ failure ↦ done (failure, w₂) | success ↦ seed_loop n s w₂ ]
        ]
  ]

  unfoldable pub seed_prng : CryptoState → bn.World → Outcome (Status × bn.World)
  seed_prng s w =
      let (room, w₁) = os.malloc 6000 w in
      if room
      then (let (opened, w₂) = os.open_urandom w₁ in
          if opened
          then (let (added, w₃) = add_entropy 5999 w₂ in
              elim added [
                | failure ↦ done (failure, w₃)
                | success ↦ rand_range 256 s w₃ >>= λ r. elim r.0 [
                  | none ↦ done (failure, r.1)
                  | some loops ↦ seed_loop loops s r.1
                ]
              ])
          else done (failure, w₂))
      else done (failure, w₁)

  -- What follows once a generator is chosen.
  unfoldable pub choose_hardware :
      CryptoState → bn.World → Outcome (Status × CryptoState × bn.World)
  choose_hardware s w =
      let (hardware, w₁) = setup_hardware_acceleration w in
      elim hardware [
        | accelerated ↦ done (success, record s { software_prng = 0; crypto_setup = true }, w₁)
        | absent ↦
            let s' : CryptoState = record s { software_prng = 1; crypto_setup = true } in
            seed_prng s' w₁ >>= λ r. done (r.0, s', r.1)
        | broken ↦ done (failure, s, w₁)
      ]

  unfoldable pub setup_crypto_module :
      CryptoMethod → CryptoState → bn.World → Outcome (Status × CryptoState × bn.World)
  setup_crypto_module method s w = if s.crypto_setup then done (failure, s, w) else elim method [
    | no_crypto ↦ done (success, record (setup_rand_range no_crypto s).1 { crypto_setup = true }, w)
    | crypto ↦ choose_hardware (setup_rand_range crypto s).1 w
    | other_method ↦ done (failure, s, w)
  ]
