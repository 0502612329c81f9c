-- ===== src/Crypto/Setup/Examples.antt =====
-- The set-up of src/crypto/crypto.c on a machine with and without a hardware generator.
use nextgen.Base.{ℕ, ◌+◌, ◌≡◌, refl, true, some, done, success}
use nextgen.Crypto.Range.Instance.{counter}
use nextgen.Crypto.Setup.{
  crypto, range_crypto, range_no_crypto, CryptoState, Entropy, setup_rand_range,
  setup_hardware_acceleration, choose_hardware, setup_crypto_module, initial,
}
use nextgen.Crypto.Setup.Ready.{IsReady, setup-IsReady}

-- Every call succeeds, and reads what was asked for.
abbrev willing : Entropy ℕ
willing = record {
  engine_by_id = λ w. (true, w);
  engine_init = λ w. (true, w);
  engine_set_default = λ w. (true, w);
  rand = λ w. (w, w + 1);
  malloc = λ n w. (true, w);
  open_urandom = λ w. (true, w);
  read = λ n w. (n, w);
  sha512 = λ w. (true, w);
  rand_add = λ w. w;
}

abbrev hardware : CryptoState
hardware = record { rand_range_pointer = some range_crypto; software_prng = 0; crypto_setup = true }

abbrev plain : CryptoState
plain = record { rand_range_pointer = some range_no_crypto; software_prng = 0; crypto_setup = true }

hardware_setup : setup_crypto_module counter willing crypto initial 5 ≡ done (success, hardware, 5)
unfolding setup_crypto_module setup_rand_range choose_hardware setup_hardware_acceleration
hardware_setup = refl

IsReady-initial : IsReady initial
IsReady-initial e = cc

IsReady-plain : IsReady plain
IsReady-plain e f = cc

setup-IsReady_example : IsReady hardware
setup-IsReady_example =
    setup-IsReady counter willing crypto initial hardware 5 5 success IsReady-initial hardware_setup
