-- ===== src/Crypto/Range/Examples.antt =====
-- The random ranges of src/crypto/crypto.c at concrete ranges.
use nextgen.Base.{◌≤◌, refl, arith}
use nextgen.Crypto.Range.{default_rand_range, default_rand_range-le}
use nextgen.Crypto.Range.Instance.{counter}

-- Ten draws a number from 0 to 10.
default_rand_range-le_example : 10 ≤ 10
unfolding default_rand_range
default_rand_range-le_example =
    default_rand_range-le counter 10 10 21 (omega arith) (λ e. cc) (λ e. cc) refl
