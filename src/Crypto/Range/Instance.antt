-- ===== src/Crypto/Range/Instance.antt =====
-- Big numbers that meet the assumptions of src/crypto/crypto.c.
use nextgen.Base.{ℕ, zero, suc, ◌%◌, ◌<◌, ◌≡◌, refl, true, some, arith}
use nextgen.Crypto.Range.{BigNum, Code, zero_code, one_code}

-- The state is the number that is drawn next; numbers are their own texts.
abbrev pub draw : ℕ → ℕ → (Code × ℕ) × ℕ
draw zero w = ((zero_code, 0), w)
draw (suc b) w = ((one_code, w % suc b), suc w)

pub draw-below : (bound w : ℕ) → (draw bound w).0.0 ≡ one_code → (draw bound w).0.1 < bound
draw-below zero w e = cc
draw-below (suc b) w e = grind arith

pub draw-text : (n t w : ℕ) → some n ≡ some t → t ≡ n
draw-text n t w e = cc

abbrev pub counter : BigNum
counter = record {
  World = ℕ;
  Text = ℕ;
  bn_new = λ w. (true, w);
  bn_set_word = λ n w. ((one_code, n), w);
  bn_rand_range = draw;
  bn_bn2dec = λ n w. (some n, w);
  strtol = λ t. t;
  rand_below = draw-below;
  set_word = λ n w e. refl;
  strtol-bn2dec = draw-text;
}
