-- ===== src/Base/Tables.antt =====
-- Facts that are checked at every number below a limit.
use Prim.Native.Nat.{ℕ, zero, suc, ◌<◌}
use mathlib.Core.Path.{◌≡◌}
use mathlib.Core.Bool.{Bool, true, ◌&&◌}
use native.Mathlib.Omega.{arith}

unfoldable pub holds_under : (ℕ → Bool) → ℕ → Bool
holds_under test zero = true
holds_under test (suc limit) = holds_under test limit && test limit

pub holds_under_at :
    (test : ℕ → Bool) (limit byte : ℕ)
    → byte < limit
    → holds_under test limit ≡ true
    → test byte ≡ true
unfolding holds_under
holds_under_at test zero byte below whole = absurd (omega arith)
holds_under_at test (suc limit) byte below whole = ground (arith, holds_under_at test limit byte)
