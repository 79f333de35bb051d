-- ===== src/Base/Tables.antt =====
-- Facts over a small range of numbers, by checking every one of them.
use Prim.Native.Nat.{ℕ, zero, suc, ◌<◌}
use mathlib.Core.Path.{◌≡◌}
use mathlib.Core.Bool.{Bool, true, false}
use native.Mathlib.Omega.{arith}
use mindoo_db.Base.Tests.{if◌then◌else◌}

-- The test passes for all numbers below a bound.
unfoldable pub passes_up_to : (ℕ → Bool) → ℕ → Bool
passes_up_to test zero = true
passes_up_to test (suc bound) = if test bound then passes_up_to test bound else false

pub passes_up_to_at :
    (test : ℕ → Bool) (bound k : ℕ) → k < bound → passes_up_to test bound ≡ true → test k ≡ true
unfolding passes_up_to
passes_up_to_at test zero k small h = elim small [ ]
passes_up_to_at test (suc bound) k small h = ground (arith, passes_up_to_at test bound k)
