-- ===== src/Prelude/Tables.antt =====
-- Over a small range, every value is checked by evaluation.
use Prim.Native.Nat.{ℕ, zero, suc, ◌<◌}
use mathlib.Core.Path.{◌≡◌}
use mathlib.Core.Bool.{Bool, true, ◌&&◌}
use native.Mathlib.Omega.{arith}

-- A test over the values from the bound down.
unfoldable pub passes_under : (ℕ → Bool) → ℕ → Bool
passes_under test zero = true
passes_under test (suc v) = passes_under test v && test v

pub passes_under_lem :
    (test : ℕ → Bool) (bound v : ℕ) → v < bound → passes_under test bound ≡ true → test v ≡ true
unfolding passes_under
passes_under_lem test zero v small passed = absurd (omega arith)
passes_under_lem test (suc bound) v small passed = ground (passes_under_lem test bound v, arith)
