-- ===== src/Store/Float.antt =====
-- Go's float64, as the money arithmetic of internal/web/checkout.go uses it. The numbers are a
-- parameter, with no law: what is proved holds however they round.
use duckstore.Prelude.{Bool}
use duckstore.Prelude.Int.{ℤ}

pub record Float : Type 1 where
  pub F : Type 0
  -- `float64(i)`
  pub of_int : ℤ → F
  pub mul : F → F → F
  pub div : F → F → F
  -- `<`
  pub less : F → F → Bool
  -- `int64(math.Round(x))`
  pub round : F → ℤ
