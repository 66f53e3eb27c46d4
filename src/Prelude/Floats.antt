-- ===== src/Prelude/Floats.antt =====
-- The floating-point operations that scores, durations and costs use. Python's floats are no code of the
-- repository: what is assumed is that a comparison of the scores, none of which is a NaN, is total
-- and transitive.
use mini_ai_cloud.Prelude.Order.{Order, le_refl, le_of_not}
use mini_ai_cloud.Prelude.Tests.{if◌then◌else◌}
use Prim.Native.Nat.{ℕ}
use mathlib.Core.Bool.{Bool, true, not}
use mathlib.Core.Path.{◌≡◌}
use native.Mathlib.Omega.{arith}

pub record Floats : Type 1 where
  pub F : Type 0
  -- `a / b` of two integers.
  pub ratio : ℕ → ℕ → F
  -- `float(n)`.
  pub of_nat : ℕ → F
  pub add : F → F → F
  pub mul : F → F → F
  pub div : F → F → F
  -- `round(a)`, where `a` is not negative.
  pub round : F → ℕ
  pub neg : F → F
  pub order : Order F

module _ (fl : Floats) where
  -- `max(a, b)` keeps the first of two equal values.
  unfoldable pub float_max : fl.F → fl.F → fl.F
  float_max a b = if fl.order.le b a then a else b

  -- `a > b`
  abbrev pub float_gt : fl.F → fl.F → Bool
  float_gt a b = not (fl.order.le a b)

  pub le-float_max_left : (a b : fl.F) → fl.order.le a (float_max a b) ≡ true
  unfolding float_max
  le-float_max_left a b = ground (arith, le_refl fl.order a, le_of_not fl.order b a)

  pub le-float_max_right : (a b : fl.F) → fl.order.le b (float_max a b) ≡ true
  unfolding float_max
  le-float_max_right a b = ground (arith, le_refl fl.order b)
