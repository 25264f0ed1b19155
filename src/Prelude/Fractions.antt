-- ===== src/Prelude/Fractions.antt =====
-- Fractions of natural numbers, for the quotients that the program computes in floats.
use Prim.Native.Nat.{ℕ, ◌*◌}
use mathlib.Core.Bool.{Bool}
use ids_bachelor_thesis.Prelude.Tests.{ltb, leb, if◌then◌else◌}

pub record Ratio : Type 0 where
  pub num : ℕ
  pub den : ℕ

-- `a < b` and `a <= b`, for denominators above 0
abbrev pub ratio_ltb : Ratio → Ratio → Bool
ratio_ltb a b = ltb (a.num * b.den) (b.num * a.den)

abbrev pub ratio_leb : Ratio → Ratio → Bool
ratio_leb a b = leb (a.num * b.den) (b.num * a.den)

-- Python's `max(a, b)` is `a` unless `b` is greater.
abbrev pub ratio_max : Ratio → Ratio → Ratio
ratio_max a b = if ratio_ltb a b then b else a
