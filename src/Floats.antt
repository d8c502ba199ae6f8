-- ===== src/Floats.antt =====
-- The arithmetic of the codec. A `float32` is a value of any type with these operations, which round as
-- Go's do; a comparison is false on a NaN.
use i_lbc_go.Prelude.{ℕ, Bool, true, false, ◌≡◌}

-- A constant of the source: digits, of which so many are behind the point.
pub data Decimal : Type 0 where
  plus minus : (digits places : ℕ) → Decimal

-- `below` (`<`), `above` (`>`), `at_most` (`<=`) and `at_least` (`>=`) compare as a `float64` with a constant,
-- and so does `root_below` with the square root.
-- `bits` is `math.Float32bits`, and `to_int16` the 16 bits of `int16(x)`.
-- `sqrt`, `log10`, `power10` and `cos` are those of package math, rounded to a `float32`.
pub record Floats : Type 1 where
  pub Float : Type 0
  pub constant : Decimal → Float
  pub of_int : ℕ → Float
  pub bits : Float → ℕ
  pub to_int16 : Float → ℕ
  pub less : Float → Float → Bool
  pub less_eq : Float → Float → Bool
  pub below : Float → Decimal → Bool
  pub above : Float → Decimal → Bool
  pub at_most : Float → Decimal → Bool
  pub at_least : Float → Decimal → Bool
  pub root_below : Float → Decimal → Bool
  pub abs : Float → Float
  pub neg : Float → Float
  pub add : Float → Float → Float
  pub sub : Float → Float → Float
  pub mul : Float → Float → Float
  pub div : Float → Float → Float
  pub sqrt : Float → Float
  pub log10 : Float → Float
  pub power10 : Float → Float
  pub cos : Float → Float

-- `float32(0)` and `float32(1)`
abbrev pub nought : (F : Floats) → F.Float
nought F = F.constant (plus 0 0)

abbrev pub unity : (F : Floats) → F.Float
unity F = F.constant (plus 1 0)

-- What Go's `<` is known to satisfy.
pub record IsOrdered (F : Floats) : Type 0 where
  pub less_trans : (a b c : F.Float) → F.less a b ≡ true → F.less b c ≡ true → F.less a c ≡ true
  pub less_irrefl : (a : F.Float) → F.less a a ≡ false

-- Comparisons without a NaN.
pub record IsTotal (F : Floats) : Type 0 where
  pub less_total : (a b : F.Float) → F.less_eq a b ≡ false → F.less b a ≡ true
