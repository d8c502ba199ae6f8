-- ===== src/Tests/Whole.antt =====
-- Whole numbers of millionths in place of floats, for the tests.
use i_lbc_go.Prelude.{ℕ, ◌+◌, ◌-◌, ◌*◌, ◌/◌, ◌%◌, ◌^◌, arith, ltb, leb}
use i_lbc_go.Floats.{Decimal, plus, minus, Floats, IsOrdered, IsTotal}

-- 0 for a negative constant.
abbrev pub millionths : Decimal → ℕ
millionths (plus digits places) = digits * 1000000 / 10 ^ places
millionths (minus digits places) = 0

-- The functions of package math are stand-ins.
abbrev pub Whole : Floats
Whole = record {
  Float = ℕ;
  constant = millionths;
  of_int = λ n. n * 1000000;
  bits = λ x. x;
  to_int16 = λ x. x / 1000000 % 65536;
  less = ltb;
  less_eq = leb;
  below = λ x d. ltb x (millionths d);
  above = λ x d. ltb (millionths d) x;
  at_most = λ x d. leb x (millionths d);
  at_least = λ x d. leb (millionths d) x;
  root_below = λ x d. ltb x (millionths d);
  abs = λ x. x;
  neg = λ x. 0;
  add = λ x y. x + y;
  sub = λ x y. (x - y) + (y - x);
  mul = λ x y. x * y / 1000000;
  div = λ x y. x * 1000000 / y;
  sqrt = λ x. x;
  log10 = λ x. x;
  power10 = λ x. x;
  cos = λ x. x;
}

pub Whole-IsOrdered : IsOrdered Whole
Whole-IsOrdered = record { less_trans = λ a b c h k. ground arith; less_irrefl = λ a. ground arith }

pub Whole-IsTotal : IsTotal Whole
Whole-IsTotal = record { less_total = λ a b h. ground arith }
