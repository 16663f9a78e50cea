-- ===== src/Tests/Tenths.antt =====
-- A number of tenths in place of a double, with arithmetic that rounds down and stops at 0.
use btrader.Prelude.{ℕ, ◌+◌, ◌-◌, ◌*◌, ◌/◌, ◌^◌, arith, ltb, leb, ◌==◌}
use btrader.Prelude.Int.{ℤ, pos, negsuc}
use btrader.Double.{Double, IsIeee}

abbrev tenths_of : ℤ → ℕ
tenths_of (pos n) = n * 10
tenths_of (negsuc n) = 0

instance unfoldable pub tenths : Double ℕ
tenths = record {
  zero = 0;
  add = λ a b. a + b;
  sub = λ a b. a - b;
  mul = λ a b. a * b / 10;
  div = λ a b. a * 10 / b;
  lt = ltb;
  le = leb;
  eq = λ a b. a == b;
  trunc = λ a. pos (a / 10);
  of_int = tenths_of;
  literal = λ n k. n * 10 / 10 ^ k;
}

instance pub tenths-IsIeee : IsIeee ℕ
unfolding tenths
tenths-IsIeee = record {
  add_not_negative = λ x y h k. ground arith;
  le_of_lt = λ x y h. ground arith;
  lt_asymmetric = λ x y h. ground arith;
  lt_transitive = λ x y z h k. ground arith;
  sub_zero = λ x. ground arith;
}
