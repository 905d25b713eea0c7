-- ===== src/Float/Fixed.antt =====
-- A float type for tests and witnesses: numbers with four decimals, as integers.
use toss_invest_ai.Prelude.{zero, suc, ◌*◌, ◌-◌, ◌^◌, Option, none, some}
use toss_invest_ai.Prelude.Int.{ℤ, pos, negsuc, ◌+ℤ◌, ◌-ℤ◌, ◌*ℤ◌, quotient, ltb_ℤ, leb_ℤ, eq_ℤ}
use toss_invest_ai.Float.{Float}

pub record Fixed : Type 0 where
  pub units : ℤ

abbrev pub fixed : ℤ → Fixed
fixed n = record { units = n }

-- The quotient of a nonzero divisor, towards zero.
abbrev divide_units : ℤ → ℤ → Option Fixed
divide_units a (pos zero) = none
divide_units a (pos (suc d)) = some (fixed (quotient (a *ℤ pos 10_000) (suc d)))
divide_units a (negsuc d) = some (fixed (pos 0 -ℤ quotient (a *ℤ pos 10_000) (suc d)))

abbrev whole : Option Fixed → Option Fixed
whole none = none
whole (some x) = some (fixed (quotient x.units 10_000 *ℤ pos 10_000))

instance unfoldable pub fixed_float : Float Fixed
unfolding ◌+ℤ◌ ◌-ℤ◌ ◌*ℤ◌ quotient
fixed_float = record {
  of_int = λ n. fixed (n *ℤ pos 10_000);
  decimal = λ m k. fixed (pos (m * 10 ^ (4 - k)));
  add = λ x y. fixed (x.units +ℤ y.units);
  sub = λ x y. fixed (x.units -ℤ y.units);
  mul = λ x y. fixed (quotient (x.units *ℤ y.units) 10_000);
  negate = λ x. fixed (pos 0 -ℤ x.units);
  divide = λ x y. divide_units x.units y.units;
  floor_divide = λ x y. whole (divide_units x.units y.units);
  truncate = λ x. some (quotient x.units 10_000);
  round = λ x. some (quotient (x.units +ℤ pos 5_000) 10_000);
  less = λ x y. ltb_ℤ x.units y.units;
  at_most = λ x y. leb_ℤ x.units y.units;
  equal = λ x y. eq_ℤ x.units y.units;
}
