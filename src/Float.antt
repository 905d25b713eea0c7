-- ===== src/Float.antt =====
-- Python's `float`, as far as core/ uses it: the conversions from and to `int`, decimal literals,
-- arithmetic and comparisons. The type is a parameter of the whole development, so that every
-- theorem holds of the doubles with their rounding, infinities and NaN. A law that a theorem needs
-- is a named hypothesis of that theorem.
pub mod Fixed
use toss_invest_ai.Prelude.{ℕ, Bool, Option}
use toss_invest_ai.Prelude.Int.{ℤ}

pub record Float (F : Type 0) : Type 0 where
  -- `float(n)`, which Python also applies to the `int` of a mixed operation
  pub of_int : ℤ → F
  -- the literal with these digits, so many of them behind the point
  pub decimal : ℕ → ℕ → F
  pub add : F → F → F
  pub sub : F → F → F
  pub mul : F → F → F
  pub negate : F → F
  -- `none` is ZeroDivisionError
  pub divide : F → F → Option F
  pub floor_divide : F → F → Option F
  -- `int(x)` and `round(x)`: `none` is the error at an infinity or NaN; a NaN
  -- is not at most itself
  pub truncate : F → Option ℤ
  pub round : F → Option ℤ
  pub less : F → F → Bool
  pub at_most : F → F → Bool
  pub equal : F → F → Bool

module _ {F : Type 0} ⦃f : Float F⦄ where
  infixl 65 ◌⊕◌ ◌⊖◌
  infixl 70 ◌⊗◌
  abbrev pub ◌⊕◌ : F → F → F
  x ⊕ y = f.add x y

  abbrev pub ◌⊖◌ : F → F → F
  x ⊖ y = f.sub x y

  abbrev pub ◌⊗◌ : F → F → F
  x ⊗ y = f.mul x y

  abbrev pub of_int : ℤ → F
  of_int n = f.of_int n

  abbrev pub decimal : ℕ → ℕ → F
  decimal m k = f.decimal m k

  abbrev pub divide : F → F → Option F
  divide x y = f.divide x y

  abbrev pub less : F → F → Bool
  less x y = f.less x y

  abbrev pub at_most : F → F → Bool
  at_most x y = f.at_most x y

  abbrev pub equal : F → F → Bool
  equal x y = f.equal x y
