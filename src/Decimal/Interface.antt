-- ===== src/Decimal/Interface.antt =====
-- The operations of `decimal.Decimal` that the back end calls.
use agentic_trading_platform.Prelude.{Bool, if◌then◌else◌, Result, ok, err, division_by_zero}
use agentic_trading_platform.Prelude.Int.{ℤ}

pub record Decimal (D : Type 0) : Type 0 where
  -- `Decimal("0")`
  pub nought : D
  -- `Decimal(n)`, also of a decimal literal with no fraction
  pub of_int : ℤ → D
  pub add : D → D → D
  pub sub : D → D → D
  pub mul : D → D → D
  -- `a / b` and `int(a // b)` at a divisor that is not zero
  pub div : D → D → D
  pub floor_div : D → D → ℤ
  pub le : D → D → Bool
  pub lt : D → D → Bool
  pub is_zero : D → Bool
  pub is_finite : D → Bool

module _ {D : Type 0} ⦃d : Decimal D⦄ where
  -- `a / b`, which raises at a divisor of zero.
  abbrev pub checked_div : D → D → Result D
  checked_div a b = if d.is_zero b then err division_by_zero else ok (d.div a b)

  -- `int(a // b)`
  abbrev pub checked_floor_div : D → D → Result ℤ
  checked_floor_div a b = if d.is_zero b then err division_by_zero else ok (d.floor_div a b)
