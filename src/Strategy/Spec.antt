-- ===== src/Strategy/Spec.antt =====
-- backend/app/schemas/strategy_spec.py: validated strategy specifications. A literal type of one
-- value is the type of its values, since the semantics check it again; the discriminator `type`
-- of an operand is its constructor.
use agentic_trading_platform.Prelude.{ℕ, Option, String}
use agentic_trading_platform.Prelude.Int.{ℤ, pos}
use agentic_trading_platform.Decimal.{Decimal}

pub data IndicatorName : Type 0 where
  sma ema : IndicatorName

pub data Operator : Type 0 where
  crosses_above crosses_below : Operator
  greater_than less_than greater_than_or_equal less_than_or_equal : Operator

pub data Operand (D : Type 0) : Type 0 where
  indicator : IndicatorName → String → ℤ → Operand D
  price : String → Operand D
  constant : D → Operand D

pub record Condition (D : Type 0) : Type 0 where
  pub left : Operand D
  pub operator : Operator
  pub right : Operand D

pub record ExecutionSettings : Type 0 where
  pub direction : String
  pub position_size_percent : ℕ
  pub signal_execution : String

pub record StrategySpecification (D : Type 0) : Type 0 where
  pub version : String
  pub symbol : String
  pub interval : String
  pub entry : Condition D
  pub exit : Condition D
  pub execution : ExecutionSettings
  pub stop_loss_percent : Option D
  pub take_profit_percent : Option D

module _ {D : Type 0} ⦃d : Decimal D⦄ where
  abbrev pub max_risk_percent : D
  max_risk_percent = d.of_int (pos 50)
