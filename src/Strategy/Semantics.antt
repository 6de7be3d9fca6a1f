-- ===== src/Strategy/Semantics.antt =====
-- backend/app/services/strategy_semantics.py: the checks that execution relies on, beyond the
-- shape of a specification. An operator and an indicator name are in their enumerations by type.
pub mod Supported
pub mod Text
use agentic_trading_platform.Prelude.{
  ℕ, ◌≡◌, Bool, true, false, not, ◌||◌, ◌&&◌, Option, none, some, String, ◌<>◌, str_eq, Result, ok,
  err, ◌>>=◌, ◌>>◌, raise_if, validation_error, ◌==◌, arith,
}
use agentic_trading_platform.Prelude.Int.{ℤ, pos, leb_ℤ}
use agentic_trading_platform.Decimal.{Decimal}
use agentic_trading_platform.Strategy.Spec.{
  Operand, indicator, price, constant, Condition, StrategySpecification, max_risk_percent,
}

abbrev only_close : String
only_close = "Only raw close price is currently supported."

abbrev bad_period : String
bad_period = "Indicator periods must be positive integers no greater than 1,000."

unfoldable pub validate_operand : {D : Type 0} → Operand D → String → Result (Unit {0})
validate_operand (indicator name source period) field_name = do
  raise_if (not (str_eq source "close")) (validation_error only_close)
  raise_if (not (leb_ℤ (pos 1) period && leb_ℤ period (pos 1000))) (validation_error bad_period)
validate_operand (price source) field_name =
    raise_if (not (str_eq source "close")) (validation_error only_close)
validate_operand (constant value) field_name = ok tt

unfoldable pub validate_condition : {D : Type 0} → Condition D → String → Result (Unit {0})
validate_condition condition field_name = do
  validate_operand condition.left field_name
  validate_operand condition.right field_name

module _ {D : Type 0} ⦃d : Decimal D⦄ where
  unfoldable pub validate_risk_percent : Option D → String → Result (Unit {0})
  validate_risk_percent none label = ok tt
  validate_risk_percent (some value) label =
      raise_if (not (d.is_finite value) || d.le value d.nought || d.lt max_risk_percent value)
        (validation_error (label <> " must be greater than 0% and no greater than 50%."))

  unfoldable pub validate_strategy_semantics : StrategySpecification D → Result (Unit {0})
  validate_strategy_semantics specification = do
    raise_if (not (str_eq specification.symbol "SPY"))
        (validation_error "Only SPY is supported in version 1.")
    raise_if (not (str_eq specification.interval "1d"))
        (validation_error "Only daily (1d) bars are supported in version 1.")
    raise_if (not (str_eq specification.execution.direction "long"))
        (validation_error "Only long-only strategies are supported in version 1.")
    raise_if (not (specification.execution.position_size_percent == 100))
        (validation_error "Position size must be exactly 100% in version 1.")
    raise_if (not (str_eq specification.execution.signal_execution "next_bar_open"))
        (validation_error "Signals must execute at the next available bar open.")
    validate_condition specification.entry "entry"
    validate_condition specification.exit "exit"
    validate_risk_percent specification.stop_loss_percent "Stop-loss"
    validate_risk_percent specification.take_profit_percent "Take-profit"
