-- ===== src/Backtest/Compiler/Total.antt =====
-- The signals of a strategy that compiles are generated without an exception.
use agentic_trading_platform.Prelude.{◌≡◌, refl, Bool, Option, List, length, ok, arith, >>-eq-ok}
use agentic_trading_platform.Prelude.Int.{pos, negsuc}
use agentic_trading_platform.Decimal.{Decimal}
use agentic_trading_platform.Strategy.Spec.{
  sma, ema, Operand, indicator, price, constant, Condition, StrategySpecification,
}
use agentic_trading_platform.Strategy.Semantics.Supported.{
  IsSupportedOperand, IsSupportedCondition, validate_strategy_semantics_iff,
}
use agentic_trading_platform.Strategy.Semantics.{validate_strategy_semantics}
use agentic_trading_platform.Backtest.Models.{MarketBar, Signal}
use agentic_trading_platform.Backtest.Sma.{sma_from, simple_moving_averages}
use agentic_trading_platform.Backtest.Compiler.{
  evaluate_operand, exponential_moving_averages, ema_values, evaluate_condition, CompiledStrategy,
  compile_strategy, generate_signals, signals_from,
}
use agentic_trading_platform.Backtest.Compiler.Truth.{truths, evaluate_condition-eq-truths}

module _ {D : Type 0} ⦃d : Decimal D⦄ where
  evaluate_operand_ok :
      (o : Operand D) (bars : List (MarketBar D))
      → IsSupportedOperand o
      → (values : List (Option D)) × (evaluate_operand o bars ≡ ok values)
  unfolding evaluate_operand simple_moving_averages exponential_moving_averages
  evaluate_operand_ok (price source) bars s = (_, refl)
  evaluate_operand_ok (constant value) bars s = (_, refl)
  evaluate_operand_ok (indicator name source (negsuc p)) bars s = absurd (omega arith)
  evaluate_operand_ok (indicator sma source (pos p)) bars s =
      (sma_from bars p 0 d.nought bars, ground arith)
  evaluate_operand_ok (indicator ema source (pos p)) bars s = (ema_values bars p, ground arith)

  evaluate_condition_ok :
      (c : Condition D) (bars : List (MarketBar D))
      → IsSupportedCondition c
      → (values : List Bool) × (evaluate_condition c bars ≡ ok values)
  evaluate_condition_ok c bars s =
      let (left, l) = evaluate_operand_ok c.left bars s.left_supported in
      let (right, r) = evaluate_operand_ok c.right bars s.right_supported in
      (
        truths c.operator left right 0 (length bars),
        rw (evaluate_condition-eq-truths c bars, l, r) refl,
      )

  -- A strategy that `compile_strategy` accepts can be run on any bars: `generate_signals` does not
  -- raise.
  pub compile_strategy-generate_signals_total :
      (s : StrategySpecification D) (self : CompiledStrategy D) (bars : List (MarketBar D))
      → compile_strategy s ≡ ok self
      → (signals : List Signal) × (generate_signals self bars ≡ ok signals)
  unfolding compile_strategy generate_signals
  compile_strategy-generate_signals_total s self bars e =
      let (valid, same) = >>-eq-ok (validate_strategy_semantics s) _ e in
      let good = (validate_strategy_semantics_iff s).0 valid in
      let (entry, p) = evaluate_condition_ok s.entry bars good.entry_supported in
      let (exit, q) = evaluate_condition_ok s.exit bars good.exit_supported in
      let is_s : self.specification ≡ s = ground arith in
      (signals_from entry exit 0 bars, rw (is_s, p, q) refl)
