-- ===== src/Tests/Backtest.antt =====
-- The theorems about averages, compiled strategies and execution at concrete bars.
use agentic_trading_platform.Prelude.{
  ℕ, ◌≡◌, refl, Option, none, some, List, [], ◌∷◌, ◌++◌, ok, arith, Grows,
}
use agentic_trading_platform.Prelude.Int.{ℤ, pos, ◌+ℤ◌, ◌-ℤ◌}
use agentic_trading_platform.Decimal.{fixed, fixed-IsExact, IsExact-IsOrdered}
use agentic_trading_platform.Strategy.Semantics.{
  validate_strategy_semantics, validate_condition, validate_operand, validate_risk_percent,
}
use agentic_trading_platform.Backtest.Models.{MarketBar, Signal, buy, sell, ExecutionResult}
use agentic_trading_platform.Backtest.Sma.{
  simple_moving_averages, sma_from, roll, generate_sma_crossover_signals,
}
use agentic_trading_platform.Backtest.Sma.Window.{IsMean, simple_moving_averages-IsMean}
use agentic_trading_platform.Backtest.Compiler.{
  CompiledStrategy, compile_strategy, generate_signals,
}
use agentic_trading_platform.Backtest.Compiler.Causal.{generate_signals-Grows}
use agentic_trading_platform.Backtest.Compiler.Total.{compile_strategy-generate_signals_total}
use agentic_trading_platform.Backtest.Compiler.Crossover.{
  crossover_specification, crossover_specification-generate_signals,
}
use agentic_trading_platform.Backtest.Engine.Risk.{validate_risk_control}
use agentic_trading_platform.Backtest.Engine.Run.{execute_long_only_signals}
use agentic_trading_platform.Backtest.Engine.Sound.Settled.{
  IsSettled, execute_long_only_signals-IsSettled,
}
use agentic_trading_platform.Prelude.{suc, false, true, get_or}
use agentic_trading_platform.Strategy.Semantics.Supported.{IsSupportedCondition}
use agentic_trading_platform.Backtest.Compiler.{
  evaluate_operand, evaluate_condition, condition_first_eligible_index, is_crossover, values_from,
  value_at, crosses_at, crosses,
}
use agentic_trading_platform.Backtest.Compiler.WarmUp.{
  AreThere, condition_first_eligible_index_exact,
}
use agentic_trading_platform.Prelude.{drop, ◌↔◌}
use agentic_trading_platform.Prelude.Int.{◌*ℤ◌, ◌≤ℤ◌, ◌<ℤ◌}
use agentic_trading_platform.Strategy.Spec.{Condition, StrategySpecification}
use agentic_trading_platform.Strategy.Semantics.{validate_strategy_semantics}
use agentic_trading_platform.Strategy.Semantics.Supported.{
  IsSupported, validate_strategy_semantics_iff,
}
use agentic_trading_platform.Backtest.Models.{EquityPoint}
use agentic_trading_platform.Backtest.Metrics.{calculate_buy_and_hold_equity_curve}
use agentic_trading_platform.Backtest.Metrics.Benchmark.{
  AreInvested, calculate_buy_and_hold_equity_curve-AreInvested,
}
use agentic_trading_platform.Prelude.{map}
use agentic_trading_platform.Backtest.Compiler.{
  first_signal_eligible_index, operand_first_evaluable_index, signals_from, signals_at,
}
use agentic_trading_platform.Backtest.Engine.Portfolio.{
  execute_buy, execute_sell, close_position, completed_trade, exit_position,
}
use agentic_trading_platform.Backtest.Engine.Risk.{
  calculate_risk_levels, evaluate_opening_risk_exit, evaluate_intraday_risk_exit,
}
use agentic_trading_platform.Backtest.Engine.Run.{
  open_risk, process_signal, process_signals, open_phase, intraday_phase, run_bar, run_bars,
  final_exit, liquidate, sum_profit_loss, run_signals, signals_at_timestamp,
}
use agentic_trading_platform.Backtest.Metrics.{
  calculate_metrics, gain_percentage, drawdown_from, calculate_maximum_drawdown, win_rate,
  calculate_cagr,
}
use agentic_trading_platform.Market.Model.{MarketData}
use agentic_trading_platform.Backtest.Preview.{
  StrategyPreview, insert_bar, load_market_bars, preview_from, preview_on,
  create_specification_preview,
}
use agentic_trading_platform.Backtest.Preview.Comparison.{create_specification_preview-LinesUp}

abbrev bar : ℕ → ℕ → ℕ → ℕ → ℕ → MarketBar ℤ
bar timestamp o h l c = record {
  timestamp = timestamp;
  open_price = fixed.of_int (pos o);
  high_price = fixed.of_int (pos h);
  low_price = fixed.of_int (pos l);
  close_price = fixed.of_int (pos c);
  volume = 1000;
}

abbrev bars : List (MarketBar ℤ)
bars = bar 1 100 110 90 105 ∷ bar 2 100 120 95 110 ∷ bar 3 110 111 80 85 ∷ bar 4 90 95 85 91 ∷ []

abbrev more_bars : List (MarketBar ℤ)
more_bars = bar 5 91 99 90 97 ∷ bar 6 97 99 60 65 ∷ []

abbrev signals : List Signal
signals =
    record { timestamp = 1; signal_type = buy } ∷ record { timestamp = 3; signal_type = sell } ∷ []

abbrev cash : ℤ
cash = fixed.of_int (pos 1000)

abbrev ten_percent : Option ℤ
ten_percent = some (fixed.of_int (pos 10))

execute_long_only_signals-IsSettled_example :
    (r : ExecutionResult ℤ) × (execute_long_only_signals bars signals cash ten_percent none ≡ ok r)
    × IsSettled fixed-IsExact bars cash r
unfolding validate_risk_control
execute_long_only_signals-IsSettled_example =
    execute_long_only_signals-IsSettled fixed-IsExact bars signals cash ten_percent none (λ e. cc)
      (ground arith) (omega arith) refl refl

averages :
    simple_moving_averages bars (pos 2)
    ≡ ok (none ∷ some (pos 1_075_000) ∷ some (pos 975_000) ∷ some (pos 880_000) ∷ [])
unfolding simple_moving_averages sma_from roll ◌+ℤ◌ ◌-ℤ◌
averages = refl

simple_moving_averages-IsMean_example : IsMean fixed-IsExact bars 2 3 (some (pos 880_000))
simple_moving_averages-IsMean_example =
    simple_moving_averages-IsMean fixed-IsExact bars 2 averages 3 (omega arith)

abbrev pub crossover : CompiledStrategy ℤ
crossover = record { specification = crossover_specification "SPY" "1d" (pos 1) (pos 2) }

generate_signals-Grows_example :
    Grows (generate_signals crossover bars) (generate_signals crossover (bars ++ more_bars))
generate_signals-Grows_example = generate_signals-Grows bars more_bars crossover

crossover_specification-generate_signals_example :
    generate_signals crossover bars ≡ generate_sma_crossover_signals bars (pos 1) (pos 2)
crossover_specification-generate_signals_example =
    crossover_specification-generate_signals (IsExact-IsOrdered fixed-IsExact) "SPY" "1d" 1 2 bars
      (omega arith) (omega arith)

pub compiled : compile_strategy (crossover_specification "SPY" "1d" (pos 1) (pos 2)) ≡ ok crossover
unfolding compile_strategy crossover_specification validate_strategy_semantics validate_condition
    validate_operand validate_risk_percent
compiled = refl

compile_strategy-generate_signals_total_example :
    (found : List Signal) × (generate_signals crossover bars ≡ ok found)
compile_strategy-generate_signals_total_example =
    compile_strategy-generate_signals_total (crossover_specification "SPY" "1d" (pos 1) (pos 2))
      crossover bars compiled

calculate_buy_and_hold_equity_curve-AreInvested_example :
    (points : List (EquityPoint ℤ)) × (quantity : ℤ) × (calculate_buy_and_hold_equity_curve bars
        cash 1
      ≡ ok points)
    × (pos 0 ≤ℤ quantity)
    × (quantity *ℤ pos 1_000_000 ≤ℤ cash)
    × AreInvested fixed-IsExact cash (bar 2 100 120 95 110) quantity (drop 1 bars) points
calculate_buy_and_hold_equity_curve-AreInvested_example =
    calculate_buy_and_hold_equity_curve-AreInvested fixed-IsExact bars (drop 2 bars)
      (bar 2 100 120 95 110) cash 1 refl (omega arith) (omega arith)

abbrev specification : StrategySpecification ℤ
specification = crossover_specification "SPY" "1d" (pos 1) (pos 2)

validate_strategy_semantics_iff_example :
    (validate_strategy_semantics specification ≡ ok tt) ↔ IsSupported specification
validate_strategy_semantics_iff_example = validate_strategy_semantics_iff specification

abbrev entry : Condition ℤ
entry = specification.entry

abbrev fast : List (Option ℤ)
fast = some (pos 1_050_000) ∷ some (pos 1_100_000) ∷ some (pos 850_000) ∷ some (pos 910_000) ∷ []

abbrev slow : List (Option ℤ)
slow = none ∷ some (pos 1_075_000) ∷ some (pos 975_000) ∷ some (pos 880_000) ∷ []

fast_values : evaluate_operand entry.left bars ≡ ok fast
unfolding evaluate_operand simple_moving_averages sma_from roll crossover_specification ◌+ℤ◌ ◌-ℤ◌
fast_values = refl

slow_values : evaluate_operand entry.right bars ≡ ok slow
unfolding evaluate_operand simple_moving_averages sma_from roll crossover_specification ◌+ℤ◌ ◌-ℤ◌
slow_values = refl

entry_values : evaluate_condition entry bars ≡ ok (false ∷ false ∷ false ∷ true ∷ [])
unfolding evaluate_condition evaluate_operand simple_moving_averages sma_from roll
    crossover_specification values_from value_at crosses_at crosses ◌+ℤ◌ ◌-ℤ◌
entry_values = refl

entry_supported : IsSupportedCondition entry
unfolding crossover_specification
entry_supported = record {
  left_supported = (refl, omega arith, omega arith);
  right_supported = (refl, omega arith, omega arith);
}

condition_first_eligible_index_exact_example :
    (pos 3 <ℤ condition_first_eligible_index entry
      → get_or (false ∷ false ∷ false ∷ true ∷ []) 3 false ≡ false)
    × (condition_first_eligible_index entry ≤ℤ pos 3 → AreThere fast slow 3)
    × ((before : ℕ)
        → 3 ≡ suc before
        → condition_first_eligible_index entry ≤ℤ pos 3
        → is_crossover entry.operator ≡ true
        → AreThere fast slow before)
condition_first_eligible_index_exact_example =
    condition_first_eligible_index_exact entry bars 3 entry_supported fast_values slow_values
      entry_values (omega arith)

abbrev pub rows : List (MarketData ℤ)
rows =
    map (λ bar. record { symbol = "SPY"; interval = "1d"; bar = bar; adjusted_close = none }) bars

previewed :
    (preview : StrategyPreview ℤ) × (create_specification_preview (λ a _. a) rows specification
      ≡ ok preview)
unfolding create_specification_preview load_market_bars compile_strategy validate_strategy_semantics
    crossover_specification validate_condition validate_operand validate_risk_percent preview_on
    insert_bar first_signal_eligible_index condition_first_eligible_index ◌+ℤ◌
    operand_first_evaluable_index ◌-ℤ◌ preview_from generate_signals evaluate_condition
    evaluate_operand crosses crosses_at signals_at signals_from value_at values_from close_position
    completed_trade execute_buy execute_sell exit_position calculate_risk_levels
    evaluate_intraday_risk_exit evaluate_opening_risk_exit validate_risk_control
    execute_long_only_signals final_exit intraday_phase liquidate open_phase open_risk
    process_signal process_signals run_bar run_bars run_signals signals_at_timestamp sum_profit_loss
    calculate_buy_and_hold_equity_curve calculate_cagr calculate_maximum_drawdown calculate_metrics
    drawdown_from gain_percentage win_rate roll simple_moving_averages sma_from
previewed = (_, refl)

create_specification_preview-LinesUp_example :
    map
      (λ point. point.timestamp)
      (drop previewed.0.comparison_start_index previewed.0.execution.equity_curve)
    ≡ map (λ point. point.timestamp) previewed.0.buy_and_hold_equity_curve
create_specification_preview-LinesUp_example =
    create_specification_preview-LinesUp (λ a _. a) rows specification previewed.1
