-- ===== src/Backtest/Preview.antt =====
-- backend/app/services/strategy_preview.py with the loading of bars of
-- backend/app/backtesting/market_data.py: a specification is compiled, run over the stored bars,
-- and compared with holding the shares.
pub mod Comparison
pub mod Loaded
use agentic_trading_platform.Prelude.{
  ℕ, ◌&&◌, none, some, List, [], ◌∷◌, length, last_or, get_elem?, String, str_eq, leb, Result, ok,
  err, ◌>>=◌, data_unavailable, if◌then◌else◌,
}
use agentic_trading_platform.Prelude.{Option}
use agentic_trading_platform.Prelude.Int.{pos}
use agentic_trading_platform.Decimal.{Decimal}
use agentic_trading_platform.Strategy.Spec.{StrategySpecification}
use agentic_trading_platform.Backtest.Models.{
  MarketBar, EquityPoint, ExecutionResult, BacktestMetrics,
}
use agentic_trading_platform.Backtest.Compiler.{
  CompiledStrategy, compile_strategy, generate_signals, first_signal_eligible_index,
}
use agentic_trading_platform.Backtest.Engine.Run.{execute_long_only_signals}
use agentic_trading_platform.Market.Model.{MarketData}
use agentic_trading_platform.Backtest.Metrics.{
  calculate_metrics, calculate_buy_and_hold_equity_curve,
}

-- The preview, without the parsed strategy and its interpretation, which are passed through.
pub record StrategyPreview (D : Type 0) : Type 0 where
  pub execution : ExecutionResult D
  pub metrics : BacktestMetrics D
  pub bar_count : ℕ
  pub start_timestamp : ℕ
  pub end_timestamp : ℕ
  pub bars : List (MarketBar D)
  pub comparison_start_index : ℕ
  pub buy_and_hold_equity_curve : List (EquityPoint D)

module _ {D : Type 0} where
  unfoldable pub insert_bar : MarketBar D → List (MarketBar D) → List (MarketBar D)
  insert_bar bar [] = bar ∷ []
  insert_bar bar (other ∷ bars) =
      if leb bar.timestamp other.timestamp then bar ∷ other ∷ bars else other ∷ insert_bar bar bars

  -- The rows of a symbol and an interval, by timestamp.
  unfoldable pub load_market_bars : List (MarketData D) → String → String → List (MarketBar D)
  load_market_bars [] symbol interval = []
  load_market_bars (row ∷ rows) symbol interval =
      if str_eq row.symbol symbol && str_eq row.interval interval
      then insert_bar row.bar (load_market_bars rows symbol interval)
      else load_market_bars rows symbol interval

module _ {D : Type 0} ⦃d : Decimal D⦄ where
  abbrev pub starting_cash : D
  starting_cash = d.of_int (pos 10_000)

module _ {D : Type 0} ⦃d : Decimal D⦄ (power : D → D → D) where
  -- `buy_and_hold_equity_curve[0] = ...`
  abbrev pub with_start : ℕ → List (EquityPoint D) → List (EquityPoint D)
  with_start timestamp [] = []
  with_start timestamp (point ∷ points) =
      record { timestamp = timestamp; equity = starting_cash } ∷ points

  unfoldable pub preview_from :
      StrategySpecification D
      → CompiledStrategy D
      → List (MarketBar D)
      → MarketBar D
      → MarketBar D
      → MarketBar D
      → ℕ
      → Result (StrategyPreview D)
  preview_from specification compiled bars first last start_bar eligible_index = do
    signals ← generate_signals compiled bars
    execution ←
        execute_long_only_signals bars signals starting_cash specification.stop_loss_percent
          specification.take_profit_percent
    metrics ←
        calculate_metrics power bars execution.equity_curve execution.completed_trades starting_cash
          execution.final_portfolio_value eligible_index
    buy_and_hold ← calculate_buy_and_hold_equity_curve bars starting_cash eligible_index
    ok (record {
      execution = execution;
      metrics = metrics;
      bar_count = length bars;
      start_timestamp = first.timestamp;
      end_timestamp = last.timestamp;
      bars = bars;
      comparison_start_index = eligible_index;
      buy_and_hold_equity_curve = with_start start_bar.timestamp buy_and_hold;
    })

  abbrev pub unavailable : {A : Type 0} → Result A
  unavailable =
      err (data_unavailable "Not enough SPY daily market data is available for this strategy.")

  -- What follows on the bar of the eligible index, if there is one.
  abbrev pub preview_at :
      StrategySpecification D
      → CompiledStrategy D
      → MarketBar D
      → List (MarketBar D)
      → Option (MarketBar D)
      → Result (StrategyPreview D)
  preview_at specification compiled first rest none = unavailable
  preview_at specification compiled first rest (some start_bar) =
      preview_from specification compiled (first ∷ rest) first (last_or rest first) start_bar
        (first_signal_eligible_index compiled)

  -- The check for enough bars, and what follows on them.
  unfoldable pub preview_on :
      StrategySpecification D → CompiledStrategy D → List (MarketBar D) → Result (StrategyPreview D)
  preview_on specification compiled [] = unavailable
  preview_on specification compiled (first ∷ rest) =
      preview_at specification compiled first rest
        (get_elem? (first ∷ rest) (first_signal_eligible_index compiled))

  unfoldable pub create_specification_preview :
      List (MarketData D) → StrategySpecification D → Result (StrategyPreview D)
  create_specification_preview rows specification = do
    compiled ← compile_strategy specification
    preview_on specification compiled
        (load_market_bars rows specification.symbol specification.interval)
