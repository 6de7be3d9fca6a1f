-- ===== src/Backtest/Metrics.antt =====
-- backend/app/backtesting/metrics.py: the benchmark's equity curve and the figures of a result.
pub mod Benchmark
pub mod Drawdown
use agentic_trading_platform.Prelude.{
  ℕ, zero, suc, ◌+◌, Bool, true, false, Option, none, some, List, [], ◌∷◌, map, length, drop,
  last_or, get_elem?, Result, ok, err, ◌>>=◌, ◌>>◌, raise_if, value_error, if◌then◌else◌, not, ltb,
}
use agentic_trading_platform.Prelude.Int.{ℤ, pos, ◌-ℤ◌}
use agentic_trading_platform.Decimal.{Decimal, checked_div, checked_floor_div}
use agentic_trading_platform.Backtest.Models.{
  MarketBar, CompletedTrade, EquityPoint, BacktestMetrics,
}

module _ {D : Type 0} ⦃d : Decimal D⦄ where
  abbrev pub hundred : D
  hundred = d.of_int (pos 100)

  -- `max(a, b)` and `min(a, b)`, the first of two equal numbers.
  abbrev pub max_of : D → D → D
  max_of a b = if d.lt a b then b else a

  abbrev pub min_of : D → D → D
  min_of a b = if d.lt b a then b else a

  -- `(a / b - Decimal("1")) * Decimal("100")`
  unfoldable pub gain_percentage : D → D → Result D
  gain_percentage a b = do
    ratio ← checked_div a b
    ok (d.mul (d.sub ratio (d.of_int (pos 1))) hundred)

  abbrev pub benchmark_point : D → ℤ → MarketBar D → EquityPoint D
  benchmark_point remaining_cash quantity bar = record {
    timestamp = bar.timestamp;
    equity = d.add remaining_cash (d.mul (d.of_int quantity) bar.close_price);
  }

  -- The curve over the bars from the start bar on.
  abbrev pub benchmark_from : D → List (MarketBar D) → Result (List (EquityPoint D))
  benchmark_from starting_cash [] = err (value_error "start_index is outside the loaded data range")
  benchmark_from starting_cash (start_bar ∷ rest) = do
    quantity ← checked_floor_div starting_cash start_bar.open_price
    let remaining_cash = d.sub starting_cash (d.mul (d.of_int quantity) start_bar.open_price)
    ok (map (benchmark_point remaining_cash quantity) (start_bar ∷ rest))

  -- An index that is not below the number of bars leaves no bar.
  unfoldable pub calculate_buy_and_hold_equity_curve :
      List (MarketBar D) → D → ℕ → Result (List (EquityPoint D))
  calculate_buy_and_hold_equity_curve bars starting_cash start_index =
      benchmark_from starting_cash (drop start_index bars)

  unfoldable pub drawdown_from : D → D → List (EquityPoint D) → Result D
  drawdown_from peak maximum_drawdown [] = ok maximum_drawdown
  drawdown_from peak maximum_drawdown (point ∷ rest) = do
    drawdown ← gain_percentage point.equity (max_of peak point.equity)
    drawdown_from (max_of peak point.equity) (min_of maximum_drawdown drawdown) rest

  unfoldable pub calculate_maximum_drawdown : EquityPoint D → List (EquityPoint D) → Result D
  calculate_maximum_drawdown first rest = drawdown_from first.equity d.nought (first ∷ rest)

  abbrev pub winning_trades : List (CompletedTrade D) → ℕ
  winning_trades [] = 0
  winning_trades (trade ∷ trades) =
      if d.lt d.nought trade.profit_loss then suc (winning_trades trades) else winning_trades trades

  unfoldable pub win_rate : List (CompletedTrade D) → Result D
  win_rate [] = ok d.nought
  win_rate (trade ∷ trades) = do
    let all = trade ∷ trades
    ratio ← checked_div (d.of_int (pos (winning_trades all))) (d.of_int (pos (length all)))
    ok (d.mul ratio hundred)

  -- `power` is `**`, whose rounding is the decimal module's.
  module _ (power : D → D → D) where
    abbrev pub cagr_over : D → D → D → Result (Option D)
    cagr_over starting_cash final_value elapsed_days =
        if d.le elapsed_days d.nought then ok none else do
          days_of_year ← checked_div (d.of_int (pos 36_525)) hundred
          years ← checked_div elapsed_days days_of_year
          ratio ← checked_div final_value starting_cash
          exponent ← checked_div (d.of_int (pos 1)) years
          ok (some (d.mul (d.sub (power ratio exponent) (d.of_int (pos 1))) hundred))

    -- The timestamps are in seconds.
    unfoldable pub calculate_cagr : D → D → ℕ → ℕ → Result (Option D)
    calculate_cagr starting_cash final_value start_timestamp end_timestamp = do
      elapsed_days ←
          checked_div (d.of_int (pos end_timestamp -ℤ pos start_timestamp)) (d.of_int (pos 86_400))
      cagr_over starting_cash final_value elapsed_days

    abbrev pub metrics_of :
        MarketBar D
        → List (MarketBar D)
        → EquityPoint D
        → List (EquityPoint D)
        → List (CompletedTrade D)
        → D
        → D
        → Option (MarketBar D)
        → ℕ
        → Result (BacktestMetrics D)
    metrics_of first rest point points completed_trades starting_cash final_portfolio_value none
          start_index =
        err (value_error "buy_and_hold_start_index is outside the loaded data range")
    metrics_of first rest point points completed_trades starting_cash final_portfolio_value
          (some start_bar) start_index =
        do
          benchmark ← calculate_buy_and_hold_equity_curve (first ∷ rest) starting_cash start_index
          rate ← win_rate completed_trades
          total_return ← gain_percentage final_portfolio_value starting_cash
          buy_and_hold_return ← gain_percentage (last_or benchmark point).equity starting_cash
          drawdown ← calculate_maximum_drawdown point points
          cagr ←
              calculate_cagr starting_cash final_portfolio_value first.timestamp
                (last_or rest first).timestamp
          ok (record {
            total_return_percentage = total_return;
            buy_and_hold_return_percentage = buy_and_hold_return;
            buy_and_hold_start_timestamp = start_bar.timestamp;
            buy_and_hold_start_price = start_bar.open_price;
            buy_and_hold_end_price = (last_or rest first).close_price;
            win_rate_percentage = rate;
            maximum_drawdown_percentage = drawdown;
            cagr_percentage = cagr;
          })

    unfoldable pub calculate_metrics :
        List (MarketBar D)
        → List (EquityPoint D)
        → List (CompletedTrade D)
        → D
        → D
        → ℕ
        → Result (BacktestMetrics D)
    calculate_metrics (first ∷ rest) (point ∷ points) completed_trades starting_cash
          final_portfolio_value start_index =
        metrics_of first rest point points completed_trades starting_cash final_portfolio_value
          (get_elem? (first ∷ rest) start_index) start_index
    calculate_metrics _ _ completed_trades starting_cash final_portfolio_value start_index =
        err (value_error "bars and equity_curve are required")
