-- ===== src/Backtest/Engine/Run.antt =====
-- backend/app/backtesting/engine.py: `execute_long_only_signals`, a phase of its loop at a time.
use agentic_trading_platform.Prelude.{
  ℕ, suc, Bool, true, false, not, ◌&&◌, Option, none, some, List, [], ◌∷◌, ◌++◌, last_or, Result,
  ok, err, ◌>>=◌, ◌>>◌, raise_if, value_error, ◌==◌, if◌then◌else◌,
}
use agentic_trading_platform.Prelude.Int.{pos, ltb_ℤ, is_zero_ℤ}
use agentic_trading_platform.Decimal.{Decimal}
use agentic_trading_platform.Backtest.Models.{
  MarketBar, Signal, SignalType, buy, sell, CompletedTrade, EquityPoint, final_liquidation,
  ExecutionResult,
}
use agentic_trading_platform.Backtest.Engine.Portfolio.{
  Portfolio, cleared_position, execute_buy, execute_sell, close_position, exit_position,
}
use agentic_trading_platform.Backtest.Engine.Risk.{
  calculate_risk_levels, evaluate_opening_risk_exit, evaluate_intraday_risk_exit,
  validate_risk_control,
}

-- `signals_by_timestamp[timestamp]`
unfoldable pub signals_at_timestamp : ℕ → List Signal → List Signal
signals_at_timestamp timestamp [] = []
signals_at_timestamp timestamp (signal ∷ signals) =
    let rest = signals_at_timestamp timestamp signals in
    if signal.timestamp == timestamp then signal ∷ rest else rest

module _ {D : Type 0} ⦃d : Decimal D⦄ where
  -- The bar and the risk levels of a position that was just opened.
  unfoldable pub open_risk : ℕ → Option D → Option D → Portfolio D → Portfolio D
  open_risk index stop_loss_percent take_profit_percent p = elim p.entry_price [
    | none ↦ p
    | some entry_price ↦
        let (stop_price, take_profit_price) =
          calculate_risk_levels entry_price stop_loss_percent take_profit_percent in
        record p {
          entry_bar_index = some index;
          stop_price = stop_price;
          take_profit_price = take_profit_price;
        }
  ]

  -- The point that a round appends to the curve.
  abbrev pub equity_point : MarketBar D → Portfolio D → EquityPoint D
  equity_point bar p = record {
    timestamp = bar.timestamp;
    equity = d.add p.cash (d.mul (d.of_int p.quantity) bar.close_price);
  }

  abbrev pub mark : MarketBar D → Portfolio D → Portfolio D
  mark bar p = record p { equity_curve = p.equity_curve ++ (equity_point bar p ∷ []) }

  module _ (stop_loss_percent take_profit_percent : Option D) where
    -- One pending signal, with `position_closed_at_open` beside the portfolio.
    unfoldable pub process_signal :
        ℕ → MarketBar D → Signal → SignalType → Portfolio D × Bool → Result (Portfolio D × Bool)
    process_signal index bar signal buy (p, closed) = do
      p' ← execute_buy signal bar p
      ok (
        if is_zero_ℤ p.quantity && ltb_ℤ (pos 0) p'.quantity
            then open_risk index stop_loss_percent take_profit_percent p'
            else p',
        closed,
      )
    process_signal index bar signal sell (p, closed) = do
      (p', completed) ← execute_sell signal bar p
      elim completed [
        | none ↦ ok (p', closed)
        | some trade ↦ ok (
          cleared_position (record p' { completed_trades = p'.completed_trades ++ (trade ∷ []) }),
          true,
        )
      ]

    unfoldable pub process_signals :
        ℕ → MarketBar D → List Signal → Portfolio D × Bool → Result (Portfolio D × Bool)
    process_signals index bar [] state = ok state
    process_signals index bar (signal ∷ signals) state = do
      state' ← process_signal index bar signal signal.signal_type state
      process_signals index bar signals state'

    -- The part of a round that stands under `if index > 0`.
    unfoldable pub open_phase :
        ℕ → MarketBar D → List Signal → Portfolio D → Result (Portfolio D × Bool)
    open_phase index bar pending_signals p = elim (evaluate_opening_risk_exit bar index p) [
      | none ↦ process_signals index bar pending_signals (p, false)
      | some (exit_price, exit_reason) ↦ do
        p' ← exit_position bar exit_price exit_reason p
        ok (record p' { ignored_signals = p.ignored_signals ++ pending_signals }, true)
    ]

    unfoldable pub intraday_phase : ℕ → MarketBar D → Portfolio D × Bool → Result (Portfolio D)
    intraday_phase index bar (p, closed) =
        if ltb_ℤ (pos 0) p.quantity && not closed
        then elim (evaluate_intraday_risk_exit bar index p) [
          | none ↦ ok p
          | some (exit_price, exit_reason) ↦ exit_position bar exit_price exit_reason p
        ]
        else ok p

    -- One round. `previous` is the timestamp of the bar before, and `none` in the first round.
    unfoldable pub run_bar :
        List Signal → ℕ → Option ℕ → MarketBar D → Portfolio D → Result (Portfolio D)
    run_bar signals index previous bar p = do
      state ← elim previous [
        | none ↦ ok (p, false)
        | some timestamp ↦ open_phase index bar (signals_at_timestamp timestamp signals) p
      ]
      p' ← intraday_phase index bar state
      ok (mark bar p')

    unfoldable pub run_bars :
        List Signal → ℕ → Option ℕ → List (MarketBar D) → Portfolio D → Result (Portfolio D)
    run_bars signals index previous [] p = ok p
    run_bars signals index previous (bar ∷ rest) p = do
      p' ← run_bar signals index previous bar p
      run_bars signals (suc index) (some bar.timestamp) rest p'

  unfoldable pub final_exit : MarketBar D → Portfolio D → Result (Portfolio D)
  final_exit final_bar p = do
    (cash, trade) ← close_position final_bar final_bar.close_price final_liquidation p
    ok (record p { cash = cash; completed_trades = p.completed_trades ++ (trade ∷ []) })

  -- What stands behind the loop: an open position ends at the close of the final bar.
  unfoldable pub liquidate : MarketBar D → Portfolio D → Result (Portfolio D)
  liquidate final_bar p = if ltb_ℤ (pos 0) p.quantity then final_exit final_bar p else ok p

  unfoldable pub sum_profit_loss : D → List (CompletedTrade D) → D
  sum_profit_loss total [] = total
  sum_profit_loss total (trade ∷ trades) = sum_profit_loss (d.add total trade.profit_loss) trades

  abbrev pub initial_portfolio : D → Portfolio D
  initial_portfolio starting_cash = record {
    cash = starting_cash;
    quantity = pos 0;
    entry_price = none;
    entry_timestamp = none;
    entry_signal_timestamp = none;
    entry_bar_index = none;
    stop_price = none;
    take_profit_price = none;
    completed_trades = [];
    equity_curve = [];
    ignored_signals = [];
  }

  abbrev pub execution_result : Portfolio D → ExecutionResult D
  execution_result p = record {
    final_portfolio_value = p.cash;
    total_realized_profit_loss = sum_profit_loss d.nought p.completed_trades;
    completed_trades = p.completed_trades;
    equity_curve = p.equity_curve;
    ignored_signals = p.ignored_signals;
  }

  -- The body behind the checks, on a first bar and the bars behind it.
  unfoldable pub run_signals :
      MarketBar D
      → List (MarketBar D)
      → List Signal
      → D
      → Option D
      → Option D
      → Result (ExecutionResult D)
  run_signals first rest signals starting_cash stop_loss_percent take_profit_percent = do
    p ←
        run_bars stop_loss_percent take_profit_percent signals 0 none (first ∷ rest)
          (initial_portfolio starting_cash)
    p' ← liquidate (last_or rest first) p
    ok (execution_result p')

  unfoldable pub execute_long_only_signals :
      List (MarketBar D) → List Signal → D → Option D → Option D → Result (ExecutionResult D)
  execute_long_only_signals [] signals starting_cash stop_loss_percent take_profit_percent = do
    raise_if (d.le starting_cash d.nought) (value_error "starting_cash must be positive")
    err (value_error "at least one market bar is required")
  execute_long_only_signals (first ∷ rest) signals starting_cash stop_loss_percent
        take_profit_percent =
      do
        raise_if (d.le starting_cash d.nought) (value_error "starting_cash must be positive")
        validate_risk_control stop_loss_percent "stop_loss_percent"
        validate_risk_control take_profit_percent "take_profit_percent"
        run_signals first rest signals starting_cash stop_loss_percent take_profit_percent
