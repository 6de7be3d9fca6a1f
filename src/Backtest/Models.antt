-- ===== src/Backtest/Models.antt =====
-- backend/app/backtesting/models.py: bars, signals, trades and results. A timestamp is the number
-- of an instant; the engine compares timestamps for equality only.
use agentic_trading_platform.Prelude.{ℕ, Option, List}
use agentic_trading_platform.Prelude.Int.{ℤ}

pub record MarketBar (D : Type 0) : Type 0 where
  pub timestamp : ℕ
  pub open_price : D
  pub high_price : D
  pub low_price : D
  pub close_price : D
  pub volume : ℕ

pub data SignalType : Type 0 where
  buy sell : SignalType

pub data ExitReason : Type 0 where
  strategy_exit stop_loss take_profit final_liquidation : ExitReason

pub record Signal : Type 0 where
  pub timestamp : ℕ
  pub signal_type : SignalType

pub record CompletedTrade (D : Type 0) : Type 0 where
  pub signal_timestamp : ℕ
  pub entry_timestamp : ℕ
  pub entry_price : D
  pub quantity : ℤ
  pub exit_signal_timestamp : Option ℕ
  pub exit_timestamp : ℕ
  pub exit_price : D
  pub profit_loss : D
  pub return_percentage : D
  pub exit_reason : ExitReason

pub record EquityPoint (D : Type 0) : Type 0 where
  pub timestamp : ℕ
  pub equity : D

pub record ExecutionResult (D : Type 0) : Type 0 where
  pub final_portfolio_value : D
  pub total_realized_profit_loss : D
  pub completed_trades : List (CompletedTrade D)
  pub equity_curve : List (EquityPoint D)
  pub ignored_signals : List Signal

pub record BacktestMetrics (D : Type 0) : Type 0 where
  pub total_return_percentage : D
  pub buy_and_hold_return_percentage : D
  pub buy_and_hold_start_timestamp : ℕ
  pub buy_and_hold_start_price : D
  pub buy_and_hold_end_price : D
  pub win_rate_percentage : D
  pub maximum_drawdown_percentage : D
  pub cagr_percentage : Option D
