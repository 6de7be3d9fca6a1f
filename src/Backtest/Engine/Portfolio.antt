-- ===== src/Backtest/Engine/Portfolio.antt =====
-- backend/app/backtesting/engine.py: the state of the loop of `execute_long_only_signals`, and the
-- orders that change it.
use agentic_trading_platform.Prelude.{
  ℕ, Option, none, some, List, [], ◌∷◌, ◌++◌, Result, ok, err, ◌>>=◌, ◌>>◌, raise_if, runtime_error,
  if◌then◌else◌,
}
use agentic_trading_platform.Prelude.Int.{ℤ, pos, ltb_ℤ, leb_ℤ, is_zero_ℤ}
use agentic_trading_platform.Decimal.{Decimal, checked_div, checked_floor_div}
use agentic_trading_platform.Backtest.Models.{
  MarketBar, Signal, CompletedTrade, EquityPoint, ExitReason, strategy_exit,
}

-- The variables of the loop.
pub record Portfolio (D : Type 0) : Type 0 where
  pub cash : D
  pub quantity : ℤ
  pub entry_price : Option D
  pub entry_timestamp : Option ℕ
  pub entry_signal_timestamp : Option ℕ
  pub entry_bar_index : Option ℕ
  pub stop_price : Option D
  pub take_profit_price : Option D
  pub completed_trades : List (CompletedTrade D)
  pub equity_curve : List (EquityPoint D)
  pub ignored_signals : List Signal

abbrev pub ignore : {D : Type 0} → Signal → Portfolio D → Portfolio D
ignore signal p = record p { ignored_signals = p.ignored_signals ++ (signal ∷ []) }

-- The assignment of `cleared_position()` to the six variables of a position.
abbrev pub cleared_position : {D : Type 0} → Portfolio D → Portfolio D
cleared_position p = record p {
  entry_price = none;
  entry_timestamp = none;
  entry_signal_timestamp = none;
  entry_bar_index = none;
  stop_price = none;
  take_profit_price = none;
}

-- The entry price, its timestamp and the one of its signal.
abbrev pub entry_details : {D : Type 0} → Option D → Option ℕ → Option ℕ → Result (D × ℕ × ℕ)
entry_details (some price) (some timestamp) (some signal_timestamp) =
    ok (price, timestamp, signal_timestamp)
entry_details _ _ _ = err (runtime_error "open position is missing entry details")

module _ {D : Type 0} ⦃d : Decimal D⦄ where
  unfoldable pub execute_buy : Signal → MarketBar D → Portfolio D → Result (Portfolio D)
  execute_buy signal bar p = if ltb_ℤ (pos 0) p.quantity then ok (ignore signal p) else do
    shares_to_buy ← checked_floor_div p.cash bar.open_price
    ok (
        if is_zero_ℤ shares_to_buy then ignore signal p else record p {
          cash = d.sub p.cash (d.mul (d.of_int shares_to_buy) bar.open_price);
          quantity = shares_to_buy;
          entry_price = some bar.open_price;
          entry_timestamp = some bar.timestamp;
          entry_signal_timestamp = some signal.timestamp;
        })

  -- The trade that ends a position, and its proceeds.
  unfoldable pub completed_trade :
      ℤ → D → ℕ → ℕ → Option ℕ → ℕ → D → ExitReason → Result (D × CompletedTrade D)
  completed_trade quantity entry_price entry_timestamp entry_signal_timestamp exit_signal_timestamp
        exit_timestamp exit_price exit_reason =
      let proceeds = d.mul (d.of_int quantity) exit_price in
      let cost = d.mul (d.of_int quantity) entry_price in
      let profit_loss = d.sub proceeds cost in
      do
        fraction ← checked_div profit_loss cost
        ok (
          proceeds,
          record {
            signal_timestamp = entry_signal_timestamp;
            entry_timestamp = entry_timestamp;
            entry_price = entry_price;
            quantity = quantity;
            exit_signal_timestamp = exit_signal_timestamp;
            exit_timestamp = exit_timestamp;
            exit_price = exit_price;
            profit_loss = profit_loss;
            return_percentage = d.mul fraction (d.of_int (pos 100));
            exit_reason = exit_reason;
          },
        )

  unfoldable pub execute_sell :
      Signal → MarketBar D → Portfolio D → Result (Portfolio D × Option (CompletedTrade D))
  execute_sell signal bar p = if is_zero_ℤ p.quantity then ok (ignore signal p, none) else do
    (entry_price, entry_timestamp, entry_signal_timestamp) ←
        entry_details p.entry_price p.entry_timestamp p.entry_signal_timestamp
    (proceeds, trade) ←
        completed_trade p.quantity entry_price entry_timestamp entry_signal_timestamp
          (some signal.timestamp) bar.timestamp bar.open_price strategy_exit
    ok (record p { cash = d.add p.cash proceeds; quantity = pos 0 }, some trade)

  -- The cash behind the exit, and the trade.
  unfoldable pub close_position :
      MarketBar D → D → ExitReason → Portfolio D → Result (D × CompletedTrade D)
  close_position bar exit_price exit_reason p = do
    raise_if (leb_ℤ p.quantity (pos 0)) (runtime_error "cannot close a flat position")
    (entry_price, entry_timestamp, entry_signal_timestamp) ←
        entry_details p.entry_price p.entry_timestamp p.entry_signal_timestamp
    (proceeds, trade) ←
        completed_trade p.quantity entry_price entry_timestamp entry_signal_timestamp none
          bar.timestamp exit_price exit_reason
    ok (d.add p.cash proceeds, trade)

  -- What the callers of `close_position` assign: the cash, the trade, no shares, no position.
  unfoldable pub exit_position : MarketBar D → D → ExitReason → Portfolio D → Result (Portfolio D)
  exit_position bar exit_price exit_reason p = do
    (cash, trade) ← close_position bar exit_price exit_reason p
    ok (
        cleared_position (record p {
          cash = cash;
          quantity = pos 0;
          completed_trades = p.completed_trades ++ (trade ∷ []);
        }))
