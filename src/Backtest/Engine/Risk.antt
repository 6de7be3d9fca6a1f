-- ===== src/Backtest/Engine/Risk.antt =====
-- backend/app/backtesting/engine.py: the risk controls of a position.
use agentic_trading_platform.Prelude.{
  ℕ, Bool, false, not, ◌&&◌, ◌||◌, Option, none, some, String, ◌<>◌, Result, ok, raise_if,
  value_error, leb, if◌then◌else◌,
}
use agentic_trading_platform.Prelude.Int.{pos, is_zero_ℤ}
use agentic_trading_platform.Decimal.{Decimal}
use agentic_trading_platform.Backtest.Models.{MarketBar, ExitReason, stop_loss, take_profit}
use agentic_trading_platform.Backtest.Engine.Portfolio.{Portfolio}

-- Shares are held, and were bought at a bar before the one of `index`.
abbrev pub is_exposed : {D : Type 0} → ℕ → Portfolio D → Bool
is_exposed index p = elim p.entry_bar_index [
  | none ↦ false
  | some entry_bar_index ↦ not (is_zero_ℤ p.quantity) && not (leb index entry_bar_index)
]

module _ {D : Type 0} ⦃d : Decimal D⦄ where
  -- An exit at `exit_price` if the limit is set and `probe` has reached it.
  abbrev pub at_or_below : D → Option D → Bool
  at_or_below probe none = false
  at_or_below probe (some limit) = d.le probe limit

  abbrev pub at_or_above : D → Option D → Bool
  at_or_above probe none = false
  at_or_above probe (some limit) = d.le limit probe

  unfoldable pub calculate_risk_levels : D → Option D → Option D → Option D × Option D
  calculate_risk_levels entry_price stop_loss_percent take_profit_percent =
      let hundred = d.of_int (pos 100) in
      let one = d.of_int (pos 1) in
      (
        elim stop_loss_percent [
          | none ↦ none
          | some percent ↦ some (d.mul entry_price (d.sub one (d.div percent hundred)))
        ],
        elim take_profit_percent [
          | none ↦ none
          | some percent ↦ some (d.mul entry_price (d.add one (d.div percent hundred)))
        ],
      )

  unfoldable pub evaluate_opening_risk_exit :
      MarketBar D → ℕ → Portfolio D → Option (D × ExitReason)
  evaluate_opening_risk_exit bar current_bar_index p =
      if not (is_exposed current_bar_index p)
      then none
      else if at_or_below bar.open_price p.stop_price
      then some (bar.open_price, stop_loss)
      else if at_or_above bar.open_price p.take_profit_price
      then some (bar.open_price, take_profit)
      else none

  -- An exit at a limit that is set.
  abbrev pub exit_at : Option D → ExitReason → Option (D × ExitReason)
  exit_at none reason = none
  exit_at (some limit) reason = some (limit, reason)

  unfoldable pub evaluate_intraday_risk_exit :
      MarketBar D → ℕ → Portfolio D → Option (D × ExitReason)
  evaluate_intraday_risk_exit bar current_bar_index p =
      if not (is_exposed current_bar_index p)
      then none
      else if at_or_below bar.low_price p.stop_price
      then exit_at p.stop_price stop_loss
      else if at_or_above bar.high_price p.take_profit_price
      then exit_at p.take_profit_price take_profit
      else none

  unfoldable pub validate_risk_control : Option D → String → Result (Unit {0})
  validate_risk_control none field_name = ok tt
  validate_risk_control (some value) field_name =
      raise_if (not (d.is_finite value) || d.le value d.nought)
        (value_error (field_name <> " must be finite and positive"))
