-- ===== src/Backtest/Engine/Sound.antt =====
-- What holds of the portfolio throughout the loop, for exact arithmetic and valid bars.
pub mod Exits
pub mod Orders
pub mod Signals
pub mod Phases
pub mod Finished
pub mod Closed
pub mod Settled
use agentic_trading_platform.Prelude.{
  ℕ, suc, ◌<◌, ◌≡◌, refl, ◌⊎◌, Option, none, some, List, [], ◌∷◌, ◌++◌, All, Some, ap, arith,
}
use agentic_trading_platform.Prelude.Int.{
  ℤ, pos, pos_part, neg_part, ◌+ℤ◌, ◌-ℤ◌, ◌*ℤ◌, ◌≤ℤ◌, ◌<ℤ◌, int_laws,
}
use agentic_trading_platform.Decimal.{Decimal, IsExact}
use agentic_trading_platform.Backtest.Models.{MarketBar, CompletedTrade, EquityPoint}
use agentic_trading_platform.Backtest.Engine.Portfolio.{Portfolio}

module _ {D : Type 0} {d : Decimal D} (exact : IsExact d) where
  open exact use {units}

  -- What the import checks of a bar: positive prices, the low the least and the high the greatest.
  pub record IsValidBar (bar : MarketBar D) : Type 0 where
    pub low_pos : pos 0 <ℤ units bar.low_price
    pub low-le-open : units bar.low_price ≤ℤ units bar.open_price
    pub low-le-close : units bar.low_price ≤ℤ units bar.close_price
    pub open-le-high : units bar.open_price ≤ℤ units bar.high_price
    pub close-le-high : units bar.close_price ≤ℤ units bar.high_price

  -- The trade ends at the bar, at a price of the bar's range.
  pub record FillsAt (trade : CompletedTrade D) (bar : MarketBar D) : Type 0 where
    pub at_bar : trade.exit_timestamp ≡ bar.timestamp
    pub low-le-exit : units bar.low_price ≤ℤ units trade.exit_price
    pub exit-le-high : units trade.exit_price ≤ℤ units bar.high_price

  -- A trade of a positive number of shares, whose profit is that number times the gain of price,
  -- and which ends within the range of one of the bars.
  pub record IsBooked (bars : List (MarketBar D)) (trade : CompletedTrade D) : Type 0 where
    pub quantity_pos : pos 0 <ℤ trade.quantity
    pub profit_eq :
        units trade.profit_loss
        ≡ trade.quantity *ℤ units trade.exit_price -ℤ trade.quantity *ℤ units trade.entry_price
    pub filled : Some (FillsAt trade) bars

  -- The sum of the profits of the trades.
  abbrev pub realized : List (CompletedTrade D) → ℤ
  realized [] = pos 0
  realized (trade ∷ trades) = units trade.profit_loss +ℤ realized trades

  pub realized-snoc :
      (trades : List (CompletedTrade D)) (trade : CompletedTrade D)
      → realized (trades ++ (trade ∷ [])) ≡ realized trades +ℤ units trade.profit_loss
  realized-snoc [] trade = omega int_laws
  realized-snoc (t ∷ trades) trade =
      let ih = realized-snoc trades trade in omega (int_laws, ap pos_part ih, ap neg_part ih)

  -- What the shares that are held have cost.
  abbrev pub invested : Option D → ℤ → ℤ
  invested none quantity = pos 0
  invested (some price) quantity = quantity *ℤ units price

  pub record IsFlat (p : Portfolio D) : Type 0 where
    pub no_shares : p.quantity ≡ pos 0
    pub no_price : p.entry_price ≡ none
    pub no_index : p.entry_bar_index ≡ none

  -- Shares are held, with the details of their purchase, which was at a bar before `limit`.
  pub record IsHeld (limit : ℕ) (p : Portfolio D) : Type 0 where
    pub shares_before : ℕ
    pub price : D
    pub bought_at : ℕ
    pub signalled_at : ℕ
    pub index : ℕ
    pub shares_eq : p.quantity ≡ pos (suc shares_before)
    pub price_eq : p.entry_price ≡ some price
    pub bought_eq : p.entry_timestamp ≡ some bought_at
    pub signalled_eq : p.entry_signal_timestamp ≡ some signalled_at
    pub index_eq : p.entry_bar_index ≡ some index
    pub index_lt : index < limit
    pub price_pos : pos 0 <ℤ units price

  module _ (bars : List (MarketBar D)) (start : ℤ) where
    -- Cash is never negative, and what it and the shares at cost amount to is the cash at the start
    -- and the profits since.
    pub record IsSound (limit : ℕ) (curve : List (EquityPoint D)) (p : Portfolio D) : Type 0 where
      pub cash_nonneg : pos 0 ≤ℤ units p.cash
      pub accounts :
          units p.cash +ℤ invested p.entry_price p.quantity ≡ start +ℤ realized p.completed_trades
      pub booked : All (IsBooked bars) p.completed_trades
      pub curve_kept : p.equity_curve ≡ curve
      pub position : IsFlat p ⊎ IsHeld limit p
