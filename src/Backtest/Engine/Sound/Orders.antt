-- ===== src/Backtest/Engine/Sound/Orders.antt =====
-- Each order keeps the invariant and does not raise.
use agentic_trading_platform.Prelude.{
  ℕ, ◌≤◌, ◌≡◌, refl, ◌⊎◌, inl, inr, none, List, [], ◌∷◌, ◌++◌, All-append, Elem, Elem-Some, arith,
  ◌∙◌, ok, Returns, returned, Returns->>=,
}
use agentic_trading_platform.Prelude.Int.{ℤ, pos, ◌+ℤ◌, ◌*ℤ◌, ◌≤ℤ◌, ◌<ℤ◌, *ℤ_nonneg}
use agentic_trading_platform.Decimal.{Decimal, IsExact}
use agentic_trading_platform.Backtest.Models.{MarketBar, CompletedTrade, EquityPoint, ExitReason}
use agentic_trading_platform.Backtest.Engine.Portfolio.{Portfolio, close_position, exit_position}
use agentic_trading_platform.Backtest.Engine.Sound.{
  FillsAt, IsBooked, realized-snoc, IsFlat, IsHeld, IsSound,
}
use agentic_trading_platform.Backtest.Engine.Sound.Exits.{
  exit_accounts, sum_nonneg, not_le_zero, IsExit, completed_trade-IsExit, position-same,
}

module _ {D : Type 0} ⦃d : Decimal D⦄ (exact : IsExact d) where
  open exact use {
    units, units-nought, units-add, units-sub, units-mul, le-eq, lt-eq, is_zero→eq,
    floor_div-nonneg,
  }

  module _ (bars : List (MarketBar D)) (start : ℤ) (curve : List (EquityPoint D)) where
    pub IsExit-IsBooked :
        (bar : MarketBar D) (exit_price : D) (quantity : ℤ) (price : D) (r : D × CompletedTrade D)
        → Elem bar bars
        → pos 0 <ℤ quantity
        → units bar.low_price ≤ℤ units exit_price
        → units exit_price ≤ℤ units bar.high_price
        → IsExit exact bar exit_price quantity price r
        → IsBooked exact bars r.1
    IsExit-IsBooked bar exit_price quantity price r e h low high x = record {
      quantity_pos = rw x.quantity_is h;
      profit_eq = rw (x.quantity_is, x.exit_is, x.entry_is) x.profit_is;
      filled = Elem-Some (FillsAt exact r.1) e (record {
        at_bar = x.time_is;
        low-le-exit = rw x.exit_is low;
        exit-le-high = rw x.exit_is high;
      });
    }

    -- Behind an exit of held shares the portfolio is sound and flat.
    pub exited :
        (limit : ℕ) (bar : MarketBar D) (exit_price : D) (p q : Portfolio D)
        (r : D × CompletedTrade D) (h : IsHeld exact limit p)
        → Elem bar bars
        → units bar.low_price ≤ℤ units exit_price
        → units exit_price ≤ℤ units bar.high_price
        → pos 0 <ℤ units exit_price
        → IsSound exact bars start limit curve p
        → IsExit exact bar exit_price p.quantity h.price r
        → q.cash ≡ d.add p.cash r.0
        → q.quantity ≡ pos 0
        → q.entry_price ≡ none
        → q.entry_bar_index ≡ none
        → q.completed_trades ≡ p.completed_trades ++ (r.1 ∷ [])
        → q.equity_curve ≡ p.equity_curve
        → IsSound exact bars start limit curve q
    exited limit bar exit_price p q r h e low high exit_pos s x is_cash is_zero is_none is_unset
          is_trades is_curve =
        let held : pos 0 <ℤ p.quantity = rw h.shares_eq (omega arith) in
        let gain : units q.cash ≡ units p.cash +ℤ p.quantity *ℤ units exit_price =
          rw (is_cash, units-add, x.proceeds_eq) refl in
        record {
          cash_nonneg = rw gain (
              sum_nonneg _ _ s.cash_nonneg
                (*ℤ_nonneg p.quantity (units exit_price) (omega arith) (omega arith)));
          accounts =
              rw (gain, is_none, is_trades, realized-snoc exact p.completed_trades r.1)
                (exit_accounts _ (p.quantity *ℤ units h.price) _ _ _ _ (rw h.price_eq at s.accounts)
                  x.profit_is);
          booked = rw is_trades (
              All-append (IsBooked exact bars) p.completed_trades (r.1 ∷ []) s.booked
                (IsExit-IsBooked bar exit_price p.quantity h.price r e held low high x, tt));
          curve_kept = is_curve ∙ s.curve_kept;
          position = inl (record { no_shares = is_zero; no_price = is_none; no_index = is_unset });
        }

    -- `close_position` on held shares returns the cash and the trade of an exit.
    pub close_position-IsExit :
        (limit : ℕ) (bar : MarketBar D) (exit_price : D) (reason : ExitReason) (p : Portfolio D)
        (h : IsHeld exact limit p)
        → Returns
            (λ r.
              (proceeds : D) × (r.0 ≡ d.add p.cash proceeds)
              × IsExit exact bar exit_price p.quantity h.price (proceeds, r.1))
            (close_position bar exit_price reason p)
    unfolding close_position
    close_position-IsExit limit bar exit_price reason p h =
        let some_shares : pos 0 <ℤ p.quantity = rw h.shares_eq (omega arith) in
        rw (not_le_zero p.quantity some_shares, h.price_eq, h.bought_eq, h.signalled_eq)
          (Returns->>= (λ r. ok (d.add p.cash r.0, r.1)) (λ r x. returned (r.0, refl, x))
            (completed_trade-IsExit exact bar p.quantity h.price exit_price h.bought_at
              h.signalled_at none reason some_shares h.price_pos))

    -- An exit of held shares, within the bar's range, keeps the invariant and leaves no shares.
    pub exit_position-IsSound :
        (limit : ℕ) (bar : MarketBar D) (exit_price : D) (reason : ExitReason) (p : Portfolio D)
        → IsHeld exact limit p
        → Elem bar bars
        → units bar.low_price ≤ℤ units exit_price
        → units exit_price ≤ℤ units bar.high_price
        → pos 0 <ℤ units exit_price
        → IsSound exact bars start limit curve p
        → Returns
            (λ q. IsSound exact bars start limit curve q × (q.quantity ≡ pos 0))
            (exit_position bar exit_price reason p)
    unfolding exit_position
    exit_position-IsSound limit bar exit_price reason p h e low high exit_pos s =
        Returns->>= _
          (λ r (proceeds, is_cash, x). returned (
            exited limit bar exit_price p _ (proceeds, r.1) h e low high exit_pos s x is_cash refl
                refl refl refl refl,
            refl,
          ))
          (close_position-IsExit limit bar exit_price reason p h)

    -- The invariant reads neither the ignored signals nor the risk levels.
    pub IsSound-same :
        (limit : ℕ) (p q : Portfolio D)
        → IsSound exact bars start limit curve p
        → q.cash ≡ p.cash
        → q.quantity ≡ p.quantity
        → q.entry_price ≡ p.entry_price
        → q.entry_timestamp ≡ p.entry_timestamp
        → q.entry_signal_timestamp ≡ p.entry_signal_timestamp
        → q.entry_bar_index ≡ p.entry_bar_index
        → q.completed_trades ≡ p.completed_trades
        → q.equity_curve ≡ p.equity_curve
        → IsSound exact bars start limit curve q
    IsSound-same limit p q s c n e t g i h m = record {
      cash_nonneg = rw c s.cash_nonneg;
      accounts = rw (c, n, e, h) s.accounts;
      booked = rw h s.booked;
      curve_kept = m ∙ s.curve_kept;
      position = position-same exact limit p q n e t g i s.position;
    }

    -- A position that was open before one bar was open before a later one.
    pub IsSound-later :
        (limit later : ℕ) (p : Portfolio D)
        → limit ≤ later
        → IsSound exact bars start limit curve p
        → IsSound exact bars start later curve p
    IsSound-later limit later p h s = record {
      cash_nonneg = s.cash_nonneg;
      accounts = s.accounts;
      booked = s.booked;
      curve_kept = s.curve_kept;
      position = still s.position;
    }
      where
        still : IsFlat exact p ⊎ IsHeld exact limit p → IsFlat exact p ⊎ IsHeld exact later p
        still (inl f) = inl f
        still (inr f) = inr (record {
          shares_before = f.shares_before;
          price = f.price;
          bought_at = f.bought_at;
          signalled_at = f.signalled_at;
          index = f.index;
          shares_eq = f.shares_eq;
          price_eq = f.price_eq;
          bought_eq = f.bought_eq;
          signalled_eq = f.signalled_eq;
          index_eq = f.index_eq;
          index_lt = omega (arith, f.index_lt);
          price_pos = f.price_pos;
        })
