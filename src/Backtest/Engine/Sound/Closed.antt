-- ===== src/Backtest/Engine/Sound/Closed.antt =====
-- What holds behind the final liquidation at the last bar.
use agentic_trading_platform.Prelude.{
  ℕ, ◌≡◌, refl, inl, inr, List, [], ◌∷◌, ◌++◌, All, All-append, Elem, ap, arith, ok, Returns,
  returned, Returns->>=,
}
use agentic_trading_platform.Prelude.Int.{
  ℤ, pos, pos_part, neg_part, ◌≤ℤ◌, ◌<ℤ◌, ◌+ℤ◌, ◌*ℤ◌, int_laws, *ℤ_nonneg, zero_*ℤ,
}
use agentic_trading_platform.Decimal.{Decimal, IsExact}
use agentic_trading_platform.Backtest.Models.{
  MarketBar, EquityPoint, CompletedTrade, final_liquidation,
}
use agentic_trading_platform.Backtest.Engine.Portfolio.{Portfolio}
use agentic_trading_platform.Backtest.Engine.Run.{equity_point, liquidate, final_exit}
use agentic_trading_platform.Backtest.Engine.Sound.{
  IsValidBar, IsBooked, realized, realized-snoc, IsFlat, IsHeld, IsSound,
}
use agentic_trading_platform.Backtest.Engine.Sound.Exits.{IsExit, exit_accounts, sum_nonneg}
use agentic_trading_platform.Backtest.Engine.Sound.Orders.{close_position-IsExit, IsExit-IsBooked}

drop_nought : (a b : ℤ) → a +ℤ pos 0 ≡ b → a ≡ b
drop_nought a b h = omega (int_laws, ap pos_part h, ap neg_part h)

add_nought : (a : ℤ) → a +ℤ pos 0 ≡ a
add_nought a = omega int_laws

module _ {D : Type 0} ⦃d : Decimal D⦄ (exact : IsExact d) where
  open exact use {units, units-nought, units-add, units-mul, le-eq}

  module _ (bars : List (MarketBar D)) (start : ℤ) where
    -- What holds behind the final exit.
    pub record IsClosed (curve : List (EquityPoint D)) (final : MarketBar D) (value : ℤ)
        (p : Portfolio D) : Type 0 where
      pub cash_nonneg : pos 0 ≤ℤ units p.cash
      pub accounts : units p.cash ≡ start +ℤ realized exact p.completed_trades
      pub booked : All (IsBooked exact bars) p.completed_trades
      pub curve_kept : p.equity_curve ≡ curve
      pub value_kept : value ≡ units p.cash

    pub flat-IsClosed :
        (limit : ℕ) (final : MarketBar D) (q : Portfolio D)
        → IsFlat exact q
        → IsSound exact bars start limit q.equity_curve q
        → IsClosed q.equity_curve final (units (equity_point final q).equity) q
    flat-IsClosed limit final q f s = record {
      cash_nonneg = s.cash_nonneg;
      accounts = drop_nought _ _ (rw f.no_price at s.accounts);
      booked = s.booked;
      curve_kept = refl;
      value_kept = rw (units-add, units-mul, f.no_shares, zero_*ℤ) (add_nought (units q.cash));
    }

    pub held-IsClosed :
        (limit : ℕ) (final : MarketBar D) (q : Portfolio D) (h : IsHeld exact limit q)
        (r : D × CompletedTrade D)
        → IsValidBar exact final
        → Elem final bars
        → IsSound exact bars start limit q.equity_curve q
        → IsExit exact final final.close_price q.quantity h.price r
        → IsClosed q.equity_curve final (units (equity_point final q).equity) (record q {
          cash = d.add q.cash r.0;
          completed_trades = q.completed_trades ++ (r.1 ∷ []);
        })
    held-IsClosed limit final q h r v e s x =
        let some_shares : pos 0 <ℤ q.quantity = rw h.shares_eq (omega arith) in
        let gain : units (d.add q.cash r.0)
            ≡ units q.cash +ℤ q.quantity *ℤ units final.close_price =
          rw (units-add, x.proceeds_eq) refl in
        record {
          cash_nonneg = rw gain (
              sum_nonneg _ _ s.cash_nonneg (
                *ℤ_nonneg q.quantity (units final.close_price) (omega arith)
                  (omega (arith, v.low_pos, v.low-le-close))));
          accounts = drop_nought _ _ (
              rw (gain, realized-snoc exact q.completed_trades r.1)
                (exit_accounts _ (q.quantity *ℤ units h.price) _ _ _ _ (rw h.price_eq at s.accounts)
                  x.profit_is));
          booked = All-append (IsBooked exact bars) q.completed_trades (r.1 ∷ []) s.booked (
            IsExit-IsBooked exact bars start q.equity_curve final final.close_price q.quantity
                h.price r e some_shares v.low-le-close v.close-le-high x,
            tt,
          );
          curve_kept = refl;
          value_kept = rw (gain, units-add, units-mul) refl;
        }

    pub liquidate-IsClosed :
        (limit : ℕ) (final : MarketBar D) (q : Portfolio D)
        → IsValidBar exact final
        → Elem final bars
        → IsSound exact bars start limit q.equity_curve q
        → Returns
            (IsClosed q.equity_curve final (units (equity_point final q).equity))
            (liquidate final q)
    unfolding liquidate final_exit
    liquidate-IsClosed limit final q v e s = elim s.position [
      | inl f ↦
          let does : liquidate final q ≡ ok q = ground (arith, f.no_shares) in
          rw does (returned (flat-IsClosed limit final q f s))
      | inr h ↦
          let does : liquidate final q ≡ final_exit final q = ground (arith, h.shares_eq) in
          rw does (
            Returns->>=
              (λ (cash, trade).
                ok
                  (record q { cash = cash; completed_trades = q.completed_trades ++ (trade ∷ []) }))
              (λ r (proceeds, is_cash, x).
                rw is_cash (returned (held-IsClosed limit final q h (proceeds, r.1) v e s x)))
              (close_position-IsExit exact bars start q.equity_curve limit final final.close_price
                final_liquidation q h))
    ]
