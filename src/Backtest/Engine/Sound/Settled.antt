-- ===== src/Backtest/Engine/Sound/Settled.antt =====
-- The whole of `execute_long_only_signals`: it returns, and its result accounts for all the money.
use agentic_trading_platform.Prelude.{
  ◌≡◌, refl, ◌≢◌, inl, false, Option, none, List, [], ◌∷◌, ◌++◌, last_or, All, All-Elem, All-zip,
  All-last, Elem, arith, ◌∙◌, ok, Returns, returned, Returns->>=, Returns-ok,
}
use agentic_trading_platform.Prelude.Int.{ℤ, pos, ◌≤ℤ◌, ◌<ℤ◌, ◌+ℤ◌, int_laws}
use agentic_trading_platform.Decimal.{Decimal, IsExact}
use agentic_trading_platform.Backtest.Models.{
  MarketBar, Signal, EquityPoint, CompletedTrade, ExecutionResult,
}
use agentic_trading_platform.Backtest.Engine.Portfolio.{Portfolio}
use agentic_trading_platform.Backtest.Engine.Risk.{validate_risk_control}
use agentic_trading_platform.Backtest.Engine.Run.{
  equity_point, sum_profit_loss, initial_portfolio, execution_result, run_signals,
  execute_long_only_signals,
}
use agentic_trading_platform.Backtest.Engine.Sound.{IsValidBar, IsBooked, realized, IsSound}
use agentic_trading_platform.Backtest.Engine.Sound.Finished.{
  bar_times, point_times, IsFinished, run_bars-IsFinished,
}
use agentic_trading_platform.Backtest.Engine.Sound.Closed.{IsClosed, liquidate-IsClosed}

nought_add : (a : ℤ) → pos 0 +ℤ a ≡ a
nought_add a = omega int_laws

module _ {D : Type 0} ⦃d : Decimal D⦄ (exact : IsExact d) where
  open exact use {units, units-nought, units-add, units-mul, le-eq}

  -- The result accounts for the money: nothing is lost or made up.
  pub record IsSettled (bars : List (MarketBar D)) (starting_cash : D) (r : ExecutionResult D)
      : Type 0 where
    pub value_nonneg : pos 0 ≤ℤ units r.final_portfolio_value
    pub value_eq :
        units r.final_portfolio_value ≡ units starting_cash +ℤ units r.total_realized_profit_loss
    pub profit_eq : units r.total_realized_profit_loss ≡ realized exact r.completed_trades
    pub booked : All (IsBooked exact bars) r.completed_trades
    pub one_point_a_bar : point_times r.equity_curve ≡ bar_times bars
    pub before_last : List (EquityPoint D)
    pub last_point : EquityPoint D
    pub curve_ends : r.equity_curve ≡ before_last ++ (last_point ∷ [])
    pub ends_at_value : units last_point.equity ≡ units r.final_portfolio_value

  units-sum_profit_loss :
      (trades : List (CompletedTrade D)) (total : D)
      → units (sum_profit_loss total trades) ≡ units total +ℤ realized exact trades
  unfolding sum_profit_loss
  units-sum_profit_loss [] total = omega int_laws
  units-sum_profit_loss (trade ∷ trades) total =
      rw (units-sum_profit_loss trades (d.add total trade.profit_loss), units-add) (omega int_laws)

  initial-IsSound :
      (bars : List (MarketBar D)) (starting_cash : D)
      → pos 0 <ℤ units starting_cash
      → IsSound exact bars (units starting_cash) 0 [] (initial_portfolio starting_cash)
  initial-IsSound bars starting_cash h = record {
    cash_nonneg = omega arith;
    accounts = refl;
    booked = tt;
    curve_kept = refl;
    position = inl (record { no_shares = refl; no_price = refl; no_index = refl });
  }

  settled :
      (bars : List (MarketBar D)) (starting_cash : D) (final : MarketBar D) (q p : Portfolio D)
      (stop_loss_percent take_profit_percent : Option D)
      → IsFinished exact bars
          (units starting_cash)
          stop_loss_percent
          take_profit_percent
          (bar_times bars)
          final
          q
      → IsClosed exact bars
          (units starting_cash)
          q.equity_curve
          final
          (units (equity_point final q).equity)
          p
      → IsSettled bars starting_cash (execution_result p)
  settled bars starting_cash final q p _ _ f c =
      let total : units (sum_profit_loss d.nought p.completed_trades)
          ≡ realized exact p.completed_trades =
        rw (units-sum_profit_loss, units-nought) (nought_add _) in
      record {
        value_nonneg = c.cash_nonneg;
        value_eq = rw total c.accounts;
        profit_eq = total;
        booked = c.booked;
        one_point_a_bar = rw c.curve_kept f.timed;
        before_last = f.before;
        last_point = equity_point final q;
        curve_ends = c.curve_kept ∙ f.marked;
        ends_at_value = c.value_kept;
      }

  run_signals-IsSettled :
      (first : MarketBar D) (rest : List (MarketBar D)) (signals : List Signal) (starting_cash : D)
      (stop_loss_percent take_profit_percent : Option D)
      → All (IsValidBar exact) (first ∷ rest)
      → pos 0 <ℤ units starting_cash
      → Returns
          (IsSettled (first ∷ rest) starting_cash)
          (run_signals first rest signals starting_cash stop_loss_percent take_profit_percent)
  unfolding run_signals
  run_signals-IsSettled first rest signals starting_cash stop_loss_percent take_profit_percent valid
        h =
      let bars = first ∷ rest in
      let good = All-zip (IsValidBar exact) (λ b. Elem b bars) bars valid (All-Elem bars) in
      let (v, e) = All-last (λ b. IsValidBar exact b × Elem b bars) rest first good in
      Returns->>= _
        (λ q f.
          Returns->>= _
            (λ p c. returned (
              settled bars starting_cash (last_or rest first) q p stop_loss_percent
                take_profit_percent f c))
            (liquidate-IsClosed exact bars (units starting_cash) f.limit (last_or rest first) q v e
              f.sound))
        (run_bars-IsFinished exact bars (units starting_cash) stop_loss_percent take_profit_percent
          signals rest first 0 none [] (initial_portfolio starting_cash) good
          (initial-IsSound bars starting_cash h)
          (λ _. record { no_shares = refl; no_price = refl; no_index = refl }))

  -- With exact arithmetic, at least one bar, valid bars, positive cash and risk controls that pass
  -- their checks, `execute_long_only_signals` does not raise, whatever the signals are. Its result
  -- is never negative and is the starting cash plus the total of the profits, which is the sum over
  -- the trades. Each trade has a positive quantity, a profit of that quantity times the gain of
  -- price, and an exit within the low and the high of one of the bars. The equity curve has one
  -- point for each bar, in order, and ends at the final portfolio value.
  pub execute_long_only_signals-IsSettled :
      (bars : List (MarketBar D)) (signals : List Signal) (starting_cash : D)
      (stop_loss_percent take_profit_percent : Option D)
      → bars ≢ []
      → All (IsValidBar exact) bars
      → pos 0 <ℤ units starting_cash
      → validate_risk_control stop_loss_percent "stop_loss_percent" ≡ ok tt
      → validate_risk_control take_profit_percent "take_profit_percent" ≡ ok tt
      → (r : ExecutionResult D) × (execute_long_only_signals bars signals starting_cash
            stop_loss_percent take_profit_percent
          ≡ ok r)
        × IsSettled bars starting_cash r
  unfolding execute_long_only_signals
  execute_long_only_signals-IsSettled [] signals starting_cash sl tp some_bar valid h p q =
      absurd (some_bar refl)
  execute_long_only_signals-IsSettled (first ∷ rest) signals starting_cash sl tp some_bar valid h p
        q =
      let positive : d.le starting_cash d.nought ≡ false =
        ground (arith, le-eq starting_cash d.nought, units-nought) in
      let (r, e, s) =
        Returns-ok (run_signals-IsSettled first rest signals starting_cash sl tp valid h) in
      (r, rw (positive, p, q) e, s)
