-- ===== src/Backtest/Engine/Curve.antt =====
-- The equity curve of an execution, in any arithmetic: one point a bar.
use mathlib.Core.List.{append_assoc, map-append, append-nil}
use agentic_trading_platform.Prelude.{
  IfOk, IfOk->>=, IfOk-any, IfOk-if, IfOk-map, ℕ, suc, ◌≡◌, refl, ap, sym, ◌∙◌, Bool, true, false,
  not, ◌&&◌, Option, none, some, List, [], ◌∷◌, ◌++◌, map, last_or, ok, arith, ◌>>=◌, raise_if,
  value_error,
}
use agentic_trading_platform.Prelude.Int.{pos, ltb_ℤ, is_zero_ℤ}
use agentic_trading_platform.Decimal.{Decimal}
use agentic_trading_platform.Backtest.Models.{
  MarketBar, Signal, SignalType, buy, sell, ExecutionResult, ExitReason, final_liquidation,
}
use agentic_trading_platform.Backtest.Engine.Portfolio.{
  Portfolio, execute_buy, execute_sell, close_position, exit_position, entry_details,
  completed_trade,
}
use agentic_trading_platform.Backtest.Engine.Risk.{
  evaluate_opening_risk_exit, evaluate_intraday_risk_exit, validate_risk_control,
}
use agentic_trading_platform.Backtest.Engine.Run.{
  open_risk, process_signal, process_signals, open_phase, intraday_phase, run_bar, run_bars,
  liquidate, final_exit, run_signals, execute_long_only_signals, initial_portfolio,
  signals_at_timestamp,
}

module _ {D : Type 0} ⦃d : Decimal D⦄ where
  abbrev Same : Portfolio D → Portfolio D → Type 0
  Same p q = q.equity_curve ≡ p.equity_curve

  execute_buy-Same :
      (signal : Signal) (bar : MarketBar D) (p : Portfolio D)
      → IfOk (Same p) (execute_buy signal bar p)
  unfolding execute_buy
  execute_buy-Same signal bar p = ground arith

  execute_sell-Same :
      (signal : Signal) (bar : MarketBar D) (p : Portfolio D)
      → IfOk (λ (q, _). Same p q) (execute_sell signal bar p)
  unfolding execute_sell
  execute_sell-Same signal bar p = IfOk-if _ (is_zero_ℤ p.quantity) _ _ refl (
      IfOk-any _ (entry_details p.entry_price p.entry_timestamp p.entry_signal_timestamp) _
        (λ (a, b, c). IfOk-any _ (completed_trade _ a b c _ _ _ _) _ (λ (e, f). refl)))

  exit_position-Same :
      (bar : MarketBar D) (price : D) (reason : ExitReason) (p : Portfolio D)
      → IfOk (Same p) (exit_position bar price reason p)
  unfolding exit_position
  exit_position-Same bar price reason p =
      IfOk-any _ (close_position bar price reason p) _ (λ (cash, trade). refl)

  open_risk-Same : (index : ℕ) (a b : Option D) (p : Portfolio D) → Same p (open_risk index a b p)
  unfolding open_risk
  open_risk-Same index a b p = ground arith

  module _ (stop_loss_percent take_profit_percent : Option D) where
    process_signal-Same :
        (index : ℕ) (bar : MarketBar D) (signal : Signal) (type : SignalType)
        (state : Portfolio D × Bool)
        → IfOk
            (λ (q, _). Same state.0 q)
            (process_signal stop_loss_percent take_profit_percent index bar signal type state)
    unfolding process_signal
    process_signal-Same index bar signal buy (p, closed) =
        IfOk->>= _ (execute_buy signal bar p) _ (execute_buy-Same signal bar p)
          (λ q h. ground (arith, open_risk-Same index stop_loss_percent take_profit_percent q))
    process_signal-Same index bar signal sell (p, closed) =
        IfOk->>= _ (execute_sell signal bar p) _ (execute_sell-Same signal bar p)
          (λ (q, completed) h. ground arith)

    process_signals-Same :
        (index : ℕ) (bar : MarketBar D) (signals : List Signal) (state : Portfolio D × Bool)
        → IfOk
            (λ (q, _). Same state.0 q)
            (process_signals stop_loss_percent take_profit_percent index bar signals state)
    unfolding process_signals
    process_signals-Same index bar [] state = refl
    process_signals-Same index bar (signal ∷ signals) state =
        IfOk->>= _
          (process_signal stop_loss_percent take_profit_percent index bar signal signal.signal_type
            state)
          _ (process_signal-Same index bar signal signal.signal_type state)
          (λ next h.
            IfOk-map (λ (q, _). Same next.0 q) (λ (q, _). Same state.0 q)
              (process_signals stop_loss_percent take_profit_percent index bar signals next)
              (process_signals-Same index bar signals next) (λ (q, _) k. k ∙ h))

    open_phase-Same :
        (index : ℕ) (bar : MarketBar D) (pending : List Signal) (p : Portfolio D)
        → IfOk
            (λ (q, _). Same p q)
            (open_phase stop_loss_percent take_profit_percent index bar pending p)
    unfolding open_phase
    open_phase-Same index bar pending p = opened (evaluate_opening_risk_exit bar index p)
      where
        opened :
            (exit : Option (D × ExitReason))
            → IfOk
                (λ (q, _). Same p q)
                (elim exit [
                  | none ↦
                      process_signals stop_loss_percent take_profit_percent index bar pending
                        (p, false)
                  | some (exit_price, exit_reason) ↦
                      exit_position bar exit_price exit_reason p >>= λ p'.
                      ok (record p' { ignored_signals = p.ignored_signals ++ pending }, true)
                ])
        opened none = process_signals-Same index bar pending (p, false)
        opened (some (price, reason)) =
            IfOk->>= _ (exit_position bar price reason p) _ (exit_position-Same bar price reason p)
              (λ q h. h)

    intraday_phase-Same :
        (index : ℕ) (bar : MarketBar D) (p : Portfolio D) (closed : Bool)
        → IfOk (Same p) (intraday_phase stop_loss_percent take_profit_percent index bar (p, closed))
    unfolding intraday_phase
    intraday_phase-Same index bar p closed =
        IfOk-if _ (ltb_ℤ (pos 0) p.quantity && not closed) _ _
          (exited (evaluate_intraday_risk_exit bar index p)) refl
      where
        exited :
            (exit : Option (D × ExitReason))
            → IfOk (Same p) (elim exit [
              | none ↦ ok p
              | some (exit_price, exit_reason) ↦ exit_position bar exit_price exit_reason p
            ])
        exited none = refl
        exited (some (price, reason)) = exit_position-Same bar price reason p

    -- A round appends one point, of its bar.
    abbrev Marked : MarketBar D → Portfolio D → Portfolio D → Type 0
    Marked bar p q =
        map (λ point. point.timestamp) q.equity_curve
        ≡ map (λ point. point.timestamp) p.equity_curve ++ (bar.timestamp ∷ [])

    run_bar-Marked :
        (signals : List Signal) (index : ℕ) (previous : Option ℕ) (bar : MarketBar D)
        (p : Portfolio D)
        → IfOk
            (Marked bar p)
            (run_bar stop_loss_percent take_profit_percent signals index previous bar p)
    unfolding run_bar
    run_bar-Marked signals index none bar p =
        IfOk->>= _ (intraday_phase stop_loss_percent take_profit_percent index bar (p, false)) _
          (intraday_phase-Same index bar p false) (λ q h. rw (map-append, h) refl)
    run_bar-Marked signals index (some time) bar p =
        IfOk->>= _
          (open_phase stop_loss_percent take_profit_percent index bar
            (signals_at_timestamp time signals) p)
          _ (open_phase-Same index bar (signals_at_timestamp time signals) p)
          (λ (q, closed) h.
            IfOk->>= _ (intraday_phase stop_loss_percent take_profit_percent index bar (q, closed))
              _ (intraday_phase-Same index bar q closed) (λ r k. rw (map-append, k, h) refl))

    -- The curve has the points of `p` and, behind them, one for each bar.
    abbrev MarkedAll : List (MarketBar D) → Portfolio D → Portfolio D → Type 0
    MarkedAll bars p q =
        map (λ point. point.timestamp) q.equity_curve
        ≡ map (λ point. point.timestamp) p.equity_curve ++ map (λ bar. bar.timestamp) bars

    run_bars-MarkedAll :
        (signals : List Signal) (index : ℕ) (previous : Option ℕ) (bars : List (MarketBar D))
        (p : Portfolio D)
        → IfOk
            (MarkedAll bars p)
            (run_bars stop_loss_percent take_profit_percent signals index previous bars p)
    unfolding run_bars
    run_bars-MarkedAll signals index previous [] p = sym (append-nil _)
    run_bars-MarkedAll signals index previous (bar ∷ rest) p =
        IfOk->>= _ (run_bar stop_loss_percent take_profit_percent signals index previous bar p) _
          (run_bar-Marked signals index previous bar p)
          (λ q h.
            IfOk-map (MarkedAll rest q) (MarkedAll (bar ∷ rest) p)
              (run_bars stop_loss_percent take_profit_percent signals (suc index)
                (some bar.timestamp) rest q)
              (run_bars-MarkedAll signals (suc index) (some bar.timestamp) rest q)
              (λ r k.
                k
                ∙ ap (λ times. times ++ map (λ bar. bar.timestamp) rest) h
                ∙ append_assoc (map (λ point. point.timestamp) p.equity_curve) (bar.timestamp ∷ [])
                    (map (λ bar. bar.timestamp) rest)))

  liquidate-Same : (bar : MarketBar D) (p : Portfolio D) → IfOk (Same p) (liquidate bar p)
  unfolding liquidate final_exit
  liquidate-Same bar p =
      IfOk-if _ (ltb_ℤ (pos 0) p.quantity) _ _
        (IfOk-any _ (close_position bar bar.close_price final_liquidation p) _
          (λ (cash, trade). refl))
        refl

  -- The curve has one point a bar, in order.
  abbrev pub Timed : List (MarketBar D) → ExecutionResult D → Type 0
  Timed bars r = map (λ point. point.timestamp) r.equity_curve ≡ map (λ bar. bar.timestamp) bars

  run_signals-Timed :
      (first : MarketBar D) (rest : List (MarketBar D)) (signals : List Signal) (starting_cash : D)
      (stop_loss_percent take_profit_percent : Option D)
      → IfOk
          (Timed (first ∷ rest))
          (run_signals first rest signals starting_cash stop_loss_percent take_profit_percent)
  unfolding run_signals
  run_signals-Timed first rest signals starting_cash a b =
      IfOk->>= (Timed (first ∷ rest))
        (run_bars a b signals 0 none (first ∷ rest) (initial_portfolio starting_cash)) _
        (run_bars-MarkedAll a b signals 0 none (first ∷ rest) (initial_portfolio starting_cash))
        (λ q h.
          IfOk->>= (Timed (first ∷ rest)) (liquidate (last_or rest first) q) _
            (liquidate-Same (last_or rest first) q)
            (λ r k. ap (λ curve. map (λ point. point.timestamp) curve) k ∙ h))

  pub execute_long_only_signals-Timed :
      (bars : List (MarketBar D)) (signals : List Signal) (starting_cash : D)
      (stop_loss_percent take_profit_percent : Option D)
      → IfOk (Timed bars) (
          execute_long_only_signals bars signals starting_cash stop_loss_percent
            take_profit_percent)
  unfolding execute_long_only_signals
  execute_long_only_signals-Timed [] signals starting_cash a b =
      IfOk-any (Timed [])
        (raise_if (d.le starting_cash d.nought) (value_error "starting_cash must be positive")) _
        (λ _. tt)
  execute_long_only_signals-Timed (first ∷ rest) signals starting_cash a b =
      IfOk-any (Timed (first ∷ rest))
        (raise_if (d.le starting_cash d.nought) (value_error "starting_cash must be positive")) _
        (λ _. IfOk-any (Timed (first ∷ rest)) (validate_risk_control a "stop_loss_percent") _ (λ _.
          IfOk-any (Timed (first ∷ rest)) (validate_risk_control b "take_profit_percent") _
            (λ _. run_signals-Timed first rest signals starting_cash a b)))
