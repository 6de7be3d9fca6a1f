-- ===== src/Backtest/Engine/Sound/Finished.antt =====
-- What holds behind the loop of `execute_long_only_signals` over the bars.
use mathlib.Core.List.{append_assoc, map-append}
use agentic_trading_platform.Prelude.{
  ℕ, suc, ◌≡◌, refl, Option, none, some, List, [], ◌∷◌, ◌++◌, map, last_or, All, Elem, Returns,
  returned, Returns->>=,
}
use agentic_trading_platform.Prelude.Int.{ℤ}
use agentic_trading_platform.Decimal.{Decimal, IsExact}
use agentic_trading_platform.Backtest.Models.{MarketBar, Signal, EquityPoint}
use agentic_trading_platform.Backtest.Engine.Portfolio.{Portfolio}
use agentic_trading_platform.Backtest.Engine.Run.{equity_point, run_bars}
use agentic_trading_platform.Backtest.Engine.Sound.{IsValidBar, IsFlat, IsSound}
use agentic_trading_platform.Backtest.Engine.Sound.Phases.{run_bar-RoundEnd}

module _ {D : Type 0} where
  abbrev pub bar_times : List (MarketBar D) → List ℕ
  bar_times = map (λ bar. bar.timestamp)

  abbrev pub point_times : List (EquityPoint D) → List ℕ
  point_times = map (λ point. point.timestamp)

module _ {D : Type 0} ⦃d : Decimal D⦄ where
  times_step :
      (curve : List (EquityPoint D)) (bar : MarketBar D) (q : Portfolio D)
      (rest : List (MarketBar D))
      → point_times (curve ++ (equity_point bar q ∷ [])) ++ bar_times rest
        ≡ point_times curve ++ bar_times (bar ∷ rest)
  times_step curve bar q rest = rw map-append (append_assoc (point_times curve) _ _)

module _ {D : Type 0} ⦃d : Decimal D⦄ (exact : IsExact d) where
  open exact use {units, units-nought, units-add, units-mul, le-eq}

  module _ (bars : List (MarketBar D)) (start : ℤ)
      (stop_loss_percent take_profit_percent : Option D) where
    -- Behind the loop over some bars, of which `final` is the last.
    pub record IsFinished (times : List ℕ) (final : MarketBar D) (q : Portfolio D) : Type 0 where
      pub limit : ℕ
      pub sound : IsSound exact bars start limit q.equity_curve q
      pub before : List (EquityPoint D)
      pub marked : q.equity_curve ≡ before ++ (equity_point final q ∷ [])
      pub timed : point_times q.equity_curve ≡ times

    pub finished :
        (curve : List (EquityPoint D)) (index : ℕ) (bar : MarketBar D) (q : Portfolio D)
        → IsSound exact bars start (suc index) (curve ++ (equity_point bar q ∷ [])) q
        → IsFinished (point_times curve ++ (bar.timestamp ∷ [])) bar q
    finished curve index bar q s = record {
      limit = suc index;
      sound = record {
        cash_nonneg = s.cash_nonneg;
        accounts = s.accounts;
        booked = s.booked;
        curve_kept = refl;
        position = s.position;
      };
      before = curve;
      marked = s.curve_kept;
      timed = rw s.curve_kept (map-append _ curve _);
    }

    pub run_bars-IsFinished :
        (signals : List Signal) (rest : List (MarketBar D)) (bar : MarketBar D) (index : ℕ)
        (previous : Option ℕ) (curve : List (EquityPoint D)) (p : Portfolio D)
        → All (λ b. IsValidBar exact b × Elem b bars) (bar ∷ rest)
        → IsSound exact bars start index curve p
        → (previous ≡ none → IsFlat exact p)
        → Returns
            (IsFinished (point_times curve ++ bar_times (bar ∷ rest)) (last_or rest bar))
            (run_bars stop_loss_percent take_profit_percent signals index previous (bar ∷ rest) p)
    unfolding run_bars
    run_bars-IsFinished signals [] bar index previous curve p ((v, e), _) s first =
        Returns->>= _ (λ q h. returned (finished curve index bar q h))
          (run_bar-RoundEnd exact bars start curve index bar v e stop_loss_percent
            take_profit_percent signals previous p s first)
    run_bars-IsFinished signals (next ∷ rest) bar index previous curve p ((v, e), good) s first =
        Returns->>=
          (run_bars stop_loss_percent take_profit_percent signals (suc index) (some bar.timestamp)
            (next ∷ rest))
          (λ q h. rw (times_step curve bar q (next ∷ rest)) at (
            run_bars-IsFinished signals rest next (suc index) (some bar.timestamp)
              (curve ++ (equity_point bar q ∷ [])) q good h (λ never. absurd (cc never))))
          (run_bar-RoundEnd exact bars start curve index bar v e stop_loss_percent
            take_profit_percent signals previous p s first)
