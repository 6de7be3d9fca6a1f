-- ===== src/Backtest/Preview/Comparison.antt =====
-- The two curves of a preview, which its serialization walks side by side, line up.
use agentic_trading_platform.Prelude.{
  ℕ, zero, suc, ◌≡◌, refl, sym, ap, ◌∙◌, Option, none, some, List, [], ◌∷◌, map, drop, get_elem?,
  last_or, Result, ok,
}
use agentic_trading_platform.Prelude.Int.{ℤ}
use agentic_trading_platform.Decimal.{Decimal, checked_floor_div}
use agentic_trading_platform.Strategy.Spec.{StrategySpecification}
use agentic_trading_platform.Backtest.Models.{MarketBar, EquityPoint}
use agentic_trading_platform.Backtest.Compiler.{
  CompiledStrategy, compile_strategy, generate_signals, first_signal_eligible_index,
}
use agentic_trading_platform.Backtest.Engine.Run.{execute_long_only_signals}
use agentic_trading_platform.Prelude.{IfOk, IfOk->>=, IfOk-any}
use agentic_trading_platform.Backtest.Engine.Curve.{execute_long_only_signals-Timed}
use agentic_trading_platform.Backtest.Metrics.{
  calculate_metrics, calculate_buy_and_hold_equity_curve, benchmark_point,
}
use agentic_trading_platform.Market.Model.{MarketData}
use agentic_trading_platform.Backtest.Preview.{
  preview_at, MarketData, StrategyPreview, with_start, preview_from, preview_on,
  create_specification_preview, load_market_bars,
}

drop-map : {A B : Type 0} (f : A → B) (n : ℕ) (xs : List A) → drop n (map f xs) ≡ map f (drop n xs)
drop-map f zero xs = refl
drop-map f (suc n) [] = refl
drop-map f (suc n) (x ∷ xs) = drop-map f n xs

drop-get_elem? :
    {A : Type 0} (xs : List A) (n : ℕ) {x : A}
    → get_elem? xs n ≡ some x
    → (rest : List A) × (drop n xs ≡ x ∷ rest)
drop-get_elem? [] n h = absurd (cc)
drop-get_elem? (y ∷ xs) zero h = (xs, cc)
drop-get_elem? (y ∷ xs) (suc n) h = drop-get_elem? xs n h

IfOk-eq : {A : Type 0} (P : A → Type 0) {m : Result A} {a : A} → IfOk P m → m ≡ ok a → P a
IfOk-eq P h e = rw e at h

module _ {D : Type 0} ⦃d : Decimal D⦄ where
  abbrev point_times : List (EquityPoint D) → List ℕ
  point_times = map (λ point. point.timestamp)

  abbrev bar_times : List (MarketBar D) → List ℕ
  bar_times = map (λ bar. bar.timestamp)

  benchmark-times :
      (cash : D) (quantity : ℤ) (bars : List (MarketBar D))
      → point_times (map (benchmark_point cash quantity) bars) ≡ bar_times bars
  benchmark-times cash quantity [] = refl
  benchmark-times cash quantity (bar ∷ bars) =
      ap (λ times. bar.timestamp ∷ times) (benchmark-times cash quantity bars)

  buy_and_hold-times :
      (power : D → D → D) (bars : List (MarketBar D)) (cash : D) (index : ℕ)
      (start_bar : MarketBar D)
      → get_elem? bars index ≡ some start_bar
      → IfOk
          (λ points.
            point_times (with_start power start_bar.timestamp points) ≡ bar_times (drop index bars))
          (calculate_buy_and_hold_equity_curve bars cash index)
  unfolding calculate_buy_and_hold_equity_curve
  buy_and_hold-times power bars cash index start_bar found =
      let (rest, split) = drop-get_elem? bars index found in
      rw split (
        IfOk-any _ (checked_floor_div cash start_bar.open_price) _
          (λ quantity. ap (λ times. start_bar.timestamp ∷ times) (benchmark-times _ quantity rest)))

  module _ (power : D → D → D) where
    -- The curve of the strategy from the comparison's start on has the benchmark's timestamps.
    abbrev LinesUp : StrategyPreview D → Type 0
    LinesUp p =
        point_times (drop p.comparison_start_index p.execution.equity_curve)
        ≡ point_times p.buy_and_hold_equity_curve

    preview_from-LinesUp :
        (specification : StrategySpecification D) (compiled : CompiledStrategy D)
        (bars : List (MarketBar D)) (first last start_bar : MarketBar D) (index : ℕ)
        → get_elem? bars index ≡ some start_bar
        → IfOk LinesUp (preview_from power specification compiled bars first last start_bar index)
    unfolding preview_from
    preview_from-LinesUp specification compiled bars first last start_bar index found =
        IfOk-any _ (generate_signals compiled bars) _ (λ signals.
          IfOk->>= _
            (execute_long_only_signals bars signals _ specification.stop_loss_percent
              specification.take_profit_percent)
            _ (execute_long_only_signals-Timed bars signals _ _ _)
            (λ r timed.
              IfOk-any _
                (calculate_metrics power bars r.equity_curve r.completed_trades _
                  r.final_portfolio_value index)
                _
                (λ metrics.
                  IfOk->>= _ (calculate_buy_and_hold_equity_curve bars _ index) _
                    (buy_and_hold-times power bars _ index start_bar found)
                    (λ points lined.
                      sym (drop-map _ index r.equity_curve)
                      ∙ ap (drop index) timed
                      ∙ drop-map _ index bars
                      ∙ sym lined))))

    preview_at-LinesUp :
        (specification : StrategySpecification D) (compiled : CompiledStrategy D)
        (first : MarketBar D) (rest : List (MarketBar D)) (start : Option (MarketBar D))
        → get_elem? (first ∷ rest) (first_signal_eligible_index compiled) ≡ start
        → IfOk LinesUp (preview_at power specification compiled first rest start)
    preview_at-LinesUp specification compiled first rest none found = tt
    preview_at-LinesUp specification compiled first rest (some start_bar) found =
        preview_from-LinesUp specification compiled (first ∷ rest) first (last_or rest first)
          start_bar (first_signal_eligible_index compiled) found

    preview_on-LinesUp :
        (specification : StrategySpecification D) (compiled : CompiledStrategy D)
        (bars : List (MarketBar D))
        → IfOk LinesUp (preview_on power specification compiled bars)
    unfolding preview_on
    preview_on-LinesUp specification compiled [] = tt
    preview_on-LinesUp specification compiled (first ∷ rest) =
        preview_at-LinesUp specification compiled first rest _ refl

    -- The two curves of a preview line up, in any arithmetic: the equity curve of the strategy from
    -- the comparison's start on and the curve of the benchmark have the same timestamps, one for one,
    -- so that the strict `zip` over them in the serialization does not raise.
    pub create_specification_preview-LinesUp :
        (rows : List (MarketData D)) (specification : StrategySpecification D)
        {preview : StrategyPreview D}
        → create_specification_preview power rows specification ≡ ok preview
        → point_times (drop preview.comparison_start_index preview.execution.equity_curve)
          ≡ point_times preview.buy_and_hold_equity_curve
    unfolding create_specification_preview
    create_specification_preview-LinesUp rows specification e =
        IfOk-eq LinesUp
          (IfOk-any LinesUp (compile_strategy specification) _ (λ compiled.
            preview_on-LinesUp specification compiled
              (load_market_bars rows specification.symbol specification.interval)))
          e
