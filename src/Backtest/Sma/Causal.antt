-- ===== src/Backtest/Sma/Causal.antt =====
-- Averages of closes do not look ahead: later bars only add averages at the end.
use agentic_trading_platform.Prelude.{
  ℕ, suc, ◌+◌, ◌-◌, ◌≤◌, ◌<◌, ◌≡◌, List, [], ◌∷◌, ◌++◌, length, arith, Extends, Extends-cons,
  Extends-nil, get_elem?-append_left, Bool-cases, inl, inr, Grows, grown, raised,
}
use agentic_trading_platform.Prelude.Int.{ℤ, pos, pos_part, leb_ℤ}
use agentic_trading_platform.Decimal.{Decimal}
use agentic_trading_platform.Backtest.Models.{MarketBar}
use agentic_trading_platform.Backtest.Sma.{roll, sma_from, simple_moving_averages}

module _ {D : Type 0} ⦃d : Decimal D⦄ (bars more : List (MarketBar D)) where
  roll-append :
      (window index : ℕ) (total : D) (bar : MarketBar D)
      → index < length bars
      → roll (bars ++ more) window index total bar ≡ roll bars window index total bar
  unfolding roll
  roll-append window index total bar h =
      ground (arith, get_elem?-append_left bars more (index - window))

  sma_from-Extends :
      (window index : ℕ) (total : D) (rest : List (MarketBar D))
      → index + length rest ≤ length bars
      → Extends
          (sma_from bars window index total rest)
          (sma_from (bars ++ more) window index total (rest ++ more))
  unfolding sma_from
  sma_from-Extends window index total [] h = Extends-nil _
  sma_from-Extends window index total (bar ∷ rest) h =
      rw (roll-append window index total bar (omega arith)) (
        Extends-cons _ _ _ (
          sma_from-Extends window (suc index) (roll bars window index total bar) rest
            (omega arith)))

  -- Behind `bars`, more bars leave every average that was there.
  pub simple_moving_averages-Grows :
      (window : ℤ)
      → Grows (simple_moving_averages bars window) (simple_moving_averages (bars ++ more) window)
  unfolding simple_moving_averages
  simple_moving_averages-Grows window = elim (Bool-cases (leb_ℤ window (pos 0))) [
    | inl bad ↦ rw bad raised
    | inr good ↦ rw good (grown (sma_from-Extends (pos_part window) 0 d.nought bars (omega arith)))
  ]
