-- ===== src/Backtest/Metrics/Benchmark.antt =====
-- The benchmark invests the starting cash at the open of the start bar, and nothing is lost.
use agentic_trading_platform.Prelude.{
  ℕ, ◌≡◌, refl, ap, List, [], ◌∷◌, map, drop, ok, arith, Bool-cases, inl, inr,
}
use agentic_trading_platform.Prelude.Int.{
  ℤ, pos, pos_part, neg_part, ◌+ℤ◌, ◌-ℤ◌, ◌*ℤ◌, ◌≤ℤ◌, ◌<ℤ◌, int_laws,
}
use agentic_trading_platform.Decimal.{Decimal, IsExact}
use agentic_trading_platform.Backtest.Models.{MarketBar, EquityPoint}
use agentic_trading_platform.Backtest.Metrics.{calculate_buy_and_hold_equity_curve, benchmark_point}

module _ {D : Type 0} ⦃d : Decimal D⦄ (exact : IsExact d) where
  open exact use {units, units-add, units-sub, units-mul, is_zero→eq, floor_div-nonneg}

  -- A point of the curve of `quantity` shares bought at the open of the start bar.
  pub record IsInvested (starting_cash : D) (start_bar : MarketBar D) (quantity : ℤ)
      (bar : MarketBar D) (point : EquityPoint D) : Type 0 where
    pub at_bar : point.timestamp ≡ bar.timestamp
    pub value_eq :
        units point.equity
        ≡ units starting_cash
          +ℤ (quantity *ℤ units bar.close_price -ℤ quantity *ℤ units start_bar.open_price)

  -- The points of the curve, one for each bar, in order.
  abbrev pub AreInvested : D → MarketBar D → ℤ → List (MarketBar D) → List (EquityPoint D) → Type 0
  AreInvested starting_cash start_bar quantity [] [] = Unit
  AreInvested starting_cash start_bar quantity (bar ∷ bars) (point ∷ points) =
      IsInvested starting_cash start_bar quantity bar point
      × AreInvested starting_cash start_bar quantity bars points
  AreInvested starting_cash start_bar quantity _ _ = ⊥

  regroup : (a b c : ℤ) → (a -ℤ b) +ℤ c ≡ a +ℤ (c -ℤ b)
  regroup a b c = omega int_laws

  point-IsInvested :
      (starting_cash : D) (start_bar : MarketBar D) (quantity : ℤ) (bar : MarketBar D)
      → IsInvested starting_cash start_bar quantity bar (
          benchmark_point
            (d.sub starting_cash (d.mul (d.of_int quantity) start_bar.open_price))
            quantity
            bar)
  point-IsInvested starting_cash start_bar quantity bar = record {
    at_bar = refl;
    value_eq = rw (units-add, units-sub, units-mul, units-mul) (regroup _ _ _);
  }

  points-AreInvested :
      (starting_cash : D) (start_bar : MarketBar D) (quantity : ℤ) (bars : List (MarketBar D))
      → AreInvested starting_cash start_bar quantity bars (
          map
            (benchmark_point
              (d.sub starting_cash (d.mul (d.of_int quantity) start_bar.open_price))
              quantity)
            bars)
  points-AreInvested starting_cash start_bar quantity [] = tt
  points-AreInvested starting_cash start_bar quantity (bar ∷ bars) = (
    point-IsInvested starting_cash start_bar quantity bar,
    points-AreInvested starting_cash start_bar quantity bars,
  )

  -- With exact arithmetic, cash that is not negative and a start bar, at some index, with a positive
  -- opening price, `calculate_buy_and_hold_equity_curve` does not raise. It buys a number of shares
  -- that the cash pays for, and its curve has one point for each bar from the start bar on, in order,
  -- with the starting cash and the gain of these shares from that opening price to the bar's close.
  pub calculate_buy_and_hold_equity_curve-AreInvested :
      (bars rest : List (MarketBar D)) (start_bar : MarketBar D) (starting_cash : D)
      (start_index : ℕ)
      → drop start_index bars ≡ start_bar ∷ rest
      → pos 0 ≤ℤ units starting_cash
      → pos 0 <ℤ units start_bar.open_price
      → (points : List (EquityPoint D)) × (quantity : ℤ) × (calculate_buy_and_hold_equity_curve bars
            starting_cash start_index
          ≡ ok points)
        × (pos 0 ≤ℤ quantity)
        × (quantity *ℤ units start_bar.open_price ≤ℤ units starting_cash)
        × AreInvested starting_cash start_bar quantity (start_bar ∷ rest) points
  unfolding calculate_buy_and_hold_equity_curve
  calculate_buy_and_hold_equity_curve-AreInvested bars rest start_bar starting_cash start_index
        found cash price =
      let quantity = d.floor_div starting_cash start_bar.open_price in
      let (nonneg, paid) = floor_div-nonneg starting_cash start_bar.open_price cash price in
      elim (Bool-cases (d.is_zero start_bar.open_price)) [
        | inl zero ↦
            absurd (omega (arith, ap pos_part (is_zero→eq _ zero), ap neg_part (is_zero→eq _ zero)))
        | inr ready ↦ (
          map
              (benchmark_point
                (d.sub starting_cash (d.mul (d.of_int quantity) start_bar.open_price)) quantity)
              (start_bar ∷ rest),
          quantity,
          rw (found, ready) refl,
          nonneg,
          paid,
          points-AreInvested starting_cash start_bar quantity (start_bar ∷ rest),
        )
      ]
