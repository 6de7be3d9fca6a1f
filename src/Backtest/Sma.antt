-- ===== src/Backtest/Sma.antt =====
-- backend/app/backtesting/sma_crossover.py: trailing averages of closes, and the signals of a
-- crossover of two of them.
pub mod Window
pub mod Causal
use agentic_trading_platform.Prelude.{
  ℕ, zero, suc, ◌+◌, ◌-◌, Bool, Option, none, some, List, [], ◌∷◌, ◌++◌, length, get_elem?, get_or,
  Result, ok, err, ◌>>=◌, ◌>>◌, raise_if, value_error, leb, ◌&&◌, ◌||◌, if◌then◌else◌,
}
use agentic_trading_platform.Prelude.Int.{ℤ, pos, pos_part, leb_ℤ}
use agentic_trading_platform.Decimal.{Decimal}
use agentic_trading_platform.Backtest.Models.{MarketBar, Signal, buy, sell}

-- `averages[i]`
abbrev pub item : {D : Type 0} → List (Option D) → ℕ → Option D
item values i = get_or values i none

module _ {D : Type 0} ⦃d : Decimal D⦄ where
  -- `bars[i].close_price`; the code reads it at indices below `len(bars)` only.
  abbrev pub close_at : List (MarketBar D) → ℕ → D
  close_at bars i = elim (get_elem? bars i) [ none ↦ d.nought | some bar ↦ bar.close_price ]

  -- `rolling_total` behind the additions and subtractions of one round.
  unfoldable pub roll : List (MarketBar D) → ℕ → ℕ → D → MarketBar D → D
  roll bars window index total bar =
      let added = d.add total bar.close_price in
      if leb window index then d.sub added (close_at bars (index - window)) else added

  -- The rounds of the loop from `index` on, over the bars that are left.
  unfoldable pub sma_from : List (MarketBar D) → ℕ → ℕ → D → List (MarketBar D) → List (Option D)
  sma_from bars window index total [] = []
  sma_from bars window index total (bar ∷ rest) =
      let total' = roll bars window index total bar in
      (if leb window (suc index) then some (d.div total' (d.of_int (pos window))) else none)
      ∷ sma_from bars window (suc index) total' rest

  unfoldable pub simple_moving_averages : List (MarketBar D) → ℤ → Result (List (Option D))
  simple_moving_averages bars window = do
    raise_if (leb_ℤ window (pos 0)) (value_error "SMA window must be positive")
    ok (sma_from bars (pos_part window) 0 d.nought bars)

  -- What the body of the signal loop appends at the bar of `timestamp`.
  unfoldable pub crossover_signals : ℕ → Option D → Option D → Option D → Option D → List Signal
  crossover_signals timestamp (some previous_short) (some previous_long) (some current_short)
        (some current_long) =
      if d.le previous_short previous_long && d.lt current_long current_short
      then record { timestamp = timestamp; signal_type = buy } ∷ []
      else if d.le previous_long previous_short && d.lt current_short current_long
      then record { timestamp = timestamp; signal_type = sell } ∷ []
      else []
  crossover_signals timestamp _ _ _ _ = []

  -- The loop over `range(1, len(bars))`, with `index` one before the bars that are left.
  unfoldable pub crossover_from :
      List (Option D) → List (Option D) → ℕ → List (MarketBar D) → List Signal
  crossover_from short_smas long_smas index [] = []
  crossover_from short_smas long_smas index (bar ∷ rest) =
      crossover_signals bar.timestamp (item short_smas index) (item long_smas index)
        (item short_smas (suc index)) (item long_smas (suc index))
      ++ crossover_from short_smas long_smas (suc index) rest

  abbrev pub tail_bars : List (MarketBar D) → List (MarketBar D)
  tail_bars [] = []
  tail_bars (_ ∷ rest) = rest

  unfoldable pub generate_sma_crossover_signals : List (MarketBar D) → ℤ → ℤ → Result (List Signal)
  generate_sma_crossover_signals bars short_window long_window = do
    raise_if (leb_ℤ short_window (pos 0) || leb_ℤ long_window (pos 0))
        (value_error "SMA windows must be positive")
    raise_if (leb_ℤ long_window short_window)
        (value_error "short_window must be less than long_window")
    short_smas ← simple_moving_averages bars short_window
    long_smas ← simple_moving_averages bars long_window
    ok (crossover_from short_smas long_smas 0 (tail_bars bars))
