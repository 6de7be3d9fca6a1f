-- ===== src/Backtest/Compiler/Crossover.antt =====
-- backend/app/scripts/run_sma_backtest.py builds the specification of a moving-average crossover;
-- run through the compiler it gives the signals of `generate_sma_crossover_signals`.
use native.Mathlib.Nat.{zero-add}
use agentic_trading_platform.Prelude.{
  ℕ, suc, ◌+◌, ◌≤◌, ◌<◌, ◌≡◌, refl, sym, ◌∙◌, Bool, Option, none, some, String, List, [], ◌∷◌,
  length, ok, arith,
}
use agentic_trading_platform.Prelude.Int.{ℤ, pos}
use agentic_trading_platform.Decimal.{Decimal, IsOrdered}
use agentic_trading_platform.Strategy.Spec.{
  sma, Operator, crosses_above, crosses_below, Operand, indicator, StrategySpecification,
}
use agentic_trading_platform.Backtest.Models.{MarketBar}
use agentic_trading_platform.Backtest.Sma.{
  item, sma_from, simple_moving_averages, crossover_signals, crossover_from, tail_bars,
  generate_sma_crossover_signals,
}
use agentic_trading_platform.Backtest.Compiler.{
  crosses, crosses_at, evaluate_operand, evaluate_condition, signals_at, signals_from,
  generate_signals,
}
use agentic_trading_platform.Backtest.Compiler.Truth.{
  truths, get_or-truths, evaluate_condition-eq-truths,
}

module _ {D : Type 0} where
  abbrev sma_operand : ℤ → Operand D
  sma_operand period = indicator sma "close" period

  unfoldable pub crossover_specification : String → String → ℤ → ℤ → StrategySpecification D
  crossover_specification symbol interval short_window long_window = record {
    version = "1.0";
    symbol = symbol;
    interval = interval;
    entry = record {
      left = sma_operand short_window;
      operator = crosses_above;
      right = sma_operand long_window;
    };
    exit = record {
      left = sma_operand short_window;
      operator = crosses_below;
      right = sma_operand long_window;
    };
    execution = record {
      direction = "long";
      position_size_percent = 100;
      signal_execution = "next_bar_open";
    };
    stop_loss_percent = none;
    take_profit_percent = none;
  }

module _ {D : Type 0} ⦃d : Decimal D⦄ (ordered : IsOrdered d) where
  open ordered use {le_total, lt-eq-not-le}

  -- No value is below another and above it.
  signals_at-eq :
      (timestamp : ℕ) (previous_short previous_long short long : Option D)
      → signals_at timestamp
          (crosses crosses_above previous_short previous_long short long)
          (crosses crosses_below previous_short previous_long short long)
        ≡ crossover_signals timestamp previous_short previous_long short long
  unfolding signals_at crosses crossover_signals
  signals_at-eq timestamp (some ps) (some pl) (some s) (some l) =
      ground (arith, lt-eq-not-le s l, lt-eq-not-le l s, le_total s l)
  signals_at-eq timestamp none _ _ _ = refl
  signals_at-eq timestamp _ none _ _ = refl
  signals_at-eq timestamp _ _ none _ = refl
  signals_at-eq timestamp _ _ _ _ = refl

  module _ (short_smas long_smas : List (Option D)) (n : ℕ) where
    abbrev entry_values : List Bool
    entry_values = truths crosses_above short_smas long_smas 0 n

    abbrev exit_values : List Bool
    exit_values = truths crosses_below short_smas long_smas 0 n

    later_signals :
        (index : ℕ) (rest : List (MarketBar D))
        → suc index + length rest ≤ n
        → signals_from entry_values exit_values (suc index) rest
          ≡ crossover_from short_smas long_smas index rest
    unfolding signals_from crossover_from crosses_at
    later_signals index [] h = refl
    later_signals index (bar ∷ rest) h =
        rw
          (
            get_or-truths crosses_above short_smas long_smas 0 n (suc index) (omega arith),
            get_or-truths crosses_below short_smas long_smas 0 n (suc index) (omega arith),
            zero-add (suc index),
            signals_at-eq bar.timestamp (item short_smas index) (item long_smas index)
                (item short_smas (suc index)) (item long_smas (suc index)),
            later_signals (suc index) rest (omega arith),
          )
          refl

  all_signals :
      (short_smas long_smas : List (Option D)) (bars : List (MarketBar D))
      → signals_from
          (truths crosses_above short_smas long_smas 0 (length bars))
          (truths crosses_below short_smas long_smas 0 (length bars))
          0
          bars
        ≡ crossover_from short_smas long_smas 0 (tail_bars bars)
  unfolding signals_from crosses_at signals_at crossover_from
  all_signals short_smas long_smas [] = refl
  all_signals short_smas long_smas (bar ∷ rest) =
      later_signals short_smas long_smas (length (bar ∷ rest)) 0 rest (omega arith)

  averages_ok :
      (window : ℕ) (bars : List (MarketBar D))
      → 0 < window
      → simple_moving_averages bars (pos window) ≡ ok (sma_from bars window 0 d.nought bars)
  unfolding simple_moving_averages
  averages_ok window bars h = ground arith

  module _ (short long : ℕ) (bars : List (MarketBar D)) (h : 0 < short) (k : short < long) where
    abbrev short_smas : List (Option D)
    short_smas = sma_from bars short 0 d.nought bars

    abbrev long_smas : List (Option D)
    long_smas = sma_from bars long 0 d.nought bars

    condition_values :
        (operator : Operator)
        → evaluate_condition
            (record {
              left = sma_operand (pos short);
              operator = operator;
              right = sma_operand (pos long);
            })
            bars
          ≡ ok (truths operator short_smas long_smas 0 (length bars))
    unfolding evaluate_operand
    condition_values operator =
        rw
          (
            evaluate_condition-eq-truths
                (record {
                  left = sma_operand (pos short);
                  operator = operator;
                  right = sma_operand (pos long);
                })
                bars,
            averages_ok short bars h,
            averages_ok long bars (omega arith),
          )
          refl

    generator_signals :
        generate_sma_crossover_signals bars (pos short) (pos long)
        ≡ ok (crossover_from short_smas long_smas 0 (tail_bars bars))
    unfolding generate_sma_crossover_signals
    generator_signals = ground (arith, averages_ok short bars h, averages_ok long bars)

    compiled_signals :
        (symbol interval : String)
        → generate_signals
            (record {
              specification = crossover_specification symbol interval (pos short) (pos long);
            })
            bars
          ≡ ok (crossover_from short_smas long_smas 0 (tail_bars bars))
    unfolding crossover_specification generate_signals
    compiled_signals symbol interval =
        rw
          (
            condition_values crosses_above,
            condition_values crosses_below,
            all_signals short_smas long_smas bars,
          )
          refl

  -- For numbers in a linear order and windows with 0 < short < long the compiled crossover
  -- specification gives exactly the signals of the dedicated generator.
  pub crossover_specification-generate_signals :
      (symbol interval : String) (short long : ℕ) (bars : List (MarketBar D))
      → 0 < short
      → short < long
      → generate_signals
          (record {
            specification = crossover_specification symbol interval (pos short) (pos long);
          })
          bars
        ≡ generate_sma_crossover_signals bars (pos short) (pos long)
  crossover_specification-generate_signals symbol interval short long bars h k =
      compiled_signals short long bars h k symbol interval
      ∙ sym (generator_signals short long bars h k)
