-- ===== src/Backtest/Compiler.antt =====
-- backend/app/backtesting/strategy_compiler.py: a validated specification becomes the signals of
-- its two conditions at each bar.
pub mod Truth
pub mod Causal
pub mod WarmUp
pub mod Total
pub mod Crossover
use agentic_trading_platform.Prelude.{
  ℕ, zero, suc, ◌+◌, ◌-◌, Bool, true, false, Option, none, some, List, [], ◌∷◌, ◌++◌, map, length,
  get_or, take, drop, replicate, Result, ok, err, ◌>>=◌, ◌>>◌, raise_if, value_error,
  compilation_error, ltb, leb, ◌&&◌, ◌||◌, if◌then◌else◌,
}
use agentic_trading_platform.Prelude.Int.{ℤ, pos, negsuc, pos_part, leb_ℤ, max_ℤ, ◌+ℤ◌, ◌-ℤ◌}
use agentic_trading_platform.Decimal.{Decimal}
use agentic_trading_platform.Strategy.Spec.{
  sma, ema, Operator, crosses_above, crosses_below, greater_than, less_than, greater_than_or_equal,
  less_than_or_equal, Operand, indicator, price, constant, Condition, StrategySpecification,
}
use agentic_trading_platform.Strategy.Semantics.{validate_strategy_semantics}
use agentic_trading_platform.Backtest.Models.{MarketBar, Signal, buy, sell}
use agentic_trading_platform.Backtest.Sma.{simple_moving_averages, item}

pub record CompiledStrategy (D : Type 0) : Type 0 where
  pub specification : StrategySpecification D

abbrev pub is_crossover : Operator → Bool
is_crossover crosses_above = true
is_crossover crosses_below = true
is_crossover _ = false

unfoldable pub signals_at : ℕ → Bool → Bool → List Signal
signals_at timestamp entry exit =
    (if entry then record { timestamp = timestamp; signal_type = buy } ∷ [] else [])
    ++ (if exit then record { timestamp = timestamp; signal_type = sell } ∷ [] else [])

module _ {D : Type 0} ⦃d : Decimal D⦄ where
  unfoldable pub compile_strategy : StrategySpecification D → Result (CompiledStrategy D)
  compile_strategy specification = do
    validate_strategy_semantics specification
    ok (record { specification = specification })

  -- The sum of closes, from the left.
  unfoldable pub sum_closes : D → List (MarketBar D) → D
  sum_closes total [] = total
  sum_closes total (bar ∷ rest) = sum_closes (d.add total bar.close_price) rest

  -- The averages behind the first one, each from the one before.
  unfoldable pub ema_from : D → D → List (MarketBar D) → List (Option D)
  ema_from multiplier previous [] = []
  ema_from multiplier previous (bar ∷ rest) =
      let next = d.add (d.mul (d.sub bar.close_price previous) multiplier) previous in
      some next ∷ ema_from multiplier next rest

  -- The averages of at least `window` bars.
  unfoldable pub ema_full : List (MarketBar D) → ℕ → List (Option D)
  ema_full bars window =
      let first = d.div (sum_closes d.nought (take window bars)) (d.of_int (pos window)) in
      let multiplier = d.div (d.of_int (pos 2)) (d.of_int (pos (window + 1))) in
      replicate (window - 1) none ++ (some first ∷ ema_from multiplier first (drop window bars))

  unfoldable pub ema_values : List (MarketBar D) → ℕ → List (Option D)
  ema_values bars window =
      if ltb (length bars) window then replicate (length bars) none else ema_full bars window

  unfoldable pub exponential_moving_averages : List (MarketBar D) → ℤ → Result (List (Option D))
  exponential_moving_averages bars window = do
    raise_if (leb_ℤ window (pos 0)) (compilation_error "EMA window must be positive.")
    ok (ema_values bars (pos_part window))

  unfoldable pub evaluate_operand : Operand D → List (MarketBar D) → Result (List (Option D))
  evaluate_operand (price source) bars = ok (map (λ bar. some bar.close_price) bars)
  evaluate_operand (constant value) bars = ok (map (λ _. some value) bars)
  evaluate_operand (indicator sma source period) bars = simple_moving_averages bars period
  evaluate_operand (indicator ema source period) bars = exponential_moving_averages bars period

  unfoldable pub compare_values : D → D → Operator → Result Bool
  compare_values left right greater_than = ok (d.lt right left)
  compare_values left right less_than = ok (d.lt left right)
  compare_values left right greater_than_or_equal = ok (d.le right left)
  compare_values left right less_than_or_equal = ok (d.le left right)
  compare_values left right _ = err (compilation_error "Unsupported comparison operator.")

  -- The test of a crossover at two neighbouring bars; `false` where a value is missing.
  unfoldable pub crosses : Operator → Option D → Option D → Option D → Option D → Bool
  crosses crosses_above (some previous_left) (some previous_right) (some left) (some right) =
      d.le previous_left previous_right && d.lt right left
  crosses _ (some previous_left) (some previous_right) (some left) (some right) =
      d.le previous_right previous_left && d.lt left right
  crosses _ _ _ _ _ = false

  unfoldable pub compares : Operator → Option D → Option D → Result Bool
  compares operator (some left) (some right) = compare_values left right operator
  compares operator _ _ = ok false

  unfoldable pub crosses_at : Operator → List (Option D) → List (Option D) → ℕ → Bool
  crosses_at operator left right zero = false
  crosses_at operator left right (suc index) =
      crosses operator (item left index) (item right index) (item left (suc index))
        (item right (suc index))

  -- `values[index]` behind the round of `index`.
  unfoldable pub value_at : Operator → List (Option D) → List (Option D) → ℕ → Result Bool
  value_at operator left right index =
      if is_crossover operator
      then ok (crosses_at operator left right index)
      else compares operator (item left index) (item right index)

  unfoldable pub values_from :
      Operator → List (Option D) → List (Option D) → ℕ → ℕ → Result (List Bool)
  values_from operator left right index zero = ok []
  values_from operator left right index (suc rounds) = do
    value ← value_at operator left right index
    values ← values_from operator left right (suc index) rounds
    ok (value ∷ values)

  unfoldable pub evaluate_condition : Condition D → List (MarketBar D) → Result (List Bool)
  evaluate_condition condition bars = do
    left ← evaluate_operand condition.left bars
    right ← evaluate_operand condition.right bars
    values_from condition.operator left right 0 (length bars)

  unfoldable pub signals_from : List Bool → List Bool → ℕ → List (MarketBar D) → List Signal
  signals_from entry_values exit_values index [] = []
  signals_from entry_values exit_values index (bar ∷ rest) =
      signals_at bar.timestamp (get_or entry_values index false) (get_or exit_values index false)
      ++ signals_from entry_values exit_values (suc index) rest

  unfoldable pub generate_signals : CompiledStrategy D → List (MarketBar D) → Result (List Signal)
  generate_signals self bars = do
    entry_values ← evaluate_condition self.specification.entry bars
    exit_values ← evaluate_condition self.specification.exit bars
    ok (signals_from entry_values exit_values 0 bars)

unfoldable pub operand_first_evaluable_index : {D : Type 0} → Operand D → ℤ
operand_first_evaluable_index (indicator name source period) = period -ℤ pos 1
operand_first_evaluable_index _ = pos 0

unfoldable pub condition_first_eligible_index : {D : Type 0} → Condition D → ℤ
condition_first_eligible_index condition =
    let warmup_index =
      max_ℤ (operand_first_evaluable_index condition.left)
        (operand_first_evaluable_index condition.right) in
    if is_crossover condition.operator then warmup_index +ℤ pos 1 else warmup_index

-- The greatest of the two indices and 0 is a natural number.
unfoldable pub first_signal_eligible_index : {D : Type 0} → CompiledStrategy D → ℕ
first_signal_eligible_index self = pos_part (
    max_ℤ
      (max_ℤ (condition_first_eligible_index self.specification.entry)
        (condition_first_eligible_index self.specification.exit))
      (pos 0))
