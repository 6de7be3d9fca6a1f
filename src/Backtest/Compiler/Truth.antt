-- ===== src/Backtest/Compiler/Truth.antt =====
-- What a condition says at a bar, and that evaluating one never raises on good operands.
use native.Mathlib.Nat.{suc-add, add-suc, add-zero}
use agentic_trading_platform.Prelude.{
  ℕ, zero, suc, ◌+◌, ◌≤◌, ◌<◌, ◌≡◌, refl, ap, Bool, false, Option, none, some, List, [], ◌∷◌, ◌++◌,
  length, length-append, length-replicate, length-drop, length-map, replicate, get_or, ok, arith,
  if◌then◌else◌, Bool-cases, inl, inr, ◌>>=◌,
}
use agentic_trading_platform.Prelude.Int.{pos_part}
use agentic_trading_platform.Decimal.{Decimal}
use agentic_trading_platform.Strategy.Spec.{
  sma, ema, Operator, greater_than, less_than, greater_than_or_equal, less_than_or_equal, Operand,
  indicator, price, constant, Condition,
}
use agentic_trading_platform.Backtest.Models.{MarketBar}
use agentic_trading_platform.Backtest.Sma.{simple_moving_averages, sma_from, item}
use agentic_trading_platform.Backtest.Compiler.{
  is_crossover, crosses_at, compare_values, compares, value_at, values_from, evaluate_operand,
  evaluate_condition, exponential_moving_averages, ema_values, ema_full, ema_from,
}

module _ {D : Type 0} ⦃d : Decimal D⦄ where
  -- A comparison of two values that are there.
  abbrev pub holds : Operator → Option D → Option D → Bool
  holds greater_than (some left) (some right) = d.lt right left
  holds less_than (some left) (some right) = d.lt left right
  holds greater_than_or_equal (some left) (some right) = d.le right left
  holds less_than_or_equal (some left) (some right) = d.le left right
  holds _ _ _ = false

  -- The condition at the bar of `index`.
  abbrev pub truth_at : Operator → List (Option D) → List (Option D) → ℕ → Bool
  truth_at operator left right index =
      if is_crossover operator
      then crosses_at operator left right index
      else holds operator (item left index) (item right index)

  abbrev pub truths : Operator → List (Option D) → List (Option D) → ℕ → ℕ → List Bool
  truths operator left right index zero = []
  truths operator left right index (suc rounds) =
      truth_at operator left right index ∷ truths operator left right (suc index) rounds

  compares-eq-holds :
      (operator : Operator) (left right : Option D)
      → is_crossover operator ≡ false
      → compares operator left right ≡ ok (holds operator left right)
  unfolding compares compare_values
  compares-eq-holds operator left right h = ground arith

  value_at-eq-truth_at :
      (operator : Operator) (left right : List (Option D)) (index : ℕ)
      → value_at operator left right index ≡ ok (truth_at operator left right index)
  unfolding value_at
  value_at-eq-truth_at operator left right index = elim (Bool-cases (is_crossover operator)) [
    | inl e ↦ rw e refl
    | inr e ↦ rw e (compares-eq-holds operator (item left index) (item right index) e)
  ]

  values_from-eq-truths :
      (operator : Operator) (left right : List (Option D)) (index rounds : ℕ)
      → values_from operator left right index rounds ≡ ok (truths operator left right index rounds)
  unfolding values_from
  values_from-eq-truths operator left right index zero = refl
  values_from-eq-truths operator left right index (suc rounds) =
      rw (value_at-eq-truth_at operator left right index)
        (rw (values_from-eq-truths operator left right (suc index) rounds) refl)

  pub evaluate_condition-eq-truths :
      (c : Condition D) (bars : List (MarketBar D))
      → evaluate_condition c bars ≡ (
          evaluate_operand c.left bars >>= λ left. evaluate_operand c.right bars >>= λ right.
          ok (truths c.operator left right 0 (length bars)))
  unfolding evaluate_condition
  evaluate_condition-eq-truths c bars = simp values_from-eq-truths

  pub length-truths :
      (operator : Operator) (left right : List (Option D)) (index rounds : ℕ)
      → length (truths operator left right index rounds) ≡ rounds
  length-truths operator left right index zero = refl
  length-truths operator left right index (suc rounds) =
      ap suc (length-truths operator left right (suc index) rounds)

  pub get_or-truths :
      (operator : Operator) (left right : List (Option D)) (index rounds j : ℕ)
      → j < rounds
      → get_or (truths operator left right index rounds) j false
        ≡ truth_at operator left right (index + j)
  get_or-truths operator left right index zero j h = absurd (omega arith)
  get_or-truths operator left right index (suc rounds) zero h = rw add-zero refl
  get_or-truths operator left right index (suc rounds) (suc j) h =
      rw (add-suc index j, ← suc-add index j)
        (get_or-truths operator left right (suc index) rounds j (omega arith))

  length-sma_from :
      (bars : List (MarketBar D)) (window index : ℕ) (total : D) (rest : List (MarketBar D))
      → length (sma_from bars window index total rest) ≡ length rest
  unfolding sma_from
  length-sma_from bars window index total [] = refl
  length-sma_from bars window index total (bar ∷ rest) =
      ap suc (length-sma_from bars window (suc index) _ rest)

  length-ema_from :
      (multiplier : D) (rest : List (MarketBar D)) (previous : D)
      → length (ema_from multiplier previous rest) ≡ length rest
  unfolding ema_from
  length-ema_from multiplier [] previous = refl
  length-ema_from multiplier (bar ∷ rest) previous = ap suc (length-ema_from multiplier rest _)

  length-warm_up :
      (n : ℕ) (first : Option D) (rest : List (Option D))
      → length (replicate n none ++ (first ∷ rest)) ≡ n + suc (length rest)
  length-warm_up n first rest = omega (
    arith,
    length-append (replicate {A = Option D} n none) (first ∷ rest),
    length-replicate {A = Option D} n none,
  )

  length-ema_full :
      (bars : List (MarketBar D)) (window : ℕ)
      → 0 < window
      → window ≤ length bars
      → length (ema_full bars window) ≡ length bars
  unfolding ema_full
  length-ema_full bars window h k =
      rw (length-warm_up, length-ema_from, length-drop window bars) (omega arith)

  length-ema_values :
      (bars : List (MarketBar D)) (window : ℕ)
      → 0 < window
      → length (ema_values bars window) ≡ length bars
  unfolding ema_values
  length-ema_values bars window h =
      ground
        (arith, length-ema_full bars window, length-replicate {A = Option D} (length bars) none)

  pub length-evaluate_operand :
      (o : Operand D) (bars : List (MarketBar D)) {values : List (Option D)}
      → evaluate_operand o bars ≡ ok values
      → length values ≡ length bars
  unfolding evaluate_operand simple_moving_averages exponential_moving_averages
  length-evaluate_operand (price source) bars e =
      ground (arith, length-map bars (λ bar. some bar.close_price))
  length-evaluate_operand (constant value) bars e =
      ground (arith, length-map bars (λ _. some value))
  length-evaluate_operand (indicator sma source period) bars e =
      ground (arith, length-sma_from bars (pos_part period) 0 d.nought bars)
  length-evaluate_operand (indicator ema source period) bars e =
      ground (arith, length-ema_values bars (pos_part period))
