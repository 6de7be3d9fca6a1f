-- ===== src/Backtest/Compiler/WarmUp.antt =====
-- When the values of an operand and of a condition are there, and that a compiled strategy can be
-- run on any bars.
use native.Mathlib.Nat.{suc-add, add-suc, add-zero}
use agentic_trading_platform.Prelude.{
  ℕ, zero, suc, ◌+◌, ◌-◌, ◌≤◌, ◌<◌, ◌≡◌, refl, sym, ◌∙◌, Bool, true, false, ◌&&◌, Option, none,
  some, List, [], ◌∷◌, ◌++◌, map, length, length-drop, drop, replicate, get_or, ok, arith, leb,
  is_some,
}
use agentic_trading_platform.Prelude.Int.{pos, negsuc, leb_ℤ, ◌≤ℤ◌, ◌<ℤ◌, ◌-ℤ◌, ◌+ℤ◌}
use agentic_trading_platform.Decimal.{Decimal}
use agentic_trading_platform.Strategy.Spec.{
  sma, ema, Operator, Operand, indicator, price, constant, Condition,
}
use agentic_trading_platform.Strategy.Semantics.Supported.{IsSupportedOperand, IsSupportedCondition}
use agentic_trading_platform.Backtest.Models.{MarketBar}
use agentic_trading_platform.Backtest.Sma.{item, sma_from, simple_moving_averages}
use agentic_trading_platform.Backtest.Compiler.{
  is_crossover, crosses_at, evaluate_operand, exponential_moving_averages, ema_values, ema_full,
  ema_from, operand_first_evaluable_index, condition_first_eligible_index, crosses,
  evaluate_condition,
}
use agentic_trading_platform.Backtest.Compiler.Truth.{
  holds, truth_at, truths, get_or-truths, evaluate_condition-eq-truths,
}

module _ (D : Type 0) where
  item-replicate : (n j : ℕ) → is_some (item (replicate {A = Option D} n none) j) ≡ false
  item-replicate zero j = refl
  item-replicate (suc n) zero = refl
  item-replicate (suc n) (suc j) = item-replicate n j

  item-warm_up :
      (n : ℕ) (first : D) (rest : List (Option D)) (j : ℕ)
      → ((k : ℕ) → suc k + n ≤ j → is_some (item rest k) ≡ true)
      → is_some (item (replicate n none ++ (some first ∷ rest)) j) ≡ leb n j
  item-warm_up zero first rest zero h = refl
  item-warm_up zero first rest (suc j) h = h j (omega arith) ∙ ground arith
  item-warm_up (suc n) first rest zero h = ground arith
  item-warm_up (suc n) first rest (suc j) h =
      item-warm_up n first rest j (λ k p. h k (omega arith)) ∙ ground arith

module _ {D : Type 0} ⦃d : Decimal D⦄ where
  item-sma_from :
      (bars : List (MarketBar D)) (window index : ℕ) (total : D) (rest : List (MarketBar D)) (j : ℕ)
      → j < length rest
      → is_some (item (sma_from bars window index total rest) j) ≡ leb window (suc (index + j))
  unfolding sma_from
  item-sma_from bars window index total [] j h = absurd (omega arith)
  item-sma_from bars window index total (bar ∷ rest) zero h = rw add-zero (ground arith)
  item-sma_from bars window index total (bar ∷ rest) (suc j) h =
      rw (add-suc index j, ← suc-add index j)
        (item-sma_from bars window (suc index) _ rest j (omega arith))

  item-map :
      (bars : List (MarketBar D)) (f : MarketBar D → D) (j : ℕ)
      → j < length bars
      → is_some (item (map (λ bar. some (f bar)) bars) j) ≡ true
  item-map [] f j h = absurd (omega arith)
  item-map (bar ∷ bars) f zero h = refl
  item-map (bar ∷ bars) f (suc j) h = item-map bars f j (omega arith)

  item-ema_from :
      (multiplier : D) (rest : List (MarketBar D)) (previous : D) (j : ℕ)
      → j < length rest
      → is_some (item (ema_from multiplier previous rest) j) ≡ true
  unfolding ema_from
  item-ema_from multiplier [] previous j h = absurd (omega arith)
  item-ema_from multiplier (bar ∷ rest) previous zero h = refl
  item-ema_from multiplier (bar ∷ rest) previous (suc j) h =
      item-ema_from multiplier rest _ j (omega arith)

  item-ema_full :
      (bars : List (MarketBar D)) (window j : ℕ)
      → 0 < window
      → window ≤ length bars
      → j < length bars
      → is_some (item (ema_full bars window) j) ≡ leb window (suc j)
  unfolding ema_full
  item-ema_full bars window j h k l =
      item-warm_up D (window - 1) _ _ j
        (λ n p. item-ema_from _ (drop window bars) _ n (omega (arith, length-drop window bars)))
      ∙ ground arith

  -- The value of a supported operand is there at a bar exactly if the bar's index has reached the
  -- operand's first evaluable index.
  evaluate_operand-available :
      (o : Operand D) (bars : List (MarketBar D)) (index : ℕ) {values : List (Option D)}
      → IsSupportedOperand o
      → evaluate_operand o bars ≡ ok values
      → index < length bars
      → is_some (item values index) ≡ leb_ℤ (operand_first_evaluable_index o) (pos index)
  unfolding evaluate_operand operand_first_evaluable_index simple_moving_averages
      exponential_moving_averages ema_values ◌-ℤ◌
  evaluate_operand-available (price source) bars index s e h =
      ground (arith, item-map bars (λ bar. bar.close_price) index h)
  evaluate_operand-available (constant value) bars index s e h =
      ground (arith, item-map bars (λ _. value) index h)
  evaluate_operand-available (indicator name source (negsuc p)) bars index s e h =
      absurd (omega arith)
  evaluate_operand-available (indicator sma source (pos p)) bars index s e h =
      ground (arith, item-sma_from bars p 0 d.nought bars index h)
  evaluate_operand-available (indicator ema source (pos p)) bars index s e h =
      ground (arith, item-ema_full bars p index, item-replicate D (length bars) index)

  crosses_missing :
      (operator : Operator) (previous_left previous_right left right : Option D)
      → (is_some previous_left && is_some previous_right) ≡ false
      → crosses operator previous_left previous_right left right ≡ false
  unfolding crosses
  crosses_missing operator previous_left previous_right left right h = ground arith

  holds_missing :
      (operator : Operator) (left right : Option D)
      → (is_some left && is_some right) ≡ false
      → holds operator left right ≡ false
  holds_missing operator left right h = ground arith

  -- Both operands have a value at the bar of `index`.
  abbrev pub AreThere : List (Option D) → List (Option D) → ℕ → Type 0
  AreThere left right index =
      (is_some (item left index) ≡ true) × (is_some (item right index) ≡ true)

  module _ (c : Condition D) (bars : List (MarketBar D)) (supported : IsSupportedCondition c)
      {left right : List (Option D)} (is_left : evaluate_operand c.left bars ≡ ok left)
      (is_right : evaluate_operand c.right bars ≡ ok right) where
    available :
        (index : ℕ)
        → index < length bars
        → (is_some (item left index) ≡ leb_ℤ (operand_first_evaluable_index c.left) (pos index))
          × (is_some (item right index) ≡ leb_ℤ (operand_first_evaluable_index c.right) (pos index))
    available index h = (
      evaluate_operand-available c.left bars index supported.left_supported is_left h,
      evaluate_operand-available c.right bars index supported.right_supported is_right h,
    )

    too_early :
        (index : ℕ)
        → index < length bars
        → pos index <ℤ condition_first_eligible_index c
        → truth_at c.operator left right index ≡ false
    unfolding condition_first_eligible_index crosses_at ◌+ℤ◌
    too_early zero h early =
        ground (arith, available 0 h, holds_missing c.operator (item left 0) (item right 0))
    too_early (suc index) h early = ground (
      arith,
      available index (omega arith),
      available (suc index) h,
      holds_missing c.operator (item left (suc index)) (item right (suc index)),
      crosses_missing c.operator (item left index) (item right index) (item left (suc index))
          (item right (suc index)),
    )

    all_there :
        (index : ℕ)
        → index < length bars
        → condition_first_eligible_index c ≤ℤ pos index
        → AreThere left right index
    unfolding condition_first_eligible_index ◌+ℤ◌
    all_there index h late = ground (arith, available index h)

    all_there_before :
        (index : ℕ)
        → suc index < length bars
        → condition_first_eligible_index c ≤ℤ pos (suc index)
        → is_crossover c.operator ≡ true
        → AreThere left right index
    unfolding condition_first_eligible_index ◌+ℤ◌
    all_there_before index h late crossover = ground (arith, available index (omega arith))

  -- The first eligible index of a supported condition is exact, on bars where its operands and itself
  -- evaluate. At a bar before it the condition is false; at a bar from it on both operands have a value there and, for a crossover that is not
  -- at the first bar, at the bar before.
  pub condition_first_eligible_index_exact :
      (c : Condition D) (bars : List (MarketBar D)) (index : ℕ) {left right : List (Option D)}
      {values : List Bool}
      → IsSupportedCondition c
      → evaluate_operand c.left bars ≡ ok left
      → evaluate_operand c.right bars ≡ ok right
      → evaluate_condition c bars ≡ ok values
      → index < length bars
      → (pos index <ℤ condition_first_eligible_index c → get_or values index false ≡ false)
        × (condition_first_eligible_index c ≤ℤ pos index → AreThere left right index)
        × ((before : ℕ)
            → index ≡ suc before
            → condition_first_eligible_index c ≤ℤ pos index
            → is_crossover c.operator ≡ true
            → AreThere left right before)
  condition_first_eligible_index_exact c bars index {left} {right} {values} s l r v h =
      let e : ok (truths c.operator left right 0 (length bars)) ≡ ok values =
        sym (rw (evaluate_condition-eq-truths c bars, l, r) refl) ∙ v in
      let value : get_or values index false ≡ truth_at c.operator left right index =
        ground (arith, get_or-truths c.operator left right 0 (length bars) index) in
      (
        λ early. rw value (too_early c bars s l r index h early),
        λ late. all_there c bars s l r index h late,
        λ before e late crossover.
            all_there_before c bars s l r before (omega arith) (rw e at late) crossover,
      )
