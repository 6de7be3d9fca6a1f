-- ===== src/Backtest/Compiler/Causal.antt =====
-- Compiled strategies do not look ahead: later bars only add signals, behind those that were there.
use native.Mathlib.Nat.{suc-add}
use agentic_trading_platform.Prelude.{
  ℕ, zero, suc, ◌+◌, ◌-◌, ◌≤◌, ◌<◌, ◌≡◌, refl, sym, ◌∙◌, Bool, false, Option, none, List, [], ◌∷◌,
  ◌++◌, length, length-append, take-append, drop-append, replicate, replicate-Extends,
  replicate_le-Extends, ok, arith, ltb, Bool-cases, inl, inr, >>=-eq-ok, Extends, Extends-cons,
  Extends-nil, Extends-get_or, Extends-append_left, map-Extends, Grows, grown, raised, Grows->>=,
}
use agentic_trading_platform.Prelude.Int.{pos, pos_part, leb_ℤ}
use agentic_trading_platform.Decimal.{Decimal}
use agentic_trading_platform.Strategy.Spec.{
  sma, ema, Operator, Operand, indicator, price, constant, Condition,
}
use agentic_trading_platform.Backtest.Models.{MarketBar}
use agentic_trading_platform.Backtest.Sma.Causal.{simple_moving_averages-Grows}
use agentic_trading_platform.Backtest.Compiler.{
  CompiledStrategy, crosses_at, evaluate_operand, evaluate_condition, exponential_moving_averages,
  ema_values, ema_full, ema_from, signals_from, generate_signals,
}
use agentic_trading_platform.Backtest.Compiler.Truth.{
  truth_at, truths, evaluate_condition-eq-truths, length-truths, length-evaluate_operand,
}

module _ {D : Type 0} ⦃d : Decimal D⦄ (bars more : List (MarketBar D)) where
  ema_from-Extends :
      (multiplier : D) (rest : List (MarketBar D)) (previous : D)
      → Extends (ema_from multiplier previous rest) (ema_from multiplier previous (rest ++ more))
  unfolding ema_from
  ema_from-Extends multiplier [] previous = Extends-nil _
  ema_from-Extends multiplier (bar ∷ rest) previous =
      Extends-cons _ _ _ (ema_from-Extends multiplier rest _)

  ema_full-Extends :
      (window : ℕ)
      → window ≤ length bars
      → Extends (ema_full bars window) (ema_full (bars ++ more) window)
  unfolding ema_full
  ema_full-Extends window h =
      rw (take-append window bars more h, drop-append window bars more h)
        (Extends-append_left _ _ _ (Extends-cons _ _ _ (ema_from-Extends _ _ _)))

  short_full :
      (window : ℕ)
      → length bars < window
      → Extends (replicate {A = Option D} (length bars) none) (ema_full (bars ++ more) window)
  unfolding ema_full
  short_full window h = replicate-Extends (length bars) (window - 1) none _ (omega arith)

  ema_values-Extends :
      (window : ℕ)
      → 0 < window
      → Extends (ema_values bars window) (ema_values (bars ++ more) window)
  unfolding ema_values
  ema_values-Extends window h = elim (Bool-cases (ltb (length bars) window)) [
    | inl short ↦ elim (Bool-cases (ltb (length (bars ++ more)) window)) [
      | inl short' ↦
          rw (short, short') (replicate_le-Extends _ _ _ (omega (arith, length-append bars more)))
      | inr full' ↦ rw (short, full') (short_full window (ground arith))
    ]
    | inr full ↦
        let full' : ltb (length (bars ++ more)) window ≡ false =
          ground (arith, length-append bars more) in
        rw (full, full') (ema_full-Extends window (ground arith))
  ]

  pub evaluate_operand-Grows :
      (o : Operand D) → Grows (evaluate_operand o bars) (evaluate_operand o (bars ++ more))
  unfolding evaluate_operand exponential_moving_averages
  evaluate_operand-Grows (price source) = grown (map-Extends bars more _)
  evaluate_operand-Grows (constant value) = grown (map-Extends bars more _)
  evaluate_operand-Grows (indicator sma source period) =
      simple_moving_averages-Grows bars more period
  evaluate_operand-Grows (indicator ema source period) = elim (Bool-cases (leb_ℤ period (pos 0))) [
    | inl bad ↦ rw bad raised
    | inr good ↦ rw good (grown (ema_values-Extends (pos_part period) (ground arith)))
  ]

  -- Values that were there stay as they were.
  crosses_at-Extends :
      (operator : Operator) (left right left' right' : List (Option D)) (index : ℕ)
      → Extends left left'
      → Extends right right'
      → index < length left
      → index < length right
      → crosses_at operator left' right' index ≡ crosses_at operator left right index
  unfolding crosses_at
  crosses_at-Extends operator left right left' right' zero p q h k = refl
  crosses_at-Extends operator left right left' right' (suc index) p q h k =
      rw
        (
          Extends-get_or left left' index none p (omega arith),
          Extends-get_or right right' index none q (omega arith),
          Extends-get_or left left' (suc index) none p h,
          Extends-get_or right right' (suc index) none q k,
        )
        refl

  truth_at-Extends :
      (operator : Operator) (left right left' right' : List (Option D)) (index : ℕ)
      → Extends left left'
      → Extends right right'
      → index < length left
      → index < length right
      → truth_at operator left' right' index ≡ truth_at operator left right index
  truth_at-Extends operator left right left' right' index p q h k =
      rw
        (
          crosses_at-Extends operator left right left' right' index p q h k,
          Extends-get_or left left' index none p h,
          Extends-get_or right right' index none q k,
        )
        refl

  truths-Extends :
      (operator : Operator) (left right left' right' : List (Option D)) (index rounds extra : ℕ)
      → Extends left left'
      → Extends right right'
      → index + rounds ≤ length left
      → index + rounds ≤ length right
      → Extends
          (truths operator left right index rounds)
          (truths operator left' right' index (rounds + extra))
  truths-Extends operator left right left' right' index zero extra p q h k = Extends-nil _
  truths-Extends operator left right left' right' index (suc rounds) extra p q h k =
      rw
        (
          suc-add rounds extra,
          truth_at-Extends operator left right left' right' index p q (omega arith) (omega arith),
        )
        (Extends-cons _ _ _ (
          truths-Extends operator left right left' right' (suc index) rounds extra p q (omega arith)
            (omega arith)))

  pub evaluate_condition-Grows :
      (c : Condition D) → Grows (evaluate_condition c bars) (evaluate_condition c (bars ++ more))
  evaluate_condition-Grows c =
      rw (evaluate_condition-eq-truths c bars, evaluate_condition-eq-truths c (bars ++ more))
        (Grows->>= _ _
          (λ left left' l p.
            Grows->>= _ _
              (λ right right' r q.
                let n = length-evaluate_operand c.left bars l in
                let m = length-evaluate_operand c.right bars r in
                grown (
                  rw (length-append bars more) (
                    truths-Extends c.operator left right left' right' 0 (length bars) (length more)
                      p q (omega arith) (omega arith))))
              (evaluate_operand-Grows c.right))
          (evaluate_operand-Grows c.left))

  length-evaluate_condition :
      (c : Condition D) {values : List Bool}
      → evaluate_condition c bars ≡ ok values
      → length values ≡ length bars
  length-evaluate_condition c {values} e =
      let e' = sym (evaluate_condition-eq-truths c bars) ∙ e in
      let (left, l, e1) = >>=-eq-ok (evaluate_operand c.left bars) _ e' in
      let (right, r, e2) = >>=-eq-ok (evaluate_operand c.right bars) _ e1 in
      ground (arith, length-truths c.operator left right 0 (length bars))

  signals_from-Extends :
      (entry exit entry' exit' : List Bool) (index : ℕ) (rest : List (MarketBar D))
      → Extends entry entry'
      → Extends exit exit'
      → index + length rest ≤ length entry
      → index + length rest ≤ length exit
      → Extends
          (signals_from entry exit index rest)
          (signals_from entry' exit' index (rest ++ more))
  unfolding signals_from
  signals_from-Extends entry exit entry' exit' index [] p q h k = Extends-nil _
  signals_from-Extends entry exit entry' exit' index (bar ∷ rest) p q h k =
      rw
        (
          Extends-get_or entry entry' index false p (omega arith),
          Extends-get_or exit exit' index false q (omega arith),
        )
        (Extends-append_left _ _ _ (
          signals_from-Extends entry exit entry' exit' (suc index) rest p q (omega arith)
            (omega arith)))

  -- On more bars `generate_signals` raises as before, or gives the signals that it gave and, behind
  -- them, those that the new bars add: no signal depends on a later bar.
  pub generate_signals-Grows :
      (self : CompiledStrategy D)
      → Grows (generate_signals self bars) (generate_signals self (bars ++ more))
  unfolding generate_signals
  generate_signals-Grows self =
      Grows->>= _ _
        (λ entry entry' l p.
          Grows->>= _ _
            (λ exit exit' r q.
              let n = length-evaluate_condition self.specification.entry l in
              let m = length-evaluate_condition self.specification.exit r in
              grown (
                signals_from-Extends entry exit entry' exit' 0 bars p q (omega arith)
                  (omega arith)))
            (evaluate_condition-Grows self.specification.exit))
        (evaluate_condition-Grows self.specification.entry)
