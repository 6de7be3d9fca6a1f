-- ===== src/Strategy/Semantics/Supported.antt =====
-- The strategies that version 1 supports, apart from the code that checks for them.
use text.Mathlib.TextEquality.{eq_iff}
use agentic_trading_platform.Prelude.{
  ◌≡◌, refl, ◌↔◌, true, false, Option, none, some, ok, arith, String, >>-eq-ok,
}
use agentic_trading_platform.Prelude.Int.{pos, ◌≤ℤ◌}
use agentic_trading_platform.Decimal.{Decimal}
use agentic_trading_platform.Strategy.Spec.{
  Operand, indicator, price, constant, Condition, StrategySpecification, max_risk_percent,
}
use agentic_trading_platform.Strategy.Semantics.{
  validate_operand, validate_condition, validate_risk_percent, validate_strategy_semantics,
}

-- An operand reads raw closes only, and a period is between 1 and 1000.
abbrev pub IsSupportedOperand : {D : Type 0} → Operand D → Type 0
IsSupportedOperand (indicator name source period) =
    (source ≡ "close") × (pos 1 ≤ℤ period) × (period ≤ℤ pos 1000)
IsSupportedOperand (price source) = source ≡ "close"
IsSupportedOperand (constant value) = Unit {0}

pub record IsSupportedCondition {D : Type 0} (c : Condition D) : Type 0 where
  pub left_supported : IsSupportedOperand c.left
  pub right_supported : IsSupportedOperand c.right

validate_operand_iff :
    {D : Type 0} (o : Operand D) (field : String)
    → (validate_operand o field ≡ ok tt) ↔ IsSupportedOperand o
unfolding validate_operand
validate_operand_iff (indicator name source period) field =
    (λ h. ground (arith, eq_iff source "close"), λ h. ground (arith, eq_iff source "close"))
validate_operand_iff (price source) field =
    (λ h. ground (arith, eq_iff source "close"), λ h. ground (arith, eq_iff source "close"))
validate_operand_iff (constant value) field = (λ _. tt, λ _. refl)

validate_condition_iff :
    {D : Type 0} (c : Condition D) (field : String)
    → (validate_condition c field ≡ ok tt) ↔ IsSupportedCondition c
unfolding validate_condition
validate_condition_iff c field =
    let l = validate_operand_iff c.left field in
    let r = validate_operand_iff c.right field in
    (
      λ h. record {
        left_supported = l.0 (>>-eq-ok _ _ h).0;
        right_supported = r.0 (>>-eq-ok _ _ h).1;
      },
      λ s. rw (l.1 s.left_supported) (r.1 s.right_supported),
    )

module _ {D : Type 0} ⦃d : Decimal D⦄ where
  -- An optional percentage is a finite number, above 0 and at most 50.
  abbrev pub IsSupportedPercent : Option D → Type 0
  IsSupportedPercent none = Unit {0}
  IsSupportedPercent (some p) =
      (d.is_finite p ≡ true) × (d.le p d.nought ≡ false) × (d.lt max_risk_percent p ≡ false)

  pub record IsSupported (s : StrategySpecification D) : Type 0 where
    pub symbol_spy : s.symbol ≡ "SPY"
    pub interval_daily : s.interval ≡ "1d"
    pub direction_long : s.execution.direction ≡ "long"
    pub position_full : s.execution.position_size_percent ≡ 100
    pub next_open : s.execution.signal_execution ≡ "next_bar_open"
    pub entry_supported : IsSupportedCondition s.entry
    pub exit_supported : IsSupportedCondition s.exit
    pub stop_supported : IsSupportedPercent s.stop_loss_percent
    pub take_supported : IsSupportedPercent s.take_profit_percent

  pub validate_risk_percent_iff :
      (p : Option D) (label : String)
      → (validate_risk_percent p label ≡ ok tt) ↔ IsSupportedPercent p
  unfolding validate_risk_percent
  validate_risk_percent_iff none label = (λ _. tt, λ _. refl)
  validate_risk_percent_iff (some p) label = (λ h. ground arith, λ h. ground arith)

  sound : (s : StrategySpecification D) → validate_strategy_semantics s ≡ ok tt → IsSupported s
  unfolding validate_strategy_semantics
  sound s h = record {
    symbol_spy = (eq_iff _ _).0 (ground arith);
    interval_daily = (eq_iff _ _).0 (ground arith);
    direction_long = (eq_iff _ _).0 (ground arith);
    position_full = ground arith;
    next_open = (eq_iff _ _).0 (ground arith);
    entry_supported = (validate_condition_iff s.entry "entry").0 (ground arith);
    exit_supported = (validate_condition_iff s.exit "exit").0 (ground arith);
    stop_supported = (validate_risk_percent_iff s.stop_loss_percent "Stop-loss").0 (ground arith);
    take_supported =
        (validate_risk_percent_iff s.take_profit_percent "Take-profit").0 (ground arith);
  }

  complete : (s : StrategySpecification D) → IsSupported s → validate_strategy_semantics s ≡ ok tt
  unfolding validate_strategy_semantics
  complete s v =
      let a = (eq_iff s.symbol "SPY").1 v.symbol_spy in
      let b = (eq_iff s.interval "1d").1 v.interval_daily in
      let c = (eq_iff s.execution.direction "long").1 v.direction_long in
      let e = (eq_iff s.execution.signal_execution "next_bar_open").1 v.next_open in
      let f = (validate_condition_iff s.entry "entry").1 v.entry_supported in
      let g = (validate_condition_iff s.exit "exit").1 v.exit_supported in
      let i = (validate_risk_percent_iff s.stop_loss_percent "Stop-loss").1 v.stop_supported in
      let j = (validate_risk_percent_iff s.take_profit_percent "Take-profit").1 v.take_supported in
      rw (a, b, c, v.position_full, e, f, g, i) j

  -- The semantic checks accept a specification exactly if it is one that version 1 supports: SPY,
  -- daily bars, long only, all cash, fills at the next open, raw closes with periods from 1 to
  -- 1000, and each risk percentage either absent or finite, above 0 and at most 50.
  pub validate_strategy_semantics_iff :
      (s : StrategySpecification D) → (validate_strategy_semantics s ≡ ok tt) ↔ IsSupported s
  validate_strategy_semantics_iff s = (sound s, complete s)
