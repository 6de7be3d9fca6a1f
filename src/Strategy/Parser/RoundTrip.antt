-- ===== src/Strategy/Parser/RoundTrip.antt =====
-- A draft that says everything is taken as it is.
use agentic_trading_platform.Prelude.{◌≡◌, refl, false, some, none, [], String, ok, sym}
use agentic_trading_platform.Decimal.{Decimal}
use agentic_trading_platform.Strategy.Spec.{
  Operand, indicator, price, constant, Condition, StrategySpecification,
}
use agentic_trading_platform.Strategy.Draft.{
  OperandType, OperandDraft, ConditionDraft, StrategyParseDraft, ParsedStrategyResult,
}
use agentic_trading_platform.Strategy.Reading.{Reading, Numerals}
use agentic_trading_platform.Strategy.Semantics.Supported.{
  IsSupported, validate_strategy_semantics_iff,
}
use agentic_trading_platform.Strategy.Semantics.Text.{RiskControls, extract_risk_controls}
use agentic_trading_platform.Strategy.Parser.Rules.{
  Notes, text_or_default, size_or_default, close_or_default, name_or_sma, normalize_indicator,
  normalize_constant, normalize_typed, normalize_operand, normalize_under, normalize_condition,
}
use agentic_trading_platform.Strategy.Parser.Inference.{
  infer_pair, infer_entry, infer_exit, both_rules, infer_rules,
}
use agentic_trading_platform.Strategy.Parser.Normalize.{settle, normalize_strategy_draft}

module _ {D : Type 0} where
  -- The draft that says what a specification says.
  abbrev operand_draft : Operand D → OperandDraft D
  operand_draft (indicator name source period) = record {
    type = OperandType.indicator;
    name = some name;
    source = some source;
    period = some period;
    value = none;
  }
  operand_draft (price source) = record {
    type = OperandType.price;
    name = none;
    source = some source;
    period = none;
    value = none;
  }
  operand_draft (constant value) = record {
    type = OperandType.constant;
    name = none;
    source = none;
    period = none;
    value = some value;
  }

  abbrev condition_draft : Condition D → ConditionDraft D
  condition_draft c = record {
    left = operand_draft c.left;
    operator = some c.operator;
    right = operand_draft c.right;
  }

  abbrev pub full_draft : StrategySpecification D → StrategyParseDraft D
  full_draft s = record {
    symbol = some s.symbol;
    interval = some s.interval;
    entry = some (condition_draft s.entry);
    exit = some (condition_draft s.exit);
    direction = some s.execution.direction;
    position_size_percent = some s.execution.position_size_percent;
    signal_execution = some s.execution.signal_execution;
  }

  abbrev pub controls_of : StrategySpecification D → RiskControls D
  controls_of s = record {
    stop_loss_percent = s.stop_loss_percent;
    take_profit_percent = s.take_profit_percent;
  }

  abbrev pub unchanged : StrategySpecification D → String → ParsedStrategyResult D
  unchanged s text = record {
    specification = s;
    assumptions = [];
    defaults_applied = [];
    requires_confirmation = false;
    original_text = text;
  }

  normalize_operand-draft :
      (o : Operand D) (f : String) (m : Notes D)
      → normalize_operand (operand_draft o) f m ≡ ok (o, m)
  unfolding normalize_operand normalize_typed normalize_indicator normalize_constant name_or_sma
      close_or_default text_or_default
  normalize_operand-draft (indicator name source period) f m = refl
  normalize_operand-draft (price source) f m = refl
  normalize_operand-draft (constant value) f m = refl

  normalize_condition-draft :
      (c : Condition D) (f : String) (m : Notes D)
      → normalize_condition (condition_draft c) f m ≡ ok (c, m)
  unfolding normalize_condition normalize_under
  normalize_condition-draft c f m =
      rw (normalize_operand-draft c.left, normalize_operand-draft c.right) refl

module _ {D : Type 0} ⦃d : Decimal D⦄ ⦃r : Reading⦄ ⦃n : Numerals D⦄ where
  -- A supported specification of version 1.0, whose risk controls are those of the text, comes back
  -- from the draft that spells it out: nothing is defaulted, nothing assumed, and nothing is left to
  -- confirm.
  pub normalize_strategy_draft-full_draft :
      (s : StrategySpecification D) (text : String)
      → IsSupported s
      → s.version ≡ "1.0"
      → extract_risk_controls text ≡ ok (controls_of s)
      → normalize_strategy_draft (full_draft s) text ≡ ok (unchanged s text)
  unfolding normalize_strategy_draft settle text_or_default size_or_default infer_rules infer_pair
      infer_entry infer_exit both_rules
  normalize_strategy_draft-full_draft s text good version controls =
      let valid = (validate_strategy_semantics_iff s).1 good in
      rw
        (
          controls,
          normalize_condition-draft s.entry,
          normalize_condition-draft s.exit,
          sym version,
          valid,
        )
        refl
