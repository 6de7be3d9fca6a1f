-- ===== src/Strategy/Parser/Rules.antt =====
-- backend/app/services/strategy_parser.py: one rule of a draft is completed. The two lists that the
-- code appends to are `Notes`, passed along.
use agentic_trading_platform.Prelude.{
  ℕ, true, Option, none, some, List, [], ◌∷◌, ◌++◌, String, ◌<>◌, Result, ok, err, ◌>>=◌,
  validation_error,
}
use agentic_trading_platform.Prelude.Int.{ℤ}
use agentic_trading_platform.Strategy.Spec.{IndicatorName, sma, Operator, Operand, Condition}
use agentic_trading_platform.Strategy.Draft.{
  OperandType, OperandDraft, ConditionDraft, high, InferredValue, StrategyAssumption, DefaultValue,
  number, AppliedDefault,
}

pub record Notes (D : Type 0) : Type 0 where
  pub defaults : List AppliedDefault
  pub assumptions : List (StrategyAssumption D)

module _ {D : Type 0} where
  abbrev pub no_notes : Notes D
  no_notes = record { defaults = []; assumptions = [] }

  unfoldable pub apply_default : Notes D → String → DefaultValue → String → Notes D
  apply_default notes field value reason = record {
    defaults = notes.defaults ++ (record { field = field; value = value; reason = reason } ∷ []);
    assumptions = notes.assumptions;
  }

  unfoldable pub assumption : String → InferredValue D → String → StrategyAssumption D
  assumption field inferred_value reason = record {
    field = field;
    inferred_value = inferred_value;
    reason = reason;
    confidence = high;
    requires_confirmation = true;
  }

  unfoldable pub assume : Notes D → StrategyAssumption D → Notes D
  assume notes a = record { defaults = notes.defaults; assumptions = notes.assumptions ++ (a ∷ []) }

  -- `if value is None: value = default`, with its note.
  unfoldable pub text_or_default :
      Option String → String → String → String → Notes D → String × Notes D
  text_or_default (some given) field default reason notes = (given, notes)
  text_or_default none field default reason notes =
      (default, apply_default notes field (DefaultValue.word default) reason)

  unfoldable pub size_or_default : Option ℕ → Notes D → ℕ × Notes D
  size_or_default (some given) notes = (given, notes)
  size_or_default none notes = (
    100,
    apply_default notes "execution.position_size_percent" (number 100)
        "Position sizing is fixed at 100% of available cash in version 1.",
  )

  unfoldable pub close_or_default : Option String → String → Notes D → String × Notes D
  close_or_default source field_name notes =
      text_or_default source (field_name <> ".source") "close"
        "Raw close price is the fixed source in version 1." notes

  unfoldable pub name_or_sma : Option IndicatorName → String → Notes D → IndicatorName × Notes D
  name_or_sma (some given) field_name notes = (given, notes)
  name_or_sma none field_name notes = (
    sma,
    assume notes (
        assumption (field_name <> ".name") (InferredValue.word "sma")
          ("Unspecified moving-average type for " <> field_name <> " was interpreted as SMA.")),
  )

  unfoldable pub normalize_indicator :
      OperandDraft D → Option ℤ → String → Notes D → Result (Operand D × Notes D)
  normalize_indicator operand none field_name notes =
      err (validation_error ("Specify the moving-average period for " <> field_name <> "."))
  normalize_indicator operand (some period) field_name notes =
      let named = name_or_sma operand.name field_name notes in
      let sourced = close_or_default operand.source field_name named.1 in
      ok (Operand.indicator named.0 sourced.0 period, sourced.1)

  unfoldable pub normalize_constant : Option D → String → Notes D → Result (Operand D × Notes D)
  normalize_constant none field_name notes =
      err (validation_error ("Specify the numeric constant for " <> field_name <> "."))
  normalize_constant (some value) field_name notes = ok (Operand.constant value, notes)

  unfoldable pub normalize_typed :
      OperandType → OperandDraft D → String → Notes D → Result (Operand D × Notes D)
  normalize_typed OperandType.indicator operand field_name notes =
      normalize_indicator operand operand.period field_name notes
  normalize_typed OperandType.price operand field_name notes =
      let sourced = close_or_default operand.source field_name notes in
      ok (Operand.price sourced.0, sourced.1)
  normalize_typed OperandType.constant operand field_name notes =
      normalize_constant operand.value field_name notes

  unfoldable pub normalize_operand :
      OperandDraft D → String → Notes D → Result (Operand D × Notes D)
  normalize_operand operand field_name notes = normalize_typed operand.type operand field_name notes

  unfoldable pub normalize_under :
      Option Operator → ConditionDraft D → String → Notes D → Result (Condition D × Notes D)
  normalize_under none condition field_name notes =
      err (validation_error ("Specify the comparison operator for the " <> field_name <> " rule."))
  normalize_under (some operator) condition field_name notes = do
    left ← normalize_operand condition.left (field_name <> ".left") notes
    right ← normalize_operand condition.right (field_name <> ".right") left.1
    ok (record { left = left.0; operator = operator; right = right.0 }, right.1)

  unfoldable pub normalize_condition :
      ConditionDraft D → String → Notes D → Result (Condition D × Notes D)
  normalize_condition condition field_name notes =
      normalize_under condition.operator condition field_name notes
