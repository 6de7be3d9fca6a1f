-- ===== src/Strategy/Parser/Inference.antt =====
-- backend/app/services/strategy_parser.py: a rule that the draft omits is inferred from the other one,
-- or both from a shorthand in the text.
use agentic_trading_platform.Prelude.{
  Option, none, some, String, ◌<>◌, Result, ok, err, ◌>>=◌, validation_error, if◌then◌else◌,
}
use agentic_trading_platform.Prelude.Int.{ℤ}
use agentic_trading_platform.Strategy.Spec.{
  Operator, crosses_above, crosses_below, greater_than, less_than, greater_than_or_equal,
  less_than_or_equal,
}
use agentic_trading_platform.Strategy.Draft.{OperandType, OperandDraft, ConditionDraft, rule, rules}
use agentic_trading_platform.Strategy.Reading.{Reading}
use agentic_trading_platform.Strategy.Semantics.Text.{NormalizationHint, find_normalization_hint}
use agentic_trading_platform.Strategy.Parser.Rules.{Notes, assumption, assume}

-- What the draft says of the two rules, and what was noted so far.
abbrev pub Pair : Type 0 → Type 0
Pair D = Option (ConditionDraft D) × Option (ConditionDraft D) × Notes D

-- `opposites.get(operator)`
unfoldable pub opposite_operator : Option Operator → Option Operator
opposite_operator none = none
opposite_operator (some crosses_above) = some crosses_below
opposite_operator (some crosses_below) = some crosses_above
opposite_operator (some greater_than) = none
opposite_operator (some less_than) = none
opposite_operator (some greater_than_or_equal) = none
opposite_operator (some less_than_or_equal) = none

abbrev hint_reason : ⦃r : Reading⦄ → NormalizationHint → String
hint_reason ⦃r⦄ hint =
    "The "
    <> hint.name
    <> " was interpreted as "
    <> r.show_int hint.short_period
    <> "-day SMA and "
    <> r.show_int hint.long_period
    <> "-day SMA crossover rules."

module _ {D : Type 0} where
  abbrev pub average_draft : ℤ → OperandDraft D
  average_draft period = record {
    type = OperandType.indicator;
    name = none;
    source = none;
    period = some period;
    value = none;
  }

  unfoldable pub crossover_draft : ℤ → ℤ → Operator → ConditionDraft D
  crossover_draft short_period long_period operator = record {
    left = average_draft short_period;
    operator = some operator;
    right = average_draft long_period;
  }

  unfoldable pub opposite_under : Option Operator → ConditionDraft D → Result (ConditionDraft D)
  opposite_under none condition = err (
      validation_error "An omitted rule can be inferred only from a supported crossover condition.")
  opposite_under (some operator) condition =
      ok (record { left = condition.left; operator = some operator; right = condition.right })

  unfoldable pub opposite_crossover_draft : ConditionDraft D → Result (ConditionDraft D)
  opposite_crossover_draft condition =
      opposite_under (opposite_operator condition.operator) condition

  abbrev pub shorthand_note :
      ⦃r : Reading⦄ → NormalizationHint → ConditionDraft D → ConditionDraft D → Notes D → Notes D
  shorthand_note hint entry exit notes =
      assume notes (assumption "entry_and_exit" (rules entry exit) (hint_reason hint))

  unfoldable pub pair_of_hint : ⦃r : Reading⦄ → Option NormalizationHint → Notes D → Pair D
  pair_of_hint none notes = (none, none, notes)
  pair_of_hint (some hint) notes =
      let bullish = crossover_draft hint.short_period hint.long_period crosses_above in
      let bearish = crossover_draft hint.short_period hint.long_period crosses_below in
      if hint.bullish_entry
      then (some bullish, some bearish, shorthand_note hint bullish bearish notes)
      else (some bearish, some bullish, shorthand_note hint bearish bullish notes)

  unfoldable pub infer_shorthand_pair : ⦃r : Reading⦄ → String → Notes D → Pair D
  infer_shorthand_pair text notes = pair_of_hint (find_normalization_hint text) notes

  -- The omitted rules, by the three `if`s of the code in turn.
  unfoldable pub infer_pair : ⦃r : Reading⦄ → String → Pair D → Pair D
  infer_pair text (none, none, notes) = infer_shorthand_pair text notes
  infer_pair text (some entry, exit, notes) = (some entry, exit, notes)
  infer_pair text (none, some exit, notes) = (none, some exit, notes)

  unfoldable pub infer_entry : Pair D → Result (Pair D)
  infer_entry (none, some exit, notes) = do
    entry ← opposite_crossover_draft exit
    ok (
      some entry,
      some exit,
      assume notes (
          assumption "entry" (rule entry)
            "No entry rule was provided, so the opposite crossover was used as the entry."),
    )
  infer_entry (none, none, notes) = ok (none, none, notes)
  infer_entry (some entry, exit, notes) = ok (some entry, exit, notes)

  unfoldable pub infer_exit : Pair D → Result (Pair D)
  infer_exit (some entry, none, notes) = do
    exit ← opposite_crossover_draft entry
    ok (
      some entry,
      some exit,
      assume notes (
          assumption "exit" (rule exit)
            "No exit rule was provided, so the opposite crossover was used as the exit."),
    )
  infer_exit (some entry, some exit, notes) = ok (some entry, some exit, notes)
  infer_exit (none, exit, notes) = ok (none, exit, notes)

  unfoldable pub both_rules : Pair D → Result (ConditionDraft D × ConditionDraft D × Notes D)
  both_rules (some entry, some exit, notes) = ok (entry, exit, notes)
  both_rules (some entry, none, notes) =
      err
        (validation_error "Specify an entry and exit rule, or use a supported crossover shorthand.")
  both_rules (none, exit, notes) =
      err
        (validation_error "Specify an entry and exit rule, or use a supported crossover shorthand.")

  unfoldable pub infer_rules :
      ⦃r : Reading⦄ → String → Pair D → Result (ConditionDraft D × ConditionDraft D × Notes D)
  infer_rules text pair = do
    with_entry ← infer_entry (infer_pair text pair)
    with_exit ← infer_exit with_entry
    both_rules with_exit
