-- ===== src/Strategy/Interpretation.antt =====
-- backend/app/services/strategy_interpretation.py: a parsed strategy in words.
use agentic_trading_platform.Prelude.{
  Option, none, some, List, [], ◌∷◌, ◌++◌, map, String, ◌<>◌, str_eq, if◌then◌else◌,
}
use agentic_trading_platform.Prelude.Int.{pos}
use agentic_trading_platform.Strategy.Spec.{
  IndicatorName, sma, ema, Operator, crosses_above, crosses_below, greater_than, less_than,
  greater_than_or_equal, less_than_or_equal, Operand, indicator, price, constant, Condition,
  StrategySpecification,
}
use agentic_trading_platform.Strategy.Draft.{
  DefaultValue, word, number, AppliedDefault, ParsedStrategyResult,
}
use agentic_trading_platform.Strategy.Reading.{Reading, Numerals}

-- `operator.value.replace("_", " ")`
abbrev operator_words : Operator → String
operator_words crosses_above = "crosses above"
operator_words crosses_below = "crosses below"
operator_words greater_than = "greater than"
operator_words less_than = "less than"
operator_words greater_than_or_equal = "greater than or equal"
operator_words less_than_or_equal = "less than or equal"

-- `name.value.upper()`
abbrev name_words : IndicatorName → String
name_words sma = "SMA"
name_words ema = "EMA"

unfoldable pub join : String → List String → String
join separator [] = ""
join separator (part ∷ []) = part
join separator (part ∷ next ∷ rest) = part <> separator <> join separator (next ∷ rest)

unfoldable pub join_controls : List String → String
join_controls [] = "None."
join_controls (part ∷ rest) =
    "Use " <> join " and " (part ∷ rest) <> " relative to the entry fill price."

-- The lines of a list, or one that says that there are none.
abbrev or_none : List String → List String
or_none [] = "- None." ∷ []
or_none (line ∷ rest) = line ∷ rest

module _ ⦃r : Reading⦄ where
  unfoldable pub show_default_value : DefaultValue → String
  show_default_value (word text) = text
  show_default_value (number n) = r.show_int (pos n)

  -- `labels.get(default.field, ...)`
  unfoldable pub format_default : AppliedDefault → String
  format_default default =
      if str_eq default.field "symbol"
      then "Symbol: SPY"
      else if str_eq default.field "interval"
      then "Daily bars"
      else if str_eq default.field "execution.direction"
      then "Long-only"
      else if str_eq default.field "execution.position_size_percent"
      then "Use 100% of available cash"
      else if str_eq default.field "execution.signal_execution"
      then "Execute on the next available trading day's open"
      else default.field <> ": " <> show_default_value default.value

module _ {D : Type 0} ⦃r : Reading⦄ ⦃n : Numerals D⦄ where
  unfoldable pub format_operand : Operand D → String
  format_operand (indicator name source period) =
      "the " <> r.show_int period <> "-day " <> name_words name <> " of " <> source
  format_operand (price source) = source
  format_operand (constant value) = n.show_decimal value

  unfoldable pub format_condition : Condition D → String
  format_condition condition =
      format_operand condition.left
      <> " "
      <> operator_words condition.operator
      <> " "
      <> format_operand condition.right

  abbrev control : Option D → String → List String
  control none label = []
  control (some value) label = (n.show_general value <> label) ∷ []

  unfoldable pub format_risk_controls : StrategySpecification D → String
  format_risk_controls specification = join_controls (
      control specification.stop_loss_percent "% stop loss"
      ++ control specification.take_profit_percent "% take profit")

  unfoldable pub interpret_strategy : ParsedStrategyResult D → String
  interpret_strategy result = join "\n" (
      ("Interpreted strategy:"
        ∷ ("Buy "
            <> result.specification.symbol
            <> " when "
            <> format_condition result.specification.entry
            <> ".")
        ∷ ("Sell when " <> format_condition result.specification.exit <> ".")
        ∷ ("Risk controls: " <> format_risk_controls result.specification)
        ∷ ""
        ∷ "Platform defaults applied:"
        ∷ or_none (map (λ default. "- " <> format_default default) result.defaults_applied))
      ++ (""
          ∷ "Assumptions made:"
          ∷ or_none (map (λ assumption. "- " <> assumption.reason) result.assumptions))
      ++ (""
          ∷ ("Confirmation required: " <> (if result.requires_confirmation then "Yes" else "No"))
          ∷ []))
