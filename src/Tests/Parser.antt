-- ===== src/Tests/Parser.antt =====
-- The theorems about the parser at a request for a crossover with a stop-loss.
use agentic_trading_platform.Prelude.{
  ◌≡◌, refl, true, false, none, some, [], ◌∷◌, String, str_eq, Result, ok, if◌then◌else◌,
}
use agentic_trading_platform.Prelude.Int.{ℤ, pos}
use agentic_trading_platform.Decimal.{fixed, fixed-IsExact, IsExact-IsOrdered}
use agentic_trading_platform.Strategy.Spec.{
  sma, crosses_above, crosses_below, Operand, Condition, StrategySpecification,
}
use agentic_trading_platform.Strategy.Draft.{
  OperandType, OperandDraft, StrategyParseDraft, ParsedStrategyResult,
}
use agentic_trading_platform.Strategy.Reading.{Reading, Numerals}
use agentic_trading_platform.Strategy.Semantics.{
  validate_strategy_semantics, validate_condition, validate_operand, validate_risk_percent,
}
use agentic_trading_platform.Strategy.Semantics.Supported.{validate_strategy_semantics_iff}
use agentic_trading_platform.Strategy.Semantics.Text.{
  reject_phrases, add_value, add_match, add_matches, collect_values, decide_control,
  extract_control_percent, extract_risk_controls, has_resolvable_moving_average,
  validate_strategy_text, stop_loss_patterns,
}
use agentic_trading_platform.Strategy.Semantics.Text.Controls.{Says, extract_control_percent-Says}
use agentic_trading_platform.Strategy.Parser.Rules.{
  apply_default, assumption, assume, text_or_default, size_or_default, close_or_default,
  name_or_sma, normalize_indicator, normalize_typed, normalize_operand, normalize_under,
  normalize_condition,
}
use agentic_trading_platform.Strategy.Parser.Inference.{
  opposite_operator, opposite_under, opposite_crossover_draft, infer_pair, infer_entry, infer_exit,
  both_rules, infer_rules,
}
use agentic_trading_platform.Strategy.Parser.Normalize.{settle, normalize_strategy_draft}
use agentic_trading_platform.Strategy.Parser.Provider.{OpenAiStrategyParser, parse}
use agentic_trading_platform.Strategy.Parser.Opposites.{
  AreOpposite, normalize_strategy_draft-AreOpposite,
}
use agentic_trading_platform.Strategy.Parser.RoundTrip.{
  full_draft, unchanged, normalize_strategy_draft-full_draft,
}
use agentic_trading_platform.Strategy.Parser.Reported.{
  IsReported, normalize_strategy_draft-IsReported,
}
use agentic_trading_platform.Strategy.Parser.Runnable.{IsParsed, parse-IsParsed}

abbrev stop_pattern : String
stop_pattern = "(?P<value>[+-]?(?:\\d+(?:\\.\\d+)?|\\.\\d+))\\s*(?:%|percent\\b)\\s+stop[- ]loss\\b"

-- Answers for one text, in which a stop-loss of 10 % is found.
instance abbrev pub reading : Reading
reading = record {
  strip = λ t. t;
  lower = λ t. t;
  search = λ p t. true;
  search_ignoring_case = λ p t. false;
  search_groups = λ p t. some ("20", "50");
  find_values = λ p t. if str_eq p stop_pattern then "10" ∷ [] else [];
  to_int = λ t. if str_eq t "20" then pos 20 else pos 50;
  show_int = λ z. "50";
}

instance abbrev pub numerals : Numerals ℤ
numerals = record {
  to_decimal = λ t. some (pos 100000);
  show_decimal = λ v. "10";
  show_general = λ v. "10";
}

abbrev pub request : String
request = "buy when the 20-day average crosses above the 50-day one, with a 10% stop loss"

abbrev pub average : ℤ → OperandDraft ℤ
average period = record {
  type = OperandType.indicator;
  name = none;
  source = none;
  period = some period;
  value = none;
}

abbrev pub draft : StrategyParseDraft ℤ
draft = record {
  symbol = some "SPY";
  interval = none;
  entry =
      some (record {
        left = average (pos 20);
        operator = some crosses_above;
        right = average (pos 50);
      });
  exit = none;
  direction = none;
  position_size_percent = none;
  signal_execution = none;
}

abbrev pub parser : OpenAiStrategyParser
parser = record { api_key = some "key"; model = some "model" }

abbrev provider : String → String → String → Result (StrategyParseDraft ℤ)
provider key model text = ok draft

abbrev rule_of : Condition ℤ
rule_of = record {
  left = Operand.indicator sma "close" (pos 20);
  operator = crosses_above;
  right = Operand.indicator sma "close" (pos 50);
}

abbrev strategy : StrategySpecification ℤ
strategy = record {
  version = "1.0";
  symbol = "SPY";
  interval = "1d";
  entry = rule_of;
  exit = record { left = rule_of.left; operator = crosses_below; right = rule_of.right };
  execution = record {
    direction = "long";
    position_size_percent = 100;
    signal_execution = "next_bar_open";
  };
  stop_loss_percent = some (pos 100000);
  take_profit_percent = none;
}

pub parsed :
    (result : ParsedStrategyResult ℤ) × (normalize_strategy_draft draft request ≡ ok result)
unfolding normalize_strategy_draft settle text_or_default size_or_default apply_default infer_rules
    infer_pair infer_entry infer_exit both_rules opposite_crossover_draft opposite_operator
    opposite_under assume assumption extract_risk_controls extract_control_percent collect_values
    add_matches add_match add_value decide_control validate_risk_percent normalize_condition
    normalize_under normalize_operand normalize_typed normalize_indicator name_or_sma
    close_or_default validate_strategy_semantics validate_condition validate_operand
parsed = (_, refl)

controls :
    extract_risk_controls {D = ℤ} request
    ≡ ok (record { stop_loss_percent = some (pos 100000); take_profit_percent = none })
unfolding extract_risk_controls extract_control_percent collect_values add_matches add_match
    add_value decide_control validate_risk_percent
controls = refl

stop_loss :
    extract_control_percent {D = ℤ} request stop_loss_patterns "stop[- ]loss" "Stop-loss"
    ≡ ok (some (pos 100000))
unfolding extract_control_percent collect_values add_matches add_match add_value decide_control
    validate_risk_percent
stop_loss = refl

extract_control_percent-Says_example :
    Says
      (IsExact-IsOrdered fixed-IsExact)
      request
      stop_loss_patterns
      "stop[- ]loss"
      (some (pos 100000))
extract_control_percent-Says_example =
    extract_control_percent-Says (IsExact-IsOrdered fixed-IsExact) request stop_loss_patterns
      "stop[- ]loss" "Stop-loss" (some (pos 100000)) stop_loss

pub accepted : validate_strategy_text ℤ request ≡ ok tt
unfolding validate_strategy_text reject_phrases has_resolvable_moving_average
accepted = rw controls refl

answered : parse parser provider request ≡ ok parsed.0
unfolding parse
answered = rw accepted parsed.1

parse-IsParsed_example : IsParsed parser provider request parsed.0
parse-IsParsed_example = parse-IsParsed parser provider request parsed.0 answered

normalize_strategy_draft-AreOpposite_example :
    AreOpposite ((parsed.0).specification).entry ((parsed.0).specification).exit
normalize_strategy_draft-AreOpposite_example =
    normalize_strategy_draft-AreOpposite draft request parsed.0 refl parsed.1

normalize_strategy_draft-IsReported_example : IsReported draft parsed.0
normalize_strategy_draft-IsReported_example =
    normalize_strategy_draft-IsReported draft request parsed.0 parsed.1

valid : validate_strategy_semantics strategy ≡ ok tt
unfolding validate_strategy_semantics validate_condition validate_operand validate_risk_percent
valid = refl

normalize_strategy_draft-full_draft_example :
    normalize_strategy_draft (full_draft strategy) request ≡ ok (unchanged strategy request)
normalize_strategy_draft-full_draft_example =
    normalize_strategy_draft-full_draft strategy request
      ((validate_strategy_semantics_iff strategy).0 valid) refl controls
