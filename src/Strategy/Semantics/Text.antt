-- ===== src/Strategy/Semantics/Text.antt =====
-- backend/app/services/strategy_semantics.py: the checks of the text of a request, and what is read
-- from it without the language model.
pub mod Controls
pub mod Accepted
use agentic_trading_platform.Prelude.{
  Bool, true, false, not, ◌||◌, ◌&&◌, Option, none, some, List, [], ◌∷◌, String, ◌<>◌, Result, ok,
  err, ◌>>=◌, ◌>>◌, raise_if, validation_error, if◌then◌else◌,
}
use agentic_trading_platform.Prelude.Int.{ℤ, pos}
use agentic_trading_platform.Decimal.{Decimal}
use agentic_trading_platform.Strategy.Reading.{Reading, Numerals, contains}
use agentic_trading_platform.Strategy.Semantics.{validate_risk_percent}

abbrev pub unsupported_language : List (String × String)
unsupported_language =
    ("rsi", "RSI is not supported in version 1.")
    ∷ ("macd", "MACD is not supported in version 1.")
    ∷ ("bollinger", "Bollinger Bands are not supported in version 1.")
    ∷ ("volume", "Volume rules and volume indicators are not supported in version 1.")
    ∷ ("trailing stop", "Trailing stops are not supported in version 1.")
    ∷ ("short ", "Short selling is not supported in version 1.")
    ∷ ("leverage", "Leverage is not supported in version 1.")
    ∷ ("option", "Options are not supported in version 1.")
    ∷ ("news", "News-based rules are not supported in version 1.")
    ∷ ("sentiment", "Sentiment-based rules are not supported in version 1.")
    ∷ ("fundamental", "Fundamental-based rules are not supported in version 1.")
    ∷ ("earnings", "Earnings-based rules are not supported in version 1.")
    ∷ ("analyst", "Analyst-rating rules are not supported in version 1.")
    ∷ ("python code", "Code generation is not supported for strategies.")
    ∷ ("sql query", "SQL generation is not supported for strategies.")
    ∷ ("select *", "SQL generation is not supported for strategies.")
    ∷ []

abbrev pub ambiguous_language : List (String × String)
ambiguous_language =
    (
      "looks strong",
      "Specify a supported price or moving-average condition instead of 'looks strong'.",
    )
    ∷ (
      "momentum",
      "Momentum is undefined here. Specify a supported price or moving-average condition.",
    )
    ∷ (
      "risk increases",
      "Risk is undefined here. Specify a supported price or moving-average condition.",
    )
    ∷ ("conditions are favorable", "Specify a supported price or moving-average condition.")
    ∷ ("good moving average", "Specify explicit moving-average periods.")
    ∷ ("tight stop", "Specify an explicit stop-loss percentage.")
    ∷ ("take profit when appropriate", "Specify an explicit take-profit percentage.")
    ∷ ("control my downside", "Specify an explicit stop-loss percentage.")
    ∷ ("good risk management", "Specify an explicit stop-loss or take-profit percentage.")
    ∷ []

abbrev percent_value : String
percent_value = "(?P<value>[+-]?(?:\\d+(?:\\.\\d+)?|\\.\\d+))\\s*(?:%|percent\\b)"

abbrev pub stop_loss_patterns : List String
stop_loss_patterns =
    (percent_value <> "\\s+stop[- ]loss\\b")
    ∷ ("\\bstop[- ]loss(?:\\s+(?:of|at))?\\s+" <> percent_value)
    ∷ ("\\b(?:the\\s+)?position\\s+los(?:e|es|ing)\\s+" <> percent_value)
    ∷ []

abbrev pub take_profit_patterns : List String
take_profit_patterns =
    (percent_value <> "\\s+take[- ]profit\\b")
    ∷ ("\\btake[- ]profit(?:\\s+(?:of|at))?\\s+" <> percent_value)
    ∷ ("\\bgain(?:s|ing)?\\s+" <> percent_value)
    ∷ []

pub record RiskControls (D : Type 0) : Type 0 where
  pub stop_loss_percent : Option D
  pub take_profit_percent : Option D

pub record NormalizationHint : Type 0 where
  pub name : String
  pub short_period : ℤ
  pub long_period : ℤ
  pub bullish_entry : Bool

-- The first phrase of a table that the text contains raises its message.
unfoldable pub reject_phrases : String → List (String × String) → Result (Unit {0})
reject_phrases text [] = ok tt
reject_phrases text ((phrase, message) ∷ rest) =
    let others = reject_phrases text rest in
    if contains text phrase then err (validation_error message) else others

module _ {D : Type 0} ⦃d : Decimal D⦄ where
  abbrev pub same_decimal : D → D → Bool
  same_decimal a b = d.le a b && d.le b a

  abbrev pub is_member : D → List D → Bool
  is_member v [] = false
  is_member v (w ∷ rest) = same_decimal v w || is_member v rest

  -- `values.add(value)`
  unfoldable pub add_value : D → List D → List D
  add_value v values = if is_member v values then values else v ∷ values

  unfoldable pub insert_sorted : D → List D → List D
  insert_sorted v [] = v ∷ []
  insert_sorted v (w ∷ rest) =
      let later = insert_sorted v rest in if d.le v w then v ∷ w ∷ rest else w ∷ later

  unfoldable pub sort_values : List D → List D
  sort_values [] = []
  sort_values (v ∷ rest) = insert_sorted v (sort_values rest)

module _ {D : Type 0} ⦃d : Decimal D⦄ ⦃r : Reading⦄ ⦃n : Numerals D⦄ where
  unfoldable pub join_percents : List D → String
  join_percents [] = ""
  join_percents (v ∷ []) = n.show_decimal v <> "%"
  join_percents (v ∷ w ∷ rest) = n.show_decimal v <> "%, " <> join_percents (w ∷ rest)

  abbrev conflict : String → List D → String
  conflict label values =
      "Conflicting "
      <> r.lower label
      <> " percentages were provided: "
      <> join_percents (sort_values values)
      <> "."

  -- One round of the inner loop, on what `Decimal` gave.
  unfoldable pub add_match : String → Option D → List D → Result (List D)
  add_match label none values = err (validation_error (label <> " must be an explicit percentage."))
  add_match label (some v) values = ok (add_value v values)

  unfoldable pub add_matches : String → List String → List D → Result (List D)
  add_matches label [] values = ok values
  add_matches label (group ∷ rest) values = do
    more ← add_match label (n.to_decimal group) values
    add_matches label rest more

  unfoldable pub collect_values : String → String → List String → List D → Result (List D)
  collect_values text label [] values = ok values
  collect_values text label (pattern ∷ rest) values = do
    more ← add_matches label (r.find_values pattern text) values
    collect_values text label rest more

  -- What the set of values decides.
  unfoldable pub decide_control : String → String → String → List D → Result (Option D)
  decide_control text phrase_pattern label [] = do
    raise_if (r.search_ignoring_case phrase_pattern text) (
        validation_error
          (label <> " must be an explicit percentage greater than 0% and no greater than 50%."))
    ok none
  decide_control text phrase_pattern label (v ∷ []) = do
    validate_risk_percent (some v) label
    ok (some v)
  decide_control text phrase_pattern label (v ∷ w ∷ rest) =
      err (validation_error (conflict label (v ∷ w ∷ rest)))

  unfoldable pub extract_control_percent :
      String → List String → String → String → Result (Option D)
  extract_control_percent text patterns phrase_pattern label = do
    values ← collect_values text label patterns []
    decide_control text phrase_pattern label values

  unfoldable pub extract_risk_controls : String → Result (RiskControls D)
  extract_risk_controls text = do
    stop_loss ←
        extract_control_percent text stop_loss_patterns
          "\\bstop[- ]loss\\b|\\bposition\\s+los(?:e|es|ing)\\b|\\btight\\s+stop\\b" "Stop-loss"
    take_profit ←
        extract_control_percent text take_profit_patterns
          "\\btake[- ]profit\\b|\\bgain(?:s|ing)?\\b" "Take-profit"
    ok (record { stop_loss_percent = stop_loss; take_profit_percent = take_profit })

module _ ⦃r : Reading⦄ where
  unfoldable pub has_resolvable_moving_average : String → Bool
  has_resolvable_moving_average text =
      r.search "\\b\\d+\\s*(?:-?day\\b|/)\\s*\\d*" text
      || contains text "golden cross"
      || contains text "death cross"

  unfoldable pub shorthand_hint : Option (String × String) → Option NormalizationHint
  shorthand_hint none = none
  shorthand_hint (some (short, long)) = some (record {
    name = "crossover shorthand";
    short_period = r.to_int short;
    long_period = r.to_int long;
    bullish_entry = true;
  })

  abbrev cross_hint : String → Bool → NormalizationHint
  cross_hint name bullish = record {
    name = name;
    short_period = pos 50;
    long_period = pos 200;
    bullish_entry = bullish;
  }

  unfoldable pub find_normalization_hint : String → Option NormalizationHint
  find_normalization_hint text =
      if contains (r.lower text) "golden cross"
      then some (cross_hint "golden cross" true)
      else if contains (r.lower text) "death cross"
      then some (cross_hint "death cross" false)
      else shorthand_hint
          (r.search_groups "\\b(\\d+)\\s*/\\s*(\\d+)\\s*(?:day\\s*)?crossover\\b" (r.lower text))

module _ (D : Type 0) ⦃d : Decimal D⦄ ⦃r : Reading⦄ ⦃n : Numerals D⦄ where
  unfoldable pub validate_strategy_text : String → Result (Unit {0})
  validate_strategy_text text = do
    reject_phrases (r.lower text) unsupported_language
    reject_phrases (r.lower text) ambiguous_language
    controls ← extract_risk_controls {D = D} text
    raise_if
        (contains (r.lower text) "moving average"
          && not (has_resolvable_moving_average (r.lower text)))
        (validation_error
          "Specify moving-average periods, such as '50-day SMA' or '50/200 crossover'.")
