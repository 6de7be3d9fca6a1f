-- ===== src/Strategy/Parser/Provider.antt =====
-- backend/app/services/strategy_parser.py: the call of the language model, whose answer is a
-- parameter, and the entry point of the parser.
use agentic_trading_platform.Prelude.{
  Bool, true, false, Option, none, some, String, ◌<>◌, str_eq, ◌||◌, Result, ok, err, ◌>>=◌, ◌>>◌,
  raise_if, validation_error, parser_error, provider_error, provider_refusal, provider_timeout,
  malformed_output, Error, if◌then◌else◌,
}
use agentic_trading_platform.Decimal.{Decimal}
use agentic_trading_platform.Strategy.Draft.{StrategyParseDraft, ParsedStrategyResult}
use agentic_trading_platform.Strategy.Reading.{Reading, Numerals}
use agentic_trading_platform.Strategy.Semantics.Text.{validate_strategy_text}
use agentic_trading_platform.Strategy.Parser.Normalize.{normalize_strategy_draft}

mutual
  -- A value of the dumped response, of which only lists, dictionaries and texts are looked at.
  pub data Value : Type 0 where
    text : String → Value
    items : Values → Value
    fields : Fields → Value
    other : Value

  pub data Values : Type 0 where
    no_value : Values
    value_then : Value → Values → Values

  pub data Fields : Type 0 where
    no_field : Fields
    field_then : String → Value → Fields → Fields

-- `fields.get(key)`
unfoldable pub get : String → Fields → Option Value
get key no_field = none
get key (field_then name value rest) =
    let later = get key rest in if str_eq name key then some value else later

abbrev is_refusal_type : Option Value → Bool
is_refusal_type (some (text type)) = str_eq type "refusal"
is_refusal_type (some (items _)) = false
is_refusal_type (some (fields _)) = false
is_refusal_type (some other) = false
is_refusal_type none = false

unfoldable pub is_refusal_part : Value → Bool
is_refusal_part (fields part) = is_refusal_type (get "type" part)
is_refusal_part (text _) = false
is_refusal_part (items _) = false
is_refusal_part other = false

unfoldable pub any_refusal_part : Values → Bool
any_refusal_part no_value = false
any_refusal_part (value_then part rest) = is_refusal_part part || any_refusal_part rest

abbrev content_refuses : Option Value → Bool
content_refuses (some (items parts)) = any_refusal_part parts
content_refuses (some (text _)) = false
content_refuses (some (fields _)) = false
content_refuses (some other) = false
content_refuses none = false

unfoldable pub item_refuses : Value → Bool
item_refuses (fields item) = content_refuses (get "content" item)
item_refuses (text _) = false
item_refuses (items _) = false
item_refuses other = false

unfoldable pub any_item_refuses : Values → Bool
any_item_refuses no_value = false
any_item_refuses (value_then item rest) = item_refuses item || any_item_refuses rest

abbrev output_refuses : Option Value → Bool
output_refuses (some (items output)) = any_item_refuses output
output_refuses (some (text _)) = false
output_refuses (some (fields _)) = false
output_refuses (some other) = false
output_refuses none = false

unfoldable pub response_contains_refusal : Fields → Bool
response_contains_refusal response = output_refuses (get "output" response)

-- An exception of the client: whether it is a `TimeoutError`, its class name and its text.
pub record ClientError : Type 0 where
  pub is_timeout_error : Bool
  pub class_name : String
  pub message : String

pub data ClientAnswer (D : Type 0) : Type 0 where
  responded : Option (StrategyParseDraft D) → Fields → ClientAnswer D
  failed : ClientError → ClientAnswer D

unfoldable pub provider_error_message : Bool → ClientError → String
provider_error_message is_local error =
    if is_local
    then "The strategy parser provider returned " <> error.class_name <> ": " <> error.message
    else "The strategy parser provider returned an error."

abbrev pub timeout : Error
timeout = provider_timeout "The strategy parser timed out. Please try again."

module _ {D : Type 0} where
  unfoldable pub read_response :
      Option (StrategyParseDraft D) → Fields → Result (StrategyParseDraft D)
  read_response (some parsed) response = ok parsed
  read_response none response =
      if response_contains_refusal response
      then err (provider_refusal "The strategy parser refused this request.")
      else err (malformed_output "The strategy parser returned malformed structured output.")

  unfoldable pub provider_parse : Bool → ClientAnswer D → Result (StrategyParseDraft D)
  provider_parse is_local (responded parsed response) = read_response parsed response
  provider_parse is_local (failed error) =
      if error.is_timeout_error
      then err timeout
      else if str_eq error.class_name "APITimeoutError"
      then err timeout
      else err (provider_error (provider_error_message is_local error))

pub record OpenAiStrategyParser : Type 0 where
  pub api_key : Option String
  pub model : Option String

-- `not value`, of an optional text.
abbrev pub is_missing : Option String → Bool
is_missing none = true
is_missing (some value) = str_eq value ""

abbrev pub or_empty : Option String → String
or_empty none = ""
or_empty (some value) = value

module _ {D : Type 0} ⦃d : Decimal D⦄ ⦃r : Reading⦄ ⦃n : Numerals D⦄ where
  -- The provider is called with the key, the model and the text.
  unfoldable pub parse :
      OpenAiStrategyParser
      → (String → String → String → Result (StrategyParseDraft D))
      → String
      → Result (ParsedStrategyResult D)
  parse self provider strategy_text = do
    raise_if (str_eq (r.strip strategy_text) "") (validation_error "Enter a strategy description.")
    validate_strategy_text D strategy_text
    raise_if (is_missing self.api_key)
        (parser_error "OPENAI_API_KEY is required to parse a strategy.")
    raise_if (is_missing self.model) (parser_error "OPENAI_MODEL is required to parse a strategy.")
    draft ← provider (or_empty self.api_key) (or_empty self.model) strategy_text
    normalize_strategy_draft draft strategy_text
