-- ===== src/Api/Requests.antt =====
-- backend/app/schemas/strategy.py: the bodies of requests, which FastAPI refuses with the status 422
-- before a route runs if a validator of them fails.
use Prim.Native.String.{count}
use agentic_trading_platform.Prelude.{
  Bool, true, false, not, ◌&&◌, ◌||◌, leb, Option, none, some, List, [], ◌∷◌, String, if◌then◌else◌,
}
use agentic_trading_platform.Strategy.Spec.{StrategySpecification}
use agentic_trading_platform.Strategy.Draft.{AppliedDefault, StrategyAssumption}
use agentic_trading_platform.Strategy.Reading.{Reading}
use agentic_trading_platform.Strategy.Parser.Normalize.{is_filled}
use agentic_trading_platform.Api.Model.{StrategyJson}

pub record StrategyCreate (D : Type 0) : Type 0 where
  pub name : String
  pub source_text : String
  pub strategy_json : Option (StrategyJson D)

-- A field is unset, null or a value.
pub data Field (A : Type 0) : Type 0 where
  unset null : Field A
  value : A → Field A

pub record StrategyUpdate (D : Type 0) : Type 0 where
  pub name : Field String
  pub source_text : Field String
  pub strategy_json : Field (StrategyJson D)

pub record ConfirmedStrategySaveRequest (D : Type 0) : Type 0 where
  pub name : String
  pub source_text : String
  pub specification : StrategySpecification D
  pub defaults_applied : List AppliedDefault
  pub assumptions : List (StrategyAssumption D)
  pub requires_confirmation : Bool
  pub confirmed : Bool

-- `StrategyName` and `StrategySourceText`: stripped, then measured.
abbrev pub is_name : String → Bool
is_name text = leb 1 (count text) && leb (count text) 200

abbrev pub is_source_text : String → Bool
is_source_text text = leb 1 (count text)

abbrev pub same_bool : Bool → Bool → Bool
same_bool true b = b
same_bool false b = not b

module _ {D : Type 0} where
  -- `any(not assumption.requires_confirmation for assumption in self.assumptions)`
  abbrev pub any_unconfirmed : List (StrategyAssumption D) → Bool
  any_unconfirmed [] = false
  any_unconfirmed (a ∷ rest) = not a.requires_confirmation || any_unconfirmed rest

  unfoldable pub validate_confirmation_metadata : ConfirmedStrategySaveRequest D → Option String
  validate_confirmation_metadata self =
      if not self.confirmed
      then some "Explicit confirmation is required before saving a strategy."
      else if not (same_bool self.requires_confirmation (is_filled self.assumptions))
      then some "Confirmation metadata does not match the strategy assumptions."
      else if any_unconfirmed self.assumptions
      then some "All recorded assumptions must require confirmation."
      else none

module _ ⦃r : Reading⦄ where
  abbrev pub checked : (String → Bool) → String → Field String
  checked test text = if test text then value text else null

  -- A text that fails its constraint, or is null where the column is required, is `null`.
  abbrev pub strip_field : (String → Bool) → Field String → Field String
  strip_field test unset = unset
  strip_field test null = null
  strip_field test (value text) = checked test (r.strip text)

abbrev pub is_null : Field String → Bool
is_null null = true
is_null unset = false
is_null (value text) = false

abbrev pub accepted : Option String → Bool
accepted none = true
accepted (some message) = false

module _ {D : Type 0} ⦃r : Reading⦄ where
  -- `reject_null_for_required_columns`, on fields that are stripped and measured.
  unfoldable pub read_update : StrategyUpdate D → Option (StrategyUpdate D)
  read_update body =
      let name = strip_field is_name body.name in
      let source_text = strip_field is_source_text body.source_text in
      if is_null name || is_null source_text
      then none
      else some
          (record { name = name; source_text = source_text; strategy_json = body.strategy_json })

  unfoldable pub read_create : StrategyCreate D → Option (StrategyCreate D)
  read_create body =
      if is_name (r.strip body.name) && is_source_text (r.strip body.source_text)
      then some (record {
        name = r.strip body.name;
        source_text = r.strip body.source_text;
        strategy_json = body.strategy_json;
      })
      else none

  unfoldable pub read_confirmed :
      ConfirmedStrategySaveRequest D → Option (ConfirmedStrategySaveRequest D)
  read_confirmed body =
      if is_name (r.strip body.name)
        && is_source_text (r.strip body.source_text)
        && accepted (validate_confirmation_metadata body)
      then some (record body { name = r.strip body.name; source_text = r.strip body.source_text })
      else none
