-- ===== src/Api/Model.antt =====
-- backend/app/models/strategy.py: a saved strategy. Identifiers and instants are numbers.
use Prim.Native.String.{count}
use agentic_trading_platform.Prelude.{ℕ, ◌≤◌, Bool, Option, List, String}
use agentic_trading_platform.Strategy.Spec.{StrategySpecification}
use agentic_trading_platform.Strategy.Draft.{AppliedDefault, StrategyAssumption}

-- The dictionary that `save_confirmed_strategy` builds.
pub record ConfirmedJson (D : Type 0) : Type 0 where
  pub specification : StrategySpecification D
  pub defaults_applied : List AppliedDefault
  pub assumptions : List (StrategyAssumption D)
  pub requires_confirmation : Bool
  pub confirmed : Bool
  pub parser_version : String
  pub interpretation : String

-- The JSON of a strategy: as a client sent it, or as a confirmed one has it.
pub data StrategyJson (D : Type 0) : Type 0 where
  client_json : String → StrategyJson D
  confirmed_json : ConfirmedJson D → StrategyJson D

pub record Strategy (D : Type 0) : Type 0 where
  pub id : ℕ
  pub user_id : ℕ
  pub name : String
  pub source_text : String
  pub strategy_json : Option (StrategyJson D)
  pub created_at : ℕ
  pub updated_at : ℕ

-- `strategies_name_length_check` and `strategies_source_text_length_check`
pub record IsWellFormed {D : Type 0} (strategy : Strategy D) : Type 0 where
  pub name_there : 1 ≤ count strategy.name
  pub name_short : count strategy.name ≤ 200
  pub text_there : 1 ≤ count strategy.source_text
