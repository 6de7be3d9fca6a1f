-- ===== src/Api/Handlers.antt =====
-- backend/app/api/routes/strategies.py: the routes of saved strategies, each for a user that
-- `get_current_user` has verified.
use agentic_trading_platform.Prelude.{
  ℕ, true, Option, none, some, List, [], ◌∷◌, String, Result, ok, err, Error, value_error,
  runtime_error, validation_error, compilation_error, data_unavailable, parser_error,
  provider_error, provider_refusal, provider_timeout, malformed_output,
  database_error as database_failure, division_by_zero, ◌>>◌,
}
use agentic_trading_platform.Decimal.{Decimal}
use agentic_trading_platform.Strategy.Draft.{ParsedStrategyResult}
use agentic_trading_platform.Strategy.Reading.{Reading, Numerals}
use agentic_trading_platform.Strategy.Semantics.{validate_strategy_semantics}
use agentic_trading_platform.Strategy.Interpretation.{interpret_strategy}
use agentic_trading_platform.Backtest.Compiler.{CompiledStrategy, compile_strategy}
use agentic_trading_platform.Api.Model.{StrategyJson, confirmed_json, Strategy}
use agentic_trading_platform.Api.Session.{
  Environment, Session, Reply, returns, raises, Route, ◌>>=◌, counted, on_select, on_commit,
  get_owned_strategy, commit_and_refresh, replace, remove, owned_newest_first,
}
use agentic_trading_platform.Api.Requests.{
  Field, unset, null, value, StrategyCreate, StrategyUpdate, ConfirmedStrategySaveRequest,
  read_create, read_update, read_confirmed,
}

-- The status and the text that the route for confirmed strategies makes of an exception: the two
-- kinds that are caught, and the server's answer to others.
abbrev pub refused : {A : Type 0} → Error → Reply A
refused (validation_error message) = raises 422 message
refused (compilation_error message) = raises 422 message
refused (value_error m) = raises 500 m
refused (runtime_error m) = raises 500 m
refused (data_unavailable m) = raises 500 m
refused (parser_error m) = raises 500 m
refused (provider_error m) = raises 500 m
refused (provider_refusal m) = raises 500 m
refused (provider_timeout m) = raises 500 m
refused (malformed_output m) = raises 500 m
refused (database_failure m) = raises 500 m
refused division_by_zero = raises 500 ""

-- `setattr` of a field that is set; a required column is never null here.
abbrev pub set_text : Field String → String → String
set_text unset old = old
set_text null old = old
set_text (value new) old = new

abbrev pub set_json :
    {D : Type 0} → Field (StrategyJson D) → Option (StrategyJson D) → Option (StrategyJson D)
set_json unset old = old
set_json null old = none
set_json (value new) old = some new

module _ {D : Type 0} (env : Environment) where
  -- `session.add` of a new row, of which the database makes the identifier and the times.
  unfoldable pub add_strategy : ℕ → String → String → Option (StrategyJson D) → Route D (Strategy D)
  add_strategy user_id name source_text strategy_json session =
      let strategy : Strategy D = record {
        id = env.new_id session.statements;
        user_id = user_id;
        name = name;
        source_text = source_text;
        strategy_json = strategy_json;
        created_at = env.now session.statements;
        updated_at = env.now session.statements;
      } in
      commit_and_refresh env (strategy ∷ session.strategies) strategy session

  unfoldable pub create_strategy : StrategyCreate D → ℕ → Route D (Strategy D)
  create_strategy payload user_id =
      add_strategy user_id payload.name payload.source_text payload.strategy_json

  unfoldable pub list_strategies : ℕ → Route D (List (Strategy D))
  list_strategies user_id session = (
    counted session,
    on_select (env.answer session.statements)
        (returns (owned_newest_first user_id session.strategies)),
  )

  unfoldable pub get_strategy : ℕ → ℕ → Route D (Strategy D)
  get_strategy strategy_id user_id = get_owned_strategy env strategy_id user_id

  abbrev pub updated_strategy : StrategyUpdate D → ℕ → Strategy D → Strategy D
  updated_strategy payload statement strategy = record strategy {
    name = set_text payload.name strategy.name;
    source_text = set_text payload.source_text strategy.source_text;
    strategy_json = set_json payload.strategy_json strategy.strategy_json;
    updated_at = env.updated statement strategy.updated_at;
  }

  unfoldable pub save_update : StrategyUpdate D → Strategy D → Route D (Strategy D)
  save_update payload strategy session =
      let changed = updated_strategy payload session.statements strategy in
      commit_and_refresh env (replace changed session.strategies) changed session

  unfoldable pub update_strategy : ℕ → StrategyUpdate D → ℕ → Route D (Strategy D)
  update_strategy strategy_id payload user_id =
      get_owned_strategy env strategy_id user_id >>= λ strategy. save_update payload strategy

  unfoldable pub commit_removal : Strategy D → Route D (Unit {0})
  commit_removal strategy session =
      on_commit (env.answer session.statements) (remove strategy session.strategies) tt
        (counted session)

  unfoldable pub delete_strategy : ℕ → ℕ → Route D (Unit {0})
  delete_strategy strategy_id user_id =
      get_owned_strategy env strategy_id user_id >>= λ strategy. commit_removal strategy

module _ {D : Type 0} ⦃d : Decimal D⦄ ⦃r : Reading⦄ ⦃n : Numerals D⦄ (env : Environment) where
  abbrev pub parsed_of : ConfirmedStrategySaveRequest D → ParsedStrategyResult D
  parsed_of payload = record {
    specification = payload.specification;
    defaults_applied = payload.defaults_applied;
    assumptions = payload.assumptions;
    requires_confirmation = payload.requires_confirmation;
    original_text = payload.source_text;
  }

  abbrev pub json_of : ConfirmedStrategySaveRequest D → StrategyJson D
  json_of payload = confirmed_json (record {
    specification = payload.specification;
    defaults_applied = payload.defaults_applied;
    assumptions = payload.assumptions;
    requires_confirmation = payload.requires_confirmation;
    confirmed = true;
    parser_version = payload.specification.version;
    interpretation = interpret_strategy (parsed_of payload);
  })

  -- The two validations, and what follows on their outcome.
  unfoldable pub revalidate : ConfirmedStrategySaveRequest D → Result (CompiledStrategy D)
  revalidate payload =
      validate_strategy_semantics payload.specification >> compile_strategy payload.specification

  abbrev pub save_validated :
      ConfirmedStrategySaveRequest D → ℕ → Result (CompiledStrategy D) → Route D (Strategy D)
  save_validated payload user_id (ok compiled) =
      add_strategy env user_id payload.name payload.source_text (some (json_of payload))
  save_validated payload user_id (err e) = λ session. (session, refused e)

  unfoldable pub save_confirmed_strategy : ConfirmedStrategySaveRequest D → ℕ → Route D (Strategy D)
  save_confirmed_strategy payload user_id = save_validated payload user_id (revalidate payload)

-- A request with its body as it arrives.
pub data Request (D : Type 0) : Type 0 where
  post_strategy : StrategyCreate D → Request D
  post_confirmed : ConfirmedStrategySaveRequest D → Request D
  get_all : Request D
  get_one : ℕ → Request D
  patch : ℕ → StrategyUpdate D → Request D
  delete : ℕ → Request D

abbrev pub unprocessable : {A : Type 0} → Reply A
unprocessable = raises 422 "Unprocessable content."

module _ {D : Type 0} ⦃d : Decimal D⦄ ⦃r : Reading⦄ ⦃n : Numerals D⦄ (env : Environment) where
  -- A route on the body that was read; without one it does not run.
  abbrev pub with_body : {A B : Type 0} → (A → Route D B) → Option A → Route D B
  with_body route (some body) = route body
  with_body route none = λ session. (session, unprocessable)

  abbrev pub one : Strategy D → List (Strategy D)
  one strategy = strategy ∷ []

  abbrev pub replying :
      {A : Type 0}
      → (A → List (Strategy D))
      → Session D × Reply A
      → Session D × Reply (List (Strategy D))
  replying shown (session, returns a) = (session, returns (shown a))
  replying shown (session, raises status detail) = (session, raises status detail)

  -- The strategies that a request shows to its user.
  unfoldable pub handle : ℕ → Request D → Route D (List (Strategy D))
  handle user_id (post_strategy body) session =
      replying one (with_body (λ p. create_strategy env p user_id) (read_create body) session)
  handle user_id (post_confirmed body) session =
      replying one
        (with_body (λ p. save_confirmed_strategy env p user_id) (read_confirmed body) session)
  handle user_id get_all session = replying (λ l. l) (list_strategies env user_id session)
  handle user_id (get_one strategy_id) session =
      replying one (get_strategy env strategy_id user_id session)
  handle user_id (patch strategy_id body) session =
      replying one
        (with_body (λ p. update_strategy env strategy_id p user_id) (read_update body) session)
  handle user_id (delete strategy_id) session =
      replying (λ _. []) (delete_strategy env strategy_id user_id session)

  -- Requests of users, one after the other.
  unfoldable pub handle_all : List (ℕ × Request D) → Session D → Session D
  handle_all [] session = session
  handle_all ((user_id, request) ∷ rest) session =
      handle_all rest (handle user_id request session).0
