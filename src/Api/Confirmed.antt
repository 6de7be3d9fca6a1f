-- ===== src/Api/Confirmed.antt =====
-- What the parser makes of a text can be confirmed, saved and read again.
use agentic_trading_platform.Prelude.{
  ℕ, suc, ◌≡◌, refl, ap, ◌∙◌, Bool, true, false, ◌==◌, some, List, [], ◌∷◌, String, All, ok, arith,
}
use agentic_trading_platform.Decimal.{Decimal}
use agentic_trading_platform.Strategy.Draft.{
  StrategyAssumption, StrategyParseDraft, ParsedStrategyResult,
}
use agentic_trading_platform.Strategy.Reading.{Reading, Numerals}
use agentic_trading_platform.Strategy.Parser.Normalize.{is_filled, normalize_strategy_draft}
use agentic_trading_platform.Strategy.Parser.Steps.{normalize_strategy_draft-Steps}
use agentic_trading_platform.Strategy.Parser.Assumed.{
  IsConfirmable, normalize_strategy_draft-IsConfirmable,
}
use agentic_trading_platform.Backtest.Compiler.{compile_strategy}
use agentic_trading_platform.Api.Model.{Strategy}
use agentic_trading_platform.Api.Session.{
  Environment, Session, works, returns, find_owned, get_owned_strategy, commit_and_refresh, refresh,
}
use agentic_trading_platform.Api.Requests.{
  ConfirmedStrategySaveRequest, is_name, is_source_text, same_bool, any_unconfirmed,
  validate_confirmation_metadata, read_confirmed,
}
use agentic_trading_platform.Api.Handlers.{
  add_strategy, json_of, revalidate, save_confirmed_strategy, get_strategy, post_confirmed, get_one,
  handle,
}

same_id : (n : ℕ) → (n == n) ≡ true
same_id n = ground arith

same_bool_refl : (b : Bool) → same_bool b b ≡ true
same_bool_refl true = refl
same_bool_refl false = refl

module _ {D : Type 0} where
  any_unconfirmed-All :
      (l : List (StrategyAssumption D)) → All IsConfirmable l → any_unconfirmed l ≡ false
  any_unconfirmed-All [] a = refl
  any_unconfirmed-All (x ∷ l) (p, a) = rw p (any_unconfirmed-All l a)

  -- The request with which a user confirms what was shown, under a name.
  abbrev pub confirmation : String → ParsedStrategyResult D → ConfirmedStrategySaveRequest D
  confirmation name result = record {
    name = name;
    source_text = result.original_text;
    specification = result.specification;
    defaults_applied = result.defaults_applied;
    assumptions = result.assumptions;
    requires_confirmation = result.requires_confirmation;
    confirmed = true;
  }

module _ {D : Type 0} ⦃d : Decimal D⦄ ⦃r : Reading⦄ ⦃n : Numerals D⦄ where
  abbrev pub stripped : ConfirmedStrategySaveRequest D → ConfirmedStrategySaveRequest D
  stripped body = record body { name = r.strip body.name; source_text = r.strip body.source_text }

  abbrev pub saved_as : Environment → ℕ → ConfirmedStrategySaveRequest D → ℕ → Strategy D
  saved_as env user_id body statement = record {
    id = env.new_id statement;
    user_id = user_id;
    name = body.name;
    source_text = body.source_text;
    strategy_json = some (json_of env body);
    created_at = env.now statement;
    updated_at = env.now statement;
  }

  read_confirmation :
      (draft : StrategyParseDraft D) (text name : String) (result : ParsedStrategyResult D)
      → normalize_strategy_draft draft text ≡ ok result
      → is_name (r.strip name) ≡ true
      → is_source_text (r.strip text) ≡ true
      → read_confirmed (confirmation name result) ≡ some (stripped (confirmation name result))
  unfolding read_confirmed validate_confirmation_metadata
  read_confirmation draft text name result h p q =
      let s = normalize_strategy_draft-Steps draft text h in
      let same : same_bool result.requires_confirmation (is_filled result.assumptions) ≡ true =
        ap (λ b. same_bool b (is_filled result.assumptions)) s.confirmation_eq
        ∙ same_bool_refl (is_filled result.assumptions) in
      let all =
        any_unconfirmed-All result.assumptions
          (normalize_strategy_draft-IsConfirmable draft text h) in
      let there = ap (λ t. is_source_text (r.strip t)) s.text_eq ∙ q in
      rw (p, there, same, all) refl

  abbrev pub session_with : Strategy D → Session D → Session D
  session_with strategy session = record {
    strategies = strategy ∷ session.strategies;
    statements = suc (suc session.statements);
  }

  get_strategy-first :
      (env : Environment) (user_id : ℕ) (strategy : Strategy D) (session : Session D)
      → ((k : ℕ) → env.answer k ≡ works)
      → strategy.user_id ≡ user_id
      → (handle env user_id (get_one strategy.id) (session_with strategy session)).1
        ≡ returns (strategy ∷ [])
  unfolding handle get_strategy get_owned_strategy find_owned
  get_strategy-first env user_id strategy session w u =
      rw (w (suc (suc session.statements)), u, same_id strategy.id, same_id user_id) refl

  -- What `normalize_strategy_draft` returns for a text can be confirmed under a name, if name and text
  -- are within their limits once stripped and the database answers: the request saves one strategy of
  -- the user, with the stripped name and text and the JSON of that interpretation, in two
  -- statements, and a request of the same user for its identifier then returns exactly that strategy.
  pub handle-confirmation :
      (env : Environment) (user_id : ℕ) (draft : StrategyParseDraft D) (text name : String)
      (result : ParsedStrategyResult D) (session : Session D)
      → normalize_strategy_draft draft text ≡ ok result
      → is_name (r.strip name) ≡ true
      → is_source_text (r.strip text) ≡ true
      → ((k : ℕ) → env.answer k ≡ works)
      → let saved = saved_as env user_id (stripped (confirmation name result)) session.statements in
        (handle env user_id (post_confirmed (confirmation name result)) session
          ≡ (session_with saved session, returns (saved ∷ [])))
        × ((handle env user_id (get_one saved.id) (session_with saved session)).1
            ≡ returns (saved ∷ []))
  unfolding handle save_confirmed_strategy revalidate compile_strategy add_strategy
      commit_and_refresh refresh
  handle-confirmation env user_id draft text name result session h p q w =
      let s = normalize_strategy_draft-Steps draft text h in
      let saved = saved_as env user_id (stripped (confirmation name result)) session.statements in
      (
        rw
            (
              read_confirmation draft text name result h p q,
              s.valid,
              w session.statements,
              w (suc session.statements),
            )
            refl,
        get_strategy-first env user_id saved session w refl,
      )
