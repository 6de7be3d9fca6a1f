-- ===== src/Api/Isolation.antt =====
-- A request sees and changes the strategies of its user only, and keeps the table well formed.
use agentic_trading_platform.Prelude.{
  ℕ, ◌≡◌, refl, Option, none, some, List, [], All, Result, ok, err, Error, value_error,
  runtime_error, validation_error, compilation_error, data_unavailable, parser_error,
  provider_error, provider_refusal, provider_timeout, malformed_output, database_error,
  division_by_zero,
}
use agentic_trading_platform.Decimal.{Decimal}
use agentic_trading_platform.Strategy.Reading.{Reading, Numerals}
use agentic_trading_platform.Backtest.Compiler.{CompiledStrategy}
use agentic_trading_platform.Api.Model.{Strategy}
use agentic_trading_platform.Api.Session.{
  Answer, works, integrity_error, other_error, Environment, Session, Reply, returns, raises, Route,
  counted, on_select, owned_newest_first,
}
use agentic_trading_platform.Api.Requests.{
  ConfirmedStrategySaveRequest, read_create, read_update, read_confirmed,
}
use agentic_trading_platform.Api.Handlers.{
  refused, create_strategy, list_strategies, get_strategy, update_strategy, save_validated,
  revalidate, save_confirmed_strategy, Request, post_strategy, post_confirmed, get_all, get_one,
  patch, delete, with_body, one, replying, handle,
}
use agentic_trading_platform.Api.Ownership.{
  IsOwned, Keeps, IsShown, Kept-refl, owned_newest_first-All,
}
use agentic_trading_platform.Api.Texts.{
  AreTexts, read_update-AreFields, read_create-AreTexts, read_confirmed-AreTexts,
}
use agentic_trading_platform.Api.Changes.{
  get_owned_strategy-Keeps, add_strategy-Keeps, delete_strategy-Keeps, update_strategy-Keeps,
}

module _ {D : Type 0} ⦃d : Decimal D⦄ ⦃r : Reading⦄ ⦃n : Numerals D⦄ (env : Environment)
    (user_id : ℕ) where
  refused-Keeps :
      {A : Type 0} (Q : A → Type 0) (e : Error) (s : Session D)
      → Keeps user_id Q s.strategies (s, refused e)
  refused-Keeps Q (validation_error m) s = Kept-refl user_id s.strategies
  refused-Keeps Q (compilation_error m) s = Kept-refl user_id s.strategies
  refused-Keeps Q (value_error m) s = Kept-refl user_id s.strategies
  refused-Keeps Q (runtime_error m) s = Kept-refl user_id s.strategies
  refused-Keeps Q (data_unavailable m) s = Kept-refl user_id s.strategies
  refused-Keeps Q (parser_error m) s = Kept-refl user_id s.strategies
  refused-Keeps Q (provider_error m) s = Kept-refl user_id s.strategies
  refused-Keeps Q (provider_refusal m) s = Kept-refl user_id s.strategies
  refused-Keeps Q (provider_timeout m) s = Kept-refl user_id s.strategies
  refused-Keeps Q (malformed_output m) s = Kept-refl user_id s.strategies
  refused-Keeps Q (database_error m) s = Kept-refl user_id s.strategies
  refused-Keeps Q division_by_zero s = Kept-refl user_id s.strategies

  save_validated-Keeps :
      (payload : ConfirmedStrategySaveRequest D) (o : Result (CompiledStrategy D)) (s : Session D)
      → AreTexts payload.name payload.source_text
      → Keeps user_id (IsOwned user_id) s.strategies (save_validated env payload user_id o s)
  save_validated-Keeps payload (ok compiled) s t =
      add_strategy-Keeps env user_id payload.name payload.source_text _ s t
  save_validated-Keeps payload (err e) s t = refused-Keeps (IsOwned user_id) e s

  with_body-Keeps :
      {A B : Type 0} (Q : B → Type 0) (route : A → Route D B) (o : Option A) (s : Session D)
      → ((a : A) → o ≡ some a → Keeps user_id Q s.strategies (route a s))
      → Keeps user_id Q s.strategies (with_body env route o s)
  with_body-Keeps Q route none s f = Kept-refl user_id s.strategies
  with_body-Keeps Q route (some a) s f = f a refl

  replying-Keeps :
      {A : Type 0} (Q : A → Type 0) (shown : A → List (Strategy D)) (before : List (Strategy D))
      (o : Session D × Reply A)
      → ((a : A) → Q a → All (IsOwned user_id) (shown a))
      → Keeps user_id Q before o
      → Keeps user_id (All (IsOwned user_id)) before (replying env shown o)
  replying-Keeps Q shown before (s, returns a) f (k, q) = (k, f a q)
  replying-Keeps Q shown before (s, raises status detail) f k = k

  -- Whatever the database answers, a request of a user leaves the strategies of all other users as
  -- they were and shows none of them, and it keeps every row well formed, if all are.
  pub handle-Keeps :
      (request : Request D) (session : Session D)
      → Keeps user_id
          (All (IsOwned user_id))
          session.strategies
          (handle env user_id request session)
  unfolding handle create_strategy get_strategy save_confirmed_strategy list_strategies
  handle-Keeps (post_strategy body) session =
      replying-Keeps (IsOwned user_id) (one env) session.strategies _ (λ a q. (q, tt))
        (with_body-Keeps (IsOwned user_id) (λ p. create_strategy env p user_id) (read_create body)
          session
          (λ p h.
            add_strategy-Keeps env user_id p.name p.source_text p.strategy_json session
              (read_create-AreTexts body p h)))
  handle-Keeps (post_confirmed body) session =
      replying-Keeps (IsOwned user_id) (one env) session.strategies _ (λ a q. (q, tt))
        (with_body-Keeps (IsOwned user_id) (λ p. save_confirmed_strategy env p user_id)
          (read_confirmed body) session
          (λ p h.
            save_validated-Keeps p (revalidate env p) session (read_confirmed-AreTexts body p h)))
  handle-Keeps get_all session =
      replying-Keeps (All (IsOwned user_id)) (λ l. l) session.strategies _ (λ a q. q)
        (listed (env.answer session.statements))
    where
      listed :
          (answer : Answer)
          → Keeps user_id (All (IsOwned user_id)) session.strategies (
            counted session,
            on_select answer (returns (owned_newest_first user_id session.strategies)),
          )
      listed works =
          (Kept-refl user_id session.strategies, owned_newest_first-All user_id session.strategies)
      listed integrity_error = Kept-refl user_id session.strategies
      listed other_error = Kept-refl user_id session.strategies
  handle-Keeps (get_one strategy_id) session =
      replying-Keeps (IsShown user_id session.strategies) (one env) session.strategies _
        (λ a q. (q.0, tt)) (get_owned_strategy-Keeps env user_id strategy_id session)
  handle-Keeps (patch strategy_id body) session =
      replying-Keeps (IsOwned user_id) (one env) session.strategies _ (λ a q. (q, tt))
        (with_body-Keeps (IsOwned user_id) (λ p. update_strategy env strategy_id p user_id)
          (read_update body) session
          (λ p h.
            update_strategy-Keeps env user_id strategy_id p session
              (read_update-AreFields body p h)))
  handle-Keeps (delete strategy_id) session =
      replying-Keeps (λ _. Unit {0}) (λ _. []) session.strategies _ (λ a q. tt)
        (delete_strategy-Keeps env user_id strategy_id session)
