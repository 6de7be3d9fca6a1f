-- ===== src/Api/Changes.antt =====
-- What the statements and routes on one strategy keep.
use agentic_trading_platform.Prelude.{ℕ, ◌≡◌, refl, ◌∙◌, Option, none, some, List, String, arith}
use agentic_trading_platform.Api.Model.{StrategyJson, Strategy, IsWellFormed}
use agentic_trading_platform.Api.Session.{
  Answer, works, integrity_error, other_error, Environment, Session, found, counted, on_select,
  on_commit, on_refresh, refresh, find_owned, get_owned_strategy, commit_and_refresh, replace,
  remove,
}
use agentic_trading_platform.Api.Requests.{StrategyUpdate, is_name, is_source_text}
use agentic_trading_platform.Api.Handlers.{
  add_strategy, updated_strategy, save_update, update_strategy, commit_removal, delete_strategy,
}
use agentic_trading_platform.Api.Ownership.{
  IsOwned, Kept, Keeps, IsShown, Kept-refl, Keeps-pass, find_owned-IsShown, others-replace,
  others-remove, others-cons, replace-All, remove-All,
}
use agentic_trading_platform.Api.Texts.{AreTexts, well_formed, set_text-IsField, AreFields}

module _ {D : Type 0} (env : Environment) (user_id : ℕ) where
  pub found-Keeps :
      (answer : Answer) (before : List (Strategy D)) (o : Option (Strategy D)) (s : Session D)
      → Kept user_id before s.strategies
      → ((strategy : Strategy D) → o ≡ some strategy → IsShown user_id before strategy)
      → Keeps user_id (IsShown user_id before) before (s, on_select answer (found o))
  found-Keeps works before none s k f = k
  found-Keeps works before (some strategy) s k f = (k, f strategy refl)
  found-Keeps integrity_error before o s k f = k
  found-Keeps other_error before o s k f = k

  pub get_owned_strategy-Keeps :
      (strategy_id : ℕ) (session : Session D)
      → Keeps user_id
          (IsShown user_id session.strategies)
          session.strategies
          (get_owned_strategy env strategy_id user_id session)
  unfolding get_owned_strategy
  get_owned_strategy-Keeps strategy_id session =
      found-Keeps (env.answer session.statements) session.strategies
        (find_owned strategy_id user_id session.strategies) (counted session)
        (Kept-refl user_id session.strategies)
        (find_owned-IsShown user_id strategy_id session.strategies)

  pub on_commit-Keeps :
      {A : Type 0} (Q : A → Type 0) (answer : Answer) (before changed : List (Strategy D)) (a : A)
      (s : Session D)
      → Kept user_id before s.strategies
      → Kept user_id before changed
      → Q a
      → Keeps user_id Q before (on_commit answer changed a s)
  on_commit-Keeps Q works before changed a s k c q = (c, q)
  on_commit-Keeps Q integrity_error before changed a s k c q = k
  on_commit-Keeps Q other_error before changed a s k c q = k

  pub on_refresh-Keeps :
      (answer : Answer) (before : List (Strategy D)) (strategy : Strategy D) (s : Session D)
      → IsOwned user_id strategy
      → Kept user_id before s.strategies
      → Keeps user_id (IsOwned user_id) before (s, on_refresh answer strategy)
  on_refresh-Keeps works before strategy s o k = (k, o)
  on_refresh-Keeps integrity_error before strategy s o k = k
  on_refresh-Keeps other_error before strategy s o k = k

  pub commit_and_refresh-Keeps :
      (before changed : List (Strategy D)) (strategy : Strategy D) (session : Session D)
      → Kept user_id before session.strategies
      → Kept user_id before changed
      → IsOwned user_id strategy
      → Keeps user_id (IsOwned user_id) before (commit_and_refresh env changed strategy session)
  unfolding commit_and_refresh refresh
  commit_and_refresh-Keeps before changed strategy session k c o =
      Keeps-pass user_id (IsOwned user_id) (IsOwned user_id) before (refresh env)
        (on_commit (env.answer session.statements) changed strategy (counted session))
        (on_commit-Keeps (IsOwned user_id) (env.answer session.statements) before changed strategy
          (counted session) k c o)
        (λ a s q j. on_refresh-Keeps (env.answer s.statements) before a (counted s) q j)

  pub add_strategy-Keeps :
      (name source_text : String) (json : Option (StrategyJson D)) (session : Session D)
      → AreTexts name source_text
      → Keeps user_id
          (IsOwned user_id)
          session.strategies
          (add_strategy env user_id name source_text json session)
  unfolding add_strategy
  add_strategy-Keeps name source_text json session t =
      commit_and_refresh-Keeps session.strategies _ _ session (Kept-refl user_id session.strategies)
        (record {
          others_eq = others-cons user_id _ session.strategies refl;
          well_formed = λ w. (well_formed _ t, w);
        })
        refl

  pub delete_strategy-Keeps :
      (strategy_id : ℕ) (session : Session D)
      → Keeps user_id
          (λ _. Unit {0})
          session.strategies
          (delete_strategy env strategy_id user_id session)
  unfolding delete_strategy commit_removal
  delete_strategy-Keeps strategy_id session =
      Keeps-pass user_id (IsShown user_id session.strategies) (λ _. Unit {0}) session.strategies
        (commit_removal env) (get_owned_strategy env strategy_id user_id session)
        (get_owned_strategy-Keeps strategy_id session)
        (λ strategy s q k.
          on_commit-Keeps (λ _. Unit {0}) (env.answer s.statements) session.strategies
            (remove strategy s.strategies) tt (counted s) k
            (record {
              others_eq = others-remove user_id strategy s.strategies q.0 ∙ k.others_eq;
              well_formed = λ w. remove-All IsWellFormed strategy s.strategies (k.well_formed w);
            })
            tt)

  pub updated-IsWellFormed :
      (payload : StrategyUpdate D) (statement : ℕ) (strategy : Strategy D)
      → AreFields payload
      → IsWellFormed strategy
      → IsWellFormed (updated_strategy env payload statement strategy)
  updated-IsWellFormed payload statement strategy (f, g) w = well_formed _ (
    set_text-IsField is_name payload.name strategy.name f
        (ground (arith, w.name_there, w.name_short)),
    set_text-IsField is_source_text payload.source_text strategy.source_text g
        (ground (arith, w.text_there)),
  )

  pub update_strategy-Keeps :
      (strategy_id : ℕ) (payload : StrategyUpdate D) (session : Session D)
      → AreFields payload
      → Keeps user_id
          (IsOwned user_id)
          session.strategies
          (update_strategy env strategy_id payload user_id session)
  unfolding update_strategy save_update
  update_strategy-Keeps strategy_id payload session f =
      Keeps-pass user_id (IsShown user_id session.strategies) (IsOwned user_id) session.strategies
        (save_update env payload) (get_owned_strategy env strategy_id user_id session)
        (get_owned_strategy-Keeps strategy_id session)
        (λ strategy s q k.
          let changed = updated_strategy env payload s.statements strategy in
          commit_and_refresh-Keeps session.strategies (replace changed s.strategies) changed s k
            (record {
              others_eq = others-replace user_id changed s.strategies q.0 ∙ k.others_eq;
              well_formed = λ w.
                  replace-All IsWellFormed changed s.strategies
                    (updated-IsWellFormed payload s.statements strategy f (q.1 w))
                    (k.well_formed w);
            })
            q.0)
