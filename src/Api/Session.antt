-- ===== src/Api/Session.antt =====
-- The session of the routes: the stored strategies and the number of the statement. What the database
-- answers to a statement is given by `Environment`.
use agentic_trading_platform.Prelude.{
  ℕ, suc, Bool, ◌&&◌, ◌||◌, ◌==◌, ltb, Option, none, some, List, [], ◌∷◌, String, if◌then◌else◌,
}
use agentic_trading_platform.Api.Model.{Strategy}

-- A statement works, or raises an IntegrityError or another SQLAlchemyError.
pub data Answer : Type 0 where
  works integrity_error other_error : Answer

pub record Environment : Type 0 where
  pub answer : ℕ → Answer
  -- `gen_random_uuid()` and `now()` at a statement, and `updated_at` behind an UPDATE of a row
  pub new_id : ℕ → ℕ
  pub now : ℕ → ℕ
  pub updated : ℕ → ℕ → ℕ

pub record Session (D : Type 0) : Type 0 where
  pub strategies : List (Strategy D)
  pub statements : ℕ

-- A route returns or raises an HTTPException.
pub data Reply (A : Type 0) : Type 0 where
  returns : A → Reply A
  raises : ℕ → String → Reply A

abbrev pub Route : Type 0 → Type 0 → Type 0
Route D A = Session D → Session D × Reply A

abbrev pub database_error : {A : Type 0} → Reply A
database_error = raises 500 "Unable to complete the strategy database operation."

abbrev pub conflict : {A : Type 0} → Reply A
conflict = raises 409 "Strategy violates a database constraint."

-- A SELECT whose failure is a database error.
abbrev pub on_select : {A : Type 0} → Answer → Reply A → Reply A
on_select works reply = reply
on_select integrity_error reply = database_error
on_select other_error reply = database_error

-- The refresh reads the row that was committed.
abbrev pub on_refresh : {A : Type 0} → Answer → A → Reply A
on_refresh works a = returns a
on_refresh integrity_error a = conflict
on_refresh other_error a = database_error

module _ {D : Type 0} where
  abbrev pub pass : {A B : Type 0} → (A → Route D B) → Session D × Reply A → Session D × Reply B
  pass rest (session, returns a) = rest a session
  pass rest (session, raises status detail) = (session, raises status detail)

  infixl 5 ◌>>=◌
  abbrev pub ◌>>=◌ : {A B : Type 0} → Route D A → (A → Route D B) → Route D B
  route >>= rest = λ session. pass rest (route session)

  abbrev pub counted : Session D → Session D
  counted session = record session { statements = suc session.statements }

  unfoldable pub find_owned : ℕ → ℕ → List (Strategy D) → Option (Strategy D)
  find_owned strategy_id user_id [] = none
  find_owned strategy_id user_id (strategy ∷ rest) =
      let later = find_owned strategy_id user_id rest in
      if strategy.id == strategy_id && strategy.user_id == user_id then some strategy else later

  abbrev pub found : Option (Strategy D) → Reply (Strategy D)
  found (some strategy) = returns strategy
  found none = raises 404 "Strategy not found."

  unfoldable pub get_owned_strategy : Environment → ℕ → ℕ → Route D (Strategy D)
  get_owned_strategy env strategy_id user_id session = (
    counted session,
    on_select (env.answer session.statements)
        (found (find_owned strategy_id user_id session.strategies)),
  )

  -- A COMMIT, with what it makes of the table; each other answer rolls back.
  abbrev pub on_commit :
      {A : Type 0} → Answer → List (Strategy D) → A → Session D → Session D × Reply A
  on_commit works changed a session = (record session { strategies = changed }, returns a)
  on_commit integrity_error changed a session = (session, conflict)
  on_commit other_error changed a session = (session, database_error)

  unfoldable pub refresh : Environment → Strategy D → Route D (Strategy D)
  refresh env strategy session =
      (counted session, on_refresh (env.answer session.statements) strategy)

  unfoldable pub commit_and_refresh :
      Environment → List (Strategy D) → Strategy D → Route D (Strategy D)
  commit_and_refresh env changed strategy session =
      pass (refresh env)
        (on_commit (env.answer session.statements) changed strategy (counted session))

  -- The UPDATE and the DELETE of an object that was loaded; its row has the object's identifier and
  -- owner, which are a key of the table.
  unfoldable pub replace : Strategy D → List (Strategy D) → List (Strategy D)
  replace strategy [] = []
  replace strategy (other ∷ rest) =
      let later = replace strategy rest in
      if other.id == strategy.id && other.user_id == strategy.user_id
      then strategy ∷ rest
      else other ∷ later

  unfoldable pub remove : Strategy D → List (Strategy D) → List (Strategy D)
  remove strategy [] = []
  remove strategy (other ∷ rest) =
      let later = remove strategy rest in
      if other.id == strategy.id && other.user_id == strategy.user_id then rest else other ∷ later

  -- `order_by(created_at.desc(), id.desc())`
  abbrev pub comes_first : Strategy D → Strategy D → Bool
  comes_first a b = ltb b.created_at a.created_at || (a.created_at == b.created_at && ltb b.id a.id)

  unfoldable pub insert_strategy : Strategy D → List (Strategy D) → List (Strategy D)
  insert_strategy strategy [] = strategy ∷ []
  insert_strategy strategy (other ∷ rest) =
      let later = insert_strategy strategy rest in
      if comes_first strategy other then strategy ∷ other ∷ rest else other ∷ later

  unfoldable pub owned_newest_first : ℕ → List (Strategy D) → List (Strategy D)
  owned_newest_first user_id [] = []
  owned_newest_first user_id (strategy ∷ rest) =
      let others = owned_newest_first user_id rest in
      if strategy.user_id == user_id then insert_strategy strategy others else others
