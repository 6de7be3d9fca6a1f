-- ===== src/Api/Traces.antt =====
-- Requests of several users, one after the other.
use agentic_trading_platform.Prelude.{
  ℕ, ◌≡◌, ◌≢◌, refl, sym, ap, ◌∙◌, ◌==◌, List, [], ◌∷◌, All, arith, if◌then◌else◌,
}
use agentic_trading_platform.Decimal.{Decimal}
use agentic_trading_platform.Strategy.Reading.{Reading, Numerals}
use agentic_trading_platform.Api.Model.{Strategy, IsWellFormed}
use agentic_trading_platform.Api.Session.{Environment, Session, Reply, returns, raises}
use agentic_trading_platform.Api.Handlers.{Request, handle, handle_all}
use agentic_trading_platform.Api.Ownership.{others, IsOwned, Kept, Keeps}
use agentic_trading_platform.Api.Isolation.{handle-Keeps}

module _ {D : Type 0} where
  -- The strategies of a user, as they stand in the table.
  unfoldable pub owned : ℕ → List (Strategy D) → List (Strategy D)
  owned user_id [] = []
  owned user_id (strategy ∷ rest) =
      let later = owned user_id rest in
      if strategy.user_id == user_id then strategy ∷ later else later

  owned-others :
      (user other : ℕ) (l : List (Strategy D))
      → other ≢ user
      → owned user (others other l) ≡ owned user l
  unfolding owned others
  owned-others user other [] h = refl
  owned-others user other (strategy ∷ rest) h = ground (arith, owned-others user other rest h)

  Keeps-Kept :
      (user_id : ℕ) (before : List (Strategy D)) (o : Session D × Reply (List (Strategy D)))
      → Keeps user_id (All (IsOwned user_id)) before o
      → Kept user_id before (o.0).strategies
  Keeps-Kept user_id before (s, returns a) (k, q) = k
  Keeps-Kept user_id before (s, raises status detail) k = k

module _ {D : Type 0} ⦃d : Decimal D⦄ ⦃r : Reading⦄ ⦃n : Numerals D⦄ (env : Environment) where
  -- However many requests other users make, with whatever answers of the database, the strategies of
  -- a user stay as they are, in their order; and a table whose rows are well formed stays so.
  pub handle_all-owned :
      (user_id : ℕ) (requests : List (ℕ × Request D)) (session : Session D)
      → All (λ entry. entry.0 ≢ user_id) requests
      → (owned user_id (handle_all env requests session).strategies
          ≡ owned user_id session.strategies)
        × (All IsWellFormed session.strategies
            → All IsWellFormed (handle_all env requests session).strategies)
  unfolding handle_all
  handle_all-owned user_id [] session h = (refl, λ w. w)
  handle_all-owned user_id ((other, request) ∷ rest) session (h, hs) =
      let next = (handle env other request session).0 in
      let k =
        Keeps-Kept other session.strategies (handle env other request session)
          (handle-Keeps env other request session) in
      let tail = handle_all-owned user_id rest next hs in
      (
        tail.0
            ∙ sym (owned-others user_id other next.strategies h)
            ∙ ap (owned user_id) k.others_eq
            ∙ owned-others user_id other session.strategies h,
        λ w. tail.1 (k.well_formed w),
      )
