-- ===== src/Api/Ownership.antt =====
-- What a change keeps of the strategies of other users, and of the form of each row.
use agentic_trading_platform.Prelude.{
  ℕ, ◌≡◌, refl, ◌&&◌, ◌==◌, inl, inr, some, List, [], ◌∷◌, All, arith, Bool-cases, if_any,
  if◌then◌else◌, subst,
}
use agentic_trading_platform.Api.Model.{Strategy, IsWellFormed}
use agentic_trading_platform.Api.Session.{
  Session, Reply, returns, raises, Route, pass, find_owned, replace, remove, comes_first,
  insert_strategy, owned_newest_first,
}

module _ {D : Type 0} (user_id : ℕ) where
  -- The strategies of the other users.
  unfoldable pub others : List (Strategy D) → List (Strategy D)
  others [] = []
  others (strategy ∷ rest) =
      let later = others rest in if strategy.user_id == user_id then later else strategy ∷ later

  abbrev pub IsOwned : Strategy D → Type 0
  IsOwned strategy = strategy.user_id ≡ user_id

  pub record Kept (before after : List (Strategy D)) : Type 0 where
    pub others_eq : others after ≡ others before
    pub well_formed : All IsWellFormed before → All IsWellFormed after

  abbrev pub Keeps : {A : Type 0} → (A → Type 0) → List (Strategy D) → Session D × Reply A → Type 0
  Keeps Q before (after, returns a) = Kept before after.strategies × Q a
  Keeps Q before (after, raises status detail) = Kept before after.strategies

  abbrev pub IsShown : List (Strategy D) → Strategy D → Type 0
  IsShown before strategy = IsOwned strategy × (All IsWellFormed before → IsWellFormed strategy)

  pub Kept-refl : (l : List (Strategy D)) → Kept l l
  Kept-refl l = record { others_eq = refl; well_formed = λ w. w }

  pub Keeps-pass :
      {A B : Type 0} (Q : A → Type 0) (R : B → Type 0) (before : List (Strategy D))
      (rest : A → Route D B) (o : Session D × Reply A)
      → Keeps Q before o
      → ((a : A) (s : Session D) → Q a → Kept before s.strategies → Keeps R before (rest a s))
      → Keeps R before (pass rest o)
  Keeps-pass Q R before rest (s, returns a) (k, q) step = step a s q k
  Keeps-pass Q R before rest (s, raises status detail) k step = k

  pub find_owned-IsShown :
      (strategy_id : ℕ) (l : List (Strategy D)) (strategy : Strategy D)
      → find_owned strategy_id user_id l ≡ some strategy
      → IsShown l strategy
  unfolding find_owned
  find_owned-IsShown strategy_id [] strategy h = absurd (cc)
  find_owned-IsShown strategy_id (other ∷ rest) strategy h =
      elim (Bool-cases (other.id == strategy_id && other.user_id == user_id)) [
        | inl p ↦
            let same : other ≡ strategy = ground arith in
            subst (IsShown (other ∷ rest)) same (ground arith, λ w. w.0)
        | inr p ↦
            let i = find_owned-IsShown strategy_id rest strategy (ground arith) in
            (i.0, λ w. i.1 w.1)
      ]

  pub others-replace :
      (strategy : Strategy D) (l : List (Strategy D))
      → IsOwned strategy
      → others (replace strategy l) ≡ others l
  unfolding others replace
  others-replace strategy [] o = refl
  others-replace strategy (other ∷ rest) o = ground (arith, others-replace strategy rest o)

  pub others-remove :
      (strategy : Strategy D) (l : List (Strategy D))
      → IsOwned strategy
      → others (remove strategy l) ≡ others l
  unfolding others remove
  others-remove strategy [] o = refl
  others-remove strategy (other ∷ rest) o = ground (arith, others-remove strategy rest o)

  pub others-cons :
      (strategy : Strategy D) (l : List (Strategy D))
      → IsOwned strategy
      → others (strategy ∷ l) ≡ others l
  unfolding others
  others-cons strategy l o = ground arith

  insert_strategy-All :
      (P : Strategy D → Type 0) (strategy : Strategy D) (l : List (Strategy D))
      → P strategy
      → All P l
      → All P (insert_strategy strategy l)
  unfolding insert_strategy
  insert_strategy-All P strategy [] p a = (p, tt)
  insert_strategy-All P strategy (other ∷ rest) p (q, a) =
      if_any (All P) (comes_first strategy other) {x = strategy ∷ other ∷ rest}
        {y = other ∷ insert_strategy strategy rest} (p, (q, a))
        (q, insert_strategy-All P strategy rest p a)

  pub owned_newest_first-All : (l : List (Strategy D)) → All IsOwned (owned_newest_first user_id l)
  unfolding owned_newest_first
  owned_newest_first-All [] = tt
  owned_newest_first-All (strategy ∷ rest) = elim (Bool-cases (strategy.user_id == user_id)) [
    | inl p ↦ rw p (
        insert_strategy-All IsOwned strategy (owned_newest_first user_id rest) (ground arith)
          (owned_newest_first-All rest))
    | inr p ↦ rw p (owned_newest_first-All rest)
  ]

pub replace-All :
    {D : Type 0} (P : Strategy D → Type 0) (strategy : Strategy D) (l : List (Strategy D))
    → P strategy
    → All P l
    → All P (replace strategy l)
unfolding replace
replace-All P strategy [] p a = tt
replace-All P strategy (other ∷ rest) p (q, a) =
    if_any (All P) (other.id == strategy.id && other.user_id == strategy.user_id)
      {x = strategy ∷ rest} {y = other ∷ replace strategy rest} (p, a)
      (q, replace-All P strategy rest p a)

pub remove-All :
    {D : Type 0} (P : Strategy D → Type 0) (strategy : Strategy D) (l : List (Strategy D))
    → All P l
    → All P (remove strategy l)
unfolding remove
remove-All P strategy [] a = tt
remove-All P strategy (other ∷ rest) (q, a) =
    if_any (All P) (other.id == strategy.id && other.user_id == strategy.user_id) {x = rest}
      {y = other ∷ remove strategy rest} a (q, remove-All P strategy rest a)
