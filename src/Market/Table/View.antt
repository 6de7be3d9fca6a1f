-- ===== src/Market/Table/View.antt =====
-- The table as a map from keys to rows, and what an upsert does to the map.
use text.Mathlib.TextEquality.{eq_iff}
use agentic_trading_platform.Prelude.{
  ℕ, ◌≡◌, refl, ap, ◌∙◌, Bool, ◌&&◌, ◌==◌, Option, none, some, List, [], ◌∷◌, String, str_eq, arith,
  if◌then◌else◌,
}
use agentic_trading_platform.Market.Model.{MarketData, MarketDataRow}
use agentic_trading_platform.Market.Columns.{Columns, stored_as}
use agentic_trading_platform.Market.Table.{matches, upsert, upsert_all}

module _ {D : Type 0} where
  abbrev pub has_key : String → String → ℕ → MarketData D → Bool
  has_key symbol interval timestamp stored =
      matches symbol interval stored && timestamp == stored.bar.timestamp

  -- The row of a key.
  unfoldable pub lookup : String → String → ℕ → List (MarketData D) → Option (MarketData D)
  lookup symbol interval timestamp [] = none
  lookup symbol interval timestamp (stored ∷ rest) =
      let later = lookup symbol interval timestamp rest in
      if has_key symbol interval timestamp stored then some stored else later

  -- The last of the rows of a day.
  unfoldable pub latest : ℕ → List (MarketDataRow D) → Option (MarketDataRow D)
  latest timestamp [] = none
  latest timestamp (row ∷ rest) =
      let later = latest timestamp rest in
      elim later [
        | some other ↦ some other
        | none ↦ if timestamp == row.timestamp then some row else none
      ]

  lookup-upsert :
      (s i : String) (t : ℕ) (values : MarketData D) (table : List (MarketData D))
      → lookup s i t (upsert values table)
        ≡ (if has_key s i t values then some values else lookup s i t table)
  unfolding lookup upsert
  lookup-upsert s i t values [] = refl
  lookup-upsert s i t values (stored ∷ rest) = ground (
    arith,
    eq_iff stored.symbol values.symbol,
    eq_iff stored.interval values.interval,
    eq_iff stored.symbol s,
    eq_iff stored.interval i,
    eq_iff values.symbol s,
    eq_iff values.interval i,
    lookup-upsert s i t values rest,
  )

module _ {D : Type 0} ⦃k : Columns D⦄ where
  abbrev pub written :
      String → String → Option (MarketDataRow D) → Option (MarketData D) → Option (MarketData D)
  written symbol interval (some row) old = some (stored_as row symbol interval)
  written symbol interval none old = old

  -- The map behind an import: at the keys of its symbol and interval the rows are written over it.
  abbrev pub overwritten :
      String
      → String
      → List (MarketDataRow D)
      → (String → String → ℕ → Option (MarketData D))
      → String
      → String
      → ℕ
      → Option (MarketData D)
  overwritten symbol interval rows view s i t =
      if str_eq symbol s && str_eq interval i
      then written symbol interval (latest t rows) (view s i t)
      else view s i t

  write_step :
      (symbol interval : String) (s i : String) (t : ℕ) (row : MarketDataRow D)
      (later : Option (MarketDataRow D)) (old : Option (MarketData D))
      → (if str_eq symbol s && str_eq interval i
          then written symbol interval later (
              if has_key s i t (stored_as row symbol interval)
              then some (stored_as row symbol interval)
              else old)
          else (if has_key s i t (stored_as row symbol interval)
              then some (stored_as row symbol interval)
              else old))
        ≡ (if str_eq symbol s && str_eq interval i
            then written symbol interval
                (elim later [
                  | some other ↦ some other
                  | none ↦ if t == row.timestamp then some row else none
                ])
                old
            else old)
  write_step symbol interval s i t row none old = ground arith
  write_step symbol interval s i t row (some r) old = ground arith

  pub lookup-upsert_all :
      (s i : String) (t : ℕ) (symbol interval : String) (rows : List (MarketDataRow D))
      (table : List (MarketData D))
      → lookup s i t (upsert_all symbol interval rows table)
        ≡ overwritten symbol interval rows (λ a b c. lookup a b c table) s i t
  unfolding upsert_all latest
  lookup-upsert_all s i t symbol interval [] table = ground arith
  lookup-upsert_all s i t symbol interval (row ∷ rest) table =
      lookup-upsert_all s i t symbol interval rest (upsert (stored_as row symbol interval) table)
      ∙ ap
          (λ v.
            if str_eq symbol s && str_eq interval i
            then written symbol interval (latest t rest) v
            else v)
          (lookup-upsert s i t (stored_as row symbol interval) table)
      ∙ write_step symbol interval s i t row (latest t rest) (lookup s i t table)
