-- ===== src/Market/Table.antt =====
-- The table of market data with the SELECTs and the INSERT of
-- backend/app/scripts/import_market_csv.py.
pub mod View
pub mod Growth
use agentic_trading_platform.Prelude.{
  ℕ, suc, Bool, true, false, ◌&&◌, ◌||◌, ◌==◌, leb, Option, none, some, List, [], ◌∷◌, map, length,
  String, str_eq, if◌then◌else◌,
}
use agentic_trading_platform.Backtest.Models.{MarketBar}
use agentic_trading_platform.Market.Model.{MarketData, MarketDataRow}
use agentic_trading_platform.Market.Columns.{Columns, stored_as}
use agentic_trading_platform.Market.Csv.{was_seen}

-- A set as a list without repetition.
unfoldable pub to_set : List ℕ → List ℕ
to_set [] = []
to_set (t ∷ rest) = let others = to_set rest in if was_seen t others then others else t ∷ others

abbrev pub least : ℕ → Option ℕ → Option ℕ
least t none = some t
least t (some other) = if leb t other then some t else some other

abbrev pub greatest : ℕ → Option ℕ → Option ℕ
greatest t none = some t
greatest t (some other) = if leb t other then some other else some t

-- `func.min` and `func.max`, which are NULL on no rows.
unfoldable pub minimum : List ℕ → Option ℕ
minimum [] = none
minimum (t ∷ rest) = least t (minimum rest)

unfoldable pub maximum : List ℕ → Option ℕ
maximum [] = none
maximum (t ∷ rest) = greatest t (maximum rest)

-- `.in_(timestamps)`
unfoldable pub among : List ℕ → List ℕ → List ℕ
among timestamps [] = []
among timestamps (t ∷ rest) =
    let others = among timestamps rest in if was_seen t timestamps then t ∷ others else others

module _ {D : Type 0} where
  abbrev pub matches : String → String → MarketData D → Bool
  matches symbol interval stored = str_eq stored.symbol symbol && str_eq stored.interval interval

  -- The timestamps of the rows of a symbol and an interval.
  unfoldable pub stored_timestamps : String → String → List (MarketData D) → List ℕ
  stored_timestamps symbol interval [] = []
  stored_timestamps symbol interval (stored ∷ rest) =
      let others = stored_timestamps symbol interval rest in
      if matches symbol interval stored then stored.bar.timestamp ∷ others else others

  unfoldable pub existing_timestamp_query : String → String → List ℕ → List (MarketData D) → List ℕ
  existing_timestamp_query symbol interval timestamps table =
      among timestamps (stored_timestamps symbol interval table)

  abbrev pub same_key : MarketData D → MarketData D → Bool
  same_key values stored =
      matches values.symbol values.interval stored && values.bar.timestamp == stored.bar.timestamp

  -- One row of `INSERT ... ON CONFLICT (symbol, interval, timestamp) DO UPDATE`, which sets every
  -- column outside the key.
  unfoldable pub upsert : MarketData D → List (MarketData D) → List (MarketData D)
  upsert values [] = values ∷ []
  upsert values (stored ∷ rest) =
      let later = upsert values rest in
      if same_key values stored then values ∷ rest else stored ∷ later

  abbrev pub timestamps_of : List (MarketDataRow D) → List ℕ
  timestamps_of = map λ row. row.timestamp

module _ {D : Type 0} ⦃k : Columns D⦄ where
  -- The rows with their values as the columns hold them.
  unfoldable pub upsert_all :
      String → String → List (MarketDataRow D) → List (MarketData D) → List (MarketData D)
  upsert_all symbol interval [] table = table
  upsert_all symbol interval (row ∷ rest) table =
      upsert_all symbol interval rest (upsert (stored_as row symbol interval) table)

-- A statement that inserts a key twice is refused by the database.
unfoldable pub has_repeated : List ℕ → Bool
has_repeated [] = false
has_repeated (t ∷ rest) = was_seen t rest || has_repeated rest
