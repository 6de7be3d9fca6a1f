-- ===== src/Market/Import.antt =====
-- backend/app/scripts/import_market_csv.py: the import, in batches within one transaction. Each
-- statement of the database may fail, as `fails` says of its number.
pub mod Steps
pub mod Outcome
pub mod Refinement
use Prim.Native.String.{count}
use agentic_trading_platform.Prelude.{
  ℕ, zero, suc, ◌+◌, ◌-◌, Bool, true, false, not, ◌||◌, Option, none, some, List, [], ◌∷◌, length,
  take, drop, ltb, String, str_eq, Error, value_error, database_error, Result, ok, err, raise_if,
  if◌then◌else◌,
}
use agentic_trading_platform.Prelude.Int.{ℤ, pos, leb_ℤ, pos_part}
use agentic_trading_platform.Decimal.{Decimal}
use agentic_trading_platform.Strategy.Reading.{Reading, Numerals}
use agentic_trading_platform.Market.Model.{MarketData, MarketDataRow}
use agentic_trading_platform.Market.Columns.{Columns, are_storable}
use agentic_trading_platform.Market.Row.{CsvReading}
use agentic_trading_platform.Market.Csv.{CsvFile, ImportSummary, parse_market_csv}
use agentic_trading_platform.Market.Table.{
  to_set, minimum, maximum, stored_timestamps, existing_timestamp_query, upsert_all, timestamps_of,
  has_repeated,
}

module _ {ℓ} {A : Type ℓ} where
  -- The slices at `range(start, len(rows), batch_size)`. Each round starts later, so that there are at
  -- most as many as rows, which is the fuel.
  unfoldable pub batched_from : ℕ → ℕ → List A → ℕ → List (List A)
  batched_from zero start rows batch_size = []
  batched_from (suc fuel) start rows batch_size =
      let rest = batched_from fuel (start + batch_size) rows batch_size in
      if ltb start (length rows) then take batch_size (drop start rows) ∷ rest else []

  unfoldable pub batched : List A → ℕ → List (List A)
  batched rows batch_size = batched_from (length rows) 0 rows batch_size

-- What the session sees, what is committed, and how many statements there were.
pub record Database (D : Type 0) : Type 0 where
  pub table : List (MarketData D)
  pub committed : List (MarketData D)
  pub statements : ℕ

abbrev pub Query : Type 0 → Type 0 → Type 0
Query D A = Database D → Database D × Result A

module _ {D : Type 0} where
  abbrev pub pass : {A B : Type 0} → (A → Query D B) → Database D × Result A → Database D × Result B
  pass rest (db, ok a) = rest a db
  pass rest (db, err e) = (db, err e)

  infixl 5 ◌>>=◌ ◌>>◌
  abbrev pub ◌>>=◌ : {A B : Type 0} → Query D A → (A → Query D B) → Query D B
  query >>= rest = λ db. pass rest (query db)

  abbrev pub ◌>>◌ : {B : Type 0} → Query D (Unit {0}) → Query D B → Query D B
  query >> rest = query >>= λ _. rest

  abbrev pub lift : {A : Type 0} → Result A → Query D A
  lift result = λ db. (db, result)

  abbrev pub counted : Database D → Database D
  counted db = record db { statements = suc db.statements }

  abbrev pub rolled_back : List (MarketData D) → Database D → Database D
  rolled_back table db = record db { table = table }

  -- `except SQLAlchemyError: database_session.rollback(); raise`
  abbrev pub rescued : {A : Type 0} → Database D × Result A → Database D × Result A
  rescued (db, ok a) = (db, ok a)
  rescued (db, err e) = (rolled_back db.committed db, err e)

-- The arguments of the import; `in_transaction` says whether the session already is in one.
pub record Arguments : Type 0 where
  pub is_file : Bool
  pub symbol : String
  pub interval : String
  pub batch_size : ℤ
  pub in_transaction : Bool

unfoldable pub check_arguments : ⦃c : CsvReading⦄ → Arguments → Result (Unit {0})
check_arguments ⦃c⦄ a =
    if not a.is_file
    then err (value_error "CSV file does not exist")
    else if str_eq a.symbol ""
        || not (str_eq a.symbol (c.upper a.symbol))
        || ltb 20 (count a.symbol)
    then err (value_error "symbol must be an uppercase value between 1 and 20 characters")
    else if not (str_eq a.interval "1d")
    then err (value_error "interval must be 1d")
    else if leb_ℤ a.batch_size (pos 0)
    then err (value_error "batch_size must be positive")
    else ok tt

abbrev pub broken : Error
broken = database_error "the database failed"

abbrev pub add_counts : ℕ → ℕ → ImportSummary → ImportSummary
add_counts existing size summary = record summary {
  updated_rows = summary.updated_rows + existing;
  inserted_rows = summary.inserted_rows + (size - existing);
}

abbrev with_stored : Option ℕ → Option ℕ → ℕ → ImportSummary → ImportSummary
with_stored earliest latest total summary = record summary {
  earliest_stored_timestamp = earliest;
  latest_stored_timestamp = latest;
  total_symbol_rows = total;
}

module _ {D : Type 0} ⦃d : Decimal D⦄ ⦃k : Columns D⦄ (fails : ℕ → Bool) where
  -- A statement that reads the table.
  unfoldable pub select : {A : Type 0} → (List (MarketData D) → A) → Query D A
  select read db =
      if fails db.statements then (counted db, err broken) else (counted db, ok (read db.table))

  unfoldable pub execute_upsert : String → String → List (MarketDataRow D) → Query D (Unit {0})
  execute_upsert symbol interval rows db =
      if fails db.statements
      then (counted db, err broken)
      else if has_repeated (timestamps_of rows)
      then (counted db, err broken)
      else if not (are_storable symbol interval rows)
      then (counted db, err broken)
      else (record (counted db) { table = upsert_all symbol interval rows db.table }, ok tt)

  -- `size` is at least `existing`, since timestamps of the batch are counted, each once.
  unfoldable pub import_batches :
      String → String → List (List (MarketDataRow D)) → ImportSummary → Query D ImportSummary
  import_batches symbol interval [] summary = lift (ok summary)
  import_batches symbol interval (batch ∷ rest) summary = do
    existing ←
        select
          λ table. to_set (existing_timestamp_query symbol interval (timestamps_of batch) table)
    execute_upsert symbol interval batch
    import_batches symbol interval rest (add_counts (length existing) (length batch) summary)

  -- The end of the `with`: an exception rolls back to the beginning of it. Without one the changes
  -- stay, and are committed unless the transaction is within another one.
  unfoldable pub finish :
      {A : Type 0} → Bool → List (MarketData D) → Database D × Result A → Database D × Result A
  finish in_transaction before (db, err e) = (rolled_back before db, err e)
  finish in_transaction before (db, ok a) =
      if fails db.statements
      then (rolled_back before (counted db), err broken)
      else if in_transaction
      then (counted db, ok a)
      else (record (counted db) { committed = db.table }, ok a)

  unfoldable pub within_transaction : {A : Type 0} → Bool → Query D A → Query D A
  within_transaction in_transaction body db = finish in_transaction db.table (body db)

  unfoldable pub summarize : String → String → ImportSummary → Query D ImportSummary
  summarize symbol interval summary = do
    earliest ← select λ table. minimum (stored_timestamps symbol interval table)
    latest ← select λ table. maximum (stored_timestamps symbol interval table)
    total ← select λ table. length (stored_timestamps symbol interval table)
    lift (ok (with_stored earliest latest total summary))

  -- The `try`, on the rows and the summary of the file.
  unfoldable pub import_rows :
      Arguments → List (MarketDataRow D) → ImportSummary → Query D ImportSummary
  import_rows a rows summary db = rescued (
      (do
        imported ←
            within_transaction a.in_transaction
              (import_batches a.symbol a.interval (batched rows (pos_part a.batch_size)) summary)
        summarize a.symbol a.interval imported)
        db)

module _ {D : Type 0} ⦃d : Decimal D⦄ ⦃r : Reading⦄ ⦃n : Numerals D⦄ ⦃c : CsvReading⦄
    ⦃k : Columns D⦄ (fails : ℕ → Bool) where
  unfoldable pub import_market_csv : Arguments → CsvFile → Query D ImportSummary
  import_market_csv a file = do
    lift (check_arguments a)
    parsed ← lift (parse_market_csv file)
    import_rows fails a parsed.0 parsed.1
