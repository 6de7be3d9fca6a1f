-- ===== src/Market/Csv.antt =====
-- backend/app/scripts/import_market_csv.py: the rows of a file, of which invalid ones and repeated
-- days are skipped with the reason.
use agentic_trading_platform.Prelude.{
  ℕ, suc, Bool, true, false, ◌||◌, ◌==◌, Option, none, some, List, [], ◌∷◌, ◌++◌, length, String,
  ◌<>◌, str_eq, value_error, runtime_error, validation_error, compilation_error, data_unavailable,
  parser_error, provider_error, provider_refusal, provider_timeout, malformed_output,
  database_error, division_by_zero, Result, ok, err, ◌>>=◌, ◌>>◌, if◌then◌else◌,
}
use agentic_trading_platform.Decimal.{Decimal}
use agentic_trading_platform.Strategy.Reading.{Reading, Numerals}
use agentic_trading_platform.Market.Model.{MarketDataRow}
use agentic_trading_platform.Market.Row.{CsvReading, RawRow, parse_market_row}

-- What `csv.DictReader` makes of a file.
pub record CsvFile : Type 0 where
  pub fieldnames : Option (List String)
  pub rows : List RawRow

pub record SkippedRow : Type 0 where
  pub row_number : ℕ
  pub reason : String

pub record ImportSummary : Type 0 where
  pub total_csv_rows : ℕ
  pub inserted_rows : ℕ
  pub updated_rows : ℕ
  pub skipped_rows : List SkippedRow
  pub earliest_stored_timestamp : Option ℕ
  pub latest_stored_timestamp : Option ℕ
  pub total_symbol_rows : ℕ

abbrev pub empty_summary : ImportSummary
empty_summary = record {
  total_csv_rows = 0;
  inserted_rows = 0;
  updated_rows = 0;
  skipped_rows = [];
  earliest_stored_timestamp = none;
  latest_stored_timestamp = none;
  total_symbol_rows = 0;
}

abbrev pub skipped_count : ImportSummary → ℕ
skipped_count summary = length summary.skipped_rows

-- `REQUIRED_COLUMNS`, sorted.
abbrev pub required_columns : List String
required_columns = "adjusted_close" ∷ "close" ∷ "date" ∷ "high" ∷ "low" ∷ "open" ∷ "volume" ∷ []

abbrev pub is_in : String → List String → Bool
is_in column [] = false
is_in column (name ∷ rest) = str_eq name column || is_in column rest

unfoldable pub missing_columns : List String → List String → List String
missing_columns headers [] = []
missing_columns headers (column ∷ rest) =
    let others = missing_columns headers rest in
    if is_in column headers then others else column ∷ others

unfoldable pub join_columns : List String → String
join_columns [] = ""
join_columns (column ∷ []) = column
join_columns (column ∷ next ∷ rest) = column <> ", " <> join_columns (next ∷ rest)

abbrev pub is_empty : List String → Bool
is_empty [] = true
is_empty (column ∷ rest) = false

abbrev pub headers_of : Option (List String) → List String
headers_of none = []
headers_of (some names) = names

unfoldable pub check_columns : List String → Result (Unit {0})
check_columns [] = ok tt
check_columns (column ∷ rest) =
    err (value_error ("CSV is missing required columns: " <> join_columns (column ∷ rest) <> "."))

abbrev pub was_seen : ℕ → List ℕ → Bool
was_seen timestamp [] = false
was_seen timestamp (other ∷ rest) = (timestamp == other) || was_seen timestamp rest

-- The variables of the loop.
pub record Reader (D : Type 0) : Type 0 where
  pub summary : ImportSummary
  pub rows : List (MarketDataRow D)
  pub seen_timestamps : List ℕ

module _ {D : Type 0} where
  abbrev pub counted_line : Reader D → Reader D
  counted_line reader = record {
    summary = record reader.summary { total_csv_rows = suc reader.summary.total_csv_rows };
    rows = reader.rows;
    seen_timestamps = reader.seen_timestamps;
  }

  abbrev pub skip_row : ℕ → String → Reader D → Reader D
  skip_row row_number reason reader = record {
    summary = record reader.summary {
      skipped_rows =
          reader.summary.skipped_rows ++ (record { row_number = row_number; reason = reason } ∷ []);
    };
    rows = reader.rows;
    seen_timestamps = reader.seen_timestamps;
  }

  abbrev pub add_row : MarketDataRow D → Reader D → Reader D
  add_row row reader = record {
    summary = reader.summary;
    rows = reader.rows ++ (row ∷ []);
    seen_timestamps = row.timestamp ∷ reader.seen_timestamps;
  }

  -- One round of the loop, on what `parse_market_row` did: only a ValueError is caught.
  unfoldable pub take_row : ℕ → Result (MarketDataRow D) → Reader D → Result (Reader D)
  take_row row_number (ok row) reader =
      if was_seen row.timestamp reader.seen_timestamps
      then ok (skip_row row_number "duplicate timestamp in CSV" reader)
      else ok (add_row row reader)
  take_row row_number (err (value_error reason)) reader = ok (skip_row row_number reason reader)
  take_row row_number (err (runtime_error m)) reader = err (runtime_error m)
  take_row row_number (err (validation_error m)) reader = err (validation_error m)
  take_row row_number (err (compilation_error m)) reader = err (compilation_error m)
  take_row row_number (err (data_unavailable m)) reader = err (data_unavailable m)
  take_row row_number (err (parser_error m)) reader = err (parser_error m)
  take_row row_number (err (provider_error m)) reader = err (provider_error m)
  take_row row_number (err (provider_refusal m)) reader = err (provider_refusal m)
  take_row row_number (err (provider_timeout m)) reader = err (provider_timeout m)
  take_row row_number (err (malformed_output m)) reader = err (malformed_output m)
  take_row row_number (err (database_error m)) reader = err (database_error m)
  take_row row_number (err division_by_zero) reader = err division_by_zero

module _ {D : Type 0} ⦃d : Decimal D⦄ ⦃r : Reading⦄ ⦃n : Numerals D⦄ ⦃c : CsvReading⦄ where
  unfoldable pub take_rows : ℕ → List RawRow → Reader D → Result (Reader D)
  take_rows row_number [] reader = ok reader
  take_rows row_number (raw_row ∷ rest) reader = do
    next ← take_row row_number (parse_market_row raw_row) (counted_line reader)
    take_rows (suc row_number) rest next

  unfoldable pub parse_market_csv : CsvFile → Result (List (MarketDataRow D) × ImportSummary)
  parse_market_csv file = do
    check_columns (missing_columns (headers_of file.fieldnames) required_columns)
    reader ←
        take_rows 2 file.rows (record { summary = empty_summary; rows = []; seen_timestamps = [] })
    ok (reader.rows, reader.summary)
