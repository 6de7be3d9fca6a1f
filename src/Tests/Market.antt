-- ===== src/Tests/Market.antt =====
-- The theorems about the import at a file of four lines, of which one is invalid and one repeats a
-- day.
use agentic_trading_platform.Prelude.{
  ◌&&◌, ℕ, ◌≡◌, refl, Bool, true, false, Option, none, some, List, [], ◌∷◌, String, str_eq, ok,
  arith, Returns, All, length, if◌then◌else◌,
}
use agentic_trading_platform.Prelude.Int.{ℤ, pos, negsuc, ltb_ℤ}
use agentic_trading_platform.Decimal.{fixed, fixed-IsExact}
use agentic_trading_platform.Strategy.Reading.{Reading, Numerals}
use agentic_trading_platform.Market.Model.{MarketData, MarketDataRow}
use agentic_trading_platform.Market.Row.{
  CsvReading, RawRow, get_cell, parse_date, parse_nonnegative_integer, parse_decimal,
  parse_positive_decimal, parse_optional_positive_decimal, parse_market_row,
}
use agentic_trading_platform.Market.Csv.{
  CsvFile, ImportSummary, missing_columns, check_columns, take_row, take_rows, parse_market_csv,
}
use agentic_trading_platform.Market.Accepted.{AreRead, parse_market_csv-AreRead}
use agentic_trading_platform.Market.Batches.{concat, IsBatch, batched-Cuts}
use agentic_trading_platform.Market.Columns.{Columns, are_in_range, are_checked, are_storable}
use agentic_trading_platform.Market.Table.{
  to_set, minimum, maximum, stored_timestamps, among, existing_timestamp_query, upsert, upsert_all,
  has_repeated,
}
use agentic_trading_platform.Market.Table.View.{overwritten}
use agentic_trading_platform.Market.Import.{
  batched_from, batched, Database, Arguments, check_arguments, select, execute_upsert,
  import_batches, finish, within_transaction, summarize, import_rows, import_market_csv,
}
use agentic_trading_platform.Market.Import.Refinement.{
  IsRun, AreCounted, view, import_market_csv-IsRun, import_market_csv-overwritten,
  import_market_csv-AreCounted,
}

instance abbrev pub reading : Reading
reading = record {
  strip = λ t. t;
  lower = λ t. t;
  search = λ p t. false;
  search_ignoring_case = λ p t. false;
  search_groups = λ p t. none;
  find_values = λ p t. [];
  to_int = λ t. pos 0;
  show_int = λ z. "0";
}

abbrev price : String → Option ℤ
price t =
    if str_eq t "10"
    then some (pos 100_000)
    else if str_eq t "12"
    then some (pos 120_000)
    else if str_eq t "9"
    then some (pos 90_000)
    else none

instance abbrev pub numerals : Numerals ℤ
numerals = record { to_decimal = price; show_decimal = λ v. "10"; show_general = λ v. "10" }

abbrev day : String → Option ℕ
day t = if str_eq t "2024-01-02" then some 2 else if str_eq t "2024-01-03" then some 3 else none

instance abbrev pub csv_reading : CsvReading
csv_reading = record {
  read_date = day;
  read_int = λ t. if str_eq t "-1" then some (negsuc 0) else some (pos 1000);
  upper = λ t. t;
}

abbrev line : String → String → RawRow
line date volume =
    ("date", some date)
    ∷ ("open", some "10")
    ∷ ("high", some "12")
    ∷ ("low", some "9")
    ∷ ("close", some "10")
    ∷ ("adjusted_close", none)
    ∷ ("volume", some volume)
    ∷ []

abbrev pub file : CsvFile
file = record {
  fieldnames = some ("date" ∷ "open" ∷ "high" ∷ "low" ∷ "close" ∷ "volume" ∷ "adjusted_close" ∷ []);
  rows =
      line "2024-01-02" "5"
      ∷ line "2024-01-03" "-1"
      ∷ line "2024-01-02" "7"
      ∷ line "2024-01-03" "5"
      ∷ [];
}

abbrev pub arguments : Arguments
arguments = record {
  is_file = true;
  symbol = "SPY";
  interval = "1d";
  batch_size = pos 1;
  in_transaction = false;
}

-- Four decimals are kept, and a value is below ten digits before the point.
-- The four decimals of these numbers are among the eight that a column keeps.
instance abbrev pub columns : Columns ℤ
columns = record {
  numeric = λ v. v;
  fits = λ v. ltb_ℤ v (pos 100_000_000_000_000) && ltb_ℤ (negsuc 100_000_000_000_000) v;
  upper = λ t. t;
}

abbrev stored : MarketData ℤ
stored = record {
  symbol = "SPY";
  interval = "1d";
  bar = record {
    timestamp = 3;
    open_price = pos 1;
    high_price = pos 1;
    low_price = pos 1;
    close_price = pos 1;
    volume = 1;
  };
  adjusted_close = none;
}

abbrev pub database : Database ℤ
database = record { table = stored ∷ []; committed = stored ∷ []; statements = 0 }

abbrev pub never : ℕ → Bool
never n = false

columns_there :
    missing_columns
      ("date" ∷ "open" ∷ "high" ∷ "low" ∷ "close" ∷ "volume" ∷ "adjusted_close" ∷ [])
      ("adjusted_close" ∷ "close" ∷ "date" ∷ "high" ∷ "low" ∷ "open" ∷ "volume" ∷ [])
    ≡ []
unfolding missing_columns
columns_there = refl

parse_market_csv-AreRead_example :
    Returns (AreRead fixed-IsExact (length file.rows)) (parse_market_csv file)
parse_market_csv-AreRead_example = parse_market_csv-AreRead fixed-IsExact file columns_there

abbrev three : List ℕ
three = 1 ∷ 2 ∷ 3 ∷ []

batched-Cuts_example : (concat (batched three 2) ≡ three) × All (IsBatch 2) (batched three 2)
batched-Cuts_example = batched-Cuts three 2 (omega arith)

import_market_csv-IsRun_example :
    IsRun fixed-IsExact never arguments file database
      (import_market_csv never arguments file database)
import_market_csv-IsRun_example =
    import_market_csv-IsRun fixed-IsExact never arguments file database

imported :
    (after : Database ℤ) × (summary : ImportSummary) × (import_market_csv never arguments file
        database
      ≡ (after, ok summary))
unfolding import_market_csv check_arguments parse_market_csv missing_columns check_columns take_rows
    take_row parse_market_row get_cell parse_date parse_nonnegative_integer parse_decimal
    parse_positive_decimal parse_optional_positive_decimal import_rows within_transaction
    import_batches batched batched_from select execute_upsert existing_timestamp_query among
    stored_timestamps to_set has_repeated upsert_all upsert are_storable are_in_range are_checked
    finish summarize minimum maximum
imported = (_, _, refl)

import_market_csv-overwritten_example :
    (parsed : List (MarketDataRow ℤ) × ImportSummary) × (parse_market_csv file ≡ ok parsed)
    × ((s i : String) (t : ℕ)
        → view imported.0 s i t ≡ overwritten "SPY" "1d" parsed.0 (view database) s i t)
import_market_csv-overwritten_example =
    import_market_csv-overwritten fixed-IsExact never arguments file database imported.0 imported.1
      imported.2

import_market_csv-AreCounted_example :
    AreCounted fixed-IsExact never arguments file database imported.0 imported.1
import_market_csv-AreCounted_example =
    import_market_csv-AreCounted fixed-IsExact never arguments file database imported.0 imported.1
      imported.2
