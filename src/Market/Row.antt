-- ===== src/Market/Row.antt =====
-- backend/app/scripts/import_market_csv.py: one row of the file is read and checked. The methods of
-- `date`, `int` and `str` that it calls are an interface, beside those of `Strategy.Reading`.
use agentic_trading_platform.Prelude.{
  ℕ, Bool, true, ◌||◌, not, Option, none, some, List, [], ◌∷◌, String, ◌<>◌, str_eq, Result, ok,
  err, ◌>>=◌, ◌>>◌, raise_if, value_error, if◌then◌else◌,
}
use agentic_trading_platform.Prelude.Int.{ℤ, pos, negsuc}
use agentic_trading_platform.Decimal.{Decimal}
use agentic_trading_platform.Strategy.Reading.{Reading, Numerals}
use agentic_trading_platform.Market.Model.{MarketDataRow}

pub record CsvReading : Type 0 where
  -- the instant at which a day of `date.fromisoformat(text)` begins, none if it raises
  pub read_date : String → Option ℕ
  -- `int(text)`, none if it raises
  pub read_int : String → Option ℤ
  pub upper : String → String

-- A row of `csv.DictReader`: a column that the line has no cell for is `None`.
abbrev pub RawRow : Type 0
RawRow = List (String × Option String)

-- `raw_row.get(column)`
unfoldable pub get_cell : String → RawRow → Option String
get_cell column [] = none
get_cell column ((name, value) ∷ rest) =
    let later = get_cell column rest in if str_eq name column then value else later

module _ ⦃r : Reading⦄ where
  abbrev pub is_blank : Option String → Bool
  is_blank none = true
  is_blank (some value) = str_eq (r.strip value) ""

  abbrev pub stripped : Option String → String
  stripped none = ""
  stripped (some value) = r.strip value

abbrev pub is_falsy : Option String → Bool
is_falsy none = true
is_falsy (some value) = str_eq value ""

-- The value that a reader found, or the exception for none.
abbrev pub found {ℓ} : {A : Type ℓ} → Option A → String → Result A
found (some a) message = ok a
found none message = err (value_error message)

module _ ⦃r : Reading⦄ ⦃c : CsvReading⦄ where
  unfoldable pub parse_date : Option String → Result ℕ
  parse_date value = do
    raise_if (is_falsy value) (value_error "date is required")
    found (c.read_date (stripped value)) "date must use ISO format YYYY-MM-DD"

  abbrev pub nonnegative : ℤ → String → Result ℕ
  nonnegative (pos n) field_name = ok n
  nonnegative (negsuc n) field_name = err (value_error (field_name <> " must be nonnegative"))

  unfoldable pub parse_nonnegative_integer : Option String → String → Result ℕ
  parse_nonnegative_integer value field_name = do
    raise_if (is_blank value) (value_error (field_name <> " is required"))
    integer_value ← found (c.read_int (stripped value)) (field_name <> " must be an integer")
    nonnegative integer_value field_name

module _ {D : Type 0} ⦃d : Decimal D⦄ ⦃r : Reading⦄ ⦃n : Numerals D⦄ where
  unfoldable pub parse_decimal : Option String → String → Result D
  parse_decimal value field_name = do
    raise_if (is_blank value) (value_error (field_name <> " is required"))
    decimal_value ←
        found (n.to_decimal (stripped value)) (field_name <> " must be a decimal number")
    raise_if (not (d.is_finite decimal_value)) (value_error (field_name <> " must be finite"))
    ok decimal_value

  unfoldable pub parse_positive_decimal : Option String → String → Result D
  parse_positive_decimal value field_name = do
    decimal_value ← parse_decimal value field_name
    raise_if (d.le decimal_value d.nought) (value_error (field_name <> " must be positive"))
    ok decimal_value

  unfoldable pub parse_optional_positive_decimal : Option String → String → Result (Option D)
  parse_optional_positive_decimal value field_name =
      if is_blank value
      then ok none
      else (do decimal_value ← parse_positive_decimal value field_name; ok (some decimal_value))

module _ {D : Type 0} ⦃d : Decimal D⦄ ⦃r : Reading⦄ ⦃n : Numerals D⦄ ⦃c : CsvReading⦄ where
  unfoldable pub parse_market_row : RawRow → Result (MarketDataRow D)
  parse_market_row raw_row = do
    timestamp ← parse_date (get_cell "date" raw_row)
    open_price ← parse_positive_decimal (get_cell "open" raw_row) "open"
    high_price ← parse_positive_decimal (get_cell "high" raw_row) "high"
    low_price ← parse_positive_decimal (get_cell "low" raw_row) "low"
    close_price ← parse_positive_decimal (get_cell "close" raw_row) "close"
    adjusted_close ←
        parse_optional_positive_decimal (get_cell "adjusted_close" raw_row) "adjusted_close"
    volume ← parse_nonnegative_integer (get_cell "volume" raw_row) "volume"
    raise_if
        (d.lt high_price open_price || d.lt high_price low_price || d.lt high_price close_price)
        (value_error "high must be greater than or equal to open, low, and close")
    raise_if (d.lt open_price low_price || d.lt high_price low_price || d.lt close_price low_price)
        (value_error "low must be less than or equal to open, high, and close")
    ok (record {
      timestamp = timestamp;
      open_price = open_price;
      high_price = high_price;
      low_price = low_price;
      close_price = close_price;
      volume = volume;
      adjusted_close = adjusted_close;
    })
