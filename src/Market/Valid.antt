-- ===== src/Market/Valid.antt =====
-- What the checks of a row of the file guarantee.
use agentic_trading_platform.Prelude.{
  ◌≡◌, Bool, false, ◌||◌, not, Option, none, some, String, ok, ◌>>=◌, raise_if, value_error,
  Checked, passes, refuses, Checked->>=, Checked-raise_if, arith, if_any,
}
use agentic_trading_platform.Prelude.Int.{ℤ, pos, negsuc}
use agentic_trading_platform.Decimal.{Decimal, IsExact}
use agentic_trading_platform.Strategy.Reading.{Reading, Numerals}
use agentic_trading_platform.Backtest.Engine.Sound.{IsValidBar}
use agentic_trading_platform.Market.Model.{MarketDataRow, bar_of}
use agentic_trading_platform.Market.Row.{
  CsvReading, RawRow, get_cell, is_blank, is_falsy, stripped, found, nonnegative, parse_date,
  parse_nonnegative_integer, parse_decimal, parse_positive_decimal, parse_optional_positive_decimal,
  parse_market_row,
}

-- No more is known of the value.
abbrev Any : {A : Type 0} → A → Type 0
Any _ = Unit {0}

found-Checked : {A : Type 0} (o : Option A) (message : String) → Checked Any (found o message)
found-Checked none message = refuses
found-Checked (some a) message = passes tt

module _ ⦃r : Reading⦄ ⦃c : CsvReading⦄ where
  parse_date-Checked : (value : Option String) → Checked Any (parse_date value)
  unfolding parse_date
  parse_date-Checked value =
      Checked->>= _ _ (Checked-raise_if (is_falsy value) _)
        λ _ _. found-Checked (c.read_date (stripped value)) _

  nonnegative-Checked : (z : ℤ) (field : String) → Checked Any (nonnegative z field)
  nonnegative-Checked (pos n) field = passes tt
  nonnegative-Checked (negsuc n) field = refuses

  parse_nonnegative_integer-Checked :
      (value : Option String) (field : String) → Checked Any (parse_nonnegative_integer value field)
  unfolding parse_nonnegative_integer
  parse_nonnegative_integer-Checked value field =
      Checked->>= _ _ (Checked-raise_if (is_blank value) _) λ _ _.
        Checked->>= _ _ (found-Checked (c.read_int (stripped value)) _)
          λ z _. nonnegative-Checked z field

module _ {D : Type 0} ⦃d : Decimal D⦄ ⦃r : Reading⦄ ⦃n : Numerals D⦄ where
  parse_decimal-Checked :
      (value : Option String) (field : String) → Checked Any (parse_decimal {D = D} value field)
  unfolding parse_decimal
  parse_decimal-Checked value field = Checked->>= _ _ (Checked-raise_if (is_blank value) _) λ _ _.
      Checked->>= _ _ (found-Checked (n.to_decimal (stripped value)) _)
        λ v _. Checked->>= _ _ (Checked-raise_if (not (d.is_finite v)) _) λ _ _. passes tt

  abbrev IsPositive : D → Type 0
  IsPositive v = d.le v d.nought ≡ false

  parse_positive_decimal-Checked :
      (value : Option String) (field : String)
      → Checked IsPositive (parse_positive_decimal value field)
  unfolding parse_positive_decimal
  parse_positive_decimal-Checked value field =
      Checked->>= _ _ (parse_decimal-Checked value field)
        λ v _. Checked->>= _ _ (Checked-raise_if (d.le v d.nought) _) λ _ p. passes p

  parse_optional_positive_decimal-Checked :
      (value : Option String) (field : String)
      → Checked Any (parse_optional_positive_decimal {D = D} value field)
  unfolding parse_optional_positive_decimal
  parse_optional_positive_decimal-Checked value field =
      if_any (Checked Any) (is_blank value) (passes tt)
        (Checked->>= _ _ (parse_positive_decimal-Checked value field) λ _ _. passes tt)

  module _ (exact : IsExact d) where
    open exact use {units, le-eq, lt-eq, units-nought}

    valid :
        (row : MarketDataRow D)
        → IsPositive row.low_price
        → (d.lt row.high_price row.open_price
            || d.lt row.high_price row.low_price
            || d.lt row.high_price row.close_price)
          ≡ false
        → (d.lt row.open_price row.low_price
            || d.lt row.high_price row.low_price
            || d.lt row.close_price row.low_price)
          ≡ false
        → IsValidBar exact (bar_of row)
    valid row p high low = record {
      low_pos = ground (arith, le-eq row.low_price d.nought, units-nought);
      low-le-open = ground (arith, lt-eq row.open_price row.low_price);
      low-le-close = ground (arith, lt-eq row.close_price row.low_price);
      open-le-high = ground (arith, lt-eq row.high_price row.open_price);
      close-le-high = ground (arith, lt-eq row.high_price row.close_price);
    }

    abbrev below_others : MarketDataRow D → Bool
    below_others row =
        d.lt row.high_price row.open_price
        || d.lt row.high_price row.low_price
        || d.lt row.high_price row.close_price

    abbrev above_others : MarketDataRow D → Bool
    above_others row =
        d.lt row.open_price row.low_price
        || d.lt row.high_price row.low_price
        || d.lt row.close_price row.low_price

    ranges-Checked :
        (row : MarketDataRow D) (high low : String)
        → IsPositive row.low_price
        → Checked
            (λ v. IsValidBar exact (bar_of v))
            (raise_if (below_others row) (value_error high) >>= λ _.
              raise_if (above_others row) (value_error low) >>= λ _. ok row)
    ranges-Checked row high low p =
        Checked->>= _ (λ _. raise_if (above_others row) (value_error low) >>= λ _. ok row)
          (Checked-raise_if (below_others row) high)
          λ _ h.
            Checked->>= _ (λ _. ok row) (Checked-raise_if (above_others row) low)
              λ _ l. passes (valid row p h l)

    pub parse_market_row-Checked :
        ⦃c : CsvReading⦄ (raw_row : RawRow)
        → Checked (λ row. IsValidBar exact (bar_of row)) (parse_market_row raw_row)
    unfolding parse_market_row
    parse_market_row-Checked raw_row =
        Checked->>= _ _ (parse_date-Checked (get_cell "date" raw_row)) λ t _.
          Checked->>= _ _ (parse_positive_decimal-Checked (get_cell "open" raw_row) "open") λ o _.
            Checked->>= _ _ (parse_positive_decimal-Checked (get_cell "high" raw_row) "high") λ h _.
              Checked->>= _ _ (parse_positive_decimal-Checked (get_cell "low" raw_row) "low")
                λ l low.
                  Checked->>= _ _
                    (parse_positive_decimal-Checked (get_cell "close" raw_row) "close")
                    λ close _.
                      Checked->>= _ _
                        (parse_optional_positive_decimal-Checked (get_cell "adjusted_close" raw_row)
                          _)
                        λ a _.
                          Checked->>= _ _
                            (parse_nonnegative_integer-Checked (get_cell "volume" raw_row) "volume")
                            λ v _. ranges-Checked _ _ _ low
