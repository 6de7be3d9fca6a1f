-- ===== src/Market/Columns.antt =====
-- backend/app/models/market_data.py: the types and the checks of the columns of market data.
use Prim.Native.String.{count}
use agentic_trading_platform.Prelude.{
  Bool, true, ◌&&◌, leb, ltb, Option, none, some, List, [], ◌∷◌, String, str_eq,
}
use agentic_trading_platform.Decimal.{Decimal}
use agentic_trading_platform.Market.Model.{MarketData, MarketDataRow, as_database_values}

-- What PostgreSQL makes of a value in a column `Numeric(18, 8)`, of which it keeps eight decimals,
-- and whether the value is in the range of the type; and its `upper`.
pub record Columns (D : Type 0) : Type 0 where
  pub numeric : D → D
  pub fits : D → Bool
  pub upper : String → String

module _ {D : Type 0} ⦃k : Columns D⦄ where
  abbrev pub numeric_or_null : Option D → Option D
  numeric_or_null none = none
  numeric_or_null (some value) = some (k.numeric value)

  -- A row as its columns hold it.
  abbrev pub in_columns : MarketData D → MarketData D
  in_columns values = record {
    symbol = values.symbol;
    interval = values.interval;
    bar = record {
      timestamp = values.bar.timestamp;
      open_price = k.numeric values.bar.open_price;
      high_price = k.numeric values.bar.high_price;
      low_price = k.numeric values.bar.low_price;
      close_price = k.numeric values.bar.close_price;
      volume = values.bar.volume;
    };
    adjusted_close = numeric_or_null values.adjusted_close;
  }

  -- A row of the file as it is stored.
  abbrev pub stored_as : MarketDataRow D → String → String → MarketData D
  stored_as row symbol interval = in_columns (as_database_values row symbol interval)

  abbrev pub fits_or_null : Option D → Bool
  fits_or_null none = true
  fits_or_null (some value) = k.fits value

  -- No value is out of the range of its column; a `BigInteger` has 63 bits and a sign.
  unfoldable pub are_in_range : MarketData D → Bool
  are_in_range values =
      k.fits values.bar.open_price
      && k.fits values.bar.high_price
      && k.fits values.bar.low_price
      && k.fits values.bar.close_price
      && fits_or_null values.adjusted_close
      && ltb values.bar.volume 9_223_372_036_854_775_808

module _ {D : Type 0} ⦃d : Decimal D⦄ ⦃k : Columns D⦄ where
  abbrev pub positive_or_null : Option D → Bool
  positive_or_null none = true
  positive_or_null (some value) = d.lt d.nought value

  -- `market_data_symbol_check`, `market_data_interval_check`, `market_data_prices_positive_check` and
  -- `market_data_price_range_check`; a volume is never negative here.
  unfoldable pub are_checked : MarketData D → Bool
  are_checked stored =
      leb 1 (count stored.symbol)
      && leb (count stored.symbol) 20
      && str_eq stored.symbol (k.upper stored.symbol)
      && str_eq stored.interval "1d"
      && d.lt d.nought stored.bar.open_price
      && d.lt d.nought stored.bar.high_price
      && d.lt d.nought stored.bar.low_price
      && d.lt d.nought stored.bar.close_price
      && positive_or_null stored.adjusted_close
      && d.le stored.bar.low_price stored.bar.open_price
      && d.le stored.bar.open_price stored.bar.high_price
      && d.le stored.bar.low_price stored.bar.close_price
      && d.le stored.bar.close_price stored.bar.high_price

  -- The database takes all of the rows.
  unfoldable pub are_storable : String → String → List (MarketDataRow D) → Bool
  are_storable symbol interval [] = true
  are_storable symbol interval (row ∷ rest) =
      are_in_range (as_database_values row symbol interval)
      && are_checked (stored_as row symbol interval)
      && are_storable symbol interval rest
