-- ===== src/Market/Model.antt =====
-- backend/app/models/market_data.py: a stored bar, with the row of
-- backend/app/scripts/import_market_csv.py that it comes from.
use agentic_trading_platform.Prelude.{ℕ, Option, String}
use agentic_trading_platform.Backtest.Models.{MarketBar}

-- The columns of prices and the volume are those of a bar.
pub record MarketData (D : Type 0) : Type 0 where
  pub symbol : String
  pub interval : String
  pub bar : MarketBar D
  pub adjusted_close : Option D

pub record MarketDataRow (D : Type 0) : Type 0 where
  pub timestamp : ℕ
  pub open_price : D
  pub high_price : D
  pub low_price : D
  pub close_price : D
  pub volume : ℕ
  pub adjusted_close : Option D

module _ {D : Type 0} where
  abbrev pub bar_of : MarketDataRow D → MarketBar D
  bar_of row = record {
    timestamp = row.timestamp;
    open_price = row.open_price;
    high_price = row.high_price;
    low_price = row.low_price;
    close_price = row.close_price;
    volume = row.volume;
  }

  abbrev pub as_database_values : MarketDataRow D → String → String → MarketData D
  as_database_values row symbol interval = record {
    symbol = symbol;
    interval = interval;
    bar = bar_of row;
    adjusted_close = row.adjusted_close;
  }
