-- ===== src/Tests/Loaded.antt =====
-- The theorems about a table of four days, what is imported into one, what is run on it, how far its
-- curve falls, and which of two jobs are looked at.
use agentic_trading_platform.Prelude.{ℕ, ◌≡◌, ◌≢◌, refl, List, [], ◌∷◌, ok, arith}
use agentic_trading_platform.Prelude.Int.{ℤ, pos}
use agentic_trading_platform.Decimal.{fixed, fixed-IsExact}
use agentic_trading_platform.Backtest.Models.{EquityPoint}
use agentic_trading_platform.Backtest.Compiler.Crossover.{crossover_specification}
use agentic_trading_platform.Backtest.Metrics.{calculate_maximum_drawdown}
use agentic_trading_platform.Backtest.Metrics.Drawdown.{
  IsDrawdown, calculate_maximum_drawdown-IsDrawdown,
}
use agentic_trading_platform.Backtest.Preview.{insert_bar, load_market_bars}
use agentic_trading_platform.Backtest.Preview.Loaded.{IsTraded, load_market_bars-IsTraded}
use agentic_trading_platform.Market.Import.{import_market_csv}
use agentic_trading_platform.Market.Stored.{AreStored, AreKept, import_market_csv-AreKept}
use agentic_trading_platform.Jobs.Store.{list_reconciliation_candidates}
use agentic_trading_platform.Jobs.Store.Candidates.{
  AreCandidates, list_reconciliation_candidates-AreCandidates,
}
use agentic_trading_platform.Tests.Backtest.{rows, crossover, compiled}
use agentic_trading_platform.Tests.Market.{
  reading, numerals, csv_reading, columns, file, arguments, database, never,
}
use agentic_trading_platform.Tests.Jobs.{env, world}

rows-AreStored : AreStored fixed-IsExact rows
rows-AreStored = record {
  valid = ground arith;
  unique = ((refl, (refl, (refl, tt))), ((refl, (refl, tt)), ((refl, tt), (tt, tt))));
}

some_bar : load_market_bars rows "SPY" "1d" ≢ []
unfolding load_market_bars insert_bar
some_bar = λ e. cc

load_market_bars-IsTraded_example :
    IsTraded fixed-IsExact
      (crossover_specification "SPY" "1d" (pos 1) (pos 2))
      crossover
      (load_market_bars rows "SPY" "1d")
unfolding crossover_specification
load_market_bars-IsTraded_example =
    load_market_bars-IsTraded fixed-IsExact rows
      (crossover_specification "SPY" "1d" (pos 1) (pos 2)) crossover rows-AreStored compiled
      (omega arith) some_bar

database-AreKept : AreKept fixed-IsExact database
database-AreKept = (
  record { valid = ground arith; unique = (tt, tt) },
  record { valid = ground arith; unique = (tt, tt) },
)

import_market_csv-AreKept_example :
    AreKept fixed-IsExact (import_market_csv never arguments file database).0
import_market_csv-AreKept_example =
    import_market_csv-AreKept fixed-IsExact never arguments file database database-AreKept

abbrev point : ℕ → ℤ → EquityPoint ℤ
point timestamp equity = record { timestamp = timestamp; equity = equity }

abbrev later : List (EquityPoint ℤ)
later = point 2 (pos 120) ∷ point 3 (pos 90) ∷ point 4 (pos 110) ∷ []

calculate_maximum_drawdown-IsDrawdown_example :
    (value : ℤ) × (calculate_maximum_drawdown (point 1 (pos 100)) later ≡ ok value)
    × IsDrawdown fixed-IsExact [] (point 1 (pos 100) ∷ later) (pos 0) value
calculate_maximum_drawdown-IsDrawdown_example =
    calculate_maximum_drawdown-IsDrawdown fixed-IsExact (point 1 (pos 100)) later (omega arith)

list_reconciliation_candidates-AreCandidates_example :
    AreCandidates env 5 world (list_reconciliation_candidates env 5 world)
list_reconciliation_candidates-AreCandidates_example =
    list_reconciliation_candidates-AreCandidates env 5 world
