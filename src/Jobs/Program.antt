-- ===== src/Jobs/Program.antt =====
-- The workflow that the program runs a job with: the parser, `create_preview` of
-- backend/app/services/strategy_preview.py and `serialize_preview` of
-- backend/app/services/preview_job_service.py.
use agentic_trading_platform.Prelude.{
  ℕ, Bool, Option, none, some, List, [], ◌∷◌, map, length, drop, String, ◌⊎◌, inl, inr, Error,
  value_error, runtime_error, validation_error, compilation_error, data_unavailable,
  parser_error as unparsed, provider_error, provider_refusal, provider_timeout as timed_out,
  malformed_output, database_error, division_by_zero, Result, ok, err, ◌>>=◌,
}
use agentic_trading_platform.Prelude.Int.{ℤ}
use agentic_trading_platform.Decimal.{Decimal}
use agentic_trading_platform.Strategy.Spec.{StrategySpecification}
use agentic_trading_platform.Strategy.Draft.{
  StrategyParseDraft, AppliedDefault, StrategyAssumption, ParsedStrategyResult,
}
use agentic_trading_platform.Strategy.Reading.{Reading, Numerals}
use agentic_trading_platform.Strategy.Interpretation.{interpret_strategy}
use agentic_trading_platform.Strategy.Parser.Provider.{OpenAiStrategyParser, parse}
use agentic_trading_platform.Backtest.Models.{MarketBar, CompletedTrade, EquityPoint, ExitReason}
use agentic_trading_platform.Backtest.Preview.{
  StrategyPreview, starting_cash, create_specification_preview,
}
use agentic_trading_platform.Market.Model.{MarketData}
use agentic_trading_platform.Jobs.World.{
  JobError, rejected, provider_timeout, parser_error, unexpected,
}
use agentic_trading_platform.Jobs.Service.{Workflow}

-- The handler of `run_preview_job` that an exception of the program is for.
abbrev pub class_of : Error → JobError
class_of (validation_error message) = rejected message
class_of (compilation_error message) = rejected message
class_of (data_unavailable message) = rejected message
class_of (timed_out message) = provider_timeout
class_of (unparsed message) = parser_error
class_of (provider_error message) = parser_error
class_of (provider_refusal message) = parser_error
class_of (malformed_output message) = parser_error
class_of (value_error message) = unexpected
class_of (runtime_error message) = unexpected
class_of (database_error message) = unexpected
class_of division_by_zero = unexpected

abbrev pub classified : {A : Type 0} → Result A → JobError ⊎ A
classified (ok a) = inr a
classified (err e) = inl (class_of e)

-- The dictionaries that `serialize_preview` makes.
pub record CurvePoint : Type 0 where
  pub timestamp : String
  pub strategy_value : String
  pub buy_and_hold_value : String

pub record PricePoint : Type 0 where
  pub timestamp : String
  pub close_price : String

pub record TradeEntry : Type 0 where
  pub signal_timestamp : String
  pub entry_timestamp : String
  pub entry_price : String
  pub quantity : ℤ
  pub exit_signal_timestamp : Option String
  pub exit_timestamp : String
  pub exit_price : String
  pub profit_loss : String
  pub return_percentage : String
  pub exit_reason : ExitReason

pub record PreviewResult (D : Type 0) : Type 0 where
  pub specification : StrategySpecification D
  pub defaults_applied : List AppliedDefault
  pub assumptions : List (StrategyAssumption D)
  pub requires_confirmation : Bool
  pub original_text : String
  pub interpretation : String
  pub symbol : String
  pub interval : String
  pub start_date : String
  pub end_date : String
  pub bar_count : ℕ
  pub initial_cash : String
  pub ending_value : String
  pub total_return_percent : String
  pub cagr_percent : Option String
  pub max_drawdown_percent : String
  pub trade_count : ℕ
  pub win_rate_percent : String
  pub buy_and_hold_return_percent : String
  pub equity_curve : List CurvePoint
  pub price_series : List PricePoint
  pub trades : List TradeEntry

-- `isoformat` of an instant is a parameter.
abbrev pub optional_time : (ℕ → String) → Option ℕ → Option String
optional_time isoformat none = none
optional_time isoformat (some time) = some (isoformat time)

module _ {D : Type 0} ⦃n : Numerals D⦄ where
  abbrev pub optional_decimal : Option D → Option String
  optional_decimal none = none
  optional_decimal (some value) = some (n.show_decimal value)

module _ {D : Type 0} ⦃d : Decimal D⦄ ⦃r : Reading⦄ ⦃n : Numerals D⦄ (isoformat : ℕ → String) where
  -- `zip(..., strict=True)`
  unfoldable pub zip_strict : List (EquityPoint D) → List (EquityPoint D) → Result (List CurvePoint)
  zip_strict [] [] = ok []
  zip_strict (point ∷ points) (benchmark ∷ others) = do
    rest ← zip_strict points others
    ok (
        record {
          timestamp = isoformat point.timestamp;
          strategy_value = n.show_decimal point.equity;
          buy_and_hold_value = n.show_decimal benchmark.equity;
        }
        ∷ rest)
  zip_strict [] (benchmark ∷ others) =
      err (value_error "zip() argument 2 is longer than argument 1")
  zip_strict (point ∷ points) [] = err (value_error "zip() argument 2 is shorter than argument 1")

  abbrev pub price_point : MarketBar D → PricePoint
  price_point bar = record {
    timestamp = isoformat bar.timestamp;
    close_price = n.show_decimal bar.close_price;
  }

  abbrev pub trade_entry : CompletedTrade D → TradeEntry
  trade_entry trade = record {
    signal_timestamp = isoformat trade.signal_timestamp;
    entry_timestamp = isoformat trade.entry_timestamp;
    entry_price = n.show_decimal trade.entry_price;
    quantity = trade.quantity;
    exit_signal_timestamp = optional_time isoformat trade.exit_signal_timestamp;
    exit_timestamp = isoformat trade.exit_timestamp;
    exit_price = n.show_decimal trade.exit_price;
    profit_loss = n.show_decimal trade.profit_loss;
    return_percentage = n.show_decimal trade.return_percentage;
    exit_reason = trade.exit_reason;
  }

  abbrev pub result_of :
      ParsedStrategyResult D → StrategyPreview D → List CurvePoint → PreviewResult D
  result_of parsed preview curve = record {
    specification = parsed.specification;
    defaults_applied = parsed.defaults_applied;
    assumptions = parsed.assumptions;
    requires_confirmation = parsed.requires_confirmation;
    original_text = parsed.original_text;
    interpretation = interpret_strategy parsed;
    symbol = parsed.specification.symbol;
    interval = parsed.specification.interval;
    start_date = isoformat preview.start_timestamp;
    end_date = isoformat preview.end_timestamp;
    bar_count = preview.bar_count;
    initial_cash = n.show_decimal starting_cash;
    ending_value = n.show_decimal preview.execution.final_portfolio_value;
    total_return_percent = n.show_decimal preview.metrics.total_return_percentage;
    cagr_percent = optional_decimal preview.metrics.cagr_percentage;
    max_drawdown_percent = n.show_decimal preview.metrics.maximum_drawdown_percentage;
    trade_count = length preview.execution.completed_trades;
    win_rate_percent = n.show_decimal preview.metrics.win_rate_percentage;
    buy_and_hold_return_percent = n.show_decimal preview.metrics.buy_and_hold_return_percentage;
    equity_curve = curve;
    price_series = map price_point preview.bars;
    trades = map trade_entry preview.execution.completed_trades;
  }

  unfoldable pub serialize_preview :
      ParsedStrategyResult D → StrategyPreview D → Result (PreviewResult D)
  serialize_preview parsed preview = do
    curve ←
        zip_strict (drop preview.comparison_start_index preview.execution.equity_curve)
          preview.buy_and_hold_equity_curve
    ok (result_of parsed preview curve)

  -- The client of the language model and the stored rows may differ from one interaction to another;
  -- `power` is that of the metrics.
  module _ (self : OpenAiStrategyParser) (power : D → D → D)
      (provider : ℕ → String → String → String → Result (StrategyParseDraft D))
      (stored : ℕ → JobError ⊎ List (MarketData D)) where
    abbrev pub previewed :
        ParsedStrategyResult D → JobError ⊎ List (MarketData D) → JobError ⊎ StrategyPreview D
    previewed parsed (inl e) = inl e
    previewed parsed (inr rows) =
        classified (create_specification_preview power rows parsed.specification)

    abbrev pub program : Workflow (ParsedStrategyResult D) (StrategyPreview D) (PreviewResult D)
    program = record {
      parse = λ step text. classified (parse self (provider step) text);
      preview_factory = λ step parsed. previewed parsed (stored step);
      serialize_preview = λ parsed preview. classified (serialize_preview parsed preview);
    }
