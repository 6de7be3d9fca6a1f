-- ===== src/Tests/Program.antt =====
-- The theorems about a job with the program's own workflow, for a crossover with a stop-loss over four
-- stored days.
use agentic_trading_platform.Prelude.{
  ℕ, ◌≡◌, refl, true, false, none, some, [], ◌∷◌, Option, String, Result, ok, ◌⊎◌, inr, List,
}
use agentic_trading_platform.Prelude.Int.{ℤ, pos}
use agentic_trading_platform.Decimal.{fixed}
use agentic_trading_platform.Strategy.Spec.{crosses_above}
use agentic_trading_platform.Strategy.Draft.{StrategyParseDraft, ParsedStrategyResult}
use agentic_trading_platform.Strategy.Semantics.{
  validate_strategy_semantics, validate_condition, validate_operand, validate_risk_percent,
}
use agentic_trading_platform.Strategy.Semantics.Text.{
  add_value, add_match, add_matches, collect_values, decide_control, extract_control_percent,
  extract_risk_controls,
}
use agentic_trading_platform.Strategy.Parser.Rules.{
  apply_default, assumption, assume, text_or_default, size_or_default, close_or_default,
  name_or_sma, normalize_indicator, normalize_typed, normalize_operand, normalize_under,
  normalize_condition,
}
use agentic_trading_platform.Strategy.Parser.Inference.{
  opposite_operator, opposite_under, opposite_crossover_draft, infer_pair, infer_entry, infer_exit,
  both_rules, infer_rules,
}
use agentic_trading_platform.Strategy.Parser.Normalize.{settle, normalize_strategy_draft}
use agentic_trading_platform.Strategy.Parser.Provider.{parse}
use agentic_trading_platform.Prelude.{ℕ, ◌≡◌, refl, Option, none, some, List, [], ◌∷◌, ok}
use agentic_trading_platform.Prelude.Int.{ℤ, pos, ◌+ℤ◌, ◌-ℤ◌}
use agentic_trading_platform.Decimal.{fixed}
use agentic_trading_platform.Strategy.Semantics.{
  validate_strategy_semantics, validate_condition, validate_operand, validate_risk_percent,
}
use agentic_trading_platform.Backtest.Sma.{simple_moving_averages, sma_from, roll}
use agentic_trading_platform.Backtest.Compiler.{compile_strategy, generate_signals}
use agentic_trading_platform.Backtest.Engine.Risk.{validate_risk_control}
use agentic_trading_platform.Backtest.Engine.Run.{execute_long_only_signals}
use agentic_trading_platform.Prelude.{false, true}
use agentic_trading_platform.Backtest.Compiler.{
  evaluate_operand, evaluate_condition, condition_first_eligible_index, values_from, value_at,
  crosses_at, crosses,
}
use agentic_trading_platform.Strategy.Semantics.{validate_strategy_semantics}
use agentic_trading_platform.Backtest.Metrics.{calculate_buy_and_hold_equity_curve}
use agentic_trading_platform.Backtest.Compiler.{
  first_signal_eligible_index, operand_first_evaluable_index, signals_from, signals_at,
}
use agentic_trading_platform.Backtest.Engine.Portfolio.{
  execute_buy, execute_sell, close_position, completed_trade, exit_position,
}
use agentic_trading_platform.Backtest.Engine.Risk.{
  calculate_risk_levels, evaluate_opening_risk_exit, evaluate_intraday_risk_exit,
}
use agentic_trading_platform.Backtest.Engine.Run.{
  open_risk, process_signal, process_signals, open_phase, intraday_phase, run_bar, run_bars,
  final_exit, liquidate, sum_profit_loss, run_signals, signals_at_timestamp,
}
use agentic_trading_platform.Backtest.Metrics.{
  calculate_metrics, gain_percentage, drawdown_from, calculate_maximum_drawdown, win_rate,
  calculate_cagr,
}
use agentic_trading_platform.Market.Model.{MarketData}
use agentic_trading_platform.Backtest.Preview.{
  StrategyPreview, insert_bar, load_market_bars, preview_from, preview_on,
  create_specification_preview,
}
use agentic_trading_platform.Jobs.Model.{PreviewJob, queued, queued_stage}
use agentic_trading_platform.Jobs.World.{World, JobError, returns}
use agentic_trading_platform.Jobs.Rows.{find_job}
use agentic_trading_platform.Jobs.Service.{run_preview_job}
use agentic_trading_platform.Jobs.Program.{PreviewResult, serialize_preview, zip_strict, program}
use agentic_trading_platform.Jobs.Lifecycle.Completion.{IsCompleted, run_preview_job-IsCompleted}
use agentic_trading_platform.Api.Authentication.{get_user}
use agentic_trading_platform.Api.Delivered.{IsDelivered, poll-run_preview_job}
use agentic_trading_platform.Tests.Backtest.{rows}
use agentic_trading_platform.Tests.Jobs.{env}
use agentic_trading_platform.Tests.Polling.{user, client}
use agentic_trading_platform.Tests.Parser.{reading, numerals, request, average, parser, accepted}

abbrev draft : StrategyParseDraft ℤ
draft = record {
  symbol = some "SPY";
  interval = none;
  entry =
      some
        (record { left = average (pos 1); operator = some crosses_above; right = average (pos 2) });
  exit = none;
  direction = none;
  position_size_percent = none;
  signal_execution = none;
}

abbrev answers : ℕ → String → String → String → Result (StrategyParseDraft ℤ)
answers step key model text = ok draft

normalized :
    (result : ParsedStrategyResult ℤ) × (normalize_strategy_draft draft request ≡ ok result)
unfolding normalize_strategy_draft settle text_or_default size_or_default apply_default infer_rules
    infer_pair infer_entry infer_exit both_rules opposite_crossover_draft opposite_operator
    opposite_under assume assumption extract_risk_controls extract_control_percent collect_values
    add_matches add_match add_value decide_control validate_risk_percent normalize_condition
    normalize_under normalize_operand normalize_typed normalize_indicator name_or_sma
    close_or_default validate_strategy_semantics validate_condition validate_operand
normalized = (_, refl)

parses : (k : ℕ) → parse parser (answers k) request ≡ ok normalized.0
unfolding parse
parses k = rw accepted normalized.1

shown :
    (preview : StrategyPreview ℤ) × (create_specification_preview
        (λ a _. a)
        rows
        normalized.0.specification
      ≡ ok preview)
unfolding normalized create_specification_preview load_market_bars compile_strategy
    validate_strategy_semantics validate_condition validate_operand validate_risk_percent preview_on
    insert_bar first_signal_eligible_index condition_first_eligible_index ◌+ℤ◌
    operand_first_evaluable_index ◌-ℤ◌ preview_from generate_signals evaluate_condition
    evaluate_operand crosses crosses_at signals_at signals_from value_at values_from close_position
    completed_trade execute_buy execute_sell exit_position calculate_risk_levels
    evaluate_intraday_risk_exit evaluate_opening_risk_exit validate_risk_control
    execute_long_only_signals final_exit intraday_phase liquidate open_phase open_risk
    process_signal process_signals run_bar run_bars run_signals signals_at_timestamp sum_profit_loss
    calculate_buy_and_hold_equity_curve calculate_cagr calculate_maximum_drawdown calculate_metrics
    drawdown_from gain_percentage win_rate roll simple_moving_averages sma_from
shown = (_, refl)

abbrev written : ℕ → String
written time = "2024-01-02T00:00:00+00:00"

abbrev stored : ℕ → JobError ⊎ List (MarketData ℤ)
stored step = inr rows

abbrev accepted_by_schema : PreviewResult ℤ → Option (PreviewResult ℤ)
accepted_by_schema result = some result

abbrev job : PreviewJob (PreviewResult ℤ)
job = record {
  id = 1;
  user_id = 7;
  status = queued;
  stage = queued_stage;
  progress = 5;
  strategy_text = request;
  strategy_name = none;
  error_message = none;
  preview_result = none;
  attempt_count = 0;
  created_at = 10;
  started_at = none;
  completed_at = none;
  expires_at = 5_000;
}

abbrev world : World (PreviewResult ℤ)
world = record { jobs = job ∷ []; held = []; monotonic = 0; payloads = []; step = 0 }

serialized :
    (result : PreviewResult ℤ) × (serialize_preview written normalized.0 shown.0 ≡ ok result)
unfolding shown serialize_preview zip_strict
serialized = (_, refl)

run_preview_job-IsCompleted_example :
    (w' : World (PreviewResult ℤ)) × (run_preview_job env
        (program written parser (λ a _. a) answers stored)
        1
        false
        world
      ≡ returns true w')
    × IsCompleted 1 job serialized.0 w'.jobs
unfolding find_job
run_preview_job-IsCompleted_example =
    run_preview_job-IsCompleted env (λ _. refl) 1 job
      (program written parser (λ a _. a) answers stored) false normalized.0 shown.0 serialized.0
      (λ k. rw (parses k) refl) (λ k. rw shown.1 refl) (rw serialized.1 refl) world refl refl

poll-run_preview_job_example :
    (w' : World (PreviewResult ℤ)) × (run_preview_job env
        (program written parser (λ a _. a) answers stored)
        1
        false
        world
      ≡ returns true w')
    × IsDelivered written accepted_by_schema env client "secret" 1 job normalized.0 shown.0 w'
unfolding find_job get_user
poll-run_preview_job_example =
    poll-run_preview_job written accepted_by_schema env client "secret" 1 job parser (λ a _. a)
      answers stored user false rows normalized.0 shown.0 world (λ _. refl) parses (λ _. refl)
      shown.1 refl refl refl refl
