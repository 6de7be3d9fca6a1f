-- ===== src/Strategy/Parser/Normalize.antt =====
-- backend/app/services/strategy_parser.py: a draft becomes a specification, by fixed defaults and by
-- assumptions that the user confirms.
use agentic_trading_platform.Prelude.{
  ℕ, Bool, true, false, List, [], ◌∷◌, String, Result, ok, ◌>>=◌, ◌>>◌,
}
use agentic_trading_platform.Decimal.{Decimal}
use agentic_trading_platform.Strategy.Spec.{Condition, StrategySpecification}
use agentic_trading_platform.Strategy.Draft.{
  StrategyParseDraft, StrategyAssumption, ParsedStrategyResult,
}
use agentic_trading_platform.Strategy.Reading.{Reading, Numerals}
use agentic_trading_platform.Strategy.Semantics.{validate_strategy_semantics}
use agentic_trading_platform.Strategy.Semantics.Text.{RiskControls, extract_risk_controls}
use agentic_trading_platform.Strategy.Parser.Rules.{
  Notes, no_notes, text_or_default, size_or_default, normalize_condition,
}
use agentic_trading_platform.Strategy.Parser.Inference.{infer_rules}

pub record Settings : Type 0 where
  pub symbol : String
  pub interval : String
  pub direction : String
  pub position_size : ℕ
  pub signal_execution : String

module _ {D : Type 0} where
  -- The five settings with their defaults, in the order of the code.
  unfoldable pub settle : StrategyParseDraft D → Notes D → Settings × Notes D
  settle draft notes =
      let symbol =
        text_or_default draft.symbol "symbol" "SPY" "SPY is the only supported symbol." notes in
      let interval =
        text_or_default draft.interval "interval" "1d" "Daily bars are fixed in version 1."
          symbol.1 in
      let direction =
        text_or_default draft.direction "execution.direction" "long"
          "Long-only execution is fixed in version 1." interval.1 in
      let size = size_or_default draft.position_size_percent direction.1 in
      let signal_execution =
        text_or_default draft.signal_execution "execution.signal_execution" "next_bar_open"
          "Signals execute at the next available trading bar open in version 1." size.1 in
      (
        record {
          symbol = symbol.0;
          interval = interval.0;
          direction = direction.0;
          position_size = size.0;
          signal_execution = signal_execution.0;
        },
        signal_execution.1,
      )

  -- `bool(assumptions)`
  abbrev pub is_filled : List (StrategyAssumption D) → Bool
  is_filled [] = false
  is_filled (a ∷ rest) = true

  abbrev pub specification_of :
      Settings → RiskControls D → Condition D → Condition D → StrategySpecification D
  specification_of settings controls entry exit = record {
    version = "1.0";
    symbol = settings.symbol;
    interval = settings.interval;
    entry = entry;
    exit = exit;
    execution = record {
      direction = settings.direction;
      position_size_percent = settings.position_size;
      signal_execution = settings.signal_execution;
    };
    stop_loss_percent = controls.stop_loss_percent;
    take_profit_percent = controls.take_profit_percent;
  }

module _ {D : Type 0} ⦃d : Decimal D⦄ ⦃r : Reading⦄ ⦃n : Numerals D⦄ where
  unfoldable pub normalize_strategy_draft :
      StrategyParseDraft D → String → Result (ParsedStrategyResult D)
  normalize_strategy_draft draft original_text = do
    let settled = settle draft no_notes
    pair ← infer_rules original_text (draft.entry, draft.exit, settled.1)
    risk_controls ← extract_risk_controls original_text
    entry ← normalize_condition pair.0 "entry" pair.2
    exit ← normalize_condition pair.1 "exit" entry.1
    let specification = specification_of settled.0 risk_controls entry.0 exit.0
    validate_strategy_semantics specification
    ok (record {
      specification = specification;
      assumptions = (exit.1).assumptions;
      defaults_applied = (exit.1).defaults;
      requires_confirmation = is_filled (exit.1).assumptions;
      original_text = original_text;
    })
