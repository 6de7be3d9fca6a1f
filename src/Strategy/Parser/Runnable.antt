-- ===== src/Strategy/Parser/Runnable.antt =====
-- What the parser returns can be compiled and run.
use agentic_trading_platform.Prelude.{
  ◌≡◌, refl, false, String, str_eq, List, Result, ok, >>=-eq-ok, >>-eq-ok, raise_if, sym, ap, ◌∙◌,
  arith,
}
use agentic_trading_platform.Decimal.{Decimal}
use agentic_trading_platform.Strategy.Spec.{StrategySpecification}
use agentic_trading_platform.Strategy.Draft.{StrategyParseDraft, ParsedStrategyResult}
use agentic_trading_platform.Strategy.Reading.{Reading, Numerals}
use agentic_trading_platform.Strategy.Semantics.Supported.{
  IsSupported, validate_strategy_semantics_iff,
}
use agentic_trading_platform.Strategy.Semantics.Text.{extract_risk_controls, validate_strategy_text}
use agentic_trading_platform.Strategy.Semantics.Text.Accepted.{
  IsAcceptable, validate_strategy_text_iff,
}
use agentic_trading_platform.Strategy.Parser.Normalize.{normalize_strategy_draft}
use agentic_trading_platform.Strategy.Parser.Provider.{
  OpenAiStrategyParser, is_missing, or_empty, parse,
}
use agentic_trading_platform.Strategy.Parser.RoundTrip.{controls_of}
use agentic_trading_platform.Strategy.Parser.Steps.{normalize_strategy_draft-Steps}
use agentic_trading_platform.Backtest.Models.{MarketBar, Signal}
use agentic_trading_platform.Backtest.Compiler.{
  CompiledStrategy, compile_strategy, generate_signals,
}
use agentic_trading_platform.Backtest.Compiler.Total.{compile_strategy-generate_signals_total}

module _ {D : Type 0} ⦃d : Decimal D⦄ ⦃r : Reading⦄ ⦃n : Numerals D⦄ where
  abbrev pub compiled : StrategySpecification D → CompiledStrategy D
  compiled s = record { specification = s }

  pub record IsRunnable (text : String) (result : ParsedStrategyResult D) : Type 0 where
    pub supported : IsSupported result.specification
    pub compiles : compile_strategy result.specification ≡ ok (compiled result.specification)
    pub runs :
        (bars : List (MarketBar D))
        → (signals : List Signal) × (generate_signals (compiled result.specification) bars
            ≡ ok signals)
    pub controls_of_text : extract_risk_controls text ≡ ok (controls_of result.specification)
    pub same_text : result.original_text ≡ text

  pub normalize_strategy_draft-IsRunnable :
      (draft : StrategyParseDraft D) (text : String) (result : ParsedStrategyResult D)
      → normalize_strategy_draft draft text ≡ ok result
      → IsRunnable text result
  unfolding compile_strategy
  normalize_strategy_draft-IsRunnable draft text result h =
      let s = normalize_strategy_draft-Steps draft text h in
      let compiles : compile_strategy result.specification ≡ ok (compiled result.specification) =
        rw s.valid refl in
      record {
        supported = (validate_strategy_semantics_iff result.specification).0 s.valid;
        compiles = compiles;
        runs = λ bars.
            compile_strategy-generate_signals_total result.specification
              (compiled result.specification) bars compiles;
        controls_of_text = s.controls_eq ∙ ap (λ x. ok (controls_of x)) (sym s.specification_eq);
        same_text = s.text_eq;
      }

  -- What the parser made of a text: the text was acceptable, the language model was asked about it
  -- once, with the key and the model that are set, and the result is the completed draft.
  pub record IsParsed (self : OpenAiStrategyParser)
      (provider : String → String → String → Result (StrategyParseDraft D)) (text : String)
      (result : ParsedStrategyResult D) : Type 0 where
    pub described : str_eq (r.strip text) "" ≡ false
    pub acceptable : IsAcceptable D text
    pub keyed : is_missing self.api_key ≡ false
    pub modelled : is_missing self.model ≡ false
    pub draft : StrategyParseDraft D
    pub answered : provider (or_empty self.api_key) (or_empty self.model) text ≡ ok draft
    pub runnable : IsRunnable text result

  -- If `parse` returns, then the text is not blank and acceptable, a key and a model are set, and the
  -- language model's draft for them became a strategy that version 1 supports, with the risk controls
  -- of the text; it compiles, and its signals on any bars are generated without an exception.
  pub parse-IsParsed :
      (self : OpenAiStrategyParser)
      (provider : String → String → String → Result (StrategyParseDraft D)) (text : String)
      (result : ParsedStrategyResult D)
      → parse self provider text ≡ ok result
      → IsParsed self provider text result
  unfolding parse
  parse-IsParsed self provider text result h =
      let (p, h1) = >>-eq-ok (raise_if (str_eq (r.strip text) "") _) _ h in
      let (q, h2) = >>-eq-ok (validate_strategy_text D text) _ h1 in
      let (k, h3) = >>-eq-ok (raise_if (is_missing self.api_key) _) _ h2 in
      let (m, h4) = >>-eq-ok (raise_if (is_missing self.model) _) _ h3 in
      let (draft, a, e) =
        >>=-eq-ok (provider (or_empty self.api_key) (or_empty self.model) text) _ h4 in
      record {
        described = ground arith;
        acceptable = (validate_strategy_text_iff D text).0 q;
        keyed = ground arith;
        modelled = ground arith;
        draft = draft;
        answered = a;
        runnable = normalize_strategy_draft-IsRunnable draft text result e;
      }
