-- ===== src/Strategy/Parser/Steps.antt =====
-- The steps of a normalization that returned.
use agentic_trading_platform.Prelude.{◌≡◌, String, ok, >>=-eq-ok, >>-eq-ok}
use agentic_trading_platform.Decimal.{Decimal}
use agentic_trading_platform.Strategy.Spec.{Condition}
use agentic_trading_platform.Strategy.Draft.{
  ConditionDraft, StrategyParseDraft, ParsedStrategyResult,
}
use agentic_trading_platform.Strategy.Reading.{Reading, Numerals}
use agentic_trading_platform.Strategy.Semantics.{validate_strategy_semantics}
use agentic_trading_platform.Strategy.Semantics.Text.{RiskControls, extract_risk_controls}
use agentic_trading_platform.Strategy.Parser.Rules.{Notes, no_notes, normalize_condition}
use agentic_trading_platform.Strategy.Parser.Inference.{infer_rules}
use agentic_trading_platform.Strategy.Parser.Normalize.{
  settle, is_filled, specification_of, normalize_strategy_draft,
}

module _ {D : Type 0} ⦃d : Decimal D⦄ ⦃r : Reading⦄ ⦃n : Numerals D⦄ where
  pub record Steps (draft : StrategyParseDraft D) (text : String) (result : ParsedStrategyResult D)
      : Type 0 where
    pub pair : ConditionDraft D × ConditionDraft D × Notes D
    pub controls : RiskControls D
    pub entry : Condition D × Notes D
    pub exit : Condition D × Notes D
    pub pair_eq : infer_rules text (draft.entry, draft.exit, (settle draft no_notes).1) ≡ ok pair
    pub controls_eq : extract_risk_controls text ≡ ok controls
    pub entry_eq : normalize_condition pair.0 "entry" pair.2 ≡ ok entry
    pub exit_eq : normalize_condition pair.1 "exit" entry.1 ≡ ok exit
    pub specification_eq :
        result.specification ≡ specification_of (settle draft no_notes).0 controls entry.0 exit.0
    pub valid : validate_strategy_semantics result.specification ≡ ok tt
    pub assumptions_eq : result.assumptions ≡ (exit.1).assumptions
    pub defaults_eq : result.defaults_applied ≡ (exit.1).defaults
    pub confirmation_eq : result.requires_confirmation ≡ is_filled result.assumptions
    pub text_eq : result.original_text ≡ text

  pub normalize_strategy_draft-Steps :
      (draft : StrategyParseDraft D) (text : String) {result : ParsedStrategyResult D}
      → normalize_strategy_draft draft text ≡ ok result
      → Steps draft text result
  unfolding normalize_strategy_draft
  normalize_strategy_draft-Steps draft text h =
      let a = >>=-eq-ok _ _ h in
      let b = >>=-eq-ok _ _ a.2 in
      let c = >>=-eq-ok _ _ b.2 in
      let e = >>=-eq-ok _ _ c.2 in
      let s = specification_of (settle draft no_notes).0 b.0 (c.0).0 (e.0).0 in
      let v = >>-eq-ok (validate_strategy_semantics s) _ e.2 in
      record {
        pair = a.0;
        controls = b.0;
        entry = c.0;
        exit = e.0;
        pair_eq = a.1;
        controls_eq = b.1;
        entry_eq = c.1;
        exit_eq = e.1;
        specification_eq = cc (v.1);
        valid = cc (v.0, v.1);
        assumptions_eq = cc (v.1);
        defaults_eq = cc (v.1);
        confirmation_eq = cc (v.1);
        text_eq = cc (v.1);
      }
