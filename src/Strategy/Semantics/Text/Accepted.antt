-- ===== src/Strategy/Semantics/Text/Accepted.antt =====
-- services/strategy_semantics.py: what a text that goes on to the language model has passed.
use agentic_trading_platform.Prelude.{
  ◌≡◌, refl, ◌↔◌, false, ◌&&◌, not, List, [], ◌∷◌, String, ok, >>=-eq-ok, >>-eq-ok, All, arith,
  Bool-cases,
}
use agentic_trading_platform.Decimal.{Decimal}
use agentic_trading_platform.Strategy.Reading.{Reading, Numerals, contains}
use agentic_trading_platform.Strategy.Semantics.Text.{
  unsupported_language, ambiguous_language, reject_phrases, RiskControls, extract_risk_controls,
  has_resolvable_moving_average, validate_strategy_text,
}

-- None of the phrases of a table stands in the text.
abbrev pub IsFree : String → List (String × String) → Type 0
IsFree text = All λ entry. contains text entry.0 ≡ false

reject_phrases_iff :
    (text : String) (table : List (String × String))
    → (reject_phrases text table ≡ ok tt) ↔ IsFree text table
unfolding reject_phrases
reject_phrases_iff text [] = (λ _. tt, λ _. refl)
reject_phrases_iff text ((phrase, message) ∷ rest) =
    let others = reject_phrases_iff text rest in
    (
      λ h. (
        ground (arith, Bool-cases (contains text phrase)),
        others.0 (ground (arith, Bool-cases (contains text phrase))),
      ),
      λ h. rw h.0 (others.1 h.1),
    )

module _ (D : Type 0) ⦃d : Decimal D⦄ ⦃r : Reading⦄ ⦃n : Numerals D⦄ where
  pub record IsAcceptable (text : String) : Type 0 where
    pub supported : IsFree (r.lower text) unsupported_language
    pub definite : IsFree (r.lower text) ambiguous_language
    pub controlled : (controls : RiskControls D) × (extract_risk_controls text ≡ ok controls)
    pub averages_resolved :
        (contains (r.lower text) "moving average"
          && not (has_resolvable_moving_average (r.lower text)))
        ≡ false

  -- The checks of a text one by one.
  pub validate_strategy_text_iff :
      (text : String) → (validate_strategy_text D text ≡ ok tt) ↔ IsAcceptable text
  unfolding validate_strategy_text
  validate_strategy_text_iff text =
      let u = reject_phrases_iff (r.lower text) unsupported_language in
      let a = reject_phrases_iff (r.lower text) ambiguous_language in
      (
        λ h.
            let (p, h1) = >>-eq-ok (reject_phrases (r.lower text) unsupported_language) _ h in
            let (q, h2) = >>-eq-ok (reject_phrases (r.lower text) ambiguous_language) _ h1 in
            let (c, e, h3) = >>=-eq-ok (extract_risk_controls {D = D} text) _ h2 in
            record {
              supported = u.0 p;
              definite = a.0 q;
              controlled = (c, e);
              averages_resolved = ground arith;
            },
        λ s. rw (u.1 s.supported, a.1 s.definite, (s.controlled).1, s.averages_resolved) refl,
      )
