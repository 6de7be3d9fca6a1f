-- ===== src/Strategy/Parser/Assumed.antt =====
-- Every assumption of the parser is to be confirmed.
use agentic_trading_platform.Prelude.{
  ◌≡◌, refl, true, Option, none, some, String, ◌<>◌, ℕ, ok, ◌>>=◌, All, All-append, IfOk, IfOk->>=,
  IfOk-any, if_any, subst, sym,
}
use agentic_trading_platform.Prelude.Int.{ℤ}
use agentic_trading_platform.Decimal.{Decimal}
use agentic_trading_platform.Strategy.Spec.{IndicatorName, Operator}
use agentic_trading_platform.Strategy.Draft.{
  OperandType, OperandDraft, ConditionDraft, StrategyParseDraft, ParsedStrategyResult,
  InferredValue, StrategyAssumption,
}
use agentic_trading_platform.Strategy.Reading.{Reading, Numerals}
use agentic_trading_platform.Strategy.Semantics.Text.{NormalizationHint, find_normalization_hint}
use agentic_trading_platform.Strategy.Parser.Rules.{
  Notes, no_notes, apply_default, assumption, assume, text_or_default, size_or_default,
  close_or_default, name_or_sma, normalize_indicator, normalize_constant, normalize_typed,
  normalize_operand, normalize_under, normalize_condition,
}
use agentic_trading_platform.Strategy.Parser.Inference.{
  opposite_crossover_draft, pair_of_hint, infer_shorthand_pair, infer_pair, infer_entry, infer_exit,
  both_rules, infer_rules,
}
use agentic_trading_platform.Strategy.Parser.Normalize.{settle, normalize_strategy_draft}
use agentic_trading_platform.Strategy.Parser.Steps.{normalize_strategy_draft-Steps}

module _ {D : Type 0} where
  abbrev pub IsConfirmable : StrategyAssumption D → Type 0
  IsConfirmable a = a.requires_confirmation ≡ true

  abbrev AreConfirmable : Notes D → Type 0
  AreConfirmable m = All IsConfirmable m.assumptions

  assume-AreConfirmable :
      (m : Notes D) (field : String) (v : InferredValue D) (reason : String)
      → AreConfirmable m
      → AreConfirmable (assume m (assumption field v reason))
  unfolding assume assumption
  assume-AreConfirmable m field v reason c = All-append IsConfirmable m.assumptions _ c (refl, tt)

  text-AreConfirmable :
      (o : Option String) (field default reason : String) (m : Notes D)
      → AreConfirmable m
      → AreConfirmable (text_or_default o field default reason m).1
  unfolding text_or_default apply_default
  text-AreConfirmable none field default reason m c = c
  text-AreConfirmable (some s) field default reason m c = c

  size-AreConfirmable :
      (o : Option ℕ) (m : Notes D) → AreConfirmable m → AreConfirmable (size_or_default o m).1
  unfolding size_or_default apply_default
  size-AreConfirmable none m c = c
  size-AreConfirmable (some s) m c = c

  name-AreConfirmable :
      (o : Option IndicatorName) (field : String) (m : Notes D)
      → AreConfirmable m
      → AreConfirmable (name_or_sma o field m).1
  unfolding name_or_sma
  name-AreConfirmable none field m c = assume-AreConfirmable m _ _ _ c
  name-AreConfirmable (some s) field m c = c

  abbrev Noted : {A : Type 0} → A × Notes D → Type 0
  Noted a = AreConfirmable a.1

  indicator-Noted :
      (o : OperandDraft D) (period : Option ℤ) (f : String) (m : Notes D)
      → AreConfirmable m
      → IfOk Noted (normalize_indicator o period f m)
  unfolding normalize_indicator close_or_default
  indicator-Noted o none f m c = tt
  indicator-Noted o (some period) f m c =
      text-AreConfirmable o.source _ _ _ (name_or_sma o.name f m).1
        (name-AreConfirmable o.name f m c)

  constant-Noted :
      (v : Option D) (f : String) (m : Notes D)
      → AreConfirmable m
      → IfOk Noted (normalize_constant v f m)
  unfolding normalize_constant
  constant-Noted none f m c = tt
  constant-Noted (some v) f m c = c

  typed-Noted :
      (t : OperandType) (o : OperandDraft D) (f : String) (m : Notes D)
      → AreConfirmable m
      → IfOk Noted (normalize_typed t o f m)
  unfolding normalize_typed close_or_default
  typed-Noted OperandType.indicator o f m c = indicator-Noted o o.period f m c
  typed-Noted OperandType.price o f m c = text-AreConfirmable o.source _ _ _ m c
  typed-Noted OperandType.constant o f m c = constant-Noted o.value f m c

  under-Noted :
      (o : Option Operator) (c : ConditionDraft D) (f : String) (m : Notes D)
      → AreConfirmable m
      → IfOk Noted (normalize_under o c f m)
  unfolding normalize_under normalize_operand
  under-Noted none c f m p = tt
  under-Noted (some x) c f m p =
      IfOk->>= {P = Noted} Noted _ _ (typed-Noted c.left.type c.left (f <> ".left") m p) λ l q.
        IfOk->>= {P = Noted} Noted _ _ (typed-Noted c.right.type c.right (f <> ".right") l.1 q)
          λ a i. i

  condition-Noted :
      (c : ConditionDraft D) (f : String) (m : Notes D)
      → AreConfirmable m
      → IfOk Noted (normalize_condition c f m)
  unfolding normalize_condition
  condition-Noted c f m p = under-Noted c.operator c f m p

  abbrev PairNoted : ConditionDraft D × ConditionDraft D × Notes D → Type 0
  PairNoted p = AreConfirmable p.2

  hint-Noted :
      ⦃r : Reading⦄ (hint : Option NormalizationHint) (m : Notes D)
      → AreConfirmable m
      → IfOk PairNoted (infer_entry (pair_of_hint hint m) >>= λ p. infer_exit p >>= both_rules)
  unfolding pair_of_hint infer_entry infer_exit both_rules
  hint-Noted none m c = tt
  hint-Noted (some hint) m c =
      if_any (λ p. IfOk PairNoted (infer_entry p >>= λ q. infer_exit q >>= both_rules))
        hint.bullish_entry (assume-AreConfirmable m _ _ _ c) (assume-AreConfirmable m _ _ _ c)

  rules-Noted :
      ⦃r : Reading⦄ (text : String) (entry exit : Option (ConditionDraft D)) (m : Notes D)
      → AreConfirmable m
      → IfOk PairNoted (infer_rules text (entry, exit, m))
  unfolding infer_rules infer_pair infer_entry infer_exit both_rules infer_shorthand_pair
  rules-Noted text (some entry) (some exit) m c = c
  rules-Noted text none none m c = hint-Noted (find_normalization_hint text) m c
  rules-Noted text (some entry) none m c =
      IfOk->>= {P = λ p. IfOk PairNoted (both_rules p)} PairNoted _ both_rules
        (IfOk-any _ (opposite_crossover_draft entry) _ (λ x. assume-AreConfirmable m _ _ _ c))
        (λ p h. h)
  rules-Noted text none (some exit) m c =
      IfOk->>= {P = λ p. IfOk PairNoted (infer_exit p >>= both_rules)} PairNoted _ _
        (IfOk-any _ (opposite_crossover_draft exit) _ (λ x. assume-AreConfirmable m _ _ _ c))
        (λ p h. h)

module _ {D : Type 0} ⦃d : Decimal D⦄ ⦃r : Reading⦄ ⦃n : Numerals D⦄ where
  pub normalize_strategy_draft-IsConfirmable :
      (draft : StrategyParseDraft D) (text : String) {result : ParsedStrategyResult D}
      → normalize_strategy_draft draft text ≡ ok result
      → All IsConfirmable result.assumptions
  unfolding settle
  normalize_strategy_draft-IsConfirmable draft text h =
      let s = normalize_strategy_draft-Steps draft text h in
      let settled : AreConfirmable (settle draft no_notes).1 =
        text-AreConfirmable draft.signal_execution _ _ _ _ (
          size-AreConfirmable draft.position_size_percent _ (
            text-AreConfirmable draft.direction _ _ _ _ (
              text-AreConfirmable draft.interval _ _ _ _
                (text-AreConfirmable draft.symbol _ _ _ no_notes tt)))) in
      let pair =
        subst (IfOk PairNoted) s.pair_eq (rules-Noted text draft.entry draft.exit _ settled) in
      let entry = subst (IfOk Noted) s.entry_eq (condition-Noted _ "entry" _ pair) in
      let exit = subst (IfOk Noted) s.exit_eq (condition-Noted _ "exit" _ entry) in
      subst (All IsConfirmable) (sym s.assumptions_eq) exit
