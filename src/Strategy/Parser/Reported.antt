-- ===== src/Strategy/Parser/Reported.antt =====
-- Which of a draft's omissions the parser reports, and when the user has to confirm the result.
use mathlib.Core.List.{append-nil, append_assoc}
use agentic_trading_platform.Prelude.{
  ◌≡◌, refl, Bool, true, false, Option, none, some, List, [], ◌∷◌, ◌++◌, map, String, ◌<>◌, ok,
  IfOk, sym, ap, ◌∙◌, subst,
}
use agentic_trading_platform.Decimal.{Decimal}
use agentic_trading_platform.Strategy.Draft.{
  OperandDraft, ConditionDraft, StrategyParseDraft, ParsedStrategyResult, StrategyAssumption,
}
use agentic_trading_platform.Strategy.Reading.{Reading, Numerals}
use agentic_trading_platform.Strategy.Parser.Rules.{Notes, no_notes, assume}
use agentic_trading_platform.Strategy.Parser.Inference.{infer_rules}
use agentic_trading_platform.Strategy.Parser.Normalize.{settle, is_filled, normalize_strategy_draft}
use agentic_trading_platform.Strategy.Parser.Steps.{Steps, normalize_strategy_draft-Steps}
use agentic_trading_platform.Strategy.Parser.Added.{
  missing, unnamed, unsourced, in_rule, in_rules, assumed, defaulted, IsKept, assumed-assume,
  assumed-text, assumed-size, defaulted-text, defaulted-size, assumed-IsKept, defaulted-IsKept,
}
use agentic_trading_platform.Strategy.Parser.Leaves.{
  condition-Adds, left_fields, infer_rules-Leaves,
}

abbrev pub is_any : List String → Bool
is_any [] = false
is_any (f ∷ rest) = true

module _ {D : Type 0} where
  -- What is assumed: the rule that is not there, and the kind of each average that has none.
  abbrev pub assumed_fields : Option (ConditionDraft D) → Option (ConditionDraft D) → List String
  assumed_fields (some entry) (some exit) = in_rules unnamed entry exit
  assumed_fields (some entry) none = "exit" ∷ in_rules unnamed entry entry
  assumed_fields none (some exit) = "entry" ∷ in_rules unnamed exit exit
  assumed_fields none none =
      "entry_and_exit" ∷ "entry.left.name" ∷ "entry.right.name" ∷ "exit.left.name"
      ∷ "exit.right.name" ∷ []

  abbrev defaulted_sources : Option (ConditionDraft D) → Option (ConditionDraft D) → List String
  defaulted_sources (some entry) (some exit) = in_rules unsourced entry exit
  defaulted_sources (some entry) none = in_rules unsourced entry entry
  defaulted_sources none (some exit) = in_rules unsourced exit exit
  defaulted_sources none none =
      "entry.left.source" ∷ "entry.right.source" ∷ "exit.left.source" ∷ "exit.right.source" ∷ []

  -- What gets a default: each setting that is not there, then each source that is not named.
  abbrev pub defaulted_fields : StrategyParseDraft D → List String
  defaulted_fields draft =
      missing draft.symbol "symbol"
      ++ missing draft.interval "interval"
      ++ missing draft.direction "execution.direction"
      ++ missing draft.position_size_percent "execution.position_size_percent"
      ++ missing draft.signal_execution "execution.signal_execution"
      ++ defaulted_sources draft.entry draft.exit

  settle-assumed : (draft : StrategyParseDraft D) → assumed (settle draft no_notes).1 ≡ []
  unfolding settle
  settle-assumed draft =
      rw
        (
          assumed-text draft.signal_execution,
          assumed-size draft.position_size_percent,
          assumed-text draft.direction,
          assumed-text draft.interval,
          assumed-text draft.symbol,
        )
        refl

  settle-defaulted :
      (draft : StrategyParseDraft D)
      → defaulted (settle draft no_notes).1
        ≡ missing draft.symbol "symbol"
          ++ missing draft.interval "interval"
          ++ missing draft.direction "execution.direction"
          ++ missing draft.position_size_percent "execution.position_size_percent"
          ++ missing draft.signal_execution "execution.signal_execution"
  unfolding settle
  settle-defaulted draft =
      rw
        (
          defaulted-text draft.signal_execution,
          defaulted-size draft.position_size_percent,
          defaulted-text draft.direction,
          defaulted-text draft.interval,
          defaulted-text draft.symbol,
        )
        refl

  assumed-Leaves :
      ⦃r : Reading⦄ (text : String) (entry exit : Option (ConditionDraft D)) (m : Notes D)
      → IfOk
          (λ p. assumed p.2 ++ in_rules unnamed p.0 p.1 ≡ assumed m ++ assumed_fields entry exit)
          (infer_rules text (entry, exit, m))
  assumed-Leaves text entry exit m =
      subst
        (λ l.
          IfOk (λ p. assumed p.2 ++ in_rules unnamed p.0 p.1 ≡ assumed m ++ l)
            (infer_rules text (entry, exit, m)))
        (same entry exit)
        (infer_rules-Leaves assumed unnamed (λ f. f ∷ []) (λ f. (f <> ".name") ∷ []) assumed-assume
          (λ p f. refl) text entry exit m)
    where
      same :
          (entry exit : Option (ConditionDraft D))
          → left_fields assumed unnamed
              (λ f. f ∷ [])
              (λ f. (f <> ".name") ∷ [])
              assumed-assume
              (λ p f. refl)
              entry
              exit
            ≡ assumed_fields entry exit
      same none none = refl
      same none (some x) = refl
      same (some e) none = refl
      same (some e) (some x) = refl

  defaulted-assume :
      (m : Notes D) (a : StrategyAssumption D) → defaulted (assume m a) ≡ defaulted m ++ []
  unfolding assume
  defaulted-assume m a = sym (append-nil (defaulted m))

  defaulted-Leaves :
      ⦃r : Reading⦄ (text : String) (entry exit : Option (ConditionDraft D)) (m : Notes D)
      → IfOk
          (λ p.
            defaulted p.2 ++ in_rules unsourced p.0 p.1
            ≡ defaulted m ++ defaulted_sources entry exit)
          (infer_rules text (entry, exit, m))
  defaulted-Leaves text entry exit m =
      subst
        (λ l.
          IfOk (λ p. defaulted p.2 ++ in_rules unsourced p.0 p.1 ≡ defaulted m ++ l)
            (infer_rules text (entry, exit, m)))
        (same entry exit)
        (infer_rules-Leaves defaulted unsourced (λ f. []) (λ f. (f <> ".source") ∷ [])
          defaulted-assume (λ p f. refl) text entry exit m)
    where
      same :
          (entry exit : Option (ConditionDraft D))
          → left_fields defaulted unsourced
              (λ f. [])
              (λ f. (f <> ".source") ∷ [])
              defaulted-assume
              (λ p f. refl)
              entry
              exit
            ≡ defaulted_sources entry exit
      same none none = refl
      same none (some x) = refl
      same (some e) none = refl
      same (some e) (some x) = refl

  is_filled-map : (l : List (StrategyAssumption D)) → is_filled l ≡ is_any (map (λ a. a.field) l)
  is_filled-map [] = refl
  is_filled-map (a ∷ l) = refl

module _ {D : Type 0} ⦃d : Decimal D⦄ ⦃r : Reading⦄ ⦃n : Numerals D⦄ where
  -- The fields that a view lists in the end, from those after the settings.
  view-Steps :
      (view : Notes D → List String) (own : OperandDraft D → String → List String)
      (kept : IsKept view own) (draft : StrategyParseDraft D) (text : String) (fields : List String)
      {result : ParsedStrategyResult D} (s : Steps draft text result)
      → IfOk
          (λ p. view p.2 ++ in_rules own p.0 p.1 ≡ view (settle draft no_notes).1 ++ fields)
          (infer_rules text (draft.entry, draft.exit, (settle draft no_notes).1))
      → view (s.exit).1 ≡ view (settle draft no_notes).1 ++ fields
  view-Steps view own kept draft text fields s h =
      let p = subst (IfOk _) s.pair_eq h in
      let entry = subst (IfOk _) s.entry_eq (condition-Adds view own kept _ "entry" _) in
      let exit = subst (IfOk _) s.exit_eq (condition-Adds view own kept _ "exit" _) in
      exit
      ∙ ap (λ v. v ++ in_rule own (s.pair).1 "exit") entry
      ∙ append_assoc (view (s.pair).2) _ _
      ∙ p

  pub record IsReported (draft : StrategyParseDraft D) (result : ParsedStrategyResult D)
      : Type 0 where
    pub assumptions_reported :
        map (λ a. a.field) result.assumptions ≡ assumed_fields draft.entry draft.exit
    pub defaults_reported : map (λ a. a.field) result.defaults_applied ≡ defaulted_fields draft
    pub confirmation : result.requires_confirmation ≡ is_any (assumed_fields draft.entry draft.exit)

  -- A result of the parser reports what the draft leaves out, in order and nothing else: as
  -- assumptions, a missing rule and each average of no kind; as defaults, each missing setting and
  -- each price without a source. It is to be confirmed exactly if there is an assumption.
  pub normalize_strategy_draft-IsReported :
      (draft : StrategyParseDraft D) (text : String) (result : ParsedStrategyResult D)
      → normalize_strategy_draft draft text ≡ ok result
      → IsReported draft result
  normalize_strategy_draft-IsReported draft text result h =
      let s = normalize_strategy_draft-Steps draft text h in
      let m = (settle draft no_notes).1 in
      let assumptions =
        ap (map (λ a. a.field)) s.assumptions_eq
        ∙ view-Steps assumed unnamed assumed-IsKept draft text _ s
            (assumed-Leaves text draft.entry draft.exit m)
        ∙ ap (λ v. v ++ assumed_fields draft.entry draft.exit) (settle-assumed draft) in
      record {
        assumptions_reported = assumptions;
        defaults_reported =
            ap (map (λ a. a.field)) s.defaults_eq
            ∙ view-Steps defaulted unsourced defaulted-IsKept draft text _ s
                (defaulted-Leaves text draft.entry draft.exit m)
            ∙ ap (λ v. v ++ defaulted_sources draft.entry draft.exit) (settle-defaulted draft);
        confirmation = s.confirmation_eq ∙ is_filled-map result.assumptions ∙ ap is_any assumptions;
      }
