-- ===== src/Strategy/Parser/Leaves.antt =====
-- What completing a condition, and inferring a rule, adds to the fields that are reported.
use mathlib.Core.List.{append_assoc}
use agentic_trading_platform.Prelude.{
  ◌≡◌, refl, Option, none, some, List, ◌++◌, String, ◌<>◌, ◌>>=◌, IfOk, IfOk->>=, if_any, ap, ◌∙◌,
}
use agentic_trading_platform.Prelude.Int.{ℤ}
use agentic_trading_platform.Strategy.Spec.{Operator}
use agentic_trading_platform.Strategy.Draft.{OperandDraft, ConditionDraft, StrategyAssumption}
use agentic_trading_platform.Strategy.Reading.{Reading}
use agentic_trading_platform.Strategy.Semantics.Text.{NormalizationHint, find_normalization_hint}
use agentic_trading_platform.Strategy.Parser.Rules.{
  Notes, assume, assumption, normalize_under, normalize_condition,
}
use agentic_trading_platform.Strategy.Parser.Inference.{
  opposite_operator, opposite_under, opposite_crossover_draft, pair_of_hint, crossover_draft,
  average_draft, infer_shorthand_pair, infer_pair, infer_entry, infer_exit, both_rules, infer_rules,
}
use agentic_trading_platform.Strategy.Parser.Added.{in_rule, in_rules, Adds, IsKept}

module _ {D : Type 0} where
  module _ (view : Notes D → List String) (own : OperandDraft D → String → List String)
      (kept : IsKept view own) where
    under-Adds :
        (o : Option Operator) (c : ConditionDraft D) (f : String) (m : Notes D)
        → IfOk (Adds view m (in_rule own c f)) (normalize_under o c f m)
    unfolding normalize_under
    under-Adds none c f m = tt
    under-Adds (some x) c f m =
        IfOk->>= {P = Adds view m (own c.left (f <> ".left"))} _ _ _ (kept c.left (f <> ".left") m)
          λ l p.
            IfOk->>= {P = Adds view l.1 (own c.right (f <> ".right"))} _ _ _
              (kept c.right (f <> ".right") l.1)
              λ a q. q ∙ ap (λ v. v ++ own c.right (f <> ".right")) p ∙ append_assoc (view m) _ _

    pub condition-Adds :
        (c : ConditionDraft D) (f : String) (m : Notes D)
        → IfOk (Adds view m (in_rule own c f)) (normalize_condition c f m)
    unfolding normalize_condition
    condition-Adds c f m = under-Adds c.operator c f m

  record SameOperands (c x : ConditionDraft D) : Type 0 where
    pub left_eq : x.left ≡ c.left
    pub right_eq : x.right ≡ c.right

  opposite_under-SameOperands :
      (o : Option Operator) (c : ConditionDraft D) → IfOk (SameOperands c) (opposite_under o c)
  unfolding opposite_under
  opposite_under-SameOperands none c = tt
  opposite_under-SameOperands (some x) c = record { left_eq = refl; right_eq = refl }

  opposite-SameOperands :
      (c : ConditionDraft D) → IfOk (SameOperands c) (opposite_crossover_draft c)
  unfolding opposite_crossover_draft
  opposite-SameOperands c = opposite_under-SameOperands (opposite_operator c.operator) c

  in_rule-SameOperands :
      (own : OperandDraft D → String → List String) (c x : ConditionDraft D) (f : String)
      → SameOperands c x
      → in_rule own x f ≡ in_rule own c f
  in_rule-SameOperands own c x f s = cc (s.left_eq, s.right_eq)

  module _ (view : Notes D → List String) (own : OperandDraft D → String → List String)
      (added : String → List String) (bare : String → List String)
      (on_assume : (m : Notes D) (a : StrategyAssumption D)
        → view (assume m a) ≡ view m ++ added a.field)
      (own_bare : (p : ℤ) (f : String) → own (average_draft p) f ≡ bare f) where
    -- The rules that go on to be completed, with what their inference has noted, leave these fields.
    abbrev pub Leaves :
        Notes D → List String → ConditionDraft D × ConditionDraft D × Notes D → Type 0
    Leaves m fields p = view p.2 ++ in_rules own p.0 p.1 ≡ view m ++ fields

    abbrev pub left_fields : Option (ConditionDraft D) → Option (ConditionDraft D) → List String
    left_fields (some entry) (some exit) = in_rules own entry exit
    left_fields (some entry) none = added "exit" ++ in_rules own entry entry
    left_fields none (some exit) = added "entry" ++ in_rules own exit exit
    left_fields none none =
        added "entry_and_exit"
        ++ ((bare "entry.left" ++ bare "entry.right") ++ (bare "exit.left" ++ bare "exit.right"))

    assume-Leaves :
        (m : Notes D) (a : StrategyAssumption D) (l k : List String)
        → l ≡ k
        → view (assume m a) ++ l ≡ view m ++ (added a.field ++ k)
    assume-Leaves m a l k e =
        ap (λ v. v ++ l) (on_assume m a)
        ∙ append_assoc (view m) (added a.field) l
        ∙ ap (λ v. view m ++ (added a.field ++ v)) e

    bares :
        (p q : ℤ)
        → (own (average_draft p) "entry.left" ++ own (average_draft q) "entry.right")
            ++ (own (average_draft p) "exit.left" ++ own (average_draft q) "exit.right")
          ≡ (bare "entry.left" ++ bare "entry.right") ++ (bare "exit.left" ++ bare "exit.right")
    bares p q = cc (
      own_bare p "entry.left",
      own_bare q "entry.right",
      own_bare p "exit.left",
      own_bare q "exit.right",
    )

    pair_of_hint-Leaves :
        ⦃r : Reading⦄ (hint : Option NormalizationHint) (m : Notes D)
        → IfOk
            (Leaves m (left_fields none none))
            (infer_entry (pair_of_hint hint m) >>= λ p. infer_exit p >>= both_rules)
    unfolding pair_of_hint infer_entry infer_exit both_rules crossover_draft assumption
    pair_of_hint-Leaves none m = tt
    pair_of_hint-Leaves (some hint) m =
        if_any
          (λ p.
            IfOk (Leaves m (left_fields none none))
              (infer_entry p >>= λ q. infer_exit q >>= both_rules))
          hint.bullish_entry (assume-Leaves m _ _ _ (bares hint.short_period hint.long_period))
          (assume-Leaves m _ _ _ (bares hint.short_period hint.long_period))

    pub infer_rules-Leaves :
        ⦃r : Reading⦄ (text : String) (entry exit : Option (ConditionDraft D)) (m : Notes D)
        → IfOk (Leaves m (left_fields entry exit)) (infer_rules text (entry, exit, m))
    unfolding infer_rules infer_pair infer_entry infer_exit both_rules infer_shorthand_pair
        assumption
    infer_rules-Leaves text (some entry) (some exit) m = refl
    infer_rules-Leaves text none none m = pair_of_hint-Leaves (find_normalization_hint text) m
    infer_rules-Leaves text (some entry) none m =
        IfOk->>= {P = λ p. IfOk (Leaves m (left_fields (some entry) none)) (both_rules p)} _ _
          both_rules
          (IfOk->>= {P = SameOperands entry} _ _ _ (opposite-SameOperands entry) (λ x s.
            assume-Leaves m _ _ _ (
              ap (λ l. in_rule own entry "entry" ++ l)
                (in_rule-SameOperands own entry x "exit" s))))
          (λ p h. h)
    infer_rules-Leaves text none (some exit) m =
        IfOk->>=
          {P = λ p. IfOk (Leaves m (left_fields none (some exit))) (infer_exit p >>= both_rules)} _
          _ _
          (IfOk->>= {P = SameOperands exit} _ _ _ (opposite-SameOperands exit) (λ x s.
            assume-Leaves m _ _ _
              (ap (λ l. l ++ in_rule own exit "exit") (in_rule-SameOperands own exit x "entry" s))))
          (λ p h. h)
