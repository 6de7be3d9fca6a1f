-- ===== src/Strategy/Parser/Opposites.antt =====
-- A rule that the user omits is the opposite crossover of the rule that is there.
use agentic_trading_platform.Prelude.{
  ◌≡◌, refl, false, Option, none, some, String, ok, ◌>>=◌, IfOk, IfOk->>=, is_some, ◌&&◌, if_any,
  subst, sym,
}
use agentic_trading_platform.Prelude.Int.{ℤ}
use agentic_trading_platform.Decimal.{Decimal}
use agentic_trading_platform.Strategy.Spec.{
  Operator, crosses_above, crosses_below, greater_than, less_than, greater_than_or_equal,
  less_than_or_equal, Condition,
}
use agentic_trading_platform.Strategy.Draft.{
  ConditionDraft, StrategyParseDraft, ParsedStrategyResult,
}
use agentic_trading_platform.Strategy.Reading.{Reading, Numerals}
use agentic_trading_platform.Strategy.Semantics.Text.{NormalizationHint, find_normalization_hint}
use agentic_trading_platform.Strategy.Parser.Rules.{Notes, normalize_condition}
use agentic_trading_platform.Strategy.Parser.Inference.{
  Pair, opposite_operator, crossover_draft, opposite_under, opposite_crossover_draft, pair_of_hint,
  infer_shorthand_pair, infer_pair, infer_entry, infer_exit, both_rules, infer_rules,
}
use agentic_trading_platform.Strategy.Parser.Normalize.{normalize_strategy_draft}
use agentic_trading_platform.Strategy.Parser.Operands.{normalize_operand_any, normalize_under-Parts}
use agentic_trading_platform.Strategy.Parser.Steps.{normalize_strategy_draft-Steps}

pub data Flips : Operator → Operator → Type 0 where
  falls : Flips crosses_above crosses_below
  rises : Flips crosses_below crosses_above

-- The same operands, crossing in opposite directions.
pub record AreOpposite {D : Type 0} (entry exit : Condition D) : Type 0 where
  pub same_left : entry.left ≡ exit.left
  pub same_right : entry.right ≡ exit.right
  pub flips : Flips entry.operator exit.operator

module _ {D : Type 0} where
  -- The same of drafts.
  record AreOppositeDrafts (entry exit : ConditionDraft D) : Type 0 where
    pub same_left : entry.left ≡ exit.left
    pub same_right : entry.right ≡ exit.right
    pub up : Operator
    pub down : Operator
    pub entry_operator : entry.operator ≡ some up
    pub exit_operator : exit.operator ≡ some down
    pub flips : Flips up down

  normalize_condition-AreOpposite :
      (entry exit : ConditionDraft D) (f g : String) (m n : Notes D) {a b : Condition D × Notes D}
      → AreOppositeDrafts entry exit
      → normalize_condition entry f m ≡ ok a
      → normalize_condition exit g n ≡ ok b
      → AreOpposite a.0 b.0
  unfolding normalize_condition
  normalize_condition-AreOpposite entry exit f g m n {a} {b} w p q =
      let v = normalize_under-Parts entry.operator entry f m refl p in
      let x = normalize_under-Parts exit.operator exit g n refl q in
      let l = normalize_operand_any _ _ _ _ _ _ w.same_left v.left_eq x.left_eq in
      let r = normalize_operand_any _ _ _ _ _ _ w.same_right v.right_eq x.right_eq in
      let up : w.up ≡ (a.0).operator = cc (v.operator_eq, w.entry_operator) in
      let down : w.down ≡ (b.0).operator = cc (x.operator_eq, w.exit_operator) in
      record {
        same_left = cc (l, v.left_part, x.left_part);
        same_right = cc (r, v.right_part, x.right_part);
        flips = subst (λ o. Flips (a.0).operator o) down (subst (λ o. Flips o w.down) up w.flips);
      }

  opposite_drafts :
      (c x : ConditionDraft D) (o y : Operator)
      → c.operator ≡ some o
      → x.operator ≡ some y
      → x.left ≡ c.left
      → x.right ≡ c.right
      → Flips o y
      → Flips y o
      → AreOppositeDrafts c x × AreOppositeDrafts x c
  opposite_drafts c x o y e h l r f g = (
    record {
      same_left = sym l;
      same_right = sym r;
      up = o;
      down = y;
      entry_operator = e;
      exit_operator = h;
      flips = f;
    },
    record {
      same_left = l;
      same_right = r;
      up = y;
      down = o;
      entry_operator = h;
      exit_operator = e;
      flips = g;
    },
  )

  abbrev Both : ConditionDraft D → ConditionDraft D → Type 0
  Both c x = AreOppositeDrafts c x × AreOppositeDrafts x c

  opposite_under-Both :
      (o : Option Operator) (c : ConditionDraft D)
      → c.operator ≡ o
      → IfOk (Both c) (opposite_under (opposite_operator o) c)
  unfolding opposite_under opposite_operator
  opposite_under-Both none c e = tt
  opposite_under-Both (some crosses_above) c e =
      opposite_drafts c _ crosses_above crosses_below e refl refl refl falls rises
  opposite_under-Both (some crosses_below) c e =
      opposite_drafts c _ crosses_below crosses_above e refl refl refl rises falls
  opposite_under-Both (some greater_than) c e = tt
  opposite_under-Both (some less_than) c e = tt
  opposite_under-Both (some greater_than_or_equal) c e = tt
  opposite_under-Both (some less_than_or_equal) c e = tt

  crossover_drafts-AreOpposite :
      (short long : ℤ) (o y : Operator)
      → Flips o y
      → AreOppositeDrafts (crossover_draft {D = D} short long o) (crossover_draft short long y)
  unfolding crossover_draft
  crossover_drafts-AreOpposite short long o y f = record {
    same_left = refl;
    same_right = refl;
    up = o;
    down = y;
    entry_operator = refl;
    exit_operator = refl;
    flips = f;
  }

  abbrev AreInferred : ConditionDraft D × ConditionDraft D × Notes D → Type 0
  AreInferred pair = AreOppositeDrafts pair.0 pair.1

  abbrev IsInferred : Pair D → Type 0
  IsInferred p = IfOk AreInferred (infer_exit p >>= both_rules)

  pair_of_hint-IsInferred :
      ⦃r : Reading⦄ (hint : Option NormalizationHint) (m : Notes D)
      → IfOk AreInferred (infer_entry (pair_of_hint hint m) >>= λ p. infer_exit p >>= both_rules)
  unfolding pair_of_hint infer_entry infer_exit both_rules
  pair_of_hint-IsInferred none m = tt
  pair_of_hint-IsInferred (some hint) m =
      if_any (λ p. IfOk AreInferred (infer_entry p >>= λ q. infer_exit q >>= both_rules))
        hint.bullish_entry
        (crossover_drafts-AreOpposite hint.short_period hint.long_period _ _ falls)
        (crossover_drafts-AreOpposite hint.short_period hint.long_period _ _ rises)

  -- The three ways in which a rule is inferred.
  infer_rules-AreInferred :
      ⦃r : Reading⦄ (text : String) (entry exit : Option (ConditionDraft D)) (m : Notes D)
      → (is_some entry && is_some exit) ≡ false
      → IfOk AreInferred (infer_rules text (entry, exit, m))
  unfolding infer_rules infer_pair infer_entry infer_exit both_rules opposite_crossover_draft
      infer_shorthand_pair
  infer_rules-AreInferred text none none m e =
      pair_of_hint-IsInferred (find_normalization_hint text) m
  infer_rules-AreInferred text (some entry) none m e =
      IfOk->>= {P = λ p. IfOk AreInferred (both_rules p)} AreInferred _ both_rules
        (IfOk->>= {P = Both entry} _ _ _ (opposite_under-Both entry.operator entry refl)
          (λ x f. f.0))
        (λ p h. h)
  infer_rules-AreInferred text none (some exit) m e =
      IfOk->>= {P = IsInferred} AreInferred _ _
        (IfOk->>= {P = Both exit} _ _ _ (opposite_under-Both exit.operator exit refl) (λ x f. f.1))
        (λ p h. h)
  infer_rules-AreInferred text (some entry) (some exit) m e = absurd (cc)

module _ {D : Type 0} ⦃d : Decimal D⦄ ⦃r : Reading⦄ ⦃n : Numerals D⦄ where
  -- Where the draft leaves out a rule, or both, and the parser returns a strategy, then its two rules
  -- have the same operands, and cross in opposite directions.
  pub normalize_strategy_draft-AreOpposite :
      (draft : StrategyParseDraft D) (text : String) (result : ParsedStrategyResult D)
      → (is_some draft.entry && is_some draft.exit) ≡ false
      → normalize_strategy_draft draft text ≡ ok result
      → AreOpposite (result.specification).entry (result.specification).exit
  normalize_strategy_draft-AreOpposite draft text result e h =
      let s = normalize_strategy_draft-Steps draft text h in
      let w =
        subst (IfOk AreInferred) s.pair_eq
          (infer_rules-AreInferred text draft.entry draft.exit _ e) in
      let good = normalize_condition-AreOpposite _ _ _ _ _ _ w s.entry_eq s.exit_eq in
      subst (λ x. AreOpposite x.entry x.exit) (sym s.specification_eq) good
