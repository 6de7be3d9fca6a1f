-- ===== src/Strategy/Parser/Operands.antt =====
-- What a completed operand and a completed condition consist of.
use agentic_trading_platform.Prelude.{
  ◌≡◌, refl, Option, none, some, String, ◌<>◌, ok, >>=-eq-ok, subst, sym,
}
use agentic_trading_platform.Prelude.Int.{ℤ}
use agentic_trading_platform.Strategy.Spec.{IndicatorName, Operator, Operand, Condition}
use agentic_trading_platform.Strategy.Draft.{OperandType, OperandDraft, ConditionDraft}
use agentic_trading_platform.Strategy.Parser.Rules.{
  Notes, text_or_default, close_or_default, name_or_sma, normalize_indicator, normalize_constant,
  normalize_typed, normalize_operand, normalize_under,
}

module _ {D : Type 0} where
  pub name_or_sma_any :
      (o : Option IndicatorName) (f g : String) (m n : Notes D)
      → (name_or_sma o f m).0 ≡ (name_or_sma o g n).0
  unfolding name_or_sma
  name_or_sma_any none f g m n = refl
  name_or_sma_any (some x) f g m n = refl

  pub close_or_default_any :
      (o : Option String) (f g : String) (m n : Notes D)
      → (close_or_default o f m).0 ≡ (close_or_default o g n).0
  unfolding close_or_default text_or_default
  close_or_default_any none f g m n = refl
  close_or_default_any (some x) f g m n = refl

  normalize_indicator_any :
      (o : OperandDraft D) (period : Option ℤ) (f g : String) (m n : Notes D)
      {a b : Operand D × Notes D}
      → normalize_indicator o period f m ≡ ok a
      → normalize_indicator o period g n ≡ ok b
      → a.0 ≡ b.0
  unfolding normalize_indicator
  normalize_indicator_any o none f g m n p q = cc
  normalize_indicator_any o (some period) f g m n p q =
      let names = name_or_sma_any o.name f g m n in
      let sources =
        close_or_default_any o.source f g (name_or_sma o.name f m).1 (name_or_sma o.name g n).1 in
      cc (p, q, names, sources)

  normalize_constant_any :
      (v : Option D) (f g : String) (m n : Notes D) {a b : Operand D × Notes D}
      → normalize_constant v f m ≡ ok a
      → normalize_constant v g n ≡ ok b
      → a.0 ≡ b.0
  unfolding normalize_constant
  normalize_constant_any none f g m n p q = cc
  normalize_constant_any (some v) f g m n p q = cc

  -- An operand does not depend on where it stands, nor on what was noted before.
  normalize_typed_any :
      (t : OperandType) (o : OperandDraft D) (f g : String) (m n : Notes D)
      {a b : Operand D × Notes D}
      → normalize_typed t o f m ≡ ok a
      → normalize_typed t o g n ≡ ok b
      → a.0 ≡ b.0
  unfolding normalize_typed
  normalize_typed_any OperandType.indicator o f g m n p q =
      normalize_indicator_any o o.period f g m n p q
  normalize_typed_any OperandType.price o f g m n p q =
      cc (p, q, close_or_default_any o.source f g m n)
  normalize_typed_any OperandType.constant o f g m n p q =
      normalize_constant_any o.value f g m n p q

  pub normalize_operand_any :
      (o x : OperandDraft D) (f g : String) (m n : Notes D) {a b : Operand D × Notes D}
      → o ≡ x
      → normalize_operand o f m ≡ ok a
      → normalize_operand x g n ≡ ok b
      → a.0 ≡ b.0
  unfolding normalize_operand
  normalize_operand_any o x f g m n {a} {b} e p q =
      normalize_typed_any o.type o f g m n p
        (subst (λ y. normalize_typed y.type y g n ≡ ok b) (sym e) q)

  -- What a condition that was completed consists of.
  pub record Parts (c : ConditionDraft D) (f : String) (m : Notes D) (a : Condition D × Notes D)
      : Type 0 where
    pub left : Operand D × Notes D
    pub right : Operand D × Notes D
    pub left_eq : normalize_operand c.left (f <> ".left") m ≡ ok left
    pub right_eq : normalize_operand c.right (f <> ".right") left.1 ≡ ok right
    pub operator_eq : c.operator ≡ some (a.0).operator
    pub left_part : (a.0).left ≡ left.0
    pub right_part : (a.0).right ≡ right.0

  pub normalize_under-Parts :
      (o : Option Operator) (c : ConditionDraft D) (f : String) (m : Notes D)
      {a : Condition D × Notes D}
      → c.operator ≡ o
      → normalize_under o c f m ≡ ok a
      → Parts c f m a
  unfolding normalize_under
  normalize_under-Parts none c f m e h = absurd (cc)
  normalize_under-Parts (some x) c f m e h =
      let l = >>=-eq-ok _ _ h in
      let r = >>=-eq-ok _ _ l.2 in
      record {
        left = l.0;
        right = r.0;
        left_eq = l.1;
        right_eq = r.1;
        operator_eq = cc (e, r.2);
        left_part = cc (r.2);
        right_part = cc (r.2);
      }
