-- ===== src/Strategy/Parser/Added.antt =====
-- What completing an operand adds to the fields that are reported.
use mathlib.Core.List.{append-nil, map-append}
use agentic_trading_platform.Prelude.{
  ◌≡◌, refl, Option, none, some, List, [], ◌∷◌, ◌++◌, map, String, ◌<>◌, IfOk, sym, ◌∙◌, ℕ,
}
use agentic_trading_platform.Prelude.Int.{ℤ}
use agentic_trading_platform.Strategy.Spec.{IndicatorName}
use agentic_trading_platform.Strategy.Draft.{
  OperandType, OperandDraft, ConditionDraft, StrategyAssumption,
}
use agentic_trading_platform.Strategy.Parser.Rules.{
  Notes, apply_default, assume, assumption, text_or_default, size_or_default, close_or_default,
  name_or_sma, normalize_indicator, normalize_constant, normalize_typed, normalize_operand,
}

abbrev pub missing : {A : Type 0} → Option A → String → List String
missing none f = f ∷ []
missing (some a) f = []

module _ {D : Type 0} where
  -- The average of which a draft does not say which one it is, and the prices it does not name.
  abbrev unnamed_of : OperandType → OperandDraft D → String → List String
  unnamed_of OperandType.indicator o f = missing o.name (f <> ".name")
  unnamed_of OperandType.price o f = []
  unnamed_of OperandType.constant o f = []

  abbrev unsourced_of : OperandType → OperandDraft D → String → List String
  unsourced_of OperandType.indicator o f = missing o.source (f <> ".source")
  unsourced_of OperandType.price o f = missing o.source (f <> ".source")
  unsourced_of OperandType.constant o f = []

  abbrev pub unnamed : OperandDraft D → String → List String
  unnamed o f = unnamed_of o.type o f

  abbrev pub unsourced : OperandDraft D → String → List String
  unsourced o f = unsourced_of o.type o f

  abbrev pub in_rule :
      (OperandDraft D → String → List String) → ConditionDraft D → String → List String
  in_rule own c f = own c.left (f <> ".left") ++ own c.right (f <> ".right")

  abbrev pub in_rules :
      (OperandDraft D → String → List String) → ConditionDraft D → ConditionDraft D → List String
  in_rules own entry exit = in_rule own entry "entry" ++ in_rule own exit "exit"

  abbrev pub assumed : Notes D → List String
  assumed m = map (λ a. a.field) m.assumptions

  abbrev pub defaulted : Notes D → List String
  defaulted m = map (λ a. a.field) m.defaults

  pub assumed-assume :
      (m : Notes D) (a : StrategyAssumption D) → assumed (assume m a) ≡ assumed m ++ (a.field ∷ [])
  unfolding assume
  assumed-assume m a = map-append _ m.assumptions (a ∷ [])

  assumed-name :
      (o : Option IndicatorName) (f : String) (m : Notes D)
      → assumed (name_or_sma o f m).1 ≡ assumed m ++ missing o (f <> ".name")
  unfolding name_or_sma assumption
  assumed-name none f m = assumed-assume m _
  assumed-name (some s) f m = sym (append-nil (assumed m))

  pub assumed-text :
      (o : Option String) (f default reason : String) (m : Notes D)
      → assumed (text_or_default o f default reason m).1 ≡ assumed m
  unfolding text_or_default apply_default
  assumed-text none f default reason m = refl
  assumed-text (some s) f default reason m = refl

  pub assumed-size : (o : Option ℕ) (m : Notes D) → assumed (size_or_default o m).1 ≡ assumed m
  unfolding size_or_default apply_default
  assumed-size none m = refl
  assumed-size (some s) m = refl

  assumed-close :
      (o : Option String) (f : String) (m : Notes D)
      → assumed (close_or_default o f m).1 ≡ assumed m
  unfolding close_or_default
  assumed-close o f m = assumed-text o _ _ _ m

  pub defaulted-text :
      (o : Option String) (f default reason : String) (m : Notes D)
      → defaulted (text_or_default o f default reason m).1 ≡ defaulted m ++ missing o f
  unfolding text_or_default apply_default
  defaulted-text none f default reason m = map-append _ m.defaults _
  defaulted-text (some s) f default reason m = sym (append-nil (defaulted m))

  pub defaulted-size :
      (o : Option ℕ) (m : Notes D)
      → defaulted (size_or_default o m).1
        ≡ defaulted m ++ missing o "execution.position_size_percent"
  unfolding size_or_default apply_default
  defaulted-size none m = map-append _ m.defaults _
  defaulted-size (some s) m = sym (append-nil (defaulted m))

  defaulted-name :
      (o : Option IndicatorName) (f : String) (m : Notes D)
      → defaulted (name_or_sma o f m).1 ≡ defaulted m
  unfolding name_or_sma assume
  defaulted-name none f m = refl
  defaulted-name (some s) f m = refl

  -- What a call adds to the fields that a view of the notes lists.
  abbrev pub Adds :
      {A : Type 0} → (Notes D → List String) → Notes D → List String → A × Notes D → Type 0
  Adds view m own a = view a.1 ≡ view m ++ own

  assumed-indicator :
      (o : OperandDraft D) (period : Option ℤ) (f : String) (m : Notes D)
      → IfOk (Adds assumed m (missing o.name (f <> ".name"))) (normalize_indicator o period f m)
  unfolding normalize_indicator
  assumed-indicator o none f m = tt
  assumed-indicator o (some period) f m =
      assumed-close o.source f (name_or_sma o.name f m).1 ∙ assumed-name o.name f m

  assumed-constant :
      (v : Option D) (f : String) (m : Notes D)
      → IfOk (Adds assumed m []) (normalize_constant v f m)
  unfolding normalize_constant
  assumed-constant none f m = tt
  assumed-constant (some v) f m = sym (append-nil (assumed m))

  defaulted-constant :
      (v : Option D) (f : String) (m : Notes D)
      → IfOk (Adds defaulted m []) (normalize_constant v f m)
  unfolding normalize_constant
  defaulted-constant none f m = tt
  defaulted-constant (some v) f m = sym (append-nil (defaulted m))

  defaulted-indicator :
      (o : OperandDraft D) (period : Option ℤ) (f : String) (m : Notes D)
      → IfOk
          (Adds defaulted m (missing o.source (f <> ".source")))
          (normalize_indicator o period f m)
  unfolding normalize_indicator close_or_default
  defaulted-indicator o none f m = tt
  defaulted-indicator o (some period) f m =
      rw
        (
          defaulted-text o.source (f <> ".source") _ _ (name_or_sma o.name f m).1,
          defaulted-name o.name f m,
        )
        refl

  assumed-typed :
      (t : OperandType) (o : OperandDraft D) (f : String) (m : Notes D)
      → IfOk (Adds assumed m (unnamed_of t o f)) (normalize_typed t o f m)
  unfolding normalize_typed
  assumed-typed OperandType.indicator o f m = assumed-indicator o o.period f m
  assumed-typed OperandType.price o f m = assumed-close o.source f m ∙ sym (append-nil (assumed m))
  assumed-typed OperandType.constant o f m = assumed-constant o.value f m

  defaulted-typed :
      (t : OperandType) (o : OperandDraft D) (f : String) (m : Notes D)
      → IfOk (Adds defaulted m (unsourced_of t o f)) (normalize_typed t o f m)
  unfolding normalize_typed close_or_default
  defaulted-typed OperandType.indicator o f m = defaulted-indicator o o.period f m
  defaulted-typed OperandType.price o f m = defaulted-text o.source (f <> ".source") _ _ m
  defaulted-typed OperandType.constant o f m = defaulted-constant o.value f m

  -- A view of the notes to which each operand adds what `own` says of it.
  abbrev pub IsKept : (Notes D → List String) → (OperandDraft D → String → List String) → Type 0
  IsKept view own =
      (o : OperandDraft D) (f : String) (m : Notes D)
      → IfOk (Adds view m (own o f)) (normalize_operand o f m)

  pub assumed-IsKept : IsKept assumed unnamed
  unfolding normalize_operand
  assumed-IsKept o f m = assumed-typed o.type o f m

  pub defaulted-IsKept : IsKept defaulted unsourced
  unfolding normalize_operand
  defaulted-IsKept o f m = defaulted-typed o.type o f m
