-- ===== src/Strategy/Draft.antt =====
-- backend/app/schemas/strategy_spec.py: what the language model fills in, and the result of the
-- parser with what was added to it. The union in `inferred_value` has the cases that are built.
use agentic_trading_platform.Prelude.{ℕ, Bool, Option, List, String}
use agentic_trading_platform.Prelude.Int.{ℤ}
use agentic_trading_platform.Strategy.Spec.{IndicatorName, Operator, StrategySpecification}

pub data OperandType : Type 0 where
  indicator price constant : OperandType

pub record OperandDraft (D : Type 0) : Type 0 where
  pub type : OperandType
  pub name : Option IndicatorName
  pub source : Option String
  pub period : Option ℤ
  pub value : Option D

pub record ConditionDraft (D : Type 0) : Type 0 where
  pub left : OperandDraft D
  pub operator : Option Operator
  pub right : OperandDraft D

pub record StrategyParseDraft (D : Type 0) : Type 0 where
  pub symbol : Option String
  pub interval : Option String
  pub entry : Option (ConditionDraft D)
  pub exit : Option (ConditionDraft D)
  pub direction : Option String
  pub position_size_percent : Option ℕ
  pub signal_execution : Option String

pub data AssumptionConfidence : Type 0 where
  high medium low : AssumptionConfidence

-- `rule` and `rules` are dictionaries of conditions.
pub data InferredValue (D : Type 0) : Type 0 where
  word : String → InferredValue D
  rule : ConditionDraft D → InferredValue D
  rules : ConditionDraft D → ConditionDraft D → InferredValue D

pub record StrategyAssumption (D : Type 0) : Type 0 where
  pub field : String
  pub inferred_value : InferredValue D
  pub reason : String
  pub confidence : AssumptionConfidence
  pub requires_confirmation : Bool

pub data DefaultValue : Type 0 where
  word : String → DefaultValue
  number : ℕ → DefaultValue

pub record AppliedDefault : Type 0 where
  pub field : String
  pub value : DefaultValue
  pub reason : String

pub record ParsedStrategyResult (D : Type 0) : Type 0 where
  pub specification : StrategySpecification D
  pub assumptions : List (StrategyAssumption D)
  pub defaults_applied : List AppliedDefault
  pub requires_confirmation : Bool
  pub original_text : String
