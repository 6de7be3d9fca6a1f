-- ===== src/Api/Texts.antt =====
-- The texts of a body that was read are within the limits of a row.
use agentic_trading_platform.Prelude.{
  ◌≡◌, Bool, true, ◌&&◌, ◌||◌, inl, inr, some, String, arith, Bool-cases, if_some, if_not_some,
  subst,
}
use agentic_trading_platform.Strategy.Reading.{Reading}
use agentic_trading_platform.Api.Model.{Strategy, IsWellFormed}
use agentic_trading_platform.Api.Requests.{
  Field, unset, null, value, StrategyCreate, StrategyUpdate, ConfirmedStrategySaveRequest, is_name,
  is_source_text, strip_field, is_null, accepted, validate_confirmation_metadata, read_create,
  read_update, read_confirmed,
}
use agentic_trading_platform.Api.Handlers.{set_text}

-- A text of a new or a changed row.
abbrev pub AreTexts : String → String → Type 0
AreTexts name source_text = (is_name name ≡ true) × (is_source_text source_text ≡ true)

pub well_formed :
    {D : Type 0} (strategy : Strategy D)
    → AreTexts strategy.name strategy.source_text
    → IsWellFormed strategy
well_formed strategy (p, q) = record {
  name_there = ground arith;
  name_short = ground arith;
  text_there = ground arith;
}

abbrev pub IsField : (String → Bool) → Field String → Type 0
IsField test unset = Unit {0}
IsField test null = Unit {0}
IsField test (value text) = test text ≡ true

pub set_text-IsField :
    (test : String → Bool) (field : Field String) (old : String)
    → IsField test field
    → test old ≡ true
    → test (set_text field old) ≡ true
set_text-IsField test unset old f t = t
set_text-IsField test null old f t = t
set_text-IsField test (value text) old f t = f

pub strip_field-IsField :
    ⦃r : Reading⦄ (test : String → Bool) (field : Field String)
    → IsField test (strip_field test field)
strip_field-IsField test unset = tt
strip_field-IsField test null = tt
strip_field-IsField ⦃r⦄ test (value text) = elim (Bool-cases (test (r.strip text))) [
  | inl p ↦ rw p p
  | inr p ↦ rw p tt
]

abbrev pub AreFields : {D : Type 0} → StrategyUpdate D → Type 0
AreFields p = IsField is_name p.name × IsField is_source_text p.source_text

pub read_update-AreFields :
    {D : Type 0} ⦃r : Reading⦄ (body p : StrategyUpdate D) → read_update body ≡ some p → AreFields p
unfolding read_update
read_update-AreFields body p h =
    let name = strip_field-IsField is_name body.name in
    let text = strip_field-IsField is_source_text body.source_text in
    let same =
      if_not_some
        (is_null (strip_field is_name body.name)
          || is_null (strip_field is_source_text body.source_text))
        _ h in
    subst AreFields same (name, text)

pub read_create-AreTexts :
    {D : Type 0} ⦃r : Reading⦄ (body p : StrategyCreate D)
    → read_create body ≡ some p
    → AreTexts p.name p.source_text
unfolding read_create
read_create-AreTexts ⦃r⦄ body p h =
    let (both, same) =
      if_some (is_name (r.strip body.name) && is_source_text (r.strip body.source_text)) _ h in
    subst (λ q. AreTexts q.name q.source_text) same (ground arith, ground arith)

pub read_confirmed-AreTexts :
    {D : Type 0} ⦃r : Reading⦄ (body p : ConfirmedStrategySaveRequest D)
    → read_confirmed body ≡ some p
    → AreTexts p.name p.source_text
unfolding read_confirmed
read_confirmed-AreTexts ⦃r⦄ body p h =
    let (both, same) =
      if_some
        (is_name (r.strip body.name)
          && is_source_text (r.strip body.source_text)
          && accepted (validate_confirmation_metadata body))
        _ h in
    subst (λ q. AreTexts q.name q.source_text) same (ground arith, ground arith)
