-- ===== src/Prelude/Results.antt =====
-- Python exceptions as values: the classes that the code raises, with their messages, and the
-- chain of calls that may raise.
use Prim.Native.String.{String}
use mathlib.Core.Bool.{Bool, true, false}
use mathlib.Core.Path.{◌≡◌, refl}
use mathlib.Core.List.{List}
use agentic_trading_platform.Prelude.Lists.{Extends}
use agentic_trading_platform.Prelude.Tests.{if◌then◌else◌}

pub data Error : Type 0 where
  value_error : String → Error
  runtime_error : String → Error
  validation_error : String → Error
  compilation_error : String → Error
  data_unavailable : String → Error
  parser_error provider_error provider_refusal : String → Error
  provider_timeout malformed_output : String → Error
  database_error : String → Error
  division_by_zero : Error

pub data Result {ℓ} (A : Type ℓ) : Type ℓ where
  ok : A → Result A
  err : Error → Result A

module _ {ℓ κ} {A : Type ℓ} {B : Type κ} where
  infixl 5 ◌>>=◌
  -- The rest of a block behind a call: an exception skips it.
  abbrev pub ◌>>=◌ : Result A → (A → Result B) → Result B
  err raised >>= rest = err raised
  ok value >>= rest = rest value

-- `if bad: raise e`
abbrev pub raise_if : Bool → Error → Result (Unit {0})
raise_if true e = err e
raise_if false e = ok tt

module _ {ℓ} {B : Type ℓ} where
  infixl 5 ◌>>◌
  abbrev pub ◌>>◌ : Result (Unit {0}) → Result B → Result B
  check >> rest = check >>= λ _. rest

  -- A block that returned had a check that passed, and so did the rest of it.
  pub >>-eq-ok :
      (check : Result (Unit {0})) (rest : Result B) {b : B}
      → (check >> rest) ≡ ok b
      → (check ≡ ok tt) × (rest ≡ ok b)
  >>-eq-ok (err raised) rest h = cc
  >>-eq-ok (ok tt) rest h = (refl, h)

module _ {ℓ κ} {A : Type ℓ} {B : Type κ} where
  -- A block that returned had a call that did, and the rest of it did on the call's value.
  pub >>=-eq-ok :
      (call : Result A) (rest : A → Result B) {b : B}
      → (call >>= rest) ≡ ok b
      → (a : A) × (call ≡ ok a) × (rest a ≡ ok b)
  >>=-eq-ok (err raised) rest h = cc
  >>=-eq-ok (ok value) rest h = (value, refl, h)

-- The second call raises as the first does, or gives a list that begins with what the first gives.
pub data Grows {ℓ} {A : Type ℓ} : Result (List A) → Result (List A) → Type ℓ where
  grown : {before after : List A} → Extends before after → Grows (ok before) (ok after)
  raised : {e : Error} → Grows (err e) (err e)

pub Grows-ok {ℓ} :
    {A : Type ℓ} {m n : Result (List A)} {before after : List A}
    → Grows m n
    → m ≡ ok before
    → n ≡ ok after
    → Extends before after
Grows-ok (grown h) p q = (h.0, cc)
Grows-ok raised p q = absurd (cc)

-- A call behind one that grows grows, if it does so on what the first call may give.
pub Grows->>= {ℓ κ} :
    {A : Type ℓ} {B : Type κ} {m n : Result (List A)} (f g : List A → Result (List B))
    → ((before after : List A) → m ≡ ok before → Extends before after → Grows (f before) (g after))
    → Grows m n
    → Grows (m >>= f) (n >>= g)
Grows->>= f g step (grown {before} {after} h) = step before after refl h
Grows->>= f g step raised = raised

-- The call does not raise, and what it returns satisfies `P`.
pub data Returns {ℓ κ} {A : Type ℓ} (P : A → Type κ) : Result A → Type (ℓ ⊔ κ) where
  returned : {a : A} → P a → Returns P (ok a)

module _ {ℓ κ} {A : Type ℓ} {P : A → Type κ} where
  pub Returns->>= {μ ν} :
      {B : Type μ} {Q : B → Type ν} {m : Result A} (f : A → Result B)
      → ((a : A) → P a → Returns Q (f a))
      → Returns P m
      → Returns Q (m >>= f)
  Returns->>= f step (returned {a} p) = step a p

  pub Returns-ok : {m : Result A} → Returns P m → (a : A) × (m ≡ ok a) × P a
  Returns-ok (returned {a} p) = (a, refl, p)

pub >>=_assoc {ℓ κ μ} :
    {A : Type ℓ} {B : Type κ} {C : Type μ} (m : Result A) (f : A → Result B) (g : B → Result C)
    → ((m >>= f) >>= g) ≡ (m >>= λ a. f a >>= g)
>>=_assoc (ok a) f g = refl
>>=_assoc (err e) f g = refl

pub Returns-map {ℓ κ μ} :
    {A : Type ℓ} {P : A → Type κ} {Q : A → Type μ} {m : Result A}
    → ((a : A) → P a → Q a)
    → Returns P m
    → Returns Q m
Returns-map f (returned {a} p) = returned (f a p)

-- What holds of a result if there is one.
abbrev pub IfOk : {A : Type 0} → (A → Type 0) → Result A → Type 0
IfOk P (ok a) = P a
IfOk P (err e) = Unit

pub IfOk->>= :
    {A B : Type 0} {P : A → Type 0} (Q : B → Type 0) (m : Result A) (rest : A → Result B)
    → IfOk P m
    → ((a : A) → P a → IfOk Q (rest a))
    → IfOk Q (m >>= rest)
IfOk->>= Q (ok a) rest p step = step a p
IfOk->>= Q (err e) rest p step = tt

pub IfOk-any :
    {A B : Type 0} (Q : B → Type 0) (m : Result A) (rest : A → Result B)
    → ((a : A) → IfOk Q (rest a))
    → IfOk Q (m >>= rest)
IfOk-any Q (ok a) rest step = step a
IfOk-any Q (err e) rest step = tt

pub IfOk-map :
    {A : Type 0} (P Q : A → Type 0) (m : Result A) → IfOk P m → ((a : A) → P a → Q a) → IfOk Q m
IfOk-map P Q (ok a) p step = step a p
IfOk-map P Q (err e) p step = tt

pub IfOk-if :
    {A : Type 0} (Q : A → Type 0) (test : Bool) (m n : Result A)
    → IfOk Q m
    → IfOk Q n
    → IfOk Q (if test then m else n)
IfOk-if Q true m n p q = p
IfOk-if Q false m n p q = q

-- The call returns what satisfies `P`, or raises a ValueError.
pub data Checked {ℓ κ} {A : Type ℓ} (P : A → Type κ) : Result A → Type (ℓ ⊔ κ) where
  passes : {a : A} → P a → Checked P (ok a)
  refuses : {message : String} → Checked P (err (value_error message))

pub Checked->>= {ℓ κ μ ν} :
    {A : Type ℓ} {B : Type μ} {P : A → Type κ} (Q : B → Type ν) {m : Result A} (f : A → Result B)
    → Checked P m
    → ((a : A) → P a → Checked Q (f a))
    → Checked Q (m >>= f)
Checked->>= Q f (passes {a} p) step = step a p
Checked->>= Q f refuses step = refuses

pub Checked-raise_if :
    (test : Bool) (message : String)
    → Checked (λ _. test ≡ false) (raise_if test (value_error message))
Checked-raise_if true message = refuses
Checked-raise_if false message = passes refl
