-- ===== src/Jobs/Ends.antt =====
-- How a call ends: what holds of its result and the world, or of its exception and the world.
use agentic_trading_platform.Prelude.{
  ◌≡◌, refl, subst, Bool, true, false, Option, none, some, ◌⊎◌, inl, inr, ℕ, List, if◌then◌else◌,
}
use agentic_trading_platform.Jobs.Model.{PreviewJob}
use agentic_trading_platform.Jobs.World.{
  World, Outcome, world_of, returns, raises, Action, JobError, continue, branch, raise_fault, next,
  statement, commit, Environment, ask, answered,
}

pub data Ends {R A : Type 0} (Q : A → World R → Type 0) (E : JobError → World R → Type 0)
    : Outcome R A → Type 0 where
  ended : {a : A} {w : World R} → Q a w → Ends Q E (returns a w)
  failed_with : {e : JobError} {w : World R} → E e w → Ends Q E (raises e w)

module _ {R A : Type 0} {Q : A → World R → Type 0} {E : JobError → World R → Type 0} where
  pub Ends-continue :
      {B : Type 0} {T : B → World R → Type 0} {m : Outcome R A} (f : A → Action R B)
      → Ends Q E m
      → ((a : A) (w : World R) → Q a w → Ends T E (f a w))
      → Ends T E (continue m f)
  Ends-continue f (ended {a} {w} q) step = step a w q
  Ends-continue f (failed_with e) step = failed_with e

  pub Ends-branch :
      {B : Type 0} {T : B → World R → Type 0} {F : JobError → World R → Type 0} {m : Outcome R A}
      (except : JobError → Action R B) (after : A → Action R B)
      → Ends Q E m
      → ((e : JobError) (w : World R) → E e w → Ends T F (except e w))
      → ((a : A) (w : World R) → Q a w → Ends T F (after a w))
      → Ends T F (branch m except after)
  Ends-branch except after (ended {a} {w} q) on_error step = step a w q
  Ends-branch except after (failed_with {e} {w} q) on_error step = on_error e w q

  pub Ends-map :
      {T : A → World R → Type 0} {F : JobError → World R → Type 0} {m : Outcome R A}
      → ((a : A) (w : World R) → Q a w → T a w)
      → ((e : JobError) (w : World R) → E e w → F e w)
      → Ends Q E m
      → Ends T F m
  Ends-map f g (ended {a} {w} q) = ended (f a w q)
  Ends-map f g (failed_with {e} {w} q) = failed_with (g e w q)

pub Ends-world_of :
    {R A : Type 0} {Q : A → World R → Type 0} {E : JobError → World R → Type 0} {m : Outcome R A}
    (P : World R → Type 0)
    → ((a : A) (w : World R) → Q a w → P w)
    → ((e : JobError) (w : World R) → E e w → P w)
    → Ends Q E m
    → P (world_of m)
Ends-world_of P f g (ended {a} {w} q) = f a w q
Ends-world_of P f g (failed_with {e} {w} q) = g e w q

raised_same :
    {R A : Type 0} {e f : JobError} {v w : World R}
    → Path (Outcome R A) (raises e v) (raises f w)
    → e ≡ f
raised_same h = cc

pub Ends-raises :
    {R A : Type 0} {Q : A → World R → Type 0} {P : JobError → Type 0} {I : World R → Type 0}
    {m : Outcome R A} {e : JobError} {w : World R}
    → Ends Q (λ e w. P e × I w) m
    → m ≡ raises e w
    → P e
Ends-raises {P = P} (failed_with q) h = subst P (raised_same h) q.0
Ends-raises (ended q) h = absurd (cc)

pub if-Ends :
    {R A : Type 0} {Q : A → World R → Type 0} {E : JobError → World R → Type 0} (test : Bool)
    (m n : Action R A) (w : World R)
    → (test ≡ true → Ends Q E (m w))
    → (test ≡ false → Ends Q E (n w))
    → Ends Q E ((if test then m else n) w)
if-Ends true m n w h k = h refl
if-Ends false m n w h k = k refl

-- A predicate of the table and of the locks held, on a world.
abbrev pub On : {R : Type 0} → (List (PreviewJob R) → List ℕ → Type 0) → World R → Type 0
On P w = P w.jobs w.held

module _ {R : Type 0} where
  raise_fault-Ends :
      (P : List (PreviewJob R) → List ℕ → Type 0) (fault : Option JobError) (w : World R)
      → On P w
      → Ends (λ _. On P) (λ _. On P) (raise_fault fault w)
  raise_fault-Ends P none w h = ended h
  raise_fault-Ends P (some e) w h = failed_with h

  pub enqueue-Ends :
      (P : List (PreviewJob R) → List ℕ → Type 0) (env : Environment) (w : World R)
      → On P w
      → Ends (λ _. On P) (λ _. On P) (raise_fault (env.queue w.step) w)
  enqueue-Ends P env w h = raise_fault-Ends P (env.queue w.step) w h

  pub statement-Ends :
      (P : List (PreviewJob R) → List ℕ → Type 0) (env : Environment) (w : World R)
      → On P w
      → Ends (λ _. On P) (λ _. On P) (statement env w)
  statement-Ends P env w h = raise_fault-Ends P (env.database w.step) w h

  pub statement_then-Ends :
      (P Q : List (PreviewJob R) → List ℕ → Type 0) (env : Environment) (w : World R)
      → On P w
      → On Q w
      → Ends (λ _. On Q) (λ _. On P) (statement env w)
  statement_then-Ends P Q env w h k =
      Ends-map (λ _ w q. q.1) (λ _ w q. q.0)
        (statement-Ends (λ jobs held. P jobs held × Q jobs held) env w (h, k))

  -- A commit leaves the rows it is given, or what there was.
  pub commit-Ends :
      (P Q : List (PreviewJob R) → List ℕ → Type 0) (env : Environment) (jobs : List (PreviewJob R))
      (w : World R)
      → On P w
      → Q jobs w.held
      → Ends (λ _. On Q) (λ _. On P) (commit env jobs w)
  commit-Ends P Q env jobs w h k = commit_fault (env.database w.step) w h k
    where
      commit_fault :
          (fault : Option JobError) (w : World R)
          → On P w
          → Q jobs w.held
          → Ends
              (λ _. On Q)
              (λ _. On P)
              (continue (raise_fault fault w) (λ _ w. returns tt (record w { jobs = jobs })))
      commit_fault none w h k = ended k
      commit_fault (some e) w h k = failed_with h

  pub answered-Ends :
      {A : Type 0} (P : List (PreviewJob R) → List ℕ → Type 0) (answer : JobError ⊎ A) (w : World R)
      → On P w
      → Ends (λ _. On P) (λ _. On P) (answered answer w)
  answered-Ends P (inl e) w h = failed_with h
  answered-Ends P (inr a) w h = ended h

  pub ask-Ends :
      {A : Type 0} (P : List (PreviewJob R) → List ℕ → Type 0) (question : ℕ → JobError ⊎ A)
      (w : World R)
      → On P w
      → Ends (λ _. On P) (λ _. On P) (ask question w)
  ask-Ends P question w h = answered-Ends P (question w.step) (next w) h
