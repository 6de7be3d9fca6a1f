-- ===== src/Jobs/World.antt =====
-- What the code of the jobs reads and changes outside of itself, and its exceptions. The world is
-- passed from call to call and comes back after a raise too: what was committed stays committed.
use agentic_trading_platform.Prelude.{
  ℕ, suc, Bool, Option, none, some, List, [], String, ◌⊎◌, inl, inr,
}
use agentic_trading_platform.Jobs.Model.{PreviewJob}

-- The classes of exception that the code tells apart. `rejected` stands for the validation and
-- compilation errors of a strategy and for missing market data, with the message;
-- `transient_database` for the three classes of `TRANSIENT_DATABASE_ERRORS`; `unexpected` for any
-- other class.
pub data JobError : Type 0 where
  rejected : String → JobError
  provider_timeout parser_error transient_database transient_preview_job unexpected : JobError

-- What the queue is given for one job.
pub record Payload : Type 0 where
  pub job_id : ℕ
  pub user_id : ℕ
  pub strategy_text : String
  pub strategy_name : Option String
  pub retry_count : Option ℕ

-- What the outside answers, by the number of the interaction: the clock, whether a statement of the
-- database raises, whether a lock is free, how long a sleep overruns, and whether the queue raises.
-- `postgresql` is the dialect test.
pub record Environment : Type 0 where
  pub clock : ℕ → ℕ
  pub database : ℕ → Option JobError
  pub postgresql : Bool
  pub lock_free : ℕ → ℕ → Bool
  pub overrun : ℕ → ℕ
  pub queue : ℕ → Option JobError

-- The table of jobs, the advisory locks that the session holds, the milliseconds of the monotonic
-- clock, the payloads given to the queue, and the number of interactions so far.
pub record World (R : Type 0) : Type 0 where
  pub jobs : List (PreviewJob R)
  pub held : List ℕ
  pub monotonic : ℕ
  pub payloads : List Payload
  pub step : ℕ

pub data Outcome (R A : Type 0) : Type 0 where
  returns : A → World R → Outcome R A
  raises : JobError → World R → Outcome R A

abbrev pub Action : Type 0 → Type 0 → Type 0
Action R A = World R → Outcome R A

module _ {R : Type 0} where
  infixl 5 ◌>>=◌ ◌>>◌
  -- The world that a call leaves.
  abbrev pub world_of : {A : Type 0} → Outcome R A → World R
  world_of (returns a w) = w
  world_of (raises e w) = w

  abbrev pub continue : {A B : Type 0} → Outcome R A → (A → Action R B) → Outcome R B
  continue (returns a w) f = f a w
  continue (raises e w) f = raises e w

  abbrev pub ◌>>=◌ : {A B : Type 0} → Action R A → (A → Action R B) → Action R B
  ◌>>=◌ m f w = continue (m w) f

  abbrev pub ◌>>◌ : {A B : Type 0} → Action R A → Action R B → Action R B
  m >> k = m >>= λ _. k

  abbrev pub pure : {A : Type 0} → A → Action R A
  pure a w = returns a w

  abbrev pub raise : {A : Type 0} → JobError → Action R A
  raise e w = raises e w

  -- `try: a = m` with the handler `except` and the rest `after`, whose own exceptions pass.
  abbrev pub branch :
      {A B : Type 0} → Outcome R A → (JobError → Action R B) → (A → Action R B) → Outcome R B
  branch (returns a w) except after = after a w
  branch (raises e w) except after = except e w

  abbrev pub attempt :
      {A B : Type 0} → Action R A → (JobError → Action R B) → (A → Action R B) → Action R B
  attempt m except after w = branch (m w) except after

  -- `try: m` with `except`.
  abbrev pub handle : {A : Type 0} → Action R A → (JobError → Action R A) → Action R A
  handle m except = attempt m except pure

  -- `try: m` with `finally: cleanup`, whose exception takes the place of the outcome.
  abbrev pub finally_do : {A : Type 0} → Action R A → Action R Unit → Action R A
  finally_do m cleanup = attempt m (λ e. cleanup >> raise e) (λ a. cleanup >> pure a)

  abbrev pub next : World R → World R
  next w = record w { step = suc w.step }

  abbrev pub raise_fault : Option JobError → Action R Unit
  raise_fault none w = returns tt (next w)
  raise_fault (some e) w = raises e (next w)

  -- A statement of the database that changes no row.
  abbrev pub statement : Environment → Action R Unit
  statement env w = raise_fault (env.database w.step) w

  -- The statement and the commit that leave the table with these rows; the transaction is rolled
  -- back when they raise.
  abbrev pub commit : Environment → List (PreviewJob R) → Action R Unit
  commit env jobs = do statement env; λ w. returns tt (record w { jobs = jobs })

  -- `datetime.now(UTC)`
  abbrev pub now : Environment → Action R ℕ
  now env w = returns (env.clock w.step) (next w)

  abbrev pub rollback : Action R Unit
  rollback w = returns tt w

  -- `session.invalidate()`: the connection is closed, which frees its locks.
  abbrev pub invalidate : Action R Unit
  invalidate w = returns tt (record w { held = [] })

  -- What the code outside answers to a call, by the number of the interaction.
  abbrev pub answered : {A : Type 0} → JobError ⊎ A → Action R A
  answered (inl e) w = raises e w
  answered (inr a) w = returns a w

  abbrev pub ask : {A : Type 0} → (ℕ → JobError ⊎ A) → Action R A
  ask question w = answered (question w.step) (next w)
