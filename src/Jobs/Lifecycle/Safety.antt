-- ===== src/Jobs/Lifecycle/Safety.antt =====
-- What the worker and a run of a job never do, and what they have done when they return.
use agentic_trading_platform.Prelude.{
  ℕ, ◌≡◌, ◌≢◌, refl, ◌∙◌, Bool, true, false, Option, some, [], String, ◌⊎◌, inl, inr, All,
}
use agentic_trading_platform.Jobs.Model.{PreviewJob, is_nonterminal}
use agentic_trading_platform.Jobs.World.{
  Environment, World, Outcome, JobError, transient_preview_job, returns, raises, world_of,
}
use agentic_trading_platform.Jobs.Ends.{Ends, ended, failed_with, Ends-world_of, Ends-raises, On}
use agentic_trading_platform.Jobs.Rows.{find_job}
use agentic_trading_platform.Jobs.Store.{is_eligible}
use agentic_trading_platform.Jobs.Service.{Workflow, Settings, run_preview_job}
use agentic_trading_platform.Jobs.Worker.{process_preview_job}
use agentic_trading_platform.Jobs.Lifecycle.{
  Evolution, Evolution-terminal, Evolution-IsWellFormed, Evolution-other, IsWellFormed,
}
use agentic_trading_platform.Jobs.Lifecycle.Saves.{IsFinal, Reached}
use agentic_trading_platform.Jobs.Lifecycle.Run.{Ran, run_preview_job-Ends}
use agentic_trading_platform.Jobs.Lifecycle.Worker.{process_preview_job-Ends}

module _ {R P V : Type 0} (env : Environment) (settings : Settings) (uuid : String → Option ℕ)
    (from_settings : ℕ → JobError ⊎ Workflow P V R) (retries_left : Option ℕ) (text : String)
    (w : World R) where
  -- The world that `process_preview_job` leaves.
  abbrev pub after : World R
  after = world_of (process_preview_job env settings uuid from_settings retries_left text w)

  evolved : (id : ℕ) → uuid text ≡ some id → w.held ≡ [] → Evolution id w.jobs after.jobs
  evolved id e h =
      Ends-world_of (λ w'. Evolution id w.jobs w'.jobs) (λ _ w q. q.0) (λ _ w q. q.1.0)
        (process_preview_job-Ends env settings uuid from_settings retries_left text id w e h)

  -- For a payload whose identifier reads as `id` and a session without locks, whatever the
  -- environment answers: a row that is completed or failed before `process_preview_job` is the same
  -- after it, whether it returns or raises, and so is the row of any identifier other than `id`.
  pub process_preview_job_keeps_terminal :
      (id other : ℕ) (row : PreviewJob R)
      → uuid text ≡ some id
      → w.held ≡ []
      → find_job other w.jobs ≡ some row
      → (is_nonterminal row.status ≡ false) ⊎ (other ≢ id)
      → find_job other after.jobs ≡ some row
  process_preview_job_keeps_terminal id other row e h found (inl final) =
      Evolution-terminal other found final (evolved id e h)
  process_preview_job_keeps_terminal id other row e h found (inr differ) =
      Evolution-other differ (evolved id e h) ∙ found

  -- For a payload whose identifier reads and a session without locks: if each row is well formed
  -- (its stage is one of its status, its progress at most 100, a completed row has a result, a failed
  -- one a message, and both the time of their end) before `process_preview_job`, each one is so after
  -- it, whether it returns or raises.
  pub process_preview_job-IsWellFormed :
      (id : ℕ)
      → uuid text ≡ some id
      → w.held ≡ []
      → All IsWellFormed w.jobs
      → All IsWellFormed after.jobs
  process_preview_job-IsWellFormed id e h good = Evolution-IsWellFormed good (evolved id e h)

  -- For a payload whose identifier reads and a session without locks: after `process_preview_job`
  -- the session holds no lock, whether it returns or raises, and it raises nothing but the transient
  -- error, which the queue retries.
  pub process_preview_job_releases :
      (id : ℕ)
      → uuid text ≡ some id
      → w.held ≡ []
      → (after.held ≡ [])
        × ((e : JobError) (w' : World R)
            → process_preview_job env settings uuid from_settings retries_left text w ≡ raises e w'
            → e ≡ transient_preview_job)
  process_preview_job_releases id e h =
      let ends =
        process_preview_job-Ends env settings uuid from_settings retries_left text id w e h in
      (
        Ends-world_of (λ w'. w'.held ≡ []) (λ _ w q. q.1) (λ _ w q. q.1.1) ends,
        λ error w' same. Ends-raises ends same,
      )

-- An outcome of a run for the row of `id` in a table: true leaves no row to go on with; false leaves
-- the table alone and means that there was no row to claim; an exception leaves transitions of the
-- row.
abbrev pub IsOutcome : {R : Type 0} → Environment → ℕ → Bool → World R → Outcome R Bool → Type 0
IsOutcome {R} env id allow w (returns true w') =
    Evolution id w.jobs w'.jobs × IsFinal id w'.jobs × (w'.held ≡ w.held)
IsOutcome {R} env id allow w (returns false w') =
    (w'.jobs ≡ w.jobs)
    × ((row : PreviewJob R) → find_job id w'.jobs ≡ some row → is_eligible env allow row ≡ false)
    × (w'.held ≡ w.held)
IsOutcome {R} env id allow w (raises e w') = Evolution id w.jobs w'.jobs × (w'.held ≡ w.held)

Ends-IsOutcome :
    {R : Type 0} (env : Environment) (id : ℕ) (allow : Bool) (w : World R) {m : Outcome R Bool}
    → Ends
        (λ result. On (Ran env id w.jobs w.held allow result))
        (λ _. On (Reached env id w.jobs w.held))
        m
    → IsOutcome env id allow w m
Ends-IsOutcome env id allow w (ended {a = true} q) = (q.0.0, q.1, q.0.1)
Ends-IsOutcome env id allow w (ended {a = false} q) = (q.0, q.2, q.1)
Ends-IsOutcome env id allow w (failed_with q) = q

-- A run of a job has one of three outcomes, whatever the environment and the provider answer. When
-- `run_preview_job` returns true, the row is completed, failed or not there. When it returns false,
-- the table is the same and the row, if any, was not one to claim: not queued and, where a running
-- one may be claimed again, not running. When it raises, the row has made transitions of its life
-- only. The session's locks are the same in each case.
pub run_preview_job-IsOutcome :
    {R P V : Type 0} (env : Environment) (workflow : Workflow P V R) (id : ℕ) (allow : Bool)
    (w : World R)
    → IsOutcome env id allow w (run_preview_job env workflow id allow w)
run_preview_job-IsOutcome env workflow id allow w =
    Ends-IsOutcome env id allow w
      (run_preview_job-Ends env id w.jobs w.held workflow allow w refl refl)
