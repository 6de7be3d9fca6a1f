-- ===== src/Jobs/Service.antt =====
-- backend/app/services/preview_job_service.py: a job is submitted, and a job is run.
use agentic_trading_platform.Prelude.{ℕ, Bool, true, false, Option, none, some, ◌∷◌, String, ◌⊎◌}
use agentic_trading_platform.Jobs.Model.{
  PreviewJob, validating, compiling, loading_data, backtesting, generating_results,
}
use agentic_trading_platform.Jobs.World.{
  Environment, Action, JobError, rejected, provider_timeout, parser_error, transient_database,
  transient_preview_job, unexpected, Payload, ◌>>=◌, ◌>>◌, pure, raise, attempt, handle, finally_do,
  ask, answered, rollback, invalidate, raise_fault, returns,
}
use agentic_trading_platform.Jobs.Store.{
  acquire_preview_job_lock, create_job, fail_job, release_preview_job_lock, claim_job,
  update_progress, complete_job, transition_job_after_operational_failure,
}

-- The parser and the preview factory, whose answers may depend on the number of the interaction, and
-- the serialization of a preview; each may raise. `P` is the type of a parsed strategy, `V` the one of
-- a preview. Jobs.Program has the workflow that the program runs with.
pub record Workflow (P V R : Type 0) : Type 0 where
  pub parse : ℕ → String → JobError ⊎ P
  pub preview_factory : ℕ → P → JobError ⊎ V
  pub serialize_preview : P → V → JobError ⊎ R

pub record Settings : Type 0 where
  pub lock_wait : ℕ
  pub poll_interval : ℕ
  pub ttl_hours : ℕ
  pub max_retries : ℕ

-- The poll interval is the default of `acquire_preview_job_lock`, 50 milliseconds.
abbrev pub final_error : String
final_error = "Unable to complete the strategy preview."

module _ {R : Type 0} (env : Environment) where
  -- `queue.enqueue`
  abbrev pub enqueue : Payload → Action R Unit
  enqueue payload = do
    λ w. raise_fault (env.queue w.step) w
    λ w. returns tt (record w { payloads = payload ∷ w.payloads })

  abbrev pub release_or_invalidate : ℕ → Action R Unit
  release_or_invalidate job_id =
      handle (rollback >> release_preview_job_lock env job_id) (λ _. invalidate)

  abbrev pub create_and_enqueue : Settings → ℕ → ℕ → String → Option String → Action R ℕ
  create_and_enqueue settings job_id user_id strategy_text strategy_name = do
    job ← create_job env (some job_id) job_id user_id strategy_text strategy_name settings.ttl_hours
    handle
        (enqueue (record {
          job_id = job.id;
          user_id = user_id;
          strategy_text = strategy_text;
          strategy_name = strategy_name;
          retry_count = none;
        }))
        (λ e. fail_job env job "Unable to queue the strategy preview." >> raise e)
    pure job.id

  abbrev pub submit_locked : Settings → ℕ → ℕ → String → Option String → Bool → Action R ℕ
  submit_locked settings job_id user_id strategy_text strategy_name true =
      finally_do (create_and_enqueue settings job_id user_id strategy_text strategy_name)
        (release_or_invalidate job_id)
  submit_locked settings job_id user_id strategy_text strategy_name false = raise unexpected

  -- The identifier is the one that `uuid4()` gives.
  unfoldable pub submit_preview_job : Settings → ℕ → ℕ → String → Option String → Action R ℕ
  submit_preview_job settings job_id user_id strategy_text strategy_name = do
    acquired ← acquire_preview_job_lock env job_id settings.lock_wait settings.poll_interval
    submit_locked settings job_id user_id strategy_text strategy_name acquired

  unfoldable pub raise_transient_failure : {A : Type 0} → Action R A
  raise_transient_failure = rollback >> raise transient_preview_job

  abbrev pub on_failed_save : JobError → Action R Unit
  on_failed_save transient_database = raise_transient_failure
  on_failed_save e = raise e

  unfoldable pub persist_failure : PreviewJob R → String → Action R Unit
  persist_failure job message = handle (fail_job env job message) on_failed_save

  -- The handlers of `run_preview_job` before the job is claimed. A failed `assert` is unexpected.
  abbrev pub on_unclaimed : ℕ → JobError → Action R Unit
  on_unclaimed job_id (rejected message) = raise unexpected
  on_unclaimed job_id provider_timeout = raise_transient_failure
  on_unclaimed job_id parser_error = raise unexpected
  on_unclaimed job_id transient_database = raise_transient_failure
  on_unclaimed job_id _ = do
    rollback
    transition_job_after_operational_failure env job_id false final_error
    pure tt

  -- The handlers once it is.
  abbrev pub on_claimed : PreviewJob R → JobError → Action R Unit
  on_claimed job (rejected message) = persist_failure job message
  on_claimed job provider_timeout = raise_transient_failure
  on_claimed job parser_error = persist_failure job "Unable to parse the strategy."
  on_claimed job transient_database = raise_transient_failure
  on_claimed job _ = persist_failure job final_error

  module _ {P V : Type 0} (workflow : Workflow P V R) where
    abbrev pub run_stages : PreviewJob R → Action R Unit
    run_stages job = do
      parsed ← ask (λ n. workflow.parse n job.strategy_text)
      update_progress env job validating 35
      update_progress env job compiling 50
      update_progress env job loading_data 70
      update_progress env job backtesting 85
      preview ← ask (λ n. workflow.preview_factory n parsed)
      update_progress env job generating_results 95
      result ← answered (workflow.serialize_preview parsed preview)
      complete_job env job result

    abbrev pub run_claimed : Option (PreviewJob R) → Action R Bool
    run_claimed none = pure false
    run_claimed (some job) = handle (run_stages job) (on_claimed job) >> pure true

    unfoldable pub run_preview_job : ℕ → Bool → Action R Bool
    run_preview_job job_id allow_running_retry =
        attempt (claim_job env job_id allow_running_retry) (λ e. on_unclaimed job_id e >> pure true)
          run_claimed
