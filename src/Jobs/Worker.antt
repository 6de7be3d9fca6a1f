-- ===== src/Jobs/Worker.antt =====
-- backend/app/workers/preview_worker.py: the task that the queue runs for a payload, and the callback
-- for a task that raised.
use agentic_trading_platform.Prelude.{
  ℕ, Bool, true, false, Option, none, some, List, [], ◌∷◌, String, ◌⊎◌, ltb,
}
use agentic_trading_platform.Jobs.World.{
  ask, Environment, Action, JobError, transient_database, transient_preview_job, ◌>>=◌, ◌>>◌, pure,
  raise, attempt, handle, finally_do, rollback,
}
use agentic_trading_platform.Jobs.Store.{
  acquire_preview_job_lock, transition_job_after_operational_failure,
}
use agentic_trading_platform.Jobs.Service.{
  Workflow, Settings, final_error, release_or_invalidate, run_preview_job,
}

abbrev pub allows_running_retry : Settings → Option ℕ → Bool
allows_running_retry settings none = false
allows_running_retry settings (some retries_left) = ltb retries_left settings.max_retries

abbrev pub retries : Option ℕ → ℕ
retries (some retries_left) = retries_left
retries none = 0

-- `uuid` reads a UUID.
module _ {R : Type 0} (env : Environment) (settings : Settings) (uuid : String → Option ℕ) where
  abbrev pub on_unpersisted : JobError → Action R Unit
  on_unpersisted transient_database = rollback >> raise transient_preview_job
  on_unpersisted _ = rollback

  abbrev pub on_worker_error : ℕ → JobError → Action R Unit
  on_worker_error job_id transient_database = rollback >> raise transient_preview_job
  on_worker_error job_id transient_preview_job = raise transient_preview_job
  on_worker_error job_id _ = do
    rollback
    handle (transition_job_after_operational_failure env job_id false final_error >> pure tt)
        on_unpersisted

  -- `from_settings` makes the parser, or raises.
  module _ {P V : Type 0} (from_settings : ℕ → JobError ⊎ Workflow P V R)
      (retries_left : Option ℕ) where
    abbrev pub run_task : ℕ → Action R Unit
    run_task job_id = do
      workflow ← ask from_settings
      run_preview_job env workflow job_id (allows_running_retry settings retries_left)
      pure tt

    abbrev pub process_locked : ℕ → Bool → Action R Unit
    process_locked job_id true =
        finally_do (handle (run_task job_id) (on_worker_error job_id))
          (release_or_invalidate env job_id)
    process_locked job_id false = pure tt

    abbrev pub process_identified : Option ℕ → Action R Unit
    process_identified none = pure tt
    process_identified (some job_id) =
        attempt (acquire_preview_job_lock env job_id settings.lock_wait settings.poll_interval)
          (on_worker_error job_id) (process_locked job_id)

    unfoldable pub process_preview_job : String → Action R Unit
    process_preview_job job_id = process_identified (uuid job_id)

  abbrev pub synchronize : Option ℕ → Option ℕ → Action R Unit
  synchronize retries_left none = pure tt
  synchronize retries_left (some job_id) =
      transition_job_after_operational_failure env job_id (ltb 0 (retries retries_left)) final_error
      >> pure tt

  unfoldable pub handle_preview_job_failure : List String → Option ℕ → Action R Unit
  handle_preview_job_failure [] retries_left = pure tt
  handle_preview_job_failure (job_id ∷ _) retries_left = synchronize retries_left (uuid job_id)
