-- ===== src/Jobs/Lifecycle/Worker.antt =====
-- How the worker ends with a job, whatever the database, the queue and the provider answer.
use agentic_trading_platform.Prelude.{
  ℕ, ◌≡◌, refl, subst, Bool, true, false, Option, some, List, [], String, ◌⊎◌,
}
use agentic_trading_platform.Jobs.Model.{PreviewJob}
use agentic_trading_platform.Jobs.World.{
  Environment, World, JobError, rejected, provider_timeout, parser_error, transient_database,
  transient_preview_job, unexpected, pure, ◌>>◌, handle,
}
use agentic_trading_platform.Jobs.Ends.{
  Ends, ended, failed_with, Ends-continue, Ends-branch, Ends-map, On, ask-Ends,
}
use agentic_trading_platform.Jobs.Store.{transition_job_after_operational_failure}
use agentic_trading_platform.Jobs.Service.{Workflow, Settings, final_error}
use agentic_trading_platform.Jobs.Worker.{
  on_unpersisted, on_worker_error, run_task, process_locked, process_identified,
  process_preview_job, allows_running_retry,
}
use agentic_trading_platform.Jobs.Lifecycle.{Evolution, unchanged}
use agentic_trading_platform.Jobs.Lifecycle.Saves.{Reached}
use agentic_trading_platform.Jobs.Lifecycle.Run.{Ran, run_preview_job-Ends}
use agentic_trading_platform.Jobs.Lifecycle.Claims.{transition-Ends}
use agentic_trading_platform.Jobs.Lifecycle.Locks.{taken, Locked, acquire-Ends, release-Ends}

module _ {R : Type 0} (env : Environment) (id : ℕ) (start : List (PreviewJob R)) where
  -- The transient error is the only one that leaves the worker.
  abbrev pub Retried : List ℕ → JobError → World R → Type 0
  Retried locks e w = (e ≡ transient_preview_job) × On (Reached env id start locks) w

  module _ (settings : Settings) (uuid : String → Option ℕ) where
    on_unpersisted-Ends :
        (locks : List ℕ) (e : JobError) (w : World R)
        → On (Reached env id start locks) w
        → Ends
            (λ _. On (Reached env id start locks))
            (Retried locks)
            (on_unpersisted env settings uuid e w)
    on_unpersisted-Ends locks transient_database w h = failed_with (refl, h)
    on_unpersisted-Ends locks (rejected message) w h = ended h
    on_unpersisted-Ends locks provider_timeout w h = ended h
    on_unpersisted-Ends locks parser_error w h = ended h
    on_unpersisted-Ends locks transient_preview_job w h = ended h
    on_unpersisted-Ends locks unexpected w h = ended h

    fail_worker :
        (locks : List ℕ) (w : World R)
        → On (Reached env id start locks) w
        → Ends
            (λ _. On (Reached env id start locks))
            (Retried locks)
            (handle
              (transition_job_after_operational_failure env id false final_error >> pure tt)
              (on_unpersisted env settings uuid)
              w)
    fail_worker locks w h =
        Ends-branch (on_unpersisted env settings uuid) pure
          (Ends-continue _ (transition-Ends env id start locks false final_error w h)
            (λ _ w q. ended q.0))
          (λ e w h. on_unpersisted-Ends locks e w h) (λ _ w h. ended h)

    on_worker_error-Ends :
        (locks : List ℕ) (e : JobError) (w : World R)
        → On (Reached env id start locks) w
        → Ends
            (λ _. On (Reached env id start locks))
            (Retried locks)
            (on_worker_error env settings uuid id e w)
    on_worker_error-Ends locks transient_database w h = failed_with (refl, h)
    on_worker_error-Ends locks transient_preview_job w h = failed_with (refl, h)
    on_worker_error-Ends locks (rejected message) w h = fail_worker locks w h
    on_worker_error-Ends locks provider_timeout w h = fail_worker locks w h
    on_worker_error-Ends locks parser_error w h = fail_worker locks w h
    on_worker_error-Ends locks unexpected w h = fail_worker locks w h

    module _ {P V : Type 0} (from_settings : ℕ → JobError ⊎ Workflow P V R)
        (retries_left : Option ℕ) where
      reached :
          (locks : List ℕ) (w : World R)
          → w.jobs ≡ start
          → w.held ≡ locks
          → On (Reached env id start locks) w
      reached locks w e l = (subst (λ jobs. Evolution id jobs w.jobs) e unchanged, l)

      ran :
          (locks : List ℕ) (allow result : Bool) (w : World R)
          → On (Ran env id start locks allow result) w
          → On (Reached env id start locks) w
      ran locks allow true w q = q.0
      ran locks allow false w q = reached locks w q.0 q.1

      run_task-Ends :
          (locks : List ℕ) (w : World R)
          → w.jobs ≡ start
          → w.held ≡ locks
          → Ends
              (λ _. On (Reached env id start locks))
              (λ _. On (Reached env id start locks))
              (run_task env settings uuid from_settings retries_left id w)
      run_task-Ends locks w e l =
          Ends-continue _
            (Ends-map (λ _ w q. q) (λ _ w q. reached locks w q.0 q.1)
              (ask-Ends (λ jobs held. (jobs ≡ start) × (held ≡ locks)) from_settings w (e, l)))
            (λ workflow w q.
              Ends-continue _
                (run_preview_job-Ends env id start locks workflow
                  (allows_running_retry settings retries_left) w q.0 q.1)
                (λ result w q. ended (ran locks _ result w q)))

      process_locked-Ends :
          (acquired : Bool) (w : World R)
          → On ((Locked env id start) acquired) w
          → Ends
              (λ _. On (Reached env id start []))
              (Retried [])
              (process_locked env settings uuid from_settings retries_left id acquired w)
      process_locked-Ends false w h = ended (reached [] w h.0 h.1)
      process_locked-Ends true w h =
          Ends-branch _ _
            (Ends-branch (on_worker_error env settings uuid id) pure
              (run_task-Ends ((taken env id start) true) w h.0 h.1)
              (λ e w r. on_worker_error-Ends ((taken env id start) true) e w r) (λ _ w r. ended r))
            (λ e w r.
              Ends-continue _ ((release-Ends env id start) w r.1) (λ _ w q. failed_with (r.0, q)))
            (λ _ w r. Ends-continue _ ((release-Ends env id start) w r) (λ _ w q. ended q))

      process_identified-Ends :
          (w : World R)
          → On ((Locked env id start) false) w
          → Ends
              (λ _. On (Reached env id start []))
              (Retried [])
              (process_identified env settings uuid from_settings retries_left (some id) w)
      process_identified-Ends w h =
          Ends-branch (on_worker_error env settings uuid id) _
            ((acquire-Ends env id start) settings.lock_wait settings.poll_interval w h)
            (λ e w h. on_worker_error-Ends [] e w (reached [] w h.0 h.1))
            (λ acquired w h. process_locked-Ends acquired w h)

-- The worker ends after transitions of the row of the payload's identifier, with no lock held, and
-- raises nothing but the transient error.
pub process_preview_job-Ends :
    {R P V : Type 0} (env : Environment) (settings : Settings) (uuid : String → Option ℕ)
    (from_settings : ℕ → JobError ⊎ Workflow P V R) (retries_left : Option ℕ) (text : String)
    (id : ℕ) (w : World R)
    → uuid text ≡ some id
    → w.held ≡ []
    → Ends
        (λ _. On (Reached env id w.jobs []))
        (Retried env id w.jobs [])
        (process_preview_job env settings uuid from_settings retries_left text w)
unfolding process_preview_job
process_preview_job-Ends env settings uuid from_settings retries_left text id w e h =
    rw e
      (process_identified-Ends env id w.jobs settings uuid from_settings retries_left w (refl, h))
