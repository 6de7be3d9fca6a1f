-- ===== src/Jobs/Reconciliation.antt =====
-- backend/app/services/preview_reconciliation.py: the jobs that are not terminal are compared with
-- the queue, and the lost ones are queued again or failed.
pub mod Tally
pub mod Counts
use agentic_trading_platform.Prelude.{
  ℕ, zero, suc, ◌+◌, ◌-◌, ◌==◌, leb, ltb, Bool, true, false, ◌||◌, ◌&&◌, not, Option, none, some,
  List, [], ◌∷◌, length, String, ◌⊎◌, if◌then◌else◌,
}
use agentic_trading_platform.Jobs.Model.{PreviewJob, is_running, is_nonterminal}
use agentic_trading_platform.Jobs.World.{
  ask, Environment, Action, JobError, returns, unexpected, ◌>>=◌, ◌>>◌, pure, raise, handle,
  finally_do, invalidate, rollback, now,
}
use agentic_trading_platform.Jobs.Store.{
  get, list_reconciliation_candidates, transition_job_after_operational_failure,
}
use agentic_trading_platform.Jobs.Service.{enqueue}

pub record ReconciliationSummary : Type 0 where
  pub scanned : ℕ
  pub active : ℕ
  pub recovered : ℕ
  pub failed : ℕ
  pub locked : ℕ
  pub not_stale : ℕ
  pub state_changed : ℕ

pub record Limits : Type 0 where
  pub max_retries : ℕ
  pub stale_after_seconds : ℕ
  pub batch_size : ℕ
  pub registry_scan_limit : ℕ

abbrev pub recovery_failure_message : String
recovery_failure_message = "Unable to recover the strategy preview. Run the preview again."

abbrev pub is_member : ℕ → List ℕ → Bool
is_member id [] = false
is_member id (x ∷ xs) = (x == id) || is_member id xs

abbrev pub is_stale : ℕ → Option ℕ → ℕ → Bool
is_stale time none stale_after_seconds = true
is_stale time (some started_at) stale_after_seconds = leb (started_at + stale_after_seconds) time

-- What the loop carries: the active identifiers last read, and the counts.
pub record Pass : Type 0 where
  pub active_ids : List ℕ
  pub summary : ReconciliationSummary

abbrev pub count_active : Pass → Pass
count_active p = record p { summary = record p.summary { active = suc p.summary.active } }

abbrev pub count_recovered : Pass → Pass
count_recovered p = record p { summary = record p.summary { recovered = suc p.summary.recovered } }

abbrev pub count_failed : Pass → Pass
count_failed p = record p { summary = record p.summary { failed = suc p.summary.failed } }

abbrev pub count_locked : Pass → Pass
count_locked p = record p { summary = record p.summary { locked = suc p.summary.locked } }

abbrev pub count_not_stale : Pass → Pass
count_not_stale p = record p { summary = record p.summary { not_stale = suc p.summary.not_stale } }

abbrev pub count_state_changed : Pass → Pass
count_state_changed p = record p {
  summary = record p.summary { state_changed = suc p.summary.state_changed };
}

module _ {R : Type 0} where
  -- `session.refresh(job)`
  abbrev pub present : Option (PreviewJob R) → Action R (PreviewJob R)
  present (some job) = pure job
  present none = raise unexpected

  module _ (limits : Limits) (time : ℕ) where
    abbrev pub is_exhausted : PreviewJob R → Bool
    is_exhausted job = leb (limits.max_retries + 1) job.attempt_count

    abbrev pub is_expired : PreviewJob R → Bool
    is_expired job = leb job.expires_at time

    abbrev pub is_running_stale : PreviewJob R → Bool
    is_running_stale job =
        is_running job.status && is_stale time job.started_at limits.stale_after_seconds

    abbrev pub is_awaiting : PreviewJob R → Bool
    is_awaiting job = is_running job.status && not (is_running_stale job)

    -- `scan_queue` is the scan of the queue for the identifiers of its jobs, or what it raises;
    -- `acquire_lock` and `release_lock` are those of a job. `elsewhere` is what other processes have
    -- made of the table since a job was read, when it is updated.
    module _ (env : Environment) (scan_queue : ℕ → ℕ → JobError ⊎ List ℕ)
        (elsewhere : ℕ → List (PreviewJob R) → List (PreviewJob R))
        (acquire_lock : ℕ → Action R Bool) (release_lock : ℕ → Action R Unit) where
      abbrev pub refresh : ℕ → Action R (PreviewJob R)
      refresh job_id = get env job_id >>= present

      abbrev pub active_preview_job_ids : Action R (List ℕ)
      active_preview_job_ids = ask (λ n. scan_queue n limits.registry_scan_limit)

      abbrev pub overtake : Action R Unit
      overtake w = returns tt (record w { jobs = elsewhere w.step w.jobs })

      -- The UPDATE meets the table as the other processes have left it.
      abbrev pub transition : PreviewJob R → Bool → String → Action R Bool
      transition job will_retry final_error =
          overtake >> transition_job_after_operational_failure env job.id will_retry final_error

      unfoldable pub give_up : PreviewJob R → Pass → Action R Pass
      give_up job p = do
        changed ← transition job false recovery_failure_message
        pure (if changed then count_failed p else p)

      -- `if job.status == "running"`
      abbrev pub requeue_running : PreviewJob R → Bool → Action R (PreviewJob R)
      requeue_running job true = do transition job true ""; refresh job.id
      requeue_running job false = pure job

      abbrev pub re_enqueue : PreviewJob R → Pass → Action R Pass
      re_enqueue job p = do
        current ← requeue_running job (is_running job.status)
        enqueue env (record {
          job_id = current.id;
          user_id = current.user_id;
          strategy_text = current.strategy_text;
          strategy_name = current.strategy_name;
          retry_count = some (limits.max_retries - current.attempt_count);
        })
        pure (count_recovered (record p { active_ids = current.id ∷ p.active_ids }))

      unfoldable pub recover : PreviewJob R → Pass → Action R Pass
      recover job p =
          if is_exhausted job || is_expired job
          then give_up job p
          else if is_awaiting job
          then pure (count_not_stale p)
          else re_enqueue job p

      abbrev pub recheck_active : PreviewJob R → Pass → Action R Pass
      recheck_active job p = do
        active_ids ← active_preview_job_ids
        let current : Pass = record p { active_ids = active_ids }
        if is_member job.id active_ids then pure (count_active current) else recover job current

      abbrev pub recheck : PreviewJob R → Pass → Action R Pass
      recheck job p =
          if is_nonterminal job.status then recheck_active job p else pure (count_state_changed p)

      abbrev pub release_or_raise : ℕ → Action R Unit
      release_or_raise job_id =
          handle (rollback >> release_lock job_id) (λ e. invalidate >> raise e)

      abbrev pub reconcile_locked : ℕ → Pass → Bool → Action R Pass
      reconcile_locked job_id p true =
          finally_do (refresh job_id >>= λ job. recheck job p) (release_or_raise job_id)
      reconcile_locked job_id p false = pure (count_locked p)

      unfoldable pub reconcile_job : PreviewJob R → Pass → Action R Pass
      reconcile_job job p =
          if is_member job.id p.active_ids
          then pure (count_active p)
          else if is_awaiting job && not (is_exhausted job || is_expired job)
          then pure (count_not_stale p)
          else acquire_lock job.id >>= reconcile_locked job.id p

      unfoldable pub reconcile_jobs : List (PreviewJob R) → Pass → Action R Pass
      reconcile_jobs [] p = pure p
      reconcile_jobs (job ∷ jobs) p = reconcile_job job p >>= reconcile_jobs jobs

  -- The time is the caller's.
  unfoldable pub reconcile_preview_jobs :
      Environment
      → (ℕ → ℕ → JobError ⊎ List ℕ)
      → (ℕ → List (PreviewJob R) → List (PreviewJob R))
      → (ℕ → Action R Bool)
      → (ℕ → Action R Unit)
      → Limits
      → ℕ
      → Action R ReconciliationSummary
  reconcile_preview_jobs env scan_queue elsewhere acquire_lock release_lock limits time = do
    active_ids ← ask (λ n. scan_queue n limits.registry_scan_limit)
    candidates ← list_reconciliation_candidates env limits.batch_size
    p ←
        reconcile_jobs limits time env scan_queue elsewhere acquire_lock release_lock candidates
          (record {
            active_ids = active_ids;
            summary = record {
              scanned = length candidates;
              active = 0;
              recovered = 0;
              failed = 0;
              locked = 0;
              not_stale = 0;
              state_changed = 0;
            };
          })
    pure p.summary
