-- ===== src/Api/Polling.antt =====
-- backend/app/api/routes/jobs.py: a user asks for a preview job, until it is completed.
use agentic_trading_platform.Prelude.{ℕ, Option, none, some, String}
use agentic_trading_platform.Jobs.Model.{
  PreviewJob, JobStatus, JobStage, queued, running, completed, failed,
}
use agentic_trading_platform.Jobs.World.{Environment, Action, ◌>>=◌, pure}
use agentic_trading_platform.Jobs.Store.{get_job}
use agentic_trading_platform.Api.Session.{Reply}
use agentic_trading_platform.Api.Authentication.{
  AuthenticatedUser, SupabaseAuthClient, get_current_user,
}

-- `V` is the type of a validated preview.
pub record PreviewJobResponse (V : Type 0) : Type 0 where
  pub id : ℕ
  pub status : JobStatus
  pub stage : JobStage
  pub progress : ℕ
  pub created_at : ℕ
  pub started_at : Option ℕ
  pub completed_at : Option ℕ
  pub error : Option String
  pub preview_result : Option V

abbrev pub not_found : {A : Type 0} → Reply A
not_found = Reply.raises 404 "Preview job not found."

abbrev pub gone : {A : Type 0} → Reply A
gone = Reply.raises 410 "This preview result has expired. Run the preview again."

module _ {R V : Type 0} where
  abbrev pub response_of : PreviewJob R → Option V → PreviewJobResponse V
  response_of job preview_result = record {
    id = job.id;
    status = job.status;
    stage = job.stage;
    progress = job.progress;
    created_at = job.created_at;
    started_at = job.started_at;
    completed_at = job.completed_at;
    error = job.error_message;
    preview_result = preview_result;
  }

  abbrev pub present_validated : PreviewJob R → Option V → Reply (PreviewJobResponse V)
  present_validated job (some preview) = Reply.returns (response_of job (some preview))
  present_validated job none = gone

-- `model_validate` of the schema of a preview answers nothing where it raises a ValidationError.
module _ {R V : Type 0} (model_validate : R → Option V) where
  -- The result is read of a completed job only.
  abbrev pub present_result : JobStatus → Option R → PreviewJob R → Reply (PreviewJobResponse V)
  present_result completed (some result) job = present_validated job (model_validate result)
  present_result completed none job = Reply.returns (response_of job none)
  present_result queued result job = Reply.returns (response_of job none)
  present_result running result job = Reply.returns (response_of job none)
  present_result failed result job = Reply.returns (response_of job none)

  abbrev pub present : Option (PreviewJob R) → Reply (PreviewJobResponse V)
  present none = not_found
  present (some job) = present_result job.status job.preview_result job

  module _ (env : Environment) where
    unfoldable pub get_preview_job : ℕ → AuthenticatedUser → Action R (Reply (PreviewJobResponse V))
    get_preview_job job_id current_user = do
      job ← get_job env job_id current_user.id
      pure (present job)

    -- The dependency on the user runs first; its exception is the reply.
    abbrev pub poll_as : ℕ → Reply AuthenticatedUser → Action R (Reply (PreviewJobResponse V))
    poll_as job_id (Reply.returns user) = get_preview_job job_id user
    poll_as job_id (Reply.raises status detail) = pure (Reply.raises status detail)

    unfoldable pub poll :
        SupabaseAuthClient → Option String → ℕ → Action R (Reply (PreviewJobResponse V))
    poll auth_client credentials job_id = poll_as job_id (get_current_user credentials auth_client)
