-- ===== src/Jobs/Rows.antt =====
-- backend/app/services/job_store.py: the rows of the table, and what the statements set in them.
use agentic_trading_platform.Prelude.{
  ℕ, ◌+◌, Option, none, some, List, [], ◌∷◌, String, if◌then◌else◌, ◌==◌,
}
use agentic_trading_platform.Jobs.Model.{
  PreviewJob, queued, running, completed, failed, queued_stage, parsing, completed_stage,
  failed_stage, JobStage,
}

module _ {R : Type 0} where
  -- The row of an identifier, which is the primary key.
  unfoldable pub find_job : ℕ → List (PreviewJob R) → Option (PreviewJob R)
  find_job id [] = none
  find_job id (job ∷ jobs) = if job.id == id then some job else find_job id jobs

  unfoldable pub replace_job : ℕ → PreviewJob R → List (PreviewJob R) → List (PreviewJob R)
  replace_job id new [] = []
  replace_job id new (job ∷ jobs) =
      if job.id == id then new ∷ jobs else job ∷ replace_job id new jobs

  abbrev pub to_queued : PreviewJob R → PreviewJob R
  to_queued job = record job {
    status = queued;
    stage = queued_stage;
    progress = 5;
    started_at = none;
    completed_at = none;
    error_message = none;
  }

  abbrev pub to_failed : ℕ → String → PreviewJob R → PreviewJob R
  to_failed time error job = record job {
    status = failed;
    stage = failed_stage;
    progress = 100;
    completed_at = some time;
    error_message = some error;
  }

  abbrev pub to_claimed : ℕ → PreviewJob R → PreviewJob R
  to_claimed time job = record job {
    status = running;
    stage = parsing;
    progress = 20;
    started_at = some time;
    completed_at = none;
    error_message = none;
    attempt_count = job.attempt_count + 1;
  }

  abbrev pub to_progress : JobStage → ℕ → PreviewJob R → PreviewJob R
  to_progress stage progress job = record job { stage = stage; progress = progress }

  abbrev pub to_completed : ℕ → R → PreviewJob R → PreviewJob R
  to_completed time result job = record job {
    status = completed;
    stage = completed_stage;
    progress = 100;
    preview_result = some result;
    completed_at = some time;
  }
