-- ===== src/Jobs/Model.antt =====
-- backend/app/models/preview_job.py: the row of a preview job. An identifier is the integer of its
-- UUID, a time a number of seconds; `R` is the type of the JSON result.
use agentic_trading_platform.Prelude.{ℕ, Bool, true, false, Option, String}

pub data JobStatus : Type 0 where
  queued running completed failed : JobStatus

pub data JobStage : Type 0 where
  queued_stage parsing validating compiling loading_data backtesting generating_results
        completed_stage failed_stage :
      JobStage

pub record PreviewJob (R : Type 0) : Type 0 where
  pub id : ℕ
  pub user_id : ℕ
  pub status : JobStatus
  pub stage : JobStage
  pub progress : ℕ
  pub strategy_text : String
  pub strategy_name : Option String
  pub error_message : Option String
  pub preview_result : Option R
  pub attempt_count : ℕ
  pub created_at : ℕ
  pub started_at : Option ℕ
  pub completed_at : Option ℕ
  pub expires_at : ℕ

abbrev pub is_queued : JobStatus → Bool
is_queued queued = true
is_queued _ = false

abbrev pub is_running : JobStatus → Bool
is_running running = true
is_running _ = false

-- `status in ("queued", "running")`
abbrev pub is_nonterminal : JobStatus → Bool
is_nonterminal queued = true
is_nonterminal running = true
is_nonterminal _ = false
