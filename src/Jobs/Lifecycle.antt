-- ===== src/Jobs/Lifecycle.antt =====
-- The life of a row, as a relation: the transitions that the worker makes, and what any number of
-- them on one identifier leaves alone.
pub mod Table
pub mod Saves
pub mod Claims
pub mod Run
pub mod Locks
pub mod Worker
pub mod Safety
pub mod Completion
pub mod Submission
use agentic_trading_platform.Prelude.{
  ℕ, ◌≤◌, ◌≡◌, ◌≢◌, refl, ◌∙◌, sym, Bool, true, false, Option, some, none, List, All, String, arith,
}
use agentic_trading_platform.Jobs.Model.{
  PreviewJob, JobStage, queued, running, completed, failed, queued_stage, parsing, validating,
  compiling, loading_data, backtesting, generating_results, completed_stage, failed_stage,
  is_running, is_nonterminal, JobStatus,
}
use agentic_trading_platform.Jobs.Rows.{
  find_job, replace_job, to_claimed, to_progress, to_completed, to_failed, to_queued,
}
use agentic_trading_platform.Jobs.Lifecycle.Table.{
  find_job-replace_job_other, find_job-replace_job, All-replace_job, All-find_job,
}

-- The stages of a running job.
abbrev pub is_working : JobStage → Bool
is_working queued_stage = false
is_working completed_stage = false
is_working failed_stage = false
is_working _ = true

-- Whether a stage is one of the status.
abbrev pub fits : JobStatus → JobStage → Bool
fits queued queued_stage = true
fits running stage = is_working stage
fits completed completed_stage = true
fits failed failed_stage = true
fits _ _ = false

module _ {R : Type 0} where
  pub data Transition : PreviewJob R → PreviewJob R → Type 0 where
    claims :
        {job : PreviewJob R} (time : ℕ)
        → is_nonterminal job.status ≡ true
        → Transition job (to_claimed time job)
    progresses :
        {job : PreviewJob R} (stage : JobStage) (progress : ℕ)
        → is_running job.status ≡ true
        → is_working stage ≡ true
        → progress ≤ 100
        → Transition job (to_progress stage progress job)
    completes :
        {job : PreviewJob R} (time : ℕ) (result : R)
        → is_running job.status ≡ true
        → Transition job (to_completed time result job)
    fails :
        {job : PreviewJob R} (time : ℕ) (error : String)
        → is_nonterminal job.status ≡ true
        → Transition job (to_failed time error job)
    requeues :
        {job : PreviewJob R} → is_nonterminal job.status ≡ true → Transition job (to_queued job)

  -- Tables that transitions of the row of `id` lead to from `start`.
  pub data Evolution (id : ℕ) (start : List (PreviewJob R)) : List (PreviewJob R) → Type 0 where
    unchanged : Evolution id start start
    changes :
        {jobs : List (PreviewJob R)} {job new : PreviewJob R}
        → Evolution id start jobs
        → find_job id jobs ≡ some job
        → Transition job new
        → Evolution id start (replace_job id new jobs)

  Transition-id : {job new : PreviewJob R} → Transition job new → new.id ≡ job.id
  Transition-id (claims t h) = refl
  Transition-id (progresses s p h k l) = refl
  Transition-id (completes t r h) = refl
  Transition-id (fails t e h) = refl
  Transition-id (requeues h) = refl

  Transition-nonterminal :
      {job new : PreviewJob R} → Transition job new → is_nonterminal job.status ≡ true
  Transition-nonterminal (claims t h) = h
  Transition-nonterminal (progresses s p h k l) = ground arith
  Transition-nonterminal (completes t r h) = ground arith
  Transition-nonterminal (fails t e h) = h
  Transition-nonterminal (requeues h) = h

  -- The stage belongs to the status, the progress is a percentage, and a finished job has its time
  -- and its result or its error.
  pub record IsWellFormed (job : PreviewJob R) : Type 0 where
    pub stage_fits : fits job.status job.stage ≡ true
    pub progress_bound : job.progress ≤ 100
    pub completed_has_result :
        job.status ≡ completed → (result : R) × (job.preview_result ≡ some result)
    pub failed_has_message :
        job.status ≡ failed → (message : String) × (job.error_message ≡ some message)
    pub finished_has_time :
        is_nonterminal job.status ≡ false → (time : ℕ) × (job.completed_at ≡ some time)

  Transition-IsWellFormed :
      {job new : PreviewJob R} → Transition job new → IsWellFormed job → IsWellFormed new
  Transition-IsWellFormed (claims t h) w = record {
    stage_fits = refl;
    progress_bound = omega arith;
    completed_has_result = λ e. absurd (cc);
    failed_has_message = λ e. absurd (cc);
    finished_has_time = λ e. absurd (cc);
  }
  Transition-IsWellFormed (progresses s p h k l) w = record {
    stage_fits = ground (arith, w.stage_fits);
    progress_bound = l;
    completed_has_result = w.completed_has_result;
    failed_has_message = w.failed_has_message;
    finished_has_time = w.finished_has_time;
  }
  Transition-IsWellFormed (completes t r h) w = record {
    stage_fits = refl;
    progress_bound = omega arith;
    completed_has_result = λ e. (r, refl);
    failed_has_message = λ e. absurd (cc);
    finished_has_time = λ e. (t, refl);
  }
  Transition-IsWellFormed (fails t m h) w = record {
    stage_fits = refl;
    progress_bound = omega arith;
    completed_has_result = λ e. absurd (cc);
    failed_has_message = λ e. (m, refl);
    finished_has_time = λ e. (t, refl);
  }
  Transition-IsWellFormed (requeues h) w = record {
    stage_fits = refl;
    progress_bound = omega arith;
    completed_has_result = λ e. absurd (cc);
    failed_has_message = λ e. absurd (cc);
    finished_has_time = λ e. absurd (cc);
  }

  pub Evolution-other :
      {id other : ℕ} {start jobs : List (PreviewJob R)}
      → other ≢ id
      → Evolution id start jobs
      → find_job other jobs ≡ find_job other start
  Evolution-other h unchanged = refl
  Evolution-other {id} {other} h (changes {jobs} {job} {new} e f t) =
      find_job-replace_job_other id other jobs new h f (Transition-id t) ∙ Evolution-other h e

  pub Evolution-terminal :
      {id : ℕ} (other : ℕ) {start jobs : List (PreviewJob R)} {row : PreviewJob R}
      → find_job other start ≡ some row
      → is_nonterminal row.status ≡ false
      → Evolution id start jobs
      → find_job other jobs ≡ some row
  Evolution-terminal other found final unchanged = found
  Evolution-terminal {id} other {row = row} found final (changes {jobs} {job} {new} e f t) =
      let before = Evolution-terminal other found final e in
      let differ : other ≢ id = λ same.
        let here : find_job id jobs ≡ some row = rw (← same) before in
        let row_is : row ≡ job = cc in absurd (ground (arith, Transition-nonterminal t)) in
      find_job-replace_job_other id other jobs new differ f (Transition-id t) ∙ before

  pub Evolution-IsWellFormed :
      {id : ℕ} {start jobs : List (PreviewJob R)}
      → All IsWellFormed start
      → Evolution id start jobs
      → All IsWellFormed jobs
  Evolution-IsWellFormed h unchanged = h
  Evolution-IsWellFormed {id} h (changes {jobs} {job} {new} e f t) =
      let before = Evolution-IsWellFormed h e in
      All-replace_job IsWellFormed id jobs new before
        (Transition-IsWellFormed t (All-find_job IsWellFormed id jobs before f))
