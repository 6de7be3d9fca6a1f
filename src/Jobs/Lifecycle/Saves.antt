-- ===== src/Jobs/Lifecycle/Saves.antt =====
-- What the saves of a running job leave, and its handlers.
use agentic_trading_platform.Prelude.{ℕ, ◌≤◌, ◌≡◌, refl, true, false, some, List, String, arith}
use agentic_trading_platform.Jobs.Model.{PreviewJob, JobStage, is_running, is_nonterminal}
use agentic_trading_platform.Jobs.World.{
  Environment, World, JobError, rejected, provider_timeout, parser_error, transient_database,
  transient_preview_job, unexpected, next, pure,
}
use agentic_trading_platform.Jobs.Ends.{Ends, ended, failed_with, Ends-branch, On, commit-Ends}
use agentic_trading_platform.Jobs.Rows.{find_job, replace_job, to_completed, to_failed, to_progress}
use agentic_trading_platform.Jobs.Store.{save, update_progress, complete_job, fail_job}
use agentic_trading_platform.Jobs.Service.{
  on_claimed, persist_failure, on_failed_save, raise_transient_failure,
}
use agentic_trading_platform.Jobs.Lifecycle.Table.{find_job-replace_job}
use agentic_trading_platform.Jobs.Lifecycle.{
  Transition, progresses, completes, fails, Evolution, changes, is_working, Transition-id,
}

-- The row of `id` is completed, failed or not there.
abbrev pub IsFinal : {R : Type 0} → ℕ → List (PreviewJob R) → Type 0
IsFinal {R} id jobs =
    (row : PreviewJob R) → find_job id jobs ≡ some row → is_nonterminal row.status ≡ false

module _ {R : Type 0} (env : Environment) (id : ℕ) (start : List (PreviewJob R))
    (locks : List ℕ) where
  abbrev pub Reached : List (PreviewJob R) → List ℕ → Type 0
  Reached jobs held = Evolution id start jobs × (held ≡ locks)

  abbrev pub Running : List (PreviewJob R) → List ℕ → Type 0
  Running jobs held =
      Reached jobs held
      × ((row : PreviewJob R) × (find_job id jobs ≡ some row) × (is_running row.status ≡ true))

  abbrev pub Settled : List (PreviewJob R) → List ℕ → Type 0
  Settled jobs held = Reached jobs held × IsFinal id jobs

  pub replaced-IsFinal :
      (jobs : List (PreviewJob R)) {row new : PreviewJob R}
      → find_job id jobs ≡ some row
      → Transition row new
      → is_nonterminal new.status ≡ false
      → IsFinal id (replace_job id new jobs)
  replaced-IsFinal jobs {row} {new} f t h other g =
      let here = find_job-replace_job id jobs new f (Transition-id t) in
      let same : new ≡ other = cc in rw (← same) h

  pub save-Ends :
      (Q : List (PreviewJob R) → List ℕ → Type 0) (values : PreviewJob R → PreviewJob R)
      (w : World R)
      → On Running w
      → ((row : PreviewJob R)
          → find_job id w.jobs ≡ some row
          → is_running row.status ≡ true
          → Q (replace_job id (values row) w.jobs) w.held)
      → Ends (λ _. On Q) (λ _. On Running) (save env id values w)
  unfolding save
  save-Ends Q values w h k =
      let (row, f, r) = h.1 in
      rw f (commit-Ends Running Q env (replace_job id (values row) w.jobs) w h (k row f r))

  pub update_progress-Ends :
      (job : PreviewJob R) (stage : JobStage) (progress : ℕ) (w : World R)
      → job.id ≡ id
      → is_working stage ≡ true
      → progress ≤ 100
      → On Running w
      → Ends (λ _. On Running) (λ _. On Running) (update_progress env job stage progress w)
  unfolding update_progress
  update_progress-Ends job stage progress w same h k r = rw same (
      save-Ends Running (to_progress stage progress) w r (λ row f run. (
        (changes r.0.0 f (progresses stage progress run h k), r.0.1),
        (_, find_job-replace_job id w.jobs _ f refl, run),
      )))

  pub complete_job-Ends :
      (job : PreviewJob R) (result : R) (w : World R)
      → job.id ≡ id
      → On Running w
      → Ends (λ _. On Settled) (λ _. On Running) (complete_job env job result w)
  unfolding complete_job
  complete_job-Ends job result w same r = rw same (
      save-Ends Settled (to_completed _ result) (next w) r (λ row f run.
        let t = completes _ result run in
        ((changes r.0.0 f t, r.0.1), replaced-IsFinal w.jobs f t refl)))

  pub fail_job-Ends :
      (job : PreviewJob R) (message : String) (w : World R)
      → job.id ≡ id
      → On Running w
      → Ends (λ _. On Settled) (λ _. On Running) (fail_job env job message w)
  unfolding fail_job
  fail_job-Ends job message w same r = rw same (
      save-Ends Settled (to_failed _ message) (next w) r (λ row f run.
        let t = fails _ message (ground arith) in
        ((changes r.0.0 f t, r.0.1), replaced-IsFinal w.jobs f t refl)))

  pub on_failed_save-Ends :
      (e : JobError) (w : World R)
      → On Running w
      → Ends (λ _. On Settled) (λ _. On Running) (on_failed_save env e w)
  unfolding raise_transient_failure
  on_failed_save-Ends transient_database w r = failed_with r
  on_failed_save-Ends (rejected m) w r = failed_with r
  on_failed_save-Ends provider_timeout w r = failed_with r
  on_failed_save-Ends parser_error w r = failed_with r
  on_failed_save-Ends transient_preview_job w r = failed_with r
  on_failed_save-Ends unexpected w r = failed_with r

  pub persist_failure-Ends :
      (job : PreviewJob R) (message : String) (w : World R)
      → job.id ≡ id
      → On Running w
      → Ends (λ _. On Settled) (λ _. On Running) (persist_failure env job message w)
  unfolding persist_failure
  persist_failure-Ends job message w same r =
      Ends-branch (on_failed_save env) pure (fail_job-Ends job message w same r) on_failed_save-Ends
        (λ _ w s. ended s)

  pub on_claimed-Ends :
      (job : PreviewJob R) (e : JobError) (w : World R)
      → job.id ≡ id
      → On Running w
      → Ends (λ _. On Settled) (λ _. On Running) (on_claimed env job e w)
  unfolding raise_transient_failure
  on_claimed-Ends job (rejected message) w same r = persist_failure-Ends job message w same r
  on_claimed-Ends job provider_timeout w same r = failed_with r
  on_claimed-Ends job parser_error w same r = persist_failure-Ends job _ w same r
  on_claimed-Ends job transient_database w same r = failed_with r
  on_claimed-Ends job transient_preview_job w same r = persist_failure-Ends job _ w same r
  on_claimed-Ends job unexpected w same r = persist_failure-Ends job _ w same r
