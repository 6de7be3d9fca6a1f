-- ===== src/Jobs/Lifecycle/Completion.antt =====
-- With a database that does not raise and a provider that answers, a run completes its job.
use agentic_trading_platform.Prelude.{
  ℕ, ◌+◌, ◌≡◌, refl, ap, ◌∙◌, Bool, true, ◌⊎◌, inr, Option, some, none, List,
}
use agentic_trading_platform.Jobs.Model.{
  PreviewJob, JobStage, JobStatus, running, completed, validating, compiling, loading_data,
  backtesting, generating_results,
}
use agentic_trading_platform.Jobs.World.{
  Environment, World, Outcome, JobError, returns, next, pure, ask,
}
use agentic_trading_platform.Jobs.Ends.{Ends, ended, failed_with, Ends-continue, Ends-branch}
use agentic_trading_platform.Jobs.Rows.{
  find_job, replace_job, to_claimed, to_completed, to_progress,
}
use agentic_trading_platform.Jobs.Store.{
  save, update_where, update_progress, complete_job, claim_job, is_eligible,
}
use agentic_trading_platform.Jobs.Service.{
  Workflow, run_preview_job, run_claimed, run_stages, on_claimed,
}
use agentic_trading_platform.Jobs.Lifecycle.Table.{find_job-id, find_job-replace_job}

-- The call returns, in a world with `P`.
abbrev Reaches : {R A : Type 0} → (List (PreviewJob R) → Type 0) → Outcome R A → Type 0
Reaches P = Ends (λ _ w. P w.jobs) (λ _ _. ⊥)

returned_true :
    {R : Type 0} (P : List (PreviewJob R) → Type 0) {m : Outcome R Bool}
    → Ends (λ result w. (result ≡ true) × P w.jobs) (λ _ _. ⊥) m
    → (w : World R) × (m ≡ returns true w) × P w.jobs
returned_true P (ended {w = w} q) = (w, rw q.0 refl, q.1)
returned_true P (failed_with bad) = absurd bad

module _ {R : Type 0} (start : PreviewJob R) where
  -- What the run keeps of the row at its start, with one more attempt.
  abbrev pub Continues : PreviewJob R → Type 0
  Continues row =
      (row.attempt_count ≡ start.attempt_count + 1)
      × (row.user_id ≡ start.user_id)
      × (row.strategy_text ≡ start.strategy_text)

module _ {R : Type 0} (id : ℕ) (start : PreviewJob R) where
  -- The row is completed and has the result.
  abbrev pub IsCompleted : R → List (PreviewJob R) → Type 0
  IsCompleted result jobs =
      (row : PreviewJob R) × (find_job id jobs ≡ some row)
      × (row.status ≡ completed)
      × Continues start row
      × (row.preview_result ≡ some result)

module _ {R : Type 0} (env : Environment) (healthy : (n : ℕ) → env.database n ≡ none) (id : ℕ)
    (start : PreviewJob R) where
  -- The row of `id` is in a status, and continues the one at the start.
  abbrev HasStatus : JobStatus → List (PreviewJob R) → Type 0
  HasStatus status jobs =
      (row : PreviewJob R) × (find_job id jobs ≡ some row)
      × (row.status ≡ status)
      × Continues start row

  save-Reaches :
      (P : List (PreviewJob R) → Type 0) (values : PreviewJob R → PreviewJob R) (w : World R)
      → HasStatus running w.jobs
      → ((row : PreviewJob R)
          → find_job id w.jobs ≡ some row
          → row.status ≡ running
          → Continues start row
          → P (replace_job id (values row) w.jobs))
      → Reaches P (save env id values w)
  unfolding save
  save-Reaches P values w (row, f, s, a) k = rw (f, healthy w.step) (ended (k row f s a))

  update_progress-Reaches :
      (job : PreviewJob R) (stage : JobStage) (progress : ℕ) (w : World R)
      → job.id ≡ id
      → HasStatus running w.jobs
      → Reaches (HasStatus running) (update_progress env job stage progress w)
  unfolding update_progress
  update_progress-Reaches job stage progress w same h = rw same (
      save-Reaches (HasStatus running) (to_progress stage progress) w h
        (λ row f s a. (_, find_job-replace_job id w.jobs _ f refl, s, a)))

  complete_job-Reaches :
      (job : PreviewJob R) (result : R) (w : World R)
      → job.id ≡ id
      → HasStatus running w.jobs
      → Reaches (IsCompleted id start result) (complete_job env job result w)
  unfolding complete_job
  complete_job-Reaches job result w same h = rw same (
      save-Reaches (IsCompleted id start result) (to_completed _ result) (next w) h
        (λ row f s a. (_, find_job-replace_job id w.jobs _ f refl, refl, a, refl)))

  -- The claim gives the row, which is running.
  abbrev IsClaimed : Option (PreviewJob R) → List (PreviewJob R) → Type 0
  IsClaimed found jobs =
      (job : PreviewJob R) × (found ≡ some job)
      × (job.id ≡ id)
      × (job.strategy_text ≡ start.strategy_text)
      × HasStatus running jobs

  claim_job-Ends :
      (allow : Bool) (w : World R)
      → find_job id w.jobs ≡ some start
      → is_eligible env allow start ≡ true
      → Ends (λ found w. IsClaimed found w.jobs) (λ _ _. ⊥) (claim_job env id allow w)
  unfolding claim_job update_where
  claim_job-Ends allow w f good =
      let new = to_claimed (env.clock w.step) start in
      let here = find_job-replace_job id w.jobs new f refl in
      rw (f, good, healthy _, healthy _)
        (ended (new, here, find_job-id id w.jobs f, refl, (new, here, refl, (refl, refl, refl))))

  module _ {P V : Type 0} (workflow : Workflow P V R) (allow : Bool) (parsed : P) (preview : V)
      (result : R) (parses : (n : ℕ) → workflow.parse n start.strategy_text ≡ inr parsed)
      (previews : (n : ℕ) → workflow.preview_factory n parsed ≡ inr preview)
      (serializes : workflow.serialize_preview parsed preview ≡ inr result) where
    answered-Reaches :
        {A : Type 0} (question : ℕ → JobError ⊎ A) (answer : A) (w : World R)
        → question w.step ≡ inr answer
        → HasStatus running w.jobs
        → Ends (λ a w. (a ≡ answer) × HasStatus running w.jobs) (λ _ _. ⊥) (ask question w)
    answered-Reaches question answer w e h = rw e (ended (refl, h))

    run_stages-Reaches :
        (job : PreviewJob R) (w : World R)
        → job.id ≡ id
        → job.strategy_text ≡ start.strategy_text
        → HasStatus running w.jobs
        → Reaches (IsCompleted id start result) (run_stages env workflow job w)
    run_stages-Reaches job w same text h =
        Ends-continue _
          (answered-Reaches (λ n. workflow.parse n job.strategy_text) parsed w
            (ap (workflow.parse w.step) text ∙ parses w.step) h)
          (λ p w (is_parsed, h).
            Ends-continue _ (update_progress-Reaches job validating 35 w same h) (λ _ w h.
              Ends-continue _ (update_progress-Reaches job compiling 50 w same h) (λ _ w h.
                Ends-continue _ (update_progress-Reaches job loading_data 70 w same h) (λ _ w h.
                  Ends-continue _ (update_progress-Reaches job backtesting 85 w same h) (λ _ w h.
                    Ends-continue _
                      (answered-Reaches (λ n. workflow.preview_factory n p) preview w
                        (ap (workflow.preview_factory w.step) is_parsed ∙ previews w.step) h)
                      (λ v w (is_preview, h).
                        Ends-continue _ (update_progress-Reaches job generating_results 95 w same h)
                          (λ _ w h.
                            rw (is_parsed, is_preview, serializes)
                              (complete_job-Reaches job result w same h))))))))

    run_claimed-Ends :
        (found : Option (PreviewJob R)) (w : World R)
        → IsClaimed found w.jobs
        → Ends
            (λ done w. (done ≡ true) × IsCompleted id start result w.jobs)
            (λ _ _. ⊥)
            (run_claimed env workflow found w)
    run_claimed-Ends none w (job, e, _, _, _) = absurd (cc)
    run_claimed-Ends (some found) w (job, e, same, text, h) =
        let job_is : job ≡ found = cc in
        Ends-continue _
          (Ends-branch (on_claimed env found) pure
            (run_stages-Reaches found w (rw (← job_is) same) (rw (← job_is) text) h)
            (λ e w bad. absurd bad) (λ _ w h. ended h))
          (λ _ w h. ended (refl, h))

    -- A run completes its job: for a database that does not raise, a row that may be claimed, and a
    -- text for which the parser gives a strategy, the factory its preview and the serialization its
    -- result, `run_preview_job` returns true, and then the row is completed with one more attempt,
    -- for the same user and text, and its result is that one.
    pub run_preview_job-IsCompleted :
        (w : World R)
        → find_job id w.jobs ≡ some start
        → is_eligible env allow start ≡ true
        → (w' : World R) × (run_preview_job env workflow id allow w ≡ returns true w')
          × IsCompleted id start result w'.jobs
    unfolding run_preview_job
    run_preview_job-IsCompleted w f good = returned_true (IsCompleted id start result) (
        Ends-branch _ (run_claimed env workflow) (claim_job-Ends allow w f good)
          (λ e w bad. absurd bad) (λ found w h. run_claimed-Ends found w h))
