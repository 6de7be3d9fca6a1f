-- ===== src/Jobs/Lifecycle/Run.antt =====
-- How one run of a job ends: what has become of the row of its identifier, and of the other rows.
use agentic_trading_platform.Prelude.{
  ℕ, ◌≡◌, refl, Bool, true, false, Option, some, none, List, arith,
}
use agentic_trading_platform.Jobs.Model.{
  PreviewJob, validating, compiling, loading_data, backtesting, generating_results,
}
use agentic_trading_platform.Jobs.World.{Environment, World, pure}
use agentic_trading_platform.Jobs.Ends.{
  Ends, ended, Ends-continue, Ends-branch, Ends-map, On, ask-Ends, answered-Ends,
}
use agentic_trading_platform.Jobs.Service.{
  Workflow, run_preview_job, run_claimed, run_stages, on_claimed,
}
use agentic_trading_platform.Jobs.Lifecycle.Saves.{
  Reached, Running, Settled, on_claimed-Ends, update_progress-Ends, complete_job-Ends,
}
use agentic_trading_platform.Jobs.Lifecycle.Claims.{Claimed, claim_job-Ends, on_unclaimed-Ends}

module _ {R : Type 0} (env : Environment) (id : ℕ) (start : List (PreviewJob R))
    (locks : List ℕ) where
  -- What `run_preview_job` leaves with its result: after `true` no row to go on with, after `false`
  -- the table as it was, with no row to claim.
  abbrev pub Ran : Bool → Bool → List (PreviewJob R) → List ℕ → Type 0
  Ran allow true jobs held = (Settled env id start locks) jobs held
  Ran allow false jobs held = (Claimed env id start locks) allow none jobs held

  module _ {P V : Type 0} (workflow : Workflow P V R) where
    run_stages-Ends :
        (job : PreviewJob R) (w : World R)
        → job.id ≡ id
        → On (Running env id start locks) w
        → Ends
            (λ _. On (Settled env id start locks))
            (λ _. On (Running env id start locks))
            (run_stages env workflow job w)
    run_stages-Ends job w same r =
        Ends-continue _
          (ask-Ends (Running env id start locks) (λ n. workflow.parse n job.strategy_text) w r)
          (λ parsed w r.
            Ends-continue _
              ((update_progress-Ends env id start locks) job validating 35 w same refl (omega arith)
                r)
              (λ _ w r.
                Ends-continue _
                  ((update_progress-Ends env id start locks) job compiling 50 w same refl
                    (omega arith) r)
                  (λ _ w r.
                    Ends-continue _
                      ((update_progress-Ends env id start locks) job loading_data 70 w same refl
                        (omega arith) r)
                      (λ _ w r.
                        Ends-continue _
                          ((update_progress-Ends env id start locks) job backtesting 85 w same refl
                            (omega arith) r)
                          (λ _ w r.
                            Ends-continue _
                              (ask-Ends (Running env id start locks)
                                (λ n. workflow.preview_factory n parsed) w r)
                              (λ preview w r.
                                Ends-continue _
                                  ((update_progress-Ends env id start locks) job generating_results
                                    95 w same refl (omega arith) r)
                                  (λ _ w r.
                                    Ends-continue _
                                      (answered-Ends (Running env id start locks)
                                        (workflow.serialize_preview parsed preview) w r)
                                      (λ result w r.
                                        (complete_job-Ends env id start locks) job result w same
                                          r))))))))

    run_claimed-Ends :
        (allow : Bool) (job : Option (PreviewJob R)) (w : World R)
        → On ((Claimed env id start locks) allow job) w
        → Ends
            (λ result. On (Ran allow result))
            (λ _. On (Reached env id start locks))
            (run_claimed env workflow job w)
    run_claimed-Ends allow none w h = ended h
    run_claimed-Ends allow (some job) w (r, same, _) =
        Ends-map (λ _ w q. q) (λ _ w q. q.0)
          (Ends-continue _
            (Ends-branch (on_claimed env job) pure (run_stages-Ends job w same r)
              (λ e w r. (on_claimed-Ends env id start locks) job e w same r) (λ _ w s. ended s))
            (λ _ w s. ended s))

    pub run_preview_job-Ends :
        (allow : Bool) (w : World R)
        → w.jobs ≡ start
        → w.held ≡ locks
        → Ends
            (λ result. On (Ran allow result))
            (λ _. On (Reached env id start locks))
            (run_preview_job env workflow id allow w)
    unfolding run_preview_job
    run_preview_job-Ends allow w e l =
        Ends-branch _ (run_claimed env workflow) ((claim_job-Ends env id start locks) allow w e l)
          (λ e w r.
            Ends-continue _ ((on_unclaimed-Ends env id start locks) e w r) (λ _ w s. ended s))
          (λ job w q. run_claimed-Ends allow job w q)
