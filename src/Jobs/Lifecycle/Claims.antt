-- ===== src/Jobs/Lifecycle/Claims.antt =====
-- What a claim and an operational transition leave.
use agentic_trading_platform.Prelude.{
  ℕ, ◌≡◌, refl, subst, Bool, true, false, Option, some, none, List, String, arith, inl, inr,
  Bool-cases,
}
use agentic_trading_platform.Jobs.Model.{PreviewJob, is_nonterminal}
use agentic_trading_platform.Jobs.World.{
  Environment, World, JobError, rejected, provider_timeout, parser_error, transient_database,
  transient_preview_job, unexpected, next, pure, ◌>>=◌, ◌>>◌,
}
use agentic_trading_platform.Jobs.Ends.{
  Ends, ended, failed_with, Ends-continue, On, statement_then-Ends, commit-Ends,
}
use agentic_trading_platform.Jobs.Rows.{find_job, replace_job, to_claimed, to_failed, to_queued}
use agentic_trading_platform.Jobs.Store.{
  update_where, update_found, claim_job, read_claimed, read_changed, is_eligible,
  transition_job_after_operational_failure,
}
use agentic_trading_platform.Jobs.Service.{on_unclaimed, raise_transient_failure, final_error}
use agentic_trading_platform.Jobs.Lifecycle.Table.{find_job-id, find_job-replace_job}
use agentic_trading_platform.Jobs.Lifecycle.{
  Transition, claims, fails, requeues, Evolution, unchanged, changes,
}
use agentic_trading_platform.Jobs.Lifecycle.Saves.{
  IsFinal, Reached, Running, Settled, replaced-IsFinal,
}

module _ {R : Type 0} (env : Environment) (id : ℕ) (start : List (PreviewJob R))
    (locks : List ℕ) where
  pub update_found-Ends :
      (Q : Bool → List (PreviewJob R) → List ℕ → Type 0) (E : List (PreviewJob R) → List ℕ → Type 0)
      (eligible : PreviewJob R → Bool) (values : PreviewJob R → PreviewJob R) (w : World R)
      (found : Option (PreviewJob R))
      → find_job id w.jobs ≡ found
      → On E w
      → ((row : PreviewJob R)
          → find_job id w.jobs ≡ some row
          → eligible row ≡ true
          → Q true (replace_job id (values row) w.jobs) w.held)
      → (((row : PreviewJob R) → find_job id w.jobs ≡ some row → eligible row ≡ false)
          → Q false w.jobs w.held)
      → Ends (λ changed. On (Q changed)) (λ _. On E) (update_found env id eligible values found w)
  update_found-Ends Q E eligible values w none f h take leave =
      Ends-continue _ (statement_then-Ends E (Q false) env w h (leave (λ row g. absurd (cc))))
        (λ _ w q. ended q)
  update_found-Ends Q E eligible values w (some row) f h take leave =
      elim (Bool-cases (eligible row)) [
        | inl good ↦ rw good (
            Ends-continue _
              (commit-Ends E (Q true) env (replace_job id (values row) w.jobs) w h
                (take row f good))
              (λ _ w q. ended q))
        | inr bad ↦ rw bad (
            Ends-continue _
              (statement_then-Ends E (Q false) env w h
                (leave (λ other g. let same : row ≡ other = cc in rw (← same) bad)))
              (λ _ w q. ended q))
      ]

  pub update_where-Ends :
      (Q : Bool → List (PreviewJob R) → List ℕ → Type 0) (E : List (PreviewJob R) → List ℕ → Type 0)
      (eligible : PreviewJob R → Bool) (values : PreviewJob R → PreviewJob R) (w : World R)
      → On E w
      → ((row : PreviewJob R)
          → find_job id w.jobs ≡ some row
          → eligible row ≡ true
          → Q true (replace_job id (values row) w.jobs) w.held)
      → (((row : PreviewJob R) → find_job id w.jobs ≡ some row → eligible row ≡ false)
          → Q false w.jobs w.held)
      → Ends (λ changed. On (Q changed)) (λ _. On E) (update_where env id eligible values w)
  unfolding update_where
  update_where-Ends Q E eligible values w =
      update_found-Ends Q E eligible values w (find_job id w.jobs) refl

  -- What a claim leaves: a running row, or the table as it was, with no row to claim.
  abbrev pub Claimed : Bool → Option (PreviewJob R) → List (PreviewJob R) → List ℕ → Type 0
  Claimed allow (some job) jobs held =
      (Running env id start locks) jobs held × (job.id ≡ id) × (find_job id jobs ≡ some job)
  Claimed allow none jobs held =
      (jobs ≡ start)
      × (held ≡ locks)
      × ((row : PreviewJob R) → find_job id jobs ≡ some row → is_eligible env allow row ≡ false)

  abbrev pub Changed : Bool → Bool → List (PreviewJob R) → List ℕ → Type 0
  Changed allow true jobs held = (Running env id start locks) jobs held
  Changed allow false jobs held = Claimed allow none jobs held

  pub read_claimed-Ends :
      (allow changed : Bool) (w : World R)
      → On (Changed allow changed) w
      → Ends
          (λ job. On (Claimed allow job))
          (λ _. On (Reached env id start locks))
          (read_claimed env id changed w)
  read_claimed-Ends allow true w (reached, running) =
      let (row, f, run) = running in
      Ends-continue _
        (statement_then-Ends (Reached env id start locks)
          (λ jobs held. Claimed allow (some row) jobs held) env w reached
          ((reached, (row, f, run)), find_job-id id w.jobs f, f))
        (λ _ w q. rw q.2 (ended q))
  read_claimed-Ends allow false w h = ended h

  pub claim_job-Ends :
      (allow : Bool) (w : World R)
      → w.jobs ≡ start
      → w.held ≡ locks
      → Ends
          (λ job. On (Claimed allow job))
          (λ _. On (Reached env id start locks))
          (claim_job env id allow w)
  unfolding claim_job
  claim_job-Ends allow w e l =
      let evolved : Evolution id start w.jobs =
        subst (λ jobs. Evolution id jobs w.jobs) e unchanged in
      Ends-continue _
        (update_where-Ends (Changed allow) (Reached env id start locks) (is_eligible env allow)
          (to_claimed _) (next w) (evolved, l)
          (λ row f good. (
            (changes evolved f (claims _ (ground (arith))), l),
            (_, find_job-replace_job id w.jobs _ f refl, refl),
          ))
          (λ no. (e, l, no)))
        (λ changed w q. read_claimed-Ends allow changed w q)

  -- What an operational transition leaves: without a retry, no row to go on with.
  abbrev pub Moved : Bool → List (PreviewJob R) → List ℕ → Type 0
  Moved retry jobs held = (Reached env id start locks) jobs held × (retry ≡ false → IsFinal id jobs)

  pub read_changed-Ends :
      (retry changed : Bool) (w : World R)
      → On (Moved retry) w
      → Ends
          (λ _. On (Moved retry))
          (λ _. On (Reached env id start locks))
          (read_changed env id changed w)
  read_changed-Ends retry true w h =
      Ends-continue _
        (Ends-continue _
          (statement_then-Ends (Reached env id start locks) (Moved retry) env w h.0 h)
          (λ _ w q. ended q))
        (λ _ w q. ended q)
  read_changed-Ends retry false w h = ended h

  pub update_changed-Ends :
      (retry : Bool) (values : PreviewJob R → PreviewJob R) (w : World R)
      → ((row : PreviewJob R) → is_nonterminal row.status ≡ true → Transition row (values row))
      → (retry ≡ false → (row : PreviewJob R) → is_nonterminal (values row).status ≡ false)
      → On (Reached env id start locks) w
      → Ends
          (λ _. On (Moved retry))
          (λ _. On (Reached env id start locks))
          ((update_where env id (λ job. is_nonterminal job.status) values >>= read_changed env id)
            w)
  update_changed-Ends retry values w move final r =
      Ends-continue _
        (update_where-Ends (λ _. Moved retry) (Reached env id start locks)
          (λ job. is_nonterminal job.status) values w r
          (λ row f good. (
            (changes r.0 f (move row good), r.1),
            λ e. (replaced-IsFinal env id start locks) w.jobs f (move row good) (final e row),
          ))
          (λ leave. (r, λ _ row f. leave row f)))
        (λ changed w q. read_changed-Ends retry changed w q)

  pub transition-Ends :
      (retry : Bool) (message : String) (w : World R)
      → On (Reached env id start locks) w
      → Ends
          (λ _. On (Moved retry))
          (λ _. On (Reached env id start locks))
          (transition_job_after_operational_failure env id retry message w)
  unfolding transition_job_after_operational_failure
  transition-Ends true message w r =
      update_changed-Ends true to_queued w (λ row h. requeues h) (λ e. absurd (cc)) r
  transition-Ends false message w r =
      update_changed-Ends false (to_failed _ message) (next w) (λ row h. fails _ message h)
        (λ _ row. refl) r

  pub give_up_unclaimed :
      (w : World R)
      → On (Reached env id start locks) w
      → Ends
          (λ _. On (Settled env id start locks))
          (λ _. On (Reached env id start locks))
          ((transition_job_after_operational_failure env id false final_error >> pure tt) w)
  give_up_unclaimed w r =
      Ends-continue _ (transition-Ends false final_error w r) (λ _ w q. ended (q.0, q.1 refl))

  pub on_unclaimed-Ends :
      (e : JobError) (w : World R)
      → On (Reached env id start locks) w
      → Ends
          (λ _. On (Settled env id start locks))
          (λ _. On (Reached env id start locks))
          (on_unclaimed env id e w)
  unfolding raise_transient_failure
  on_unclaimed-Ends (rejected message) w r = failed_with r
  on_unclaimed-Ends provider_timeout w r = failed_with r
  on_unclaimed-Ends parser_error w r = failed_with r
  on_unclaimed-Ends transient_database w r = failed_with r
  on_unclaimed-Ends transient_preview_job w r = give_up_unclaimed w r
  on_unclaimed-Ends unexpected w r = give_up_unclaimed w r
