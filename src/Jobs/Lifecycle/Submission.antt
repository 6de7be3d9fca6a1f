-- ===== src/Jobs/Lifecycle/Submission.antt =====
-- How a submission ends: with a queued row whose payload the queue has, or with an exception; and
-- without a lock.
use agentic_trading_platform.Prelude.{
  ℕ, ◌≡◌, refl, Bool, true, false, Option, some, none, List, [], ◌∷◌, String, arith,
}
use agentic_trading_platform.Jobs.Model.{PreviewJob, queued}
use agentic_trading_platform.Jobs.World.{
  Environment, World, JobError, returns, next, pure, Payload, continue, raise_fault, statement,
  invalidate, ◌>>◌,
}
use agentic_trading_platform.Jobs.Ends.{
  Ends, ended, failed_with, Ends-continue, Ends-branch, Ends-map, if-Ends, On, statement_then-Ends,
  commit-Ends,
}
use agentic_trading_platform.Jobs.Rows.{find_job}
use agentic_trading_platform.Jobs.Store.{
  create_job, fail_job, save, save_found, release_preview_job_lock, remove_first,
}
use agentic_trading_platform.Jobs.Service.{
  Settings, submit_preview_job, submit_locked, create_and_enqueue, release_or_invalidate,
}
use agentic_trading_platform.Jobs.Lifecycle.Locks.{taken, Locked, acquire-Ends, removed}

module _ {R : Type 0} (env : Environment) (id user_id : ℕ) (strategy_text : String)
    (strategy_name : Option String) (start : List (PreviewJob R)) where
  abbrev locks : List ℕ
  locks = taken env id start true

  abbrev Holds : World R → Type 0
  Holds w = w.held ≡ locks

  -- The row of the submission is queued, as it was submitted.
  abbrev pub IsQueued : List (PreviewJob R) → Type 0
  IsQueued jobs =
      (row : PreviewJob R) × (find_job id jobs ≡ some row)
      × (row.status ≡ queued)
      × (row.user_id ≡ user_id)
      × (row.strategy_text ≡ strategy_text)
      × (row.strategy_name ≡ strategy_name)
      × (row.attempt_count ≡ 0)

  -- The last payload that the queue was given is the one of the submission.
  abbrev pub IsHanded : List Payload → Type 0
  IsHanded payloads =
      (payload : Payload) × (earlier : List Payload) × (payloads ≡ payload ∷ earlier)
      × (payload.job_id ≡ id)
      × (payload.user_id ≡ user_id)
      × (payload.strategy_text ≡ strategy_text)

  save_found-Ends :
      (values : PreviewJob R → PreviewJob R) (found : Option (PreviewJob R)) (w : World R)
      → Holds w
      → Ends (λ _. Holds) (λ _. Holds) (save_found env id values found w)
  save_found-Ends values none w h =
      Ends-continue _
        (statement_then-Ends (λ _ held. held ≡ locks) (λ _ held. held ≡ locks) env w h h)
        (λ _ w h. failed_with h)
  save_found-Ends values (some job) w h =
      commit-Ends (λ _ held. held ≡ locks) (λ _ held. held ≡ locks) env _ w h h

  fail_job-Ends :
      (job : PreviewJob R) (message : String) (w : World R)
      → job.id ≡ id
      → Holds w
      → Ends (λ _. Holds) (λ _. Holds) (fail_job env job message w)
  unfolding fail_job save
  fail_job-Ends job message w same h = rw same (save_found-Ends _ (find_job id w.jobs) (next w) h)

  find_job-head :
      (job : PreviewJob R) (jobs : List (PreviewJob R))
      → job.id ≡ id
      → find_job id (job ∷ jobs) ≡ some job
  unfolding find_job
  find_job-head job jobs h = ground arith

  create_job-Ends :
      (fresh ttl_hours : ℕ) (w : World R)
      → Holds w
      → Ends
          (λ job w. (job.id ≡ id) × IsQueued w.jobs × Holds w)
          (λ _. Holds)
          (create_job env (some id) fresh user_id strategy_text strategy_name ttl_hours w)
  unfolding create_job
  create_job-Ends fresh ttl_hours w h =
      Ends-continue _
        (commit-Ends (λ _ held. held ≡ locks) (λ jobs held. IsQueued jobs × (held ≡ locks)) env _
          (next w) h ((_, find_job-head _ w.jobs refl, refl, refl, refl, refl, refl), h))
        (λ _ w q.
          Ends-continue _
            (statement_then-Ends (λ _ held. held ≡ locks)
              (λ jobs held. IsQueued jobs × (held ≡ locks)) env w q.1 q)
            (λ _ w q. ended (refl, q.0, q.1)))

  -- The queue takes the payload, or raises.
  enqueued-Ends :
      (payload : Payload) (fault : Option JobError) (w : World R)
      → payload.job_id ≡ id
      → payload.user_id ≡ user_id
      → payload.strategy_text ≡ strategy_text
      → IsQueued w.jobs
      → Holds w
      → Ends
          (λ _ w. IsQueued w.jobs × IsHanded w.payloads × Holds w)
          (λ _. Holds)
          (continue
            (raise_fault fault w)
            (λ _ w. returns tt (record w { payloads = payload ∷ w.payloads })))
  enqueued-Ends payload none w a b c q h = ended (q, (payload, w.payloads, refl, a, b, c), h)
  enqueued-Ends payload (some e) w a b c q h = failed_with h

  create_and_enqueue-Ends :
      (settings : Settings) (w : World R)
      → Holds w
      → Ends
          (λ result w. (result ≡ id) × IsQueued w.jobs × IsHanded w.payloads × Holds w)
          (λ _. Holds)
          (create_and_enqueue env settings id user_id strategy_text strategy_name w)
  create_and_enqueue-Ends settings w h =
      Ends-continue _ (create_job-Ends id settings.ttl_hours w h) (λ job w q.
        Ends-continue {Q = λ _ w. IsQueued w.jobs × IsHanded w.payloads × Holds w} _
          (Ends-branch _ pure (enqueued-Ends _ (env.queue w.step) w q.0 refl refl q.1 q.2)
            (λ e w h.
              Ends-continue _ (fail_job-Ends job "Unable to queue the strategy preview." w q.0 h)
                (λ _ w h. failed_with h))
            (λ _ w r. ended r))
          (λ _ w r. ended (q.0, r.0, r.1, r.2)))

  -- The release leaves the table and the payloads, and no lock.
  module _ (S : List (PreviewJob R) → List Payload → Type 0) where
    released-Ends :
        (fault : Option JobError) (w : World R)
        → S w.jobs w.payloads
        → w.held ≡ id ∷ []
        → Ends
            (λ _ w. S w.jobs w.payloads × (w.held ≡ []))
            (λ _ w. S w.jobs w.payloads)
            (continue
              (raise_fault fault w)
              (λ _ w. returns tt (record w { held = remove_first id w.held })))
    released-Ends none w h l = ended (h, removed env id start l)
    released-Ends (some e) w h l = failed_with h

    release_lock-Ends :
        (w : World R)
        → S w.jobs w.payloads
        → Holds w
        → Ends
            (λ _ w. S w.jobs w.payloads × (w.held ≡ []))
            (λ _ w. S w.jobs w.payloads)
            (release_preview_job_lock env id w)
    unfolding release_preview_job_lock
    release_lock-Ends w h l =
        if-Ends env.postgresql
          (statement env >> (λ w. returns tt (record w { held = remove_first id w.held })))
          (pure tt) w (λ p. released-Ends (env.database w.step) w h (rw p at l))
          (λ p. ended (h, rw p at l))

    release-Ends :
        {F : JobError → World R → Type 0} (w : World R)
        → S w.jobs w.payloads
        → Holds w
        → Ends (λ _ w. S w.jobs w.payloads × (w.held ≡ [])) F (release_or_invalidate env id w)
    release-Ends w h l =
        Ends-branch (λ _. invalidate) pure (release_lock-Ends w h l) (λ _ w h. ended (h, refl))
          (λ _ w q. ended q)

  submit_locked-Ends :
      (settings : Settings) (acquired : Bool) (w : World R)
      → On (Locked env id start acquired) w
      → Ends
          (λ result w. (result ≡ id) × IsQueued w.jobs × IsHanded w.payloads × (w.held ≡ []))
          (λ _ w. w.held ≡ [])
          (submit_locked env settings id user_id strategy_text strategy_name acquired w)
  submit_locked-Ends settings false w h = failed_with h.1
  submit_locked-Ends settings true w h =
      Ends-branch _ _ (create_and_enqueue-Ends settings w h.1)
        (λ e w l. Ends-continue _ (release-Ends (λ _ _. Unit) w tt l) (λ _ w q. failed_with q.1))
        (λ result w q.
          Ends-continue _
            (release-Ends (λ jobs payloads. IsQueued jobs × IsHanded payloads) w (q.1, q.2) q.3)
            (λ _ w r. ended (q.0, r.0.0, r.0.1, r.1)))

-- A submission from a session without locks ends without one, whatever the environment answers. If
-- `submit_preview_job` returns, it returns the job's identifier, whose row is queued with the user,
-- the text and the name as they were submitted and no attempt, and the last payload that the queue
-- was given is the one of that job.
pub submit_preview_job-IsQueued :
    {R : Type 0} (env : Environment) (settings : Settings) (id user_id : ℕ) (strategy_text : String)
    (strategy_name : Option String) (w : World R)
    → w.held ≡ []
    → Ends
        (λ result w'.
          (result ≡ id)
          × IsQueued env id user_id strategy_text strategy_name w.jobs w'.jobs
          × IsHanded env id user_id strategy_text strategy_name w.jobs w'.payloads
          × (w'.held ≡ []))
        (λ _ w'. w'.held ≡ [])
        (submit_preview_job env settings id user_id strategy_text strategy_name w)
unfolding submit_preview_job
submit_preview_job-IsQueued env settings id user_id strategy_text strategy_name w h =
    Ends-continue _
      (Ends-map (λ _ w q. q) (λ _ w q. q.1)
        (acquire-Ends env id w.jobs settings.lock_wait settings.poll_interval w (refl, h)))
      (λ acquired w' q.
        submit_locked-Ends env id user_id strategy_text strategy_name w.jobs settings acquired w' q)
