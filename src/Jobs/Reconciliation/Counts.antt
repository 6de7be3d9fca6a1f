-- ===== src/Jobs/Reconciliation/Counts.antt =====
-- How often the candidates of a reconciliation are counted.
use agentic_trading_platform.Prelude.{
  ℕ, ◌+◌, ◌≡◌, refl, subst, ◌∙◌, sym, Bool, true, false, ◌||◌, ◌&&◌, not, ◌≤◌, Option, some, none,
  List, [], ◌∷◌, length, String, ◌⊎◌, arith,
}
use agentic_trading_platform.Jobs.Model.{PreviewJob, is_nonterminal, is_running}
use agentic_trading_platform.Jobs.World.{
  Environment, World, Action, JobError, Outcome, returns, raises, next, pure, ◌>>◌, continue,
  branch, raise, ask, statement,
}
use agentic_trading_platform.Jobs.Ends.{
  Ends, ended, failed_with, Ends-continue, Ends-map, if-Ends, ask-Ends,
}
use agentic_trading_platform.Jobs.Rows.{find_job, to_failed}
use agentic_trading_platform.Jobs.Store.{
  get, read_changed, transition_job_after_operational_failure, list_reconciliation_candidates,
}
use agentic_trading_platform.Jobs.Service.{enqueue}
use agentic_trading_platform.Jobs.Lifecycle.Claims.{update_where-Ends}
use agentic_trading_platform.Jobs.Lifecycle.Table.{find_job-id}
use agentic_trading_platform.Jobs.Reconciliation.{
  Limits, Pass, recover, reconcile_job, reconcile_jobs, reconcile_preview_jobs, give_up, transition,
  re_enqueue, requeue_running, refresh, present, recheck_active, recheck, reconcile_locked,
  release_or_raise, is_member, is_exhausted, is_expired, is_awaiting, recovery_failure_message,
  count_active, count_not_stale, count_state_changed,
}
use agentic_trading_platform.Jobs.Reconciliation.Tally.{
  counted, KeepsOpen, Finishes, Counts, IsTold, active-Counts, recovered-Counts, locked-Counts,
  not_stale-Counts, state_changed-Counts, failed-Counts,
}

-- The call returns a value with `P`, or raises.
abbrev Gives : {R A : Type 0} → (A → Type 0) → Outcome R A → Type 0
Gives P = Ends (λ a _. P a) (λ _ _. Unit {0})

after_any :
    {R A B : Type 0} {P : B → Type 0} (m : Outcome R A) (f : A → Action R B)
    → ((a : A) (w : World R) → Gives P (f a w))
    → Gives P (continue m f)
after_any (returns a w) f step = step a w
after_any (raises e w) f step = failed_with tt

finally-Gives :
    {R A : Type 0} {P : A → Type 0} {m : Outcome R A} (cleanup : Action R Unit)
    → Gives P m
    → Gives P (branch m (λ e. cleanup >> raise e) (λ a. cleanup >> pure a))
finally-Gives cleanup (ended {a} {w} p) = after_any (cleanup w) _ (λ _ w. ended p)
finally-Gives cleanup (failed_with {e} {w} p) = after_any (cleanup w) _ (λ _ w. failed_with tt)

module _ {R : Type 0} (env : Environment) where
  confirmed :
      (id : ℕ) (changed : Bool) (w : World R)
      → Gives (λ result. result ≡ changed) (read_changed env id changed w)
  confirmed id true w = after_any (get env id w) _ (λ _ w. ended refl)
  confirmed id false w = ended refl

  read_finds :
      (id : ℕ) (w : World R)
      → Ends (λ found w. found ≡ find_job id w.jobs) (λ _ _. Unit {0}) (get env id w)
  read_finds id w = after_statement (statement env w)
    where
      after_statement :
          (m : Outcome R Unit)
          → Ends
              (λ found w. found ≡ find_job id w.jobs)
              (λ _ _. Unit {0})
              (continue m (λ _ w. returns (find_job id w.jobs) w))
      after_statement (returns a w) = ended refl
      after_statement (raises e w) = failed_with tt

  module _ (limits : Limits) (time : ℕ) (scan_queue : ℕ → ℕ → JobError ⊎ List ℕ)
      (elsewhere : ℕ → List (PreviewJob R) → List (PreviewJob R)) (acquire_lock : ℕ → Action R Bool)
      (release_lock : ℕ → Action R Unit) where
    transition-IsTold :
        (job : PreviewJob R) (message : String) (w : World R)
        → find_job job.id w.jobs ≡ some job
        → is_nonterminal job.status ≡ true
        → Gives (IsTold elsewhere) (
            transition limits time env scan_queue elsewhere acquire_lock release_lock job false
              message w)
    unfolding transition_job_after_operational_failure
    transition-IsTold job message w f h =
        let jobs = elsewhere w.step w.jobs in
        Ends-continue _
          (update_where-Ends env job.id jobs w.held (λ changed _ _. IsTold elsewhere changed)
            (λ _ _. Unit) (λ job. is_nonterminal job.status) (to_failed _ message)
            (next (record w { jobs = jobs })) tt
            (λ row g good. (λ _. refl, λ c. absurd (ground (arith, c w.step w.jobs job.id row g))))
            (λ leave. (
              λ k.
                  let (row, g, unended) = k w.step w.jobs job.id job f h in
                  absurd (ground (arith, leave row g)),
              λ _. refl,
            )))
          (λ changed w q.
            Ends-map (λ result w e. subst (IsTold elsewhere) (sym e) q) (λ _ _ _. tt)
              (confirmed job.id changed w))

    give_up-Counts :
        (job : PreviewJob R) (p : Pass) (w : World R)
        → find_job job.id w.jobs ≡ some job
        → is_nonterminal job.status ≡ true
        → Gives
            (Counts elsewhere p)
            (give_up limits time env scan_queue elsewhere acquire_lock release_lock job p w)
    unfolding give_up
    give_up-Counts job p w f h =
        Ends-continue _ (transition-IsTold job recovery_failure_message w f h)
          (λ changed w told. ended (failed-Counts elsewhere changed p told))

    re_enqueue-Counts :
        (job : PreviewJob R) (p : Pass) (w : World R)
        → Gives
            (Counts elsewhere p)
            (re_enqueue limits time env scan_queue elsewhere acquire_lock release_lock job p w)
    re_enqueue-Counts job p w =
        after_any
          (requeue_running limits time env scan_queue elsewhere acquire_lock release_lock job
            (is_running job.status) w)
          _
          (λ current w.
            after_any (enqueue env _ w) _
              (λ _ w. ended (recovered-Counts elsewhere p (current.id ∷ p.active_ids))))

    recover-Counts :
        (job : PreviewJob R) (p : Pass) (w : World R)
        → find_job job.id w.jobs ≡ some job
        → is_nonterminal job.status ≡ true
        → Gives
            (Counts elsewhere p)
            (recover limits time env scan_queue elsewhere acquire_lock release_lock job p w)
    unfolding recover
    recover-Counts job p w f h =
        if-Ends (is_exhausted limits time job || is_expired limits time job)
          (give_up limits time env scan_queue elsewhere acquire_lock release_lock job p) _ w
          (λ _. give_up-Counts job p w f h)
          (λ _.
            if-Ends (is_awaiting limits time job) (pure (count_not_stale p))
              (re_enqueue limits time env scan_queue elsewhere acquire_lock release_lock job p) w
              (λ _. ended (not_stale-Counts elsewhere p)) (λ _. re_enqueue-Counts job p w))

    recheck-Counts :
        (job : PreviewJob R) (p : Pass) (w : World R)
        → find_job job.id w.jobs ≡ some job
        → Gives
            (Counts elsewhere p)
            (recheck limits time env scan_queue elsewhere acquire_lock release_lock job p w)
    recheck-Counts job p w f =
        if-Ends (is_nonterminal job.status)
          (recheck_active limits time env scan_queue elsewhere acquire_lock release_lock job p)
          (pure (count_state_changed p)) w
          (λ h.
            Ends-continue _
              (Ends-map (λ _ w q. q) (λ _ w _. tt)
                (ask-Ends (λ jobs _. find_job job.id jobs ≡ some job)
                  (λ n. scan_queue n limits.registry_scan_limit) w f))
              (λ ids w f.
                let current : Pass = record p { active_ids = ids } in
                if-Ends (is_member job.id ids) (pure (count_active current))
                  (recover limits time env scan_queue elsewhere acquire_lock release_lock job
                    current)
                  w (λ _. ended (active-Counts elsewhere current))
                  (λ _. recover-Counts job current w f h)))
          (λ _. ended (state_changed-Counts elsewhere p))

    present_finds :
        (id : ℕ) (found : Option (PreviewJob R)) (w : World R)
        → found ≡ find_job id w.jobs
        → Ends (λ job w. find_job job.id w.jobs ≡ some job) (λ _ _. Unit {0}) (present found w)
    present_finds id none w e = failed_with tt
    present_finds id (some job) w e = ended (
        subst (λ key. find_job key w.jobs ≡ some job) (sym (find_job-id id w.jobs (sym e))) (sym e))

    refresh_finds :
        (id : ℕ) (w : World R)
        → Ends
            (λ job w. (find_job job.id w.jobs ≡ some job))
            (λ _ _. Unit {0})
            (refresh limits time env scan_queue elsewhere acquire_lock release_lock id w)
    refresh_finds id w = Ends-continue _ (read_finds id w) (λ found w e. present_finds id found w e)

    reconcile_locked-Counts :
        (id : ℕ) (p : Pass) (acquired : Bool) (w : World R)
        → Gives (Counts elsewhere p) (
            reconcile_locked limits time env scan_queue elsewhere acquire_lock release_lock id p
              acquired w)
    reconcile_locked-Counts id p true w =
        finally-Gives
          (release_or_raise limits time env scan_queue elsewhere acquire_lock release_lock id)
          (Ends-continue _ (refresh_finds id w) (λ job w f. recheck-Counts job p w f))
    reconcile_locked-Counts id p false w = ended (locked-Counts elsewhere p)

    reconcile_job-Counts :
        (job : PreviewJob R) (p : Pass) (w : World R)
        → Gives
            (Counts elsewhere p)
            (reconcile_job limits time env scan_queue elsewhere acquire_lock release_lock job p w)
    unfolding reconcile_job
    reconcile_job-Counts job p w =
        if-Ends (is_member job.id p.active_ids) (pure (count_active p)) _ w
          (λ _. ended (active-Counts elsewhere p))
          (λ _.
            if-Ends
              (is_awaiting limits time job
                && not (is_exhausted limits time job || is_expired limits time job))
              (pure (count_not_stale p)) _ w (λ _. ended (not_stale-Counts elsewhere p))
              (λ _.
                after_any (acquire_lock job.id w) _
                  (λ acquired w. reconcile_locked-Counts job.id p acquired w)))

    -- What the rest of the candidates add to the counts.
    record AreCounted (count : ℕ) (p q : Pass) : Type 0 where
      scanned_same : q.summary.scanned ≡ p.summary.scanned
      at_most_once : counted q.summary ≤ count + counted p.summary
      all_counted : KeepsOpen elsewhere → counted q.summary ≡ count + counted p.summary
      none_failed : Finishes elsewhere → q.summary.failed ≡ p.summary.failed

    reconcile_jobs-AreCounted :
        (jobs : List (PreviewJob R)) (p : Pass) (w : World R)
        → Gives
            (AreCounted (length jobs) p)
            (reconcile_jobs limits time env scan_queue elsewhere acquire_lock release_lock jobs p w)
    unfolding reconcile_jobs
    reconcile_jobs-AreCounted [] p w = ended (record {
      scanned_same = refl;
      at_most_once = omega arith;
      all_counted = λ _. omega arith;
      none_failed = λ _. refl;
    })
    reconcile_jobs-AreCounted (job ∷ jobs) p w =
        Ends-continue _ (reconcile_job-Counts job p w) (λ q w h.
          Ends-map
            (λ r w k. record {
              scanned_same = k.scanned_same ∙ h.scanned_same;
              at_most_once = omega (arith, h.once, k.at_most_once);
              all_counted = λ keeps. omega (arith, h.counts keeps, k.all_counted keeps);
              none_failed = λ finishes. k.none_failed finishes ∙ h.unfailed finishes;
            })
            (λ _ _ _. tt) (reconcile_jobs-AreCounted jobs q w))

    -- If the other processes take no queued and no running job away, a reconciliation that returns has
    -- counted each job that it scanned exactly once: as active, recovered, failed, locked, not stale
    -- or changed by another, whatever the queue, the database and the locks answer.
    pub counted-reconcile_preview_jobs :
        KeepsOpen elsewhere
        → (w : World R)
        → Ends
            (λ summary _. counted summary ≡ summary.scanned)
            (λ _ _. Unit {0})
            (reconcile_preview_jobs env scan_queue elsewhere acquire_lock release_lock limits time
              w)
    unfolding reconcile_preview_jobs
    counted-reconcile_preview_jobs keeps w =
        after_any (ask (λ n. scan_queue n limits.registry_scan_limit) w) _ (λ ids w.
          after_any (list_reconciliation_candidates env limits.batch_size w) _ (λ candidates w.
            Ends-continue _ (reconcile_jobs-AreCounted candidates _ w)
              (λ q w h. ended (omega (arith, h.scanned_same, h.all_counted keeps)))))
