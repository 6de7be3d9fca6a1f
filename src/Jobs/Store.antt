-- ===== src/Jobs/Store.antt =====
-- backend/app/services/job_store.py: the transitions of the rows, and the advisory lock of a job.
pub mod Waiting
pub mod Candidates
use Prim.Native.Nat.{◌/◌, ◌%◌}
use agentic_trading_platform.Prelude.{
  ℕ, zero, suc, ◌+◌, ◌-◌, ◌*◌, ◌<>◌, Bool, true, false, ◌||◌, ◌&&◌, Option, none, some, List, [],
  ◌∷◌, String, if◌then◌else◌, ltb, leb, ◌==◌, take, length,
}
use agentic_trading_platform.Prelude.Int.{ℤ, pos, ◌-ℤ◌}
use agentic_trading_platform.Jobs.Model.{
  PreviewJob, queued, running, completed, failed, queued_stage, parsing, completed_stage,
  failed_stage, JobStage, is_queued, is_running, is_nonterminal,
}
use agentic_trading_platform.Jobs.World.{
  Environment, World, Action, unexpected, ◌>>=◌, ◌>>◌, pure, raise, statement, commit, now, returns,
  next,
}
use agentic_trading_platform.Jobs.Rows.{
  find_job, replace_job, to_queued, to_failed, to_claimed, to_progress, to_completed,
}

abbrev pub smaller : ℕ → ℕ → ℕ
smaller a b = if leb a b then a else b

abbrev pub remove_first : ℕ → List ℕ → List ℕ
remove_first id [] = []
remove_first id (held ∷ rest) = if held == id then rest else held ∷ remove_first id rest

module _ {R : Type 0} where
  module _ (env : Environment) where
    -- `UPDATE ... WHERE id = job_id AND eligible`, committed: whether it changed a row.
    abbrev pub update_found :
        ℕ
        → (PreviewJob R → Bool)
        → (PreviewJob R → PreviewJob R)
        → Option (PreviewJob R)
        → Action R Bool
    update_found job_id eligible values none w = (statement env >> pure false) w
    update_found job_id eligible values (some job) w =
        if eligible job
        then (commit env (replace_job job_id (values job) w.jobs) >> pure true) w
        else (statement env >> pure false) w

    unfoldable pub update_where :
        ℕ → (PreviewJob R → Bool) → (PreviewJob R → PreviewJob R) → Action R Bool
    update_where job_id eligible values w =
        update_found job_id eligible values (find_job job_id w.jobs) w

    -- Assignments to the object of a row and the commit that writes them. A row that is no longer
    -- there makes the commit raise.
    abbrev pub save_found :
        ℕ → (PreviewJob R → PreviewJob R) → Option (PreviewJob R) → Action R Unit
    save_found job_id values none w = (statement env >> raise unexpected) w
    save_found job_id values (some job) w = commit env (replace_job job_id (values job) w.jobs) w

    unfoldable pub save : ℕ → (PreviewJob R → PreviewJob R) → Action R Unit
    save job_id values w = save_found job_id values (find_job job_id w.jobs) w

    -- `session.get(PreviewJob, job_id)`
    abbrev pub get : ℕ → Action R (Option (PreviewJob R))
    get job_id = do statement env; λ w. pure (find_job job_id w.jobs) w

    -- The identifier is the caller's, or else `fresh`.
    unfoldable pub create_job :
        Option ℕ → ℕ → ℕ → String → Option String → ℕ → Action R (PreviewJob R)
    create_job job_id fresh user_id strategy_text strategy_name ttl_hours = do
      time ← now env
      let job : PreviewJob R = record {
        id = elim job_id [ some id ↦ id | none ↦ fresh ];
        user_id = user_id;
        status = queued;
        stage = queued_stage;
        progress = 5;
        strategy_text = strategy_text;
        strategy_name = strategy_name;
        error_message = none;
        preview_result = none;
        attempt_count = 0;
        created_at = time;
        started_at = none;
        completed_at = none;
        expires_at = time + ttl_hours * 3600;
      }
      λ w. commit env (job ∷ w.jobs) w
      statement env
      pure job

    -- A statement that selects one row of an identifier and an owner.
    unfoldable pub get_job : ℕ → ℕ → Action R (Option (PreviewJob R))
    get_job job_id user_id = do
      found ← get job_id
      pure (elim found [
        | some job ↦ if job.user_id == user_id then some job else none
        | none ↦ none
      ])

    abbrev pub is_eligible : Bool → PreviewJob R → Bool
    is_eligible allow_running_retry job =
        is_queued job.status || (allow_running_retry && is_running job.status)

    abbrev pub read_claimed : ℕ → Bool → Action R (Option (PreviewJob R))
    read_claimed job_id true = get job_id
    read_claimed job_id false = pure none

    unfoldable pub claim_job : ℕ → Bool → Action R (Option (PreviewJob R))
    claim_job job_id allow_running_retry = do
      started_at ← now env
      changed ← update_where job_id (is_eligible allow_running_retry) (to_claimed started_at)
      read_claimed job_id changed

    unfoldable pub update_progress : PreviewJob R → JobStage → ℕ → Action R Unit
    update_progress job stage progress = save job.id (to_progress stage progress)

    unfoldable pub complete_job : PreviewJob R → R → Action R Unit
    complete_job job result = do time ← now env; save job.id (to_completed time result)

    unfoldable pub fail_job : PreviewJob R → String → Action R Unit
    fail_job job error = do time ← now env; save job.id (to_failed time error)

    abbrev pub operational_values : Bool → String → Action R (PreviewJob R → PreviewJob R)
    operational_values true final_error = pure to_queued
    operational_values false final_error = do time ← now env; pure (to_failed time final_error)

    abbrev pub read_changed : ℕ → Bool → Action R Bool
    read_changed job_id true = get job_id >> pure true
    read_changed job_id false = pure false

    unfoldable pub transition_job_after_operational_failure : ℕ → Bool → String → Action R Bool
    transition_job_after_operational_failure job_id will_retry final_error = do
      values ← operational_values will_retry final_error
      changed ← update_where job_id (λ job. is_nonterminal job.status) values
      read_changed job_id changed

    abbrev pub answer_lock : ℕ → Bool → Action R Bool
    answer_lock job_id true w = returns true (record w { held = job_id ∷ w.held })
    answer_lock job_id false w = returns false w

    unfoldable pub try_acquire_preview_job_lock : ℕ → Action R Bool
    try_acquire_preview_job_lock job_id =
        if env.postgresql
        then (statement env >> (λ w. answer_lock job_id (env.lock_free w.step job_id) w))
        else pure true

    -- `sleep` takes at least the time asked for.
    abbrev pub sleep : ℕ → Action R Unit
    sleep duration w =
        returns tt (record (next w) { monotonic = w.monotonic + duration + env.overrun w.step })

    -- The loop, on fuel: `none` when it runs out.
    unfoldable pub acquire_until : ℕ → ℕ → ℕ → ℕ → Action R (Option Bool)
    acquire_until job_id deadline poll_interval zero = pure none
    acquire_until job_id deadline poll_interval (suc rounds) =
        let again = acquire_until job_id deadline poll_interval rounds in
        do
          acquired ← try_acquire_preview_job_lock job_id
          λ w.
              if acquired
              then pure (some true) w
              else if leb deadline w.monotonic
              then pure (some false) w
              else (sleep (smaller poll_interval (deadline - w.monotonic)) >> again) w

    -- The times are in milliseconds.
    unfoldable pub acquire_preview_job_lock : ℕ → ℕ → ℕ → Action R Bool
    acquire_preview_job_lock job_id timeout poll_interval = do
      answer ← λ w. acquire_until job_id (w.monotonic + timeout) poll_interval (timeout + 1) w
      pure (elim answer [ some acquired ↦ acquired | none ↦ false ])

    unfoldable pub release_preview_job_lock : ℕ → Action R Unit
    release_preview_job_lock job_id =
        if env.postgresql
        then (statement env >> (λ w. returns tt (record w { held = remove_first job_id w.held })))
        else pure tt

    abbrev pub select_expired : ℕ → List (PreviewJob R) → List (PreviewJob R)
    select_expired time [] = []
    select_expired time (job ∷ jobs) =
        if ltb job.expires_at time then select_expired time jobs else job ∷ select_expired time jobs

    unfoldable pub delete_expired_jobs : Option ℕ → Action R ℕ
    delete_expired_jobs at_time = do
      time ← elim at_time [ some time ↦ pure time | none ↦ now env ]
      λ w.
          let kept = select_expired time w.jobs in
          (commit env kept >> pure (length w.jobs - length kept)) w

  -- `ORDER BY created_at, id`
  abbrev pub comes_before : PreviewJob R → PreviewJob R → Bool
  comes_before a b =
      ltb a.created_at b.created_at || (a.created_at == b.created_at && leb a.id b.id)

  unfoldable pub insert_job : PreviewJob R → List (PreviewJob R) → List (PreviewJob R)
  insert_job job [] = job ∷ []
  insert_job job (other ∷ jobs) =
      if comes_before job other then job ∷ other ∷ jobs else other ∷ insert_job job jobs

  unfoldable pub nonterminal_jobs : List (PreviewJob R) → List (PreviewJob R)
  nonterminal_jobs [] = []
  nonterminal_jobs (job ∷ jobs) =
      if is_nonterminal job.status
      then insert_job job (nonterminal_jobs jobs)
      else nonterminal_jobs jobs

  unfoldable pub list_reconciliation_candidates : Environment → ℕ → Action R (List (PreviewJob R))
  list_reconciliation_candidates env limit = do
    statement env
    λ w. pure (take limit (nonterminal_jobs w.jobs)) w

-- The two keys of a UUID's integer.
abbrev pub signed : ℕ → ℤ
signed value = if ltb value 2_147_483_648 then pos value else pos value -ℤ pos 4_294_967_296

unfoldable pub advisory_lock_keys : ℕ → ℤ × ℤ
advisory_lock_keys job_id =
    (signed (job_id / 4_294_967_296 % 4_294_967_296), signed (job_id % 4_294_967_296))
