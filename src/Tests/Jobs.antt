-- ===== src/Tests/Jobs.antt =====
-- The theorems about jobs at a concrete table and environment.
use agentic_trading_platform.Prelude.{
  ℕ, ◌≡◌, refl, ◌≤◌, ◌+◌, true, false, Option, none, some, is_some, [], ◌∷◌, String, inl, inr,
  arith, All, length, ok, Elem, str_eq, List, map, if◌then◌else◌,
}
use Prim.Native.Nat.{◌%◌}
use agentic_trading_platform.Prelude.Int.{pos, negsuc, ◌≤ℤ◌, ◌<ℤ◌}
use agentic_trading_platform.Jobs.Model.{
  PreviewJob, queued, completed, queued_stage, completed_stage,
}
use agentic_trading_platform.Jobs.World.{
  Environment, World, JobError, transient_preview_job, raises,
}
use agentic_trading_platform.Jobs.Ends.{Ends}
use agentic_trading_platform.Jobs.Rows.{find_job, to_failed}
use agentic_trading_platform.Jobs.Store.{
  acquire_until, advisory_lock_keys, try_acquire_preview_job_lock, release_preview_job_lock,
}
use agentic_trading_platform.Jobs.Store.Waiting.{acquire_until_answers, advisory_lock_keys_bounded}
use agentic_trading_platform.Jobs.Service.{Workflow, Settings, run_preview_job}
use agentic_trading_platform.Jobs.Worker.{process_preview_job}
use agentic_trading_platform.Jobs.Queue.{
  RqJob, task, preview_of, active_preview_job_ids, scan, scan_registries, preview_ids,
}
use agentic_trading_platform.Jobs.Queue.Scan.{all_ids, active_preview_job_ids_complete}
use agentic_trading_platform.Jobs.Reconciliation.{Limits, reconcile_preview_jobs}
use agentic_trading_platform.Jobs.Reconciliation.Tally.{counted}
use agentic_trading_platform.Jobs.Reconciliation.Counts.{counted-reconcile_preview_jobs}
use agentic_trading_platform.Jobs.Lifecycle.{IsWellFormed}
use agentic_trading_platform.Jobs.Lifecycle.Safety.{
  after, process_preview_job_keeps_terminal, process_preview_job-IsWellFormed,
  process_preview_job_releases, IsOutcome, run_preview_job-IsOutcome,
}

abbrev pub env : Environment
env = record {
  clock = λ n. 100 + n;
  database = λ _. none;
  postgresql = true;
  lock_free = λ _ _. true;
  overrun = λ _. 0;
  queue = λ _. none;
}

abbrev pub waiting : PreviewJob String
waiting = record {
  id = 1;
  user_id = 7;
  status = queued;
  stage = queued_stage;
  progress = 5;
  strategy_text = "buy low";
  strategy_name = none;
  error_message = none;
  preview_result = none;
  attempt_count = 0;
  created_at = 10;
  started_at = none;
  completed_at = none;
  expires_at = 5_000;
}

abbrev finished : PreviewJob String
finished = record waiting {
  id = 2;
  status = completed;
  stage = completed_stage;
  progress = 100;
  preview_result = some "done";
  completed_at = some 20;
  attempt_count = 1;
}

abbrev pub world : World String
world = record { jobs = waiting ∷ finished ∷ []; held = []; monotonic = 0; payloads = []; step = 0 }

abbrev settings : Settings
settings = record { lock_wait = 1_000; poll_interval = 50; ttl_hours = 24; max_retries = 2 }

abbrev pub workflow : Workflow String String String
workflow = record {
  parse = λ _ text. inr text;
  preview_factory = λ _ parsed. inr parsed;
  serialize_preview = λ parsed preview. inr preview;
}

abbrev uuid : String → Option ℕ
uuid text = if str_eq text "one" then some 1 else none

process_preview_job_keeps_terminal_example :
    find_job 2 (after env settings uuid (λ _. inr workflow) none "one" world).jobs ≡ some finished
unfolding find_job
process_preview_job_keeps_terminal_example =
    process_preview_job_keeps_terminal env settings uuid (λ _. inr workflow) none "one" world 1 2
      finished refl refl refl (inl refl)

both-IsWellFormed : All IsWellFormed world.jobs
both-IsWellFormed = (
  record {
    stage_fits = refl;
    progress_bound = omega arith;
    completed_has_result = λ e. absurd (cc);
    failed_has_message = λ e. absurd (cc);
    finished_has_time = λ e. absurd (cc);
  },
  (
    record {
      stage_fits = refl;
      progress_bound = omega arith;
      completed_has_result = λ e. ("done", refl);
      failed_has_message = λ e. absurd (cc);
      finished_has_time = λ e. (20, refl);
    },
    tt,
  ),
)

process_preview_job-IsWellFormed_example :
    All IsWellFormed (after env settings uuid (λ _. inr workflow) none "one" world).jobs
process_preview_job-IsWellFormed_example =
    process_preview_job-IsWellFormed env settings uuid (λ _. inr workflow) none "one" world 1 refl
      refl both-IsWellFormed

process_preview_job_releases_example :
    ((after env settings uuid (λ _. inr workflow) none "one" world).held ≡ [])
    × ((e : JobError) (w' : World String)
        → process_preview_job env settings uuid (λ _. inr workflow) none "one" world ≡ raises e w'
        → e ≡ transient_preview_job)
process_preview_job_releases_example =
    process_preview_job_releases env settings uuid (λ _. inr workflow) none "one" world 1 refl refl

run_preview_job-IsOutcome_example :
    IsOutcome env 1 false world (run_preview_job env workflow 1 false world)
run_preview_job-IsOutcome_example = run_preview_job-IsOutcome env workflow 1 false world

acquire_until_answers_example :
    Ends
      (λ answer _. is_some answer ≡ true)
      (λ _ _. Unit {0})
      (acquire_until env 1 1_000 50 1_001 world)
acquire_until_answers_example =
    acquire_until_answers env 1 1_000 50 1_001 world (omega arith) (omega arith)

advisory_lock_keys_bounded_example :
    (negsuc 2_147_483_647 ≤ℤ (advisory_lock_keys 5_000_000_000).0)
    × ((advisory_lock_keys 5_000_000_000).0 <ℤ pos 2_147_483_648)
    × (negsuc 2_147_483_647 ≤ℤ (advisory_lock_keys 5_000_000_000).1)
    × ((advisory_lock_keys 5_000_000_000).1 <ℤ pos 2_147_483_648)
    × (advisory_lock_keys 5_000_000_000 ≡ advisory_lock_keys 7
        → 5_000_000_000 % 18_446_744_073_709_551_616 ≡ 7 % 18_446_744_073_709_551_616)
advisory_lock_keys_bounded_example = advisory_lock_keys_bounded 5_000_000_000 7

abbrev fetch_job : String → Option RqJob
fetch_job rq_job_id =
    if str_eq rq_job_id "a" then some (record { func_name = task; args = "one" ∷ [] }) else none

scanned :
    active_preview_job_ids uuid fetch_job ("a" ∷ []) (("b" ∷ []) ∷ [] ∷ [] ∷ []) 10 ≡ ok (1 ∷ [])
unfolding active_preview_job_ids scan scan_registries preview_ids
scanned = refl

active_preview_job_ids_complete_example :
    (length (all_ids ("a" ∷ []) (("b" ∷ []) ∷ [] ∷ [] ∷ [])) ≤ 10)
    × ((rq_job_id : String) (id : ℕ)
        → Elem rq_job_id (all_ids ("a" ∷ []) (("b" ∷ []) ∷ [] ∷ [] ∷ []))
        → preview_of uuid (fetch_job rq_job_id) ≡ some id
        → Elem id (1 ∷ []))
active_preview_job_ids_complete_example =
    active_preview_job_ids_complete uuid fetch_job ("a" ∷ []) (("b" ∷ []) ∷ [] ∷ [] ∷ []) 10 scanned

abbrev limits : Limits
limits = record {
  max_retries = 2;
  stale_after_seconds = 60;
  batch_size = 10;
  registry_scan_limit = 10;
}

counted-reconcile_preview_jobs_example :
    Ends
      (λ summary _. counted summary ≡ summary.scanned)
      (λ _ _. Unit {0})
      (reconcile_preview_jobs env
        (λ _ _. inr [])
        (λ _ jobs. jobs)
        (try_acquire_preview_job_lock env)
        (release_preview_job_lock env)
        limits
        200
        world)
counted-reconcile_preview_jobs_example =
    counted-reconcile_preview_jobs env limits 200 (λ _ _. inr []) (λ _ jobs. jobs)
      (try_acquire_preview_job_lock env) (release_preview_job_lock env)
      (λ _ _ _ job f h. (job, f, h)) world

-- Another process fails every job before it is updated here.
abbrev failed_elsewhere : ℕ → List (PreviewJob String) → List (PreviewJob String)
failed_elsewhere n jobs = map (to_failed 0 "failed elsewhere") jobs
