-- ===== src/Jobs/Queue.antt =====
-- backend/app/queue/preview_queue.py: what the queue is called with for a job, and the scan for the
-- jobs that it holds. The queue, its registries and the reading of a UUID are RQ's and Python's:
-- they are parameters.
pub mod Scan
use agentic_trading_platform.Prelude.{
  ℕ, ◌+◌, ◌-◌, Bool, true, false, ◌&&◌, Option, none, some, List, [], ◌∷◌, ◌++◌, String, str_eq,
  length, take, drop, Result, ok, ◌>>=◌, ◌>>◌, raise_if, runtime_error, ltb, if◌then◌else◌,
}
use agentic_trading_platform.Jobs.World.{Payload}

pub record RqPreviewQueue : Type 0 where
  pub job_timeout : ℕ
  pub max_retries : ℕ
  pub retry_intervals : List ℕ
  pub result_ttl : ℕ
  pub failure_ttl : ℕ

pub record Retry : Type 0 where
  pub max : ℕ
  pub interval : List ℕ

-- The arguments of `enqueue_call`.
pub record Call : Type 0 where
  pub func : String
  pub job_id : ℕ
  pub user_id : ℕ
  pub strategy_text : String
  pub strategy_name : Option String
  pub timeout : ℕ
  pub retry : Option Retry
  pub result_ttl : ℕ
  pub failure_ttl : ℕ
  pub callback_timeout : ℕ

abbrev pub task : String
task = "app.workers.preview_worker.process_preview_job"

abbrev pub retry_of : List ℕ → ℕ → Option Retry
retry_of intervals retries =
    if ltb 0 retries
    then some (record { max = retries; interval = drop (length intervals - retries) intervals })
    else none

abbrev pub retries_of : RqPreviewQueue → Option ℕ → ℕ
retries_of self none = self.max_retries
retries_of self (some retry_count) = retry_count

unfoldable pub enqueue_call : RqPreviewQueue → Payload → Call
enqueue_call self payload = record {
  func = task;
  job_id = payload.job_id;
  user_id = payload.user_id;
  strategy_text = payload.strategy_text;
  strategy_name = payload.strategy_name;
  timeout = self.job_timeout;
  retry = retry_of self.retry_intervals (retries_of self payload.retry_count);
  result_ttl = self.result_ttl;
  failure_ttl = self.failure_ttl;
  callback_timeout = 30;
}

pub record RqJob : Type 0 where
  pub func_name : String
  pub args : List String

abbrev pub too_long : String
too_long = "Preview registries exceed the reconciliation scan limit."

-- The loop over the registries: each is read from 0 to `remaining`, both included.
unfoldable pub scan_registries : ℕ → List String → List (List String) → Result (List String)
scan_registries scan_limit found [] = ok found
scan_registries scan_limit found (registry ∷ registries) = do
  raise_if (ltb scan_limit (length found)) (runtime_error too_long)
  let longer = found ++ take (scan_limit - length found + 1) registry
  raise_if (ltb scan_limit (length longer)) (runtime_error too_long)
  scan_registries scan_limit longer registries

unfoldable pub scan : ℕ → List String → List (List String) → Result (List String)
scan scan_limit queue registries = do
  let found = take (scan_limit + 1) queue
  raise_if (ltb scan_limit (length found))
      (runtime_error "Preview queue exceeds the bounded reconciliation scan limit.")
  scan_registries scan_limit found registries

module _ (uuid : String → Option ℕ) where
  abbrev pub first_uuid : List String → Option ℕ
  first_uuid [] = none
  first_uuid (arg ∷ _) = uuid arg

  -- The preview that a job of the queue runs: none if the job is gone, runs another function, or
  -- has no readable argument.
  abbrev pub preview_of : Option RqJob → Option ℕ
  preview_of none = none
  preview_of (some job) = if str_eq job.func_name task then first_uuid job.args else none

  abbrev pub add : Option ℕ → List ℕ → List ℕ
  add none ids = ids
  add (some id) ids = id ∷ ids

  unfoldable pub preview_ids : (String → Option RqJob) → List String → List ℕ
  preview_ids fetch_job [] = []
  preview_ids fetch_job (rq_job_id ∷ rest) =
      add (preview_of (fetch_job rq_job_id)) (preview_ids fetch_job rest)

  -- The set of identifiers, as a list. `fetch_job` gives none for a missing job.
  unfoldable pub active_preview_job_ids :
      (String → Option RqJob) → List String → List (List String) → ℕ → Result (List ℕ)
  active_preview_job_ids fetch_job queue registries scan_limit = do
    rq_job_ids ← scan scan_limit queue registries
    ok (preview_ids fetch_job rq_job_ids)
