-- ===== src/Tests/Submission.antt =====
-- The submission of a job to an empty table, with a queue that takes it.
use agentic_trading_platform.Prelude.{◌≡◌, refl, ◌+◌, true, none, [], String}
use agentic_trading_platform.Jobs.World.{Environment, World}
use agentic_trading_platform.Jobs.Ends.{Ends}
use agentic_trading_platform.Jobs.Service.{Settings, submit_preview_job}
use agentic_trading_platform.Jobs.Lifecycle.Submission.{
  IsQueued, IsHanded, submit_preview_job-IsQueued,
}

abbrev env : Environment
env = record {
  clock = λ n. 100 + n;
  database = λ _. none;
  postgresql = true;
  lock_free = λ _ _. true;
  overrun = λ _. 0;
  queue = λ _. none;
}

abbrev empty : World String
empty = record { jobs = []; held = []; monotonic = 0; payloads = []; step = 0 }

abbrev settings : Settings
settings = record { lock_wait = 1_000; poll_interval = 50; ttl_hours = 24; max_retries = 2 }

submit_preview_job-IsQueued_example :
    Ends
      (λ result w'.
        (result ≡ 3)
        × IsQueued env 3 7 "buy low" none empty.jobs w'.jobs
        × IsHanded env 3 7 "buy low" none empty.jobs w'.payloads
        × (w'.held ≡ []))
      (λ _ w'. w'.held ≡ [])
      (submit_preview_job env settings 3 7 "buy low" none empty)
submit_preview_job-IsQueued_example =
    submit_preview_job-IsQueued env settings 3 7 "buy low" none empty refl
