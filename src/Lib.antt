-- ===== src/Lib.antt =====
-- A verification library of the back end of the trading platform, backend/app.
--
-- The program takes a trading strategy, checks and compiles it, runs it over daily bars, and shows
-- the result as a preview; a preview runs as a job, whose row in the database is the state of it,
-- and which a queue hands to a worker. The parts and their files:
--
--   Decimal            what the code uses of Python's decimal numbers, as an interface. The code is
--                      modelled over any such arithmetic; `IsOrdered` and `IsExact` are what some
--                      theorems assume of it, and Decimal.Fixed is one that meets them.
--   Strategy.Spec      schemas/strategy_spec.py: the validated specification.
--   Strategy.Semantics services/strategy_semantics.py: the checks behind the schema, each an
--                      exception as a value of `Result`.
--   Strategy.Semantics.Text the same file: the checks of a text. `Strategy.Reading` has the methods of
--                      `str`, `re` and `Decimal` that they call, as two interfaces.
--   Strategy.Draft     schemas/strategy_spec.py: what the language model fills in.
--   Strategy.Interpretation services/strategy_interpretation.py.
--   Strategy.Parser    services/strategy_parser.py: Rules completes one rule, Inference finds an
--                      omitted one, Normalize is `normalize_strategy_draft`, and Provider the entry
--                      point with the call of the language model as a parameter. The two lists that
--                      the code appends to are `Notes`, passed along.
--   Backtest.Models    backtesting/models.py: bars, signals, trades and results.
--   Backtest.Sma       backtesting/sma_crossover.py: the loop is `sma_from`, whose running total is
--                      an argument, and `crossover_from`.
--   Backtest.Compiler  backtesting/strategy_compiler.py; the specification that
--                      scripts/run_sma_backtest.py builds is in Backtest.Compiler.Crossover.
--   Backtest.Engine    backtesting/engine.py: `Portfolio` has the variables of the loop of
--                      `execute_long_only_signals`; a round is `run_bar`, which is the fills at the
--                      open (`open_phase`), the exits within the bar (`intraday_phase`) and `mark`.
--   Backtest.Metrics   backtesting/metrics.py; the power in the annual growth rate is a parameter.
--   Backtest.Preview   services/strategy_preview.py and backtesting/market_data.py. Loaded is
--                      about a strategy on the bars of a table that imports have filled.
--   Market             scripts/import_market_csv.py with models/market_data.py: Row reads and checks a
--                      line, Csv is the loop over a file, Columns has the types and the checks of the
--                      columns, with what PostgreSQL keeps of a number as a parameter, Table the
--                      statements of SQL on a list of rows, and Import the transaction, in which
--                      any statement may fail. Stored is what holds of every table that imports
--                      have filled.
--   Jobs.Model         models/preview_job.py: a row.
--   Jobs.World         the state that calls share: the table, the advisory locks of the session, the
--                      monotonic clock and what the queue was given. `Environment` answers for the
--                      outside, by the number of the interaction: each statement of the database may
--                      raise, so each theorem about jobs is about every sequence of failures.
--   Jobs.Rows          services/job_store.py: the lookup of a row and what the statements set in it.
--   Jobs.Store         the same file: an UPDATE with its condition is `update_where`, the
--                      commit of an object's assignments is `save`.
--   Jobs.Service       services/preview_job_service.py: submission and the run of a job.
--   Jobs.Program       the same file with services/strategy_preview.py: what a job runs with, which is
--                      the parser, the preview and `serialize_preview`. The service is over any such
--                      `Workflow`.
--   Jobs.Worker        workers/preview_worker.py: the task and the callback of a failure.
--   Jobs.Queue         queue/preview_queue.py: what is enqueued, and the scan of the registries.
--   Jobs.Reconciliation services/preview_reconciliation.py. What other processes do to the table before
--                      a row is updated is a parameter, `elsewhere`.
--   Jobs.Lifecycle     the transitions of a row as a relation, and that the worker makes no others.
--   Api                api/routes/strategies.py, with models/strategy.py (Model) and schemas/strategy.py
--                      (Requests): `Environment` answers for the database at each statement; `handle` is
--                      a request with its body, `handle_all` a sequence of them. Authentication is
--                      services/supabase_auth.py with api/dependencies/auth.py, and Polling
--                      api/routes/jobs.py, which reads the table of Jobs.World.
--   Prelude, Tests     shared names and lemmas; the theorems at concrete inputs.
--
-- (Paths are below backend/app.) The service uses the store, the worker the service, and both take
-- the lock of a job first; the reconciliation compares the store with the queue. The preview
-- composes the compiler, the engine and the metrics.
--
-- Bounds: loops over bars, signals, rows and registries are recursion on lists. The wait for a lock
-- is on fuel, one round for each millisecond up to the deadline and one more, since each sleep takes
-- at least a millisecond. The batches of an import are on fuel, of which there is as much as rows.
-- Numbers of Python are unbounded, and so are the model's; a UUID is its integer, and the keys of its
-- lock are taken modulo 2 ^ 32 as in the code.
--
-- Not modelled: logging; time zones; the commit that fails after the database has made it (a commit
-- that raises leaves the table as it was); a rollback that raises; the changes of other processes
-- between two statements of one call, other than to locks and before an UPDATE of the
-- reconciliation; the prompt of the language model, the text of JSON and the schema of a stored
-- preview, the HTTP routes other than those of saved strategies and of the polling of jobs,
-- settings and connections.
pub mod Prelude
pub mod Decimal
pub mod Strategy
pub mod Backtest
pub mod Market
pub mod Jobs
pub mod Api
mod Tests
