-- ===== src/Jobs.antt =====
-- The jobs that run a strategy preview: their rows in the database, the service that submits and
-- runs them, the worker of the queue, and the reconciliation of the two.
pub mod Model
pub mod World
pub mod Ends
pub mod Rows
pub mod Store
pub mod Lifecycle
pub mod Service
pub mod Program
pub mod Worker
pub mod Queue
pub mod Reconciliation
