-- ===== src/Api.antt =====
-- The HTTP routes of backend/app/api/routes/strategies.py: the strategies that users save.
pub mod Model
pub mod Session
pub mod Requests
pub mod Handlers
pub mod Ownership
pub mod Texts
pub mod Changes
pub mod Isolation
pub mod Traces
pub mod Confirmed
pub mod Authentication
pub mod Polling
pub mod Presented
pub mod Delivered
