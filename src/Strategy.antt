-- ===== src/Strategy.antt =====
-- The strategies that the back end understands: their data and their validation.
pub mod Spec
pub mod Semantics
pub mod Draft
pub mod Reading
pub mod Parser
pub mod Interpretation
