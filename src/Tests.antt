-- ===== src/Tests.antt =====
-- Tests and examples of the theorems, in an arithmetic with four decimal places.
mod Backtest
mod Jobs
mod Submission
mod Parser
mod Market
mod Api
mod Confirmed
mod Polling
mod Loaded
mod Program
