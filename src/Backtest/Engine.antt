-- ===== src/Backtest/Engine.antt =====
-- backend/app/backtesting/engine.py: the execution of signals, long only, with risk controls.
pub mod Portfolio
pub mod Risk
pub mod Run
pub mod Curve
pub mod Sound
