-- ===== src/Backtest.antt =====
-- backend/app/backtesting: the bars, the averages, the compiled strategies, the engine and its
-- metrics.
pub mod Models
pub mod Sma
pub mod Compiler
pub mod Engine
pub mod Metrics
pub mod Preview
