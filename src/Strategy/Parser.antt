-- ===== src/Strategy/Parser.antt =====
-- backend/app/services/strategy_parser.py: the parser of a request in plain words.
pub mod Rules
pub mod Inference
pub mod Normalize
pub mod Provider
pub mod Steps
pub mod Added
pub mod Leaves
pub mod Reported
pub mod Assumed
pub mod Runnable
pub mod RoundTrip
pub mod Operands
pub mod Opposites
