-- ===== src/Evaluation.antt =====
-- The offline evaluation, src/app/evaluation.
pub mod Dataset
pub mod Metrics
pub mod Scoring
pub mod Loading
pub mod Sweep
pub mod Runner
