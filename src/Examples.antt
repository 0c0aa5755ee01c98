-- ===== src/Examples.antt =====
-- Runs of the models on concrete values, and the theorems applied to them.
pub mod Samples
pub mod JobRuns
pub mod LedgerRuns
pub mod RouterRuns
pub mod PlanRuns
pub mod RunnerRuns
pub mod CoreRuns
pub mod SelectionRuns
pub mod PageRuns
pub mod DebateRuns
pub mod BindRuns
