-- ===== src/Runner.antt =====
-- execution/runner.py: what the scheduler decides in each of its rounds, and how a batch of stages ends.
pub mod Rounds
pub mod Progress
pub mod Outcomes
pub mod Pieces
