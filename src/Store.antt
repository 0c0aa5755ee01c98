-- ===== src/Store.antt =====
-- execution/store.py: the job journal behind the scheduler.
pub mod State
pub mod Stages
pub mod Jobs
pub mod Public
pub mod Journal
pub mod Rows
pub mod Inversion
pub mod Steps
pub mod Budget
pub mod Fencing
pub mod Final
pub mod Stale
pub mod Events
pub mod Replay
pub mod Sequence
pub mod Pages
