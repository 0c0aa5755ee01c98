-- ===== src/Usage.antt =====
-- usage/work_week.py: the weekly Work allowance.
pub mod Ledger
pub mod Operations
pub mod Units
pub mod Totals
pub mod Reserve
pub mod Capacity
pub mod Repeat
pub mod Settle
pub mod Once
pub mod Snapshot
pub mod Weeks
