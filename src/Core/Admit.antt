-- ===== src/Core/Admit.antt =====
-- A Core plan is admitted by the execution contracts.
pub mod Ids
pub mod Stages
pub mod Prepared
pub mod Theorem
