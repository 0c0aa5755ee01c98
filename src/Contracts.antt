-- ===== src/Contracts.antt =====
-- execution/contracts.py: grants, limits, stages and the validated execution snapshot.
pub mod Grant
pub mod Spec
pub mod Validate
pub mod Admission
