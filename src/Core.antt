-- ===== src/Core.antt =====
-- core/adapter.py and core/identity.py: the plan of a Kova Core request and the binding of its stages.
pub mod Messages
pub mod Request
pub mod Plan
pub mod Bounds
pub mod Resolved
pub mod View
pub mod Admit
pub mod Bind
pub mod Trusted
