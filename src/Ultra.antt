-- ===== src/Ultra.antt =====
-- ultra/orchestrator.py, ultra/conversation.py, ultra/binding.py: the bounded plan of an Ultra request,
-- its history, its debate and the binding of its stages.
pub mod Specialists
pub mod Plan
pub mod Budget
pub mod Selection
pub mod Conversation
pub mod Debate
pub mod Bind
pub mod Bound
pub mod Request
