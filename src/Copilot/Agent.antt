-- ===== src/Copilot/Agent.antt =====
-- v2/src/footballai_v2/copilot/agent: the read-only agent over one run.
pub mod Tools
pub mod Trace
pub mod Loop
pub mod Conversation
pub mod Answer
pub mod Invariant
pub mod Results
