-- ===== src/Agents.antt =====
-- The two agents of app/backend/agents: their outputs, their calls of the model, the retry policy.
pub mod Output
pub mod Call
pub mod Interviewer
pub mod Assessor
pub mod Retry
pub mod Integrity
mod Examples
