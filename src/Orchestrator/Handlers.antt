-- ===== src/Orchestrator/Handlers.antt =====
-- The event handlers of app/backend/orchestrator/state_machine.py, but for a candidate turn in TECH.
mod Guards
mod Steps
mod Replies
mod Assessments
pub use Guards.*
unfoldable pub use Steps.*
unfoldable pub use Replies.*
unfoldable pub use Assessments.*
