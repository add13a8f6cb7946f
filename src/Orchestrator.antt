-- ===== src/Orchestrator.antt =====
-- app/backend/orchestrator: the interview state machine, its plan, thresholds and events.
pub mod Plan
pub mod Config
pub mod Command
pub mod State
pub mod Event
pub mod Externals
pub mod Context
pub mod Adjudication
pub mod Moves
pub mod Budget
pub mod Coverage
pub mod TechTurn
pub mod Handlers
pub mod Transition
pub mod Runs
pub mod Invariant
pub mod Phases
pub mod Flags
pub mod Replies
pub mod Progress
pub mod TurnIds
pub mod Attribution
pub mod Signals
pub mod Persistence
pub mod Samples
mod Examples
