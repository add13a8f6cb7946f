-- ===== src/Session.antt =====
-- app/backend/services/dev_session.py: the imperative shell over the interview state machine.
pub mod Working
pub mod World
pub mod Inputs
pub mod Execute
pub mod Drive
pub mod View
pub mod Service
mod Examples
