-- ===== src/Llm.antt =====
-- app/backend/llm: the one function through which a model is called, with its prices, its retries,
-- its trace and the ledger that it charges.
pub mod Pricing
pub mod Models
pub mod Trace
pub mod Backend
pub mod Keys
pub mod Schema
pub mod Reply
pub mod Client
pub mod Audit
pub mod Ledger
mod Examples
