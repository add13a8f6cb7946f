-- ===== src/FeatureFlags.antt =====
-- The feature flags: app/backend/services/feature_flags.py.
pub mod Service
pub mod Tasks
pub mod Fresh
pub mod Examples
