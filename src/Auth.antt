-- ===== src/Auth.antt =====
-- The sign-in of staff: the decision when an account signs in (infra/functions/auth_claims/roles.py)
-- and the check of its tokens (app/backend/services/auth.py).
mod Text
pub mod Roles
pub mod Claims
pub mod Verifier
pub mod Staff
pub mod SignIn
pub mod Spacing
pub mod Examples
