-- ===== src/Forms.antt =====
-- The two forms of the frontend: that of an environment and that of a policy.
pub mod Environment
pub mod Policy
mod Tests
