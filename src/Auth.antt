-- ===== src/Auth.antt =====
-- tirbase-core/src/auth: trust levels, capability tokens, signatures of managers, revocation.
pub mod Trust
pub mod Biscuit
pub mod Capability
pub mod Revocation
mod Examples
