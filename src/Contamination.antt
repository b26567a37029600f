-- ===== src/Contamination.antt =====
-- tirbase-core/src/contamination: taint over the changeset DAG, incidents and their resolution.
pub mod Database
pub mod Incident
pub mod Taint
pub mod Resolution
pub mod Verify
pub mod Engine
pub mod Examples
