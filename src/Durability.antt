-- ===== src/Durability.antt =====
-- tirbase-core/src/durability: receipts, the quorum that makes a delta set Tier-1 durable, and the
-- queue of deltas that wait for the Cloud Ledger.
pub mod Quorum
pub mod CloudQueue
pub mod CloudLedger
pub mod Anchor
