-- ===== src/Crdt.antt =====
-- tirbase-core/src/crdt: the deltas, the changeset DAG, and the merge of incoming deltas.
pub mod Delta
pub mod Dag
pub mod Automerge
pub mod Merge
pub mod Verify
pub mod Failure
pub mod Engine
