-- ===== src/Lib.antt =====
-- TirBase: an offline-first replicated store. The modules follow tirbase-core/src.
--
-- Parts and how they interact. A delta (crdt/delta.rs) is stored in the changeset DAG
-- (crdt/dag.rs), whose walk from a node to its descendants is what taint propagation uses;
-- incidents (contamination/incident.rs) record what a walk tainted, and two incidents that
-- overlap are merged into a composite. A device has an identity (identity/did.rs,
-- identity/keypair.rs) and a trust level (auth/trust.rs), which its capability manager
-- (auth/mod.rs) moves by the verdicts on its tokens; signatures of managers toward the
-- revocation of a device are collected by auth/revocation.rs. An incoming delta passes the gates
-- of the CRDT engine (crdt/mod.rs): revoked authors, schema, by the hash and the field-level
-- diff of schema/diff.rs, and signature; then its document is merged, read back
-- (crdt/verify.rs), and the delta enters the DAG. Deltas leave a device through the scheduler
-- (transport/scheduler.rs) by the class that transport/priority.rs gives them; Saturate_Mode
-- (transport/saturate.rs) is a lease that an authority opens, renews and ends, and in which the
-- scheduler serves HIGH only. On links with a small MTU a delta travels in fragments
-- (transport/fragment.rs). The receipts that peers return for a delta set are counted toward its
-- Tier-1 durability (durability/quorum.rs, durability/spatial.rs); those that wait for the Cloud
-- Ledger are sent in causal order and leave the queue when it acknowledges them
-- (durability/cloud_queue.rs); the ledger runs an engine of its own
-- (durability/cloud_ledger.rs). Beacons attest the location of a peer by tokens
-- (durability/anchor.rs).
--
-- Files:
-- - Prelude: names of the libraries, lists, integers and keyed lists.
-- - Error: TirBaseError and results. Crdt/Delta: deltas, tags, classes.
-- - Crdt/Dag: ChangesetDag, its tables as lists of rows, and its operations by their names in
--   the source. Dag/Reach, Dag/Search: the descendant walk. Dag/Rows: insert and get. Dag/Kahn
--   with Release, Causal and Steps: Kahn's algorithm. Dag/Topological: topological_sort and
--   dag_tips.
-- - Schema: the data of schema/mod.rs. Schema/Hash: schema/hash.rs. Schema/Diff with Quiet and
--   Keeps: schema/diff.rs.
-- - Crdt/Automerge: the automerge library as an interface. Crdt/Merge with Order: crdt/merge.rs
--   and the comparisons of crdt/mod.rs. Crdt/Failure: crdt/failure.rs. Crdt/Verify with Override
--   and Zones: crdt/verify.rs. Crdt/Engine with Gate, Admit, Produce and Clock: CrdtEngine of
--   crdt/mod.rs.
-- - Identity: derive_did, resolve_did and verify, and the checks that saturate.rs has of its
--   own.
-- - Auth/Trust: TrustLevelStateMachine. Auth/Biscuit: the token library as an interface.
--   Auth/Capability: CapabilityManager. Auth/Revocation with Collected: PendingRevocationStore.
-- - Contamination/Database: the rows of projection tables with their flags.
--   Contamination/Incident: incidents and composite_merge. Contamination/Taint: the tag log and
--   the walk. Contamination/Resolution: the authorisation of a manager and admin_close.
--   Contamination/Verify with Logs: verify_data and the decomposition of composites.
--   Contamination/Engine with Tagging and Index: CausalContaminationEngine.
-- - Transport/Priority, Transport/Scheduler with Drain, Fairness, Floor and Burst,
--   Transport/Saturate with Lease, Promise and Threshold: the modules of the same names.
--   Transport/Fragment: transport/fragment.rs; Sorting and Whole: fragments reassembled at once;
--   Inv and Inv/Steps, Seen, Outcomes and Delivery: the reassembly buffer.
-- - Durability/Quorum with Issuers: Tier1QuorumTracker and SpatialDiversityTracker.
-- - Durability/Anchor with Counted: durability/anchor.rs, over the interface of ed25519 that
--   Identity has.
-- - Durability/CloudLedger: durability/cloud_ledger.rs, over the CRDT engine.
-- - Durability/CloudQueue: durability/cloud_queue.rs; Order: its topological sort; Sync and
--   Loop: the cycle that sends the queue.
-- - Examples, and the Examples modules below the parts: tests and concrete instances.
--
-- Numbers. Identifiers, hashes, UUIDs and bytes are natural numbers; times are integers. An i64
-- wraps around where the source adds, subtracts or multiplies (Prelude/Int.i64), as in a release
-- build: the counters of the scheduler and the ends of leases. So do the u64 products of the
-- quanta, the Lamport clock of the CRDT engine and the u32 indices of fragments. A set or a map
-- of the source is a list.
--
-- Fuel. The walk over the DAG runs on fuel, one round for the root and one for each edge: each
-- edge enters its child into the queue at most once, when its parent is first visited. The
-- chunks of a delta are cut on fuel, one for each byte; the topological sorts of the DAG and of
-- the cloud queue on one round for each node.
--
-- Not modelled: the mutex and the errors of SQLite, the WASM variants of the native code,
-- cryptography, token parsing and compression (interfaces), and the parts of the program that no
-- file names above: the rest of durability, migration, the schema parser and printer, sessions,
-- and the public API. The texts of log lines and rejections are left out. SQLite leaves the
-- order of the rows of a SELECT open: reading a node takes that order as a function; the walks
-- over the DAG take the order of insertion.
pub mod Prelude
pub mod Error
pub mod Crdt
pub mod Identity
pub mod Auth
pub mod Contamination
pub mod Transport
pub mod Durability
pub mod Schema
pub mod Examples
