-- ===== src/Crdt/Delta.antt =====
-- tirbase-core/src/crdt/delta.rs: a delta with its metadata and its tag log. A 32-byte
-- identifier or hash and a UUID are numbers; bytes are numbers; a DID is a text.
use tir_base.Prelude.{ℕ, String, List, ℤ}

abbrev pub DeltaId : Type 0
DeltaId = ℕ

abbrev pub Did : Type 0
Did = String

abbrev pub IncidentId : Type 0
IncidentId = ℕ

pub data PriorityClass : Type 0 where
  high medium low : PriorityClass

pub data DeltaTag : Type 0 where
  contaminated : DeltaId → IncidentId → DeltaTag
  decontaminated : IncidentId → ℤ → DeltaTag
  resolved : Did → ℤ → DeltaTag
  contaminated_by_human_reaction : IncidentId → DeltaTag
  contaminated_by_corrupted_migration : ℕ → DeltaTag
  replay_complete : ℕ → DeltaTag

pub record Delta : Type 0 where
  pub id : DeltaId
  pub author_did : Did
  pub signature : List ℕ
  pub schema_hash : ℕ
  pub automerge_bytes : List ℕ
  pub priority : PriorityClass
  pub causal_parents : List DeltaId
  pub tags : List DeltaTag
  pub lamport : ℕ
  pub created_at : ℤ
