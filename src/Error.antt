-- ===== src/Error.antt =====
-- tirbase-core/src/errors.rs: the errors, without the texts that only describe them, and the results of fallible code.
use tir_base.Prelude.{ℕ, String, Bool, true, false}
use tir_base.Crdt.Delta.{DeltaId, Did, IncidentId}

-- IncidentState of contamination/incident.rs, which one of the errors carries
pub data IncidentState : Type 0 where
  open_state closed decomposed : IncidentState
  superseded_by : IncidentId → IncidentState

pub data TirBaseError : Type 0 where
  did_resolution_failed : Did → TirBaseError
  signature_verification_failed : TirBaseError
  peer_revoked : Did → TirBaseError
  threshold_not_met : ℕ → ℕ → TirBaseError
  authorisation_failed : TirBaseError
  unknown_schema_hash : ℕ → TirBaseError
  delta_malformed : TirBaseError
  schema_parse_error : ℕ → ℕ → TirBaseError
  version_path_mismatch : ℕ → ℕ → ℕ → TirBaseError
  schema_registration_failed : TirBaseError
  noise_handshake_failed : Did → TirBaseError
  mesh_unavailable : TirBaseError
  fragment_reassembly_failed : Did → ℕ → TirBaseError
  cloud_queue_full : ℕ → TirBaseError
  unsupported_taint_source : TirBaseError
  invalid_incident_state : IncidentState → TirBaseError
  migration_ca_signature_invalid : ℕ → TirBaseError
  migration_hash_mismatch : ℕ → TirBaseError
  migration_transform_timeout : ℕ → TirBaseError
  migration_in_progress : ℕ → TirBaseError
  unknown_migration_hash : ℕ → TirBaseError
  local_store_write_failed : TirBaseError
  compaction_failed : String → TirBaseError
  refetch_unavailable : DeltaId → TirBaseError
  spatial_diversity_degraded : ℕ → ℕ → TirBaseError

pub data Result {ℓ} (A : Type ℓ) : Type ℓ where
  ok : A → Result A
  err : TirBaseError → Result A

infixl 5 ◌>>=◌ ◌>>◌
abbrev pub ◌>>=◌ {ℓ κ} : {A : Type ℓ} {B : Type κ} → Result A → (A → Result B) → Result B
ok a >>= f = f a
err e >>= f = err e

abbrev pub ◌>>◌ {ℓ κ} : {A : Type ℓ} {B : Type κ} → Result A → Result B → Result B
m >> k = m >>= λ _. k

abbrev pub is_ok {ℓ} : {A : Type ℓ} → Result A → Bool
is_ok (ok a) = true
is_ok (err e) = false
