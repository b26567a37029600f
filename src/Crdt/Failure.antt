-- ===== src/Crdt/Failure.antt =====
-- tirbase-core/src/crdt/failure.rs: why a delta was rejected, and the record of it. The text for
-- the reader is left out.
use tir_base.Prelude.{String, ℤ}
use tir_base.Crdt.Delta.{DeltaId, Did}

pub data DeltaRejectionCode : Type 0 where
  revoked_author missing_signature did_resolution signature_verification : DeltaRejectionCode

unfoldable pub as_str : DeltaRejectionCode → String
as_str revoked_author = "REVOKED_AUTHOR"
as_str missing_signature = "MISSING_SIGNATURE"
as_str did_resolution = "DID_RESOLUTION_FAILED"
as_str signature_verification = "SIGNATURE_VERIFICATION_FAILED"

pub record DeltaRejectionRecord : Type 0 where
  pub code : DeltaRejectionCode
  pub author_did : Did
  pub delta_id : DeltaId
  pub occurred_at_utc : ℤ
