-- ===== src/Durability/CloudLedger.antt =====
-- tirbase-core/src/durability/cloud_ledger.rs: the ledger over a CRDT engine, and its connection to
-- the loop of the cloud queue. `from_slice` is the decoder of deltas of serde_json, `now` the clock.
-- The reasons of a rejection and the log line are left out.
mod Examples
use tir_base.Prelude.{
  ℕ, ◌≡◌, refl, inl, inr, Bool, true, false, Option, none, some, List, [], ◌∷◌, ◌++◌, arith, ℤ,
  if◌then◌else◌, ◌==◌, nat_eq, Bool-cases, contains, eq_refl,
}
use tir_base.Error.{Result, ok, err}
use tir_base.Crdt.Delta.{DeltaId, Did, Delta}
use tir_base.Crdt.Dag.{empty}
use tir_base.Crdt.Merge.{MergeOutcome, merged, quarantined, rejected}
use tir_base.Crdt.Engine.{Libraries, CrdtEngine, apply}
use tir_base.Crdt.Engine

pub data ReceiveOutcome : Type 0 where
  committed_now already_committed rejected_now : ReceiveOutcome

module _ (lib : Libraries) where
  pub record CloudLedger : Type 0 where
    pub engine : CrdtEngine lib
    pub committed : List DeltaId
    pub rejection_log : List DeltaId

  unfoldable pub new_in_memory : List ℕ → List ℕ → Did → ℕ → CloudLedger
  new_in_memory secret_key public_key author_did schema_hash = record {
    engine = Engine.new lib secret_key public_key author_did schema_hash empty;
    committed = [];
    rejection_log = [];
  }

  -- the ledger, with the engine and the outcome of its pipeline
  abbrev pub received :
      DeltaId
      → CloudLedger
      → CrdtEngine lib × Result MergeOutcome
      → CloudLedger × Result ReceiveOutcome
  received id l (engine, err e) = (record l { engine = engine }, err e)
  received id l (engine, ok (merged clock)) =
      (record l { engine = engine; committed = id ∷ l.committed }, ok committed_now)
  received id l (engine, ok (quarantined reason)) =
      (record l { engine = engine; committed = id ∷ l.committed }, ok committed_now)
  received id l (engine, ok rejected) =
      (record l { engine = engine; rejection_log = l.rejection_log ++ id ∷ [] }, ok rejected_now)

  unfoldable pub receive_delta : Delta → ℤ → CloudLedger → CloudLedger × Result ReceiveOutcome
  receive_delta delta now l =
      if contains l.committed delta.id
      then (l, ok already_committed)
      else received delta.id l (apply lib delta now l.engine)

  unfoldable pub is_committed : DeltaId → CloudLedger → Bool
  is_committed delta_id l = contains l.committed delta_id

  unfoldable pub add_known_schema : ℕ → CloudLedger → CloudLedger
  add_known_schema hash l = record l { engine = Engine.add_known_schema lib hash l.engine }

  abbrev pub acked : Result ReceiveOutcome → Bool
  acked (ok committed_now) = true
  acked (ok already_committed) = true
  acked (ok rejected_now) = false
  acked (err e) = false

  module _ (from_slice : List ℕ → Option Delta) (now : ℤ) where
    abbrev pub send_decoded : CloudLedger → Option Delta → CloudLedger × Bool
    send_decoded l none = (l, false)
    send_decoded l (some delta) = let done = receive_delta delta now l in (done.0, acked done.1)

    unfoldable pub send_delta : CloudLedger → DeltaId → List ℕ → CloudLedger × Bool
    send_delta l delta_id bytes = send_decoded l (from_slice bytes)

  received-committed :
      (id : DeltaId) (l : CloudLedger) (r : CrdtEngine lib × Result MergeOutcome) (x : DeltaId)
      → contains (received id l r).0.committed x ≡ (
          if id == x
          then (if contains l.committed x then true else acked (received id l r).1)
          else contains l.committed x)
  received-committed id l (engine, err e) x = ground arith
  received-committed id l (engine, ok (merged clock)) x = ground arith
  received-committed id l (engine, ok (quarantined reason)) x = ground arith
  received-committed id l (engine, ok rejected) x = ground arith

  -- The ledger acknowledges a delta exactly when its identifier is committed afterwards; no other
  -- identifier becomes committed, and none that was committed is lost. A delta that is committed
  -- is acknowledged again at any time, and changes nothing.
  pub receive_delta-committed :
      (delta : Delta) (now : ℤ) (l : CloudLedger)
      → let done = receive_delta delta now l in
        (acked done.1 ≡ is_committed delta.id done.0)
        × ((x : DeltaId) → is_committed x l ≡ true → is_committed x done.0 ≡ true)
        × ((x : DeltaId) → (delta.id == x) ≡ false → is_committed x done.0 ≡ is_committed x l)
        × (is_committed delta.id l ≡ true
            → (later : ℤ) → receive_delta delta later l ≡ (l, ok already_committed))
  unfolding receive_delta is_committed
  receive_delta-committed delta now l =
      let r = apply lib delta now l.engine in
      let same = received-committed delta.id l r in
      (
        elim (Bool-cases (contains l.committed delta.id)) [
          | inl old ↦ rw old (ground (arith, old))
          | inr fresh ↦ rw fresh (ground (arith, same delta.id, fresh, eq_refl delta.id))
        ],
        λ x h. elim (Bool-cases (contains l.committed delta.id)) [
          | inl old ↦ rw old h
          | inr fresh ↦ rw fresh (ground (arith, same x, h))
        ],
        λ x other. elim (Bool-cases (contains l.committed delta.id)) [
          | inl old ↦ rw old refl
          | inr fresh ↦ rw fresh (ground (arith, same x, other))
        ],
        λ old later. rw old refl,
      )
