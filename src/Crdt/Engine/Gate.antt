-- ===== src/Crdt/Engine/Gate.antt =====
-- The gates of `apply`: which deltas are merged, and that the others change nothing but the list
-- of rejections.
use tir_base.Prelude.{
  ℕ, ◌≤◌, ◌≡◌, refl, inl, inr, Bool, true, false, not, ◌&&◌, ◌||◌, Option, none, some, List, [],
  ◌∷◌, ℤ, arith, if◌then◌else◌, nat_eq, string_eq, Bool-cases, contains, is_empty, length,
  length-append, lookup,
}
use tir_base.Error.{Result, ok, err, ◌>>=◌, is_ok}
use tir_base.Identity.{resolve_did, verify}
use tir_base.Schema.{Schema}
use tir_base.Schema.Diff.{diff_schemas, is_additive, is_breaking}
use tir_base.Crdt.Delta.{Delta}
use tir_base.Crdt.Merge.{
  MergeOutcome, merged, quarantined, rejected, QuarantineReason, breaking_schema_change,
  unknown_schema_hash,
}
use tir_base.Crdt.Failure.{
  DeltaRejectionCode, DeltaRejectionRecord, revoked_author, missing_signature, did_resolution,
  signature_verification,
}
use tir_base.Crdt.Engine.{
  Libraries, CrdtEngine, IncomingSchemaClass, known, unknown, additive, breaking, class_of,
  classify_incoming_schema, record_rejection, canonical_bytes, load_incoming_doc, merge_doc,
  insert_dag_node, add_known_schema, finish, reject, bounded_push, max_rejection_records, verified,
  resolved, signed, gate, apply,
}

abbrev pub discarded : Result MergeOutcome → Bool
discarded (ok (merged n)) = false
discarded (ok (quarantined reason)) = true
discarded (ok rejected) = true
discarded (err x) = false

-- both schemas are registered, and the second only adds to the first
abbrev pub only_adds : Option Schema → Option Schema → Bool
only_adds none incoming = false
only_adds (some local) none = false
only_adds (some local) (some incoming) = is_additive (diff_schemas local incoming)

module _ (lib : Libraries) where
  abbrev pub authentic : Delta → Bool
  authentic d = is_ok (
      resolve_did lib.crypto d.author_did >>= λ key.
      verify lib.crypto key (canonical_bytes lib d) d.signature)

  abbrev pub schema_admits : ℕ → CrdtEngine lib → Bool
  schema_admits hash e =
      contains e.known_schemas hash
      || only_adds (lookup e.known_schema_hash e.schema_definitions)
          (lookup hash e.schema_definitions)

  abbrev pub admissible : Delta → CrdtEngine lib → Bool
  admissible d e =
      not (contains e.revoked_dids d.author_did) && schema_admits d.schema_hash e && authentic d

  abbrev pub Step : Type 0
  Step = CrdtEngine lib × Result MergeOutcome

  -- the engine afterwards, if only rejections were recorded
  abbrev pub OnlyRecords : CrdtEngine lib → CrdtEngine lib → Type 0
  OnlyRecords e after = after ≡ record e { rejection_records = after.rejection_records }

  -- the delta is discarded unless `b`, and then nothing but the list of rejections changes
  pub record Judged (e : CrdtEngine lib) (b : Bool) (step : Step) : Type 0 where
    pub verdict : discarded step.1 ≡ not b
    pub kept : b ≡ false → OnlyRecords e step.0
    pub bounded :
        length e.rejection_records ≤ max_rejection_records
        → length step.0.rejection_records ≤ max_rejection_records

  push_bounded :
      (r : DeltaRejectionRecord) (records : List DeltaRejectionRecord)
      → length records ≤ max_rejection_records
      → length (bounded_push lib r records) ≤ max_rejection_records
  push_bounded r [] h = omega arith
  push_bounded r (oldest ∷ records) h = ground (arith, length-append records (r ∷ []))

  module _ (d : Delta) (now : ℤ) (e : CrdtEngine lib) where
    reject-Judged : (code : DeltaRejectionCode) → Judged e false (reject lib code d now e)
    unfolding record_rejection
    reject-Judged code = record {
      verdict = refl;
      kept = λ h. refl;
      bounded = λ h. push_bounded _ e.rejection_records h;
    }

    quarantine-Judged : (reason : QuarantineReason) → Judged e false (e, ok (quarantined reason))
    quarantine-Judged reason = record { verdict = refl; kept = λ h. refl; bounded = λ h. h }

    finish-Judged :
        (adopted : CrdtEngine lib) (r : Result lib.automerge.Doc)
        → adopted.rejection_records ≡ e.rejection_records
        → Judged e true (finish lib d adopted r)
    unfolding insert_dag_node
    finish-Judged adopted (ok doc) same = record {
      verdict = refl;
      kept = λ h. cc;
      bounded = λ h. rw same h;
    }
    finish-Judged adopted (err x) same = record {
      verdict = refl;
      kept = λ h. cc;
      bounded = λ h. rw same h;
    }

    -- the engine that knows the delta's schema
    abbrev pub adopting : Bool → CrdtEngine lib
    adopting adopt = if adopt then add_known_schema lib d.schema_hash e else e

    records-adopting : (adopt : Bool) → (adopting adopt).rejection_records ≡ e.rejection_records
    unfolding add_known_schema
    records-adopting true = refl
    records-adopting false = refl

    verified-Judged :
        (adopt : Bool) (r : Result (Unit {0})) → Judged e (is_ok r) (verified lib adopt d now e r)
    verified-Judged adopt (err x) = reject-Judged signature_verification
    verified-Judged adopt (ok u) =
        finish-Judged (adopting adopt)
          (merge_doc lib e.doc d.lamport e.lamport (load_incoming_doc lib d.automerge_bytes))
          (records-adopting adopt)

    resolved-Judged :
        (adopt : Bool) (r : Result (List ℕ))
        → Judged e
            (is_ok (r >>= λ key. verify lib.crypto key (canonical_bytes lib d) d.signature))
            (resolved lib adopt d now e r)
    resolved-Judged adopt (err x) = reject-Judged did_resolution
    resolved-Judged adopt (ok key) =
        verified-Judged adopt (verify lib.crypto key (canonical_bytes lib d) d.signature)

    verify-empty :
        (key message signature : List ℕ)
        → is_empty signature ≡ true
        → is_ok (verify lib.crypto key message signature) ≡ false
    unfolding verify
    verify-empty key message [] h = ground arith
    verify-empty key message (b ∷ bytes) h = cc

    pub unsigned :
        (r : Result (List ℕ))
        → is_empty d.signature ≡ true
        → is_ok (r >>= λ key. verify lib.crypto key (canonical_bytes lib d) d.signature) ≡ false
    unsigned (err x) h = refl
    unsigned (ok key) h = verify-empty key (canonical_bytes lib d) d.signature h

    signed-Judged : (adopt : Bool) → Judged e (authentic d) (signed lib adopt d now e)
    signed-Judged adopt = elim (Bool-cases (is_empty d.signature)) [
      | inl empty ↦
          rw (empty, unsigned (resolve_did lib.crypto d.author_did) empty)
            (reject-Judged missing_signature)
      | inr some_bytes ↦ rw some_bytes (resolved-Judged adopt (resolve_did lib.crypto d.author_did))
    ]

    abbrev pub passes : IncomingSchemaClass → Bool
    passes known = true
    passes (additive diff) = true
    passes (breaking diff) = false
    passes unknown = false

    gate-Judged :
        (c : IncomingSchemaClass) → Judged e (passes c && authentic d) (gate lib d now e c)
    gate-Judged known = signed-Judged false
    gate-Judged (additive diff) = signed-Judged true
    gate-Judged (breaking diff) = quarantine-Judged breaking_schema_change
    gate-Judged unknown = quarantine-Judged unknown_schema_hash

    passes-class_of :
        (local incoming : Option Schema)
        → passes (class_of lib local incoming) ≡ only_adds local incoming
    passes-class_of none incoming = refl
    passes-class_of (some l) none = refl
    passes-class_of (some l) (some i) = elim (Bool-cases (is_additive (diff_schemas l i))) [
      | inl adds ↦ rw adds refl
      | inr other ↦ elim (Bool-cases (is_breaking (diff_schemas l i))) [
        | inl breaks ↦ rw (other, breaks) refl
        | inr same ↦ rw (other, same) refl
      ]
    ]

    pub passes-classify :
        passes (classify_incoming_schema lib d.schema_hash e) ≡ schema_admits d.schema_hash e
    unfolding classify_incoming_schema
    passes-classify = elim (Bool-cases (contains e.known_schemas d.schema_hash)) [
      | inl there ↦ rw there refl
      | inr not_there ↦ rw not_there (
          passes-class_of (lookup e.known_schema_hash e.schema_definitions)
            (lookup d.schema_hash e.schema_definitions))
    ]

    pub apply-Judged : Judged e (admissible d e) (apply lib d now e)
    unfolding apply
    apply-Judged = elim (Bool-cases (contains e.revoked_dids d.author_did)) [
      | inl revoked ↦ rw revoked (reject-Judged revoked_author)
      | inr fine ↦
          rw (fine, ← passes-classify) (gate-Judged (classify_incoming_schema lib d.schema_hash e))
    ]

-- An incoming delta is discarded, that is rejected or quarantined, unless its author is not
-- revoked, its schema is known or only adds to the current one, both being registered, and its
-- signature over the canonical bytes verifies under the key of its author's DID. A delta that is
-- discarded changes nothing of the engine but the list of rejections.
pub apply-Judged_iff :
    (lib : Libraries) (d : Delta) (now : ℤ) (e : CrdtEngine lib)
    → (discarded (apply lib d now e).1 ≡ not (admissible lib d e))
      × (admissible lib d e ≡ false → OnlyRecords lib e (apply lib d now e).0)
apply-Judged_iff lib d now e = let j = apply-Judged lib d now e in (j.verdict, j.kept)
