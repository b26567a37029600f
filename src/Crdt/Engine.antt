-- ===== src/Crdt/Engine.antt =====
-- CrdtEngine of tirbase-core/src/crdt/mod.rs (native build): how an incoming delta passes the
-- gates and is merged, and how a local write becomes a delta. The libraries are the interface
-- `Libraries`, the clock is the argument `now`; the texts for the reader, the rejection listener and
-- the errors of the database are left out. The Lamport clock is a `u64`.
pub mod Gate
pub mod Admit
pub mod Produce
pub mod Clock
pub mod Examples
use Prim.Native.Nat.{max}
use tir_base.Prelude.{
  ℕ, suc, ◌+◌, ◌%◌, ◌^◌, String, Bool, true, false, not, ◌&&◌, ◌||◌, Option, none, some, List, [],
  ◌∷◌, ◌++◌, ℤ, if◌then◌else◌, ◌==◌, nat_eq, string_eq, contains, any, is_empty, ltb, length,
  lookup, insert,
}
use tir_base.Error.{Result, ok, err, ◌>>=◌, delta_malformed, schema_registration_failed}
use tir_base.Identity.{Crypto, resolve_did, verify}
use tir_base.Schema.{Schema, TableDef, CompactionPolicy, never}
use tir_base.Schema.Diff.{SchemaDiff, diff_schemas, is_additive, is_breaking}
use tir_base.Schema.Hash.{identifier_hash, from_bytes}
use tir_base.Crdt.Delta.{DeltaId, Did, DeltaTag, PriorityClass, Delta}
use tir_base.Crdt.Dag.{Zstd, ChangesetDag, DagNode}
use tir_base.Crdt.Dag
use tir_base.Crdt.Dag.Topological.{dag_tips}
use tir_base.Crdt.Automerge.{Automerge, Op, Change}
use tir_base.Crdt.Failure.{
  DeltaRejectionCode, DeltaRejectionRecord, revoked_author, missing_signature, did_resolution,
  signature_verification,
}
use tir_base.Crdt.Merge.{
  MergeOutcome, merged, quarantined, rejected, breaking_schema_change, unknown_schema_hash,
}
use tir_base.Crdt.Verify.Override.{ConflictSnapshot, capture_conflicts, verify_and_override}

-- what is signed and hashed: neither the identifier nor the signature
pub record CanonicalDeltaPayload : Type 0 where
  pub author_did : Did
  pub schema_hash : ℕ
  pub automerge_bytes : List ℕ
  pub priority : PriorityClass
  pub causal_parents : List DeltaId
  pub tags : List DeltaTag
  pub lamport : ℕ
  pub created_at : ℤ

pub record Libraries : Type 1 where
  pub crypto : Crypto
  pub zstd : Zstd
  pub automerge : Automerge
  pub utf8 : String → List ℕ
  pub sign : List ℕ → List ℕ → List ℕ
  pub payload_to_json : CanonicalDeltaPayload → List ℕ
  pub delta_to_json : Delta → Option (List ℕ)

abbrev pub max_rejection_records : ℕ
max_rejection_records = 1024

pub data IncomingSchemaClass : Type 0 where
  known unknown : IncomingSchemaClass
  additive breaking : SchemaDiff → IncomingSchemaClass

module _ (lib : Libraries) where
  pub record CrdtEngine : Type 0 where
    pub doc : lib.automerge.Doc
    pub lamport : ℕ
    pub known_schema_hash : ℕ
    pub known_schemas : List ℕ
    pub schema_definitions : List (ℕ × Schema)
    pub author_did : Did
    pub secret_key : List ℕ
    pub revoked_dids : List Did
    pub rejection_records : List DeltaRejectionRecord
    pub dag : ChangesetDag

  unfoldable pub new : List ℕ → List ℕ → Did → ℕ → ChangesetDag → CrdtEngine
  new secret_key public_key author_did schema_hash dag = record {
    doc = lib.automerge.new_with_actor public_key;
    lamport = 0;
    known_schema_hash = schema_hash;
    known_schemas = schema_hash ∷ [];
    schema_definitions = [];
    author_did = author_did;
    secret_key = secret_key;
    revoked_dids = [];
    rejection_records = [];
    dag = dag;
  }

  abbrev pub add {ℓ} : {A : Type ℓ} → Bool → A → List A → List A
  add there a xs = if there then xs else a ∷ xs

  unfoldable pub add_known_schema : ℕ → CrdtEngine → CrdtEngine
  add_known_schema hash e = record e {
    known_schemas = add (contains e.known_schemas hash) hash e.known_schemas;
  }

  unfoldable pub register_schema_definition :
      ℕ → Schema → CrdtEngine → CrdtEngine × Result (Unit {0})
  register_schema_definition expected_hash schema e =
      let computed = identifier_hash lib.crypto lib.utf8 schema in
      if not (computed == expected_hash)
      then (e, err schema_registration_failed)
      else (record e { schema_definitions = insert computed schema e.schema_definitions }, ok tt)

  unfoldable pub set_current_schema : ℕ → CrdtEngine → CrdtEngine
  unfolding add_known_schema
  set_current_schema hash e = add_known_schema hash (record e { known_schema_hash = hash })

  unfoldable pub mark_did_revoked : Did → CrdtEngine → CrdtEngine
  mark_did_revoked did e = record e {
    revoked_dids = add (contains e.revoked_dids did) did e.revoked_dids;
  }

  abbrev policy_of : String → List TableDef → CompactionPolicy
  policy_of table [] = never
  policy_of table (t ∷ tables) =
      if t.name == table then t.compaction_policy else policy_of table tables

  abbrev policy_in : String → Option Schema → CompactionPolicy
  policy_in table none = never
  policy_in table (some schema) = policy_of table schema.tables

  unfoldable pub compaction_policy_for : String → CrdtEngine → CompactionPolicy
  compaction_policy_for table e = policy_in table (lookup e.known_schema_hash e.schema_definitions)

  abbrev pub class_of : Option Schema → Option Schema → IncomingSchemaClass
  class_of none incoming = unknown
  class_of (some local) none = unknown
  class_of (some local) (some incoming) =
      let diff = diff_schemas local incoming in
      if is_additive diff
      then additive diff
      else if is_breaking diff
      then breaking diff
      else unknown

  unfoldable pub classify_incoming_schema : ℕ → CrdtEngine → IncomingSchemaClass
  classify_incoming_schema hash e =
      if contains e.known_schemas hash
      then known
      else class_of (lookup e.known_schema_hash e.schema_definitions)
          (lookup hash e.schema_definitions)

  -- the oldest record leaves when there are more than 1,024
  abbrev pub bounded_push :
      DeltaRejectionRecord → List DeltaRejectionRecord → List DeltaRejectionRecord
  bounded_push r [] = r ∷ []
  bounded_push r (oldest ∷ records) =
      if ltb max_rejection_records (length (oldest ∷ records ++ r ∷ []))
      then records ++ r ∷ []
      else oldest ∷ records ++ r ∷ []

  unfoldable pub record_rejection : DeltaRejectionCode → Delta → ℤ → CrdtEngine → CrdtEngine
  record_rejection code delta now e = record e {
    rejection_records =
        bounded_push
          (record {
            code = code;
            author_did = delta.author_did;
            delta_id = delta.id;
            occurred_at_utc = now;
          })
          e.rejection_records;
  }

  unfoldable pub canonical_bytes : Delta → List ℕ
  canonical_bytes d = lib.payload_to_json (record {
    author_did = d.author_did;
    schema_hash = d.schema_hash;
    automerge_bytes = d.automerge_bytes;
    priority = d.priority;
    causal_parents = d.causal_parents;
    tags = d.tags;
    lamport = d.lamport;
    created_at = d.created_at;
  })

  unfoldable pub compute_id : List ℕ → DeltaId
  compute_id canonical = from_bytes 0 (lib.crypto.sha256 canonical)

  unfoldable pub load_incoming_doc : List ℕ → Option lib.automerge.Doc
  load_incoming_doc bytes = if is_empty bytes then none else lib.automerge.load bytes

  abbrev reconciled :
      (delta_lamport lamport : ℕ)
      → ConflictSnapshot lib.automerge
      → lib.automerge.Doc
      → lib.automerge.Doc
  reconciled delta_lamport lamport snapshot doc =
      if not (is_empty snapshot.lww) || not (is_empty snapshot.rga)
      then (verify_and_override lib.automerge doc snapshot delta_lamport lamport).0
      else doc

  -- step 4 of `apply`
  abbrev pub merge_doc :
      lib.automerge.Doc
      → (delta_lamport lamport : ℕ) → Option lib.automerge.Doc
      → Result lib.automerge.Doc
  merge_doc doc delta_lamport lamport none = ok doc
  merge_doc doc delta_lamport lamport (some their_doc) = elim (lib.automerge.merge doc their_doc) [
    | none ↦ err delta_malformed
    | some both ↦
        ok (reconciled delta_lamport lamport (capture_conflicts lib.automerge doc their_doc) both)
  ]

  unfoldable pub insert_dag_node : Delta → CrdtEngine → CrdtEngine
  insert_dag_node delta e = record e {
    dag =
        Dag.insert lib.zstd
          (record {
            delta_id = delta.id;
            payload = delta.automerge_bytes;
            delta_bytes = lib.delta_to_json delta;
            parent_ids = delta.causal_parents;
            actor_id = lib.automerge.get_actor e.doc;
            lamport = delta.lamport;
            schema_hash = delta.schema_hash;
            compacted = false;
            author_did = delta.author_did;
          })
          e.dag;
  }

  -- steps 5 and 6
  abbrev pub finish :
      Delta → CrdtEngine → Result lib.automerge.Doc → CrdtEngine × Result MergeOutcome
  finish delta e (err x) = (e, err x)
  finish delta e (ok doc) =
      let lamport = (max e.lamport delta.lamport + 1) % 2 ^ 64 in
      (insert_dag_node delta (record e { doc = doc; lamport = lamport }), ok (merged lamport))

  abbrev pub reject : DeltaRejectionCode → Delta → ℤ → CrdtEngine → CrdtEngine × Result MergeOutcome
  reject code delta now e = (record_rejection code delta now e, ok rejected)

  -- step 3b and what follows
  abbrev pub verified :
      Bool → Delta → ℤ → CrdtEngine → Result (Unit {0}) → CrdtEngine × Result MergeOutcome
  verified adopt delta now e (err x) = reject signature_verification delta now e
  verified adopt delta now e (ok u) =
      let adopted = if adopt then add_known_schema delta.schema_hash e else e in
      finish delta adopted
        (merge_doc e.doc delta.lamport e.lamport (load_incoming_doc delta.automerge_bytes))

  -- step 3
  abbrev pub resolved :
      Bool → Delta → ℤ → CrdtEngine → Result (List ℕ) → CrdtEngine × Result MergeOutcome
  resolved adopt delta now e (err x) = reject did_resolution delta now e
  resolved adopt delta now e (ok public_key) =
      verified adopt delta now e
        (verify lib.crypto public_key (canonical_bytes delta) delta.signature)

  -- step 2
  abbrev pub signed : Bool → Delta → ℤ → CrdtEngine → CrdtEngine × Result MergeOutcome
  signed adopt delta now e =
      if is_empty delta.signature
      then reject missing_signature delta now e
      else resolved adopt delta now e (resolve_did lib.crypto delta.author_did)

  -- step 1
  abbrev pub gate : Delta → ℤ → CrdtEngine → IncomingSchemaClass → CrdtEngine × Result MergeOutcome
  gate delta now e known = signed false delta now e
  gate delta now e (additive diff) = signed true delta now e
  gate delta now e (breaking diff) = (e, ok (quarantined breaking_schema_change))
  gate delta now e unknown = (e, ok (quarantined unknown_schema_hash))

  unfoldable pub apply : Delta → ℤ → CrdtEngine → CrdtEngine × Result MergeOutcome
  apply delta now e =
      if contains e.revoked_dids delta.author_did
      then reject revoked_author delta now e
      else gate delta now e (classify_incoming_schema delta.schema_hash e)

  abbrev any_insert : List (Op lib.automerge.Scalar) → Bool
  any_insert [] = false
  any_insert (op ∷ ops) = op.is_insert || any_insert ops

  abbrev rga_changes : List (Change lib.automerge.Scalar) → Option Bool
  rga_changes [] = none
  rga_changes (c ∷ changes) = some (any (λ x. any_insert x.operations) (c ∷ changes))

  -- is_rga_operation of crdt/merge.rs
  unfoldable pub is_rga_operation : List ℕ → Option Bool
  is_rga_operation automerge_bytes =
      if is_empty automerge_bytes then none else elim (lib.automerge.load automerge_bytes) [
        | none ↦ none
        | some doc ↦ rga_changes (lib.automerge.get_changes doc)
      ]

  -- apply_incoming_delta of crdt/merge.rs: the kind of operation only goes to the log
  unfoldable pub apply_incoming_delta : Delta → ℤ → CrdtEngine → CrdtEngine × Result MergeOutcome
  apply_incoming_delta delta now e = apply delta now e
