-- ===== src/Crdt/Engine/Produce.antt =====
-- produce_delta of tirbase-core/src/crdt/mod.rs: a local write becomes a signed delta. The clock
-- is the argument `now`; `none` means that the search for the tips ran out of fuel.
use mathlib.Core.Path.{subst}
use tir_base.Prelude.{
  ℕ, ◌+◌, ◌%◌, ◌^◌, ◌≡◌, refl, ap, ◌∙◌, true, false, not, Option, none, some, List, [], ◌∷◌, ℤ,
  arith, if◌then◌else◌, contains, is_some, string_eq, nat_eq, is_empty, length,
}
use tir_base.Error.{ok, is_ok}
use tir_base.Identity.{derive_did, resolve_did, verify, resolve_did-derive_did}
use tir_base.Crdt.Delta.{DeltaId, DeltaTag, PriorityClass, Delta}
use tir_base.Crdt.Dag.Topological.{dag_tips, is_some-dag_tips}
use tir_base.Crdt.Engine.{
  Libraries, CrdtEngine, canonical_bytes, compute_id, insert_dag_node, apply,
}
use tir_base.Crdt.Engine.Gate.{discarded, authentic, apply-Judged_iff}

module _ (lib : Libraries) where
  unfoldable pub resolve_causal_parents : List DeltaId → CrdtEngine lib → Option (List DeltaId)
  resolve_causal_parents explicit e =
      if not (is_empty explicit) then some explicit else dag_tips e.dag

  -- steps 3 to 5: built, signed, and identified by the hash of what is signed
  unfoldable pub signed_delta :
      List ℕ → PriorityClass → List DeltaId → List DeltaTag → ℤ → CrdtEngine lib → Delta
  signed_delta automerge_bytes priority parents tags now e =
      let unsigned : Delta = record {
        id = 0;
        author_did = e.author_did;
        signature = [];
        schema_hash = e.known_schema_hash;
        automerge_bytes = automerge_bytes;
        priority = priority;
        causal_parents = parents;
        tags = tags;
        lamport = e.lamport;
        created_at = now;
      } in
      let canonical = canonical_bytes lib unsigned in
      record unsigned { signature = lib.sign e.secret_key canonical; id = compute_id lib canonical }

  abbrev made_from :
      List ℕ
      → PriorityClass
      → List DeltaTag
      → ℤ
      → CrdtEngine lib
      → Option (List DeltaId)
      → Option (CrdtEngine lib × Delta)
  made_from automerge_bytes priority tags now e none = none
  made_from automerge_bytes priority tags now e (some parents) =
      let delta = signed_delta automerge_bytes priority parents tags now e in
      some (insert_dag_node lib delta e, delta)

  unfoldable pub produce_delta_with_tags :
      List ℕ
      → PriorityClass
      → List DeltaId
      → List DeltaTag
      → ℤ
      → CrdtEngine lib
      → Option (CrdtEngine lib × Delta)
  produce_delta_with_tags automerge_bytes priority causal_parents tags now e =
      let ticked : CrdtEngine lib = record e { lamport = (e.lamport + 1) % 2 ^ 64 } in
      made_from automerge_bytes priority tags now ticked
        (resolve_causal_parents causal_parents ticked)

  unfoldable pub produce_delta :
      List ℕ → PriorityClass → List DeltaId → ℤ → CrdtEngine lib → Option (CrdtEngine lib × Delta)
  produce_delta automerge_bytes priority causal_parents now e =
      produce_delta_with_tags automerge_bytes priority causal_parents [] now e

-- What ed25519 promises of the device's own key.
pub record KeyPair (lib : Libraries) (e : CrdtEngine lib) (public_key : List ℕ) : Type 0 where
  pub own_did : e.author_did ≡ derive_did lib.crypto public_key
  pub key_length : length public_key ≡ 32
  pub key_valid : lib.crypto.valid_key public_key ≡ true
  pub signature_length : (message : List ℕ) → length (lib.sign e.secret_key message) ≡ 64
  pub verifies_signed :
      (message : List ℕ)
      → lib.crypto.verifies public_key message (lib.sign e.secret_key message) ≡ true

module _ (lib : Libraries) (e : CrdtEngine lib) (public_key : List ℕ)
    (k : KeyPair lib e public_key) where
  verify-own :
      (message : List ℕ)
      → is_ok (verify lib.crypto public_key message (lib.sign e.secret_key message)) ≡ true
  unfolding verify
  verify-own message =
      ground (arith, k.key_valid, k.signature_length message, k.verifies_signed message)

  resolve-own : resolve_did lib.crypto e.author_did ≡ ok public_key
  resolve-own = rw k.own_did (resolve_did-derive_did lib.crypto public_key k.key_length)

  signed_delta-authentic :
      (bytes : List ℕ) (priority : PriorityClass) (parents : List DeltaId) (tags : List DeltaTag)
      (now : ℤ) (lamport : ℕ)
      → authentic lib
          (signed_delta lib bytes priority parents tags now (record e { lamport = lamport }))
        ≡ true
  unfolding signed_delta canonical_bytes
  signed_delta-authentic bytes priority parents tags now lamport = rw resolve-own (verify-own _)

is_some-made_from :
    (lib : Libraries) (bytes : List ℕ) (priority : PriorityClass) (tags : List DeltaTag) (now : ℤ)
    (e : CrdtEngine lib) (o : Option (List DeltaId))
    → is_some o ≡ true
    → is_some (made_from lib bytes priority tags now e o) ≡ true
is_some-made_from lib bytes priority tags now e none h = cc
is_some-made_from lib bytes priority tags now e (some parents) h = refl

is_some-resolve_causal_parents :
    (lib : Libraries) (explicit : List DeltaId) (e : CrdtEngine lib)
    → is_some (resolve_causal_parents lib explicit e) ≡ true
unfolding resolve_causal_parents
is_some-resolve_causal_parents lib [] e = is_some-dag_tips e.dag
is_some-resolve_causal_parents lib (p ∷ explicit) e = refl

-- A delta is produced whatever the DAG holds: the search for its parents does not run out of fuel.
pub is_some-produce_delta_with_tags :
    (lib : Libraries) (bytes : List ℕ) (priority : PriorityClass) (causal_parents : List DeltaId)
    (tags : List DeltaTag) (now : ℤ) (e : CrdtEngine lib)
    → is_some (produce_delta_with_tags lib bytes priority causal_parents tags now e) ≡ true
unfolding produce_delta_with_tags
is_some-produce_delta_with_tags lib bytes priority causal_parents tags now e =
    let ticked : CrdtEngine lib = record e { lamport = (e.lamport + 1) % 2 ^ 64 } in
    is_some-made_from lib bytes priority tags now ticked
      (resolve_causal_parents lib causal_parents ticked)
      (is_some-resolve_causal_parents lib causal_parents ticked)

-- the schema hash and the author of a delta are those of the engine that made it
record Made (lib : Libraries) (e : CrdtEngine lib) (d : Delta) : Type 0 where
  genuine : authentic lib d ≡ true
  schema : d.schema_hash ≡ e.known_schema_hash
  author : d.author_did ≡ e.author_did

produced_by :
    (lib : Libraries) (e : CrdtEngine lib) (public_key : List ℕ) (k : KeyPair lib e public_key)
    (bytes : List ℕ) (priority : PriorityClass) (parents : Option (List DeltaId))
    (tags : List DeltaTag) (now : ℤ) (lamport : ℕ) (after : CrdtEngine lib) (d : Delta)
    → made_from lib bytes priority tags now (record e { lamport = lamport }) parents
      ≡ some (after, d)
    → Made lib e d
unfolding signed_delta
produced_by lib e public_key k bytes priority none tags now lamport after d h = cc
produced_by lib e public_key k bytes priority (some parents) tags now lamport after d h =
    let same : signed_delta lib bytes priority parents tags now (record e { lamport = lamport })
        ≡ d =
      cc h in
    subst (Made lib e) same (record {
      genuine = signed_delta-authentic lib e public_key k bytes priority parents tags now lamport;
      schema = refl;
      author = refl;
    })

-- A delta that an engine with its own key pair produces is not discarded by an engine that has
-- not revoked its author and knows its schema: there it is merged, or fails in the merge of the
-- documents.
pub apply-produce :
    (lib : Libraries) (e : CrdtEngine lib) (public_key : List ℕ) (bytes : List ℕ)
    (priority : PriorityClass) (causal_parents : List DeltaId) (tags : List DeltaTag) (now : ℤ)
    (after : CrdtEngine lib) (d : Delta) (peer : CrdtEngine lib) (later : ℤ)
    → KeyPair lib e public_key
    → produce_delta_with_tags lib bytes priority causal_parents tags now e ≡ some (after, d)
    → contains peer.revoked_dids e.author_did ≡ false
    → contains peer.known_schemas e.known_schema_hash ≡ true
    → discarded (apply lib d later peer).1 ≡ false
unfolding produce_delta_with_tags
apply-produce lib e public_key bytes priority causal_parents tags now after d peer later k h fine
      knows =
    let lamport = (e.lamport + 1) % 2 ^ 64 in
    let made =
      produced_by lib e public_key k bytes priority
        (resolve_causal_parents lib causal_parents (record e { lamport = lamport })) tags now
        lamport after d h in
    let author_fine : contains peer.revoked_dids d.author_did ≡ false =
      ap (λ i. contains peer.revoked_dids i) made.author ∙ fine in
    let schema_known : contains peer.known_schemas d.schema_hash ≡ true =
      ap (λ i. contains peer.known_schemas i) made.schema ∙ knows in
    (apply-Judged_iff lib d later peer).0 ∙ rw (author_fine, schema_known, made.genuine) refl
