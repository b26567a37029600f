-- ===== src/Crdt/Engine/Admit.antt =====
-- What `apply` comes to when the gates are open.
use mathlib.Core.Path.{subst}
use tir_base.Prelude.{
  ℕ, ◌≡◌, refl, sym, ap, ◌∙◌, inl, inr, Bool, true, false, Option, none, some, List, ℤ, arith,
  if◌then◌else◌, nat_eq, string_eq, Bool-cases, contains, is_empty, lookup,
}
use tir_base.Error.{Result, ok, err, ◌>>=◌, is_ok}
use tir_base.Identity.{resolve_did, verify}
use tir_base.Schema.{Schema}
use tir_base.Schema.Diff.{diff_schemas, is_additive, is_breaking}
use tir_base.Crdt.Delta.{Delta}
use tir_base.Crdt.Engine.{
  Libraries, CrdtEngine, IncomingSchemaClass, known, unknown, additive, breaking, class_of,
  classify_incoming_schema, canonical_bytes, load_incoming_doc, merge_doc, add_known_schema, finish,
  verified, resolved, signed, gate, apply,
}
use tir_base.Crdt.Engine.Gate.{
  schema_admits, authentic, admissible, Step, unsigned, adopting, passes, passes-classify,
}

module _ (lib : Libraries) where
  module _ (d : Delta) (now : ℤ) (e : CrdtEngine lib) where
    abbrev incoming_doc : Result lib.automerge.Doc
    incoming_doc = merge_doc lib e.doc d.lamport e.lamport (load_incoming_doc lib d.automerge_bytes)

    -- what is left of `apply` when the gates are open
    abbrev pub admitted : Step lib
    admitted = finish lib d (add_known_schema lib d.schema_hash e) incoming_doc

    verified-ok :
        (adopt : Bool) (r : Result (Unit {0}))
        → is_ok r ≡ true
        → verified lib adopt d now e r ≡ finish lib d (adopting lib d now e adopt) incoming_doc
    verified-ok adopt (ok u) h = refl
    verified-ok adopt (err x) h = cc

    resolved-ok :
        (adopt : Bool) (r : Result (List ℕ))
        → is_ok (r >>= λ key. verify lib.crypto key (canonical_bytes lib d) d.signature) ≡ true
        → resolved lib adopt d now e r ≡ finish lib d (adopting lib d now e adopt) incoming_doc
    resolved-ok adopt (ok key) h =
        verified-ok adopt (verify lib.crypto key (canonical_bytes lib d) d.signature) h
    resolved-ok adopt (err x) h = cc

    signed-ok :
        (adopt : Bool)
        → authentic lib d ≡ true
        → signed lib adopt d now e ≡ finish lib d (adopting lib d now e adopt) incoming_doc
    signed-ok adopt h = elim (Bool-cases (is_empty d.signature)) [
      | inl empty ↦
          let refused = unsigned lib d now e (resolve_did lib.crypto d.author_did) empty in
          absurd (ground (arith, h, refused))
      | inr some_bytes ↦ rw some_bytes (resolved-ok adopt (resolve_did lib.crypto d.author_did) h)
    ]

    gate-ok :
        (c : IncomingSchemaClass)
        → passes lib d now e c ≡ true
        → authentic lib d ≡ true
        → (c ≡ known → adopting lib d now e true ≡ e)
        → gate lib d now e c ≡ admitted
    gate-ok known p h old = rw (old refl) (signed-ok false h)
    gate-ok (additive diff) p h old = signed-ok true h
    gate-ok (breaking diff) p h old = cc
    gate-ok unknown p h old = cc

    abbrev is_known : IncomingSchemaClass → Bool
    is_known known = true
    is_known unknown = false
    is_known (additive diff) = false
    is_known (breaking diff) = false

    is_known-class_of :
        (local incoming : Option Schema) → is_known (class_of lib local incoming) ≡ false
    is_known-class_of none incoming = refl
    is_known-class_of (some l) none = refl
    is_known-class_of (some l) (some i) = elim (Bool-cases (is_additive (diff_schemas l i))) [
      | inl adds ↦ rw adds refl
      | inr other ↦ elim (Bool-cases (is_breaking (diff_schemas l i))) [
        | inl breaks ↦ rw (other, breaks) refl
        | inr same ↦ rw (other, same) refl
      ]
    ]

    known-contains :
        classify_incoming_schema lib d.schema_hash e ≡ known → adopting lib d now e true ≡ e
    unfolding classify_incoming_schema add_known_schema
    known-contains h = elim (Bool-cases (contains e.known_schemas d.schema_hash)) [
      | inl there ↦ rw there refl
      | inr not_there ↦
          let local = lookup e.known_schema_hash e.schema_definitions in
          let incoming = lookup d.schema_hash e.schema_definitions in
          let class_known : class_of lib local incoming ≡ known =
            subst (λ b. (if b then known else class_of lib local incoming) ≡ known) not_there h in
          absurd (cc (sym (ap is_known class_known) ∙ is_known-class_of local incoming))
    ]

    pub apply-admitted : admissible lib d e ≡ true → apply lib d now e ≡ admitted
    unfolding apply
    apply-admitted h =
        let fine : contains e.revoked_dids d.author_did ≡ false = ground (arith, h) in
        let genuine : authentic lib d ≡ true = ground (arith, h) in
        let open_gate : schema_admits lib d.schema_hash e ≡ true = ground (arith, h) in
        rw fine (
          gate-ok (classify_incoming_schema lib d.schema_hash e)
            (passes-classify lib d now e ∙ open_gate) genuine known-contains)
