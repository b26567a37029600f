-- ===== src/Crdt/Engine/Examples.antt =====
-- Engines over small libraries: a delta that one produces and another receives.
use tir_base.Prelude.{
  ℕ, ◌+◌, ◌≤◌, ◌≡◌, ◌⊎◌, refl, true, false, not, ◌&&◌, ◌||◌, ◌==◌, if◌then◌else◌, some, none, List,
  [], ◌∷◌, arith, pos, contains, nat_eq, string_eq, length, is_some,
}
use tir_base.Error.{ok}
use tir_base.Identity.{derive_did, resolve_did, verify, strip_prefix}
use tir_base.Examples.{crypto, repeat, zstd, decode}
use tir_base.Crdt.Delta.{DeltaId, Delta, Did, low}
use tir_base.Crdt.Dag.{empty, row_of, has_edge}
use tir_base.Crdt.Merge.{merged, merge_lww}
use tir_base.Crdt.Merge.Order.{merge_lww-IsOrder}
use tir_base.Crdt.Verify.Examples.{library}
use tir_base.Crdt.Engine.{
  Libraries, CrdtEngine, new, mark_did_revoked, insert_dag_node, canonical_bytes, apply,
  max_rejection_records, load_incoming_doc,
}
use tir_base.Crdt.Engine.Gate.{discarded, admissible, OnlyRecords, apply-Judged_iff}
use tir_base.Crdt.Engine.Produce.{
  KeyPair, signed_delta, produce_delta_with_tags, resolve_causal_parents, apply-produce,
}
use tir_base.Crdt.Engine.Clock.{next_lamport, apply-merged, receive, receive_bounds}

abbrev pub libraries : Libraries
libraries = record {
  crypto = crypto;
  zstd = zstd;
  automerge = library;
  utf8 = λ s. [];
  sign = λ key message. repeat 64 0;
  payload_to_json = λ payload. payload.lamport ∷ [];
  delta_to_json = λ delta. none;
}

abbrev public_key : List ℕ
public_key = repeat 32 1

abbrev author : Did
author = derive_did crypto public_key

abbrev writer : CrdtEngine libraries
writer = new libraries (4 ∷ []) public_key author 7 empty

abbrev peer : CrdtEngine libraries
peer = new libraries (5 ∷ []) (repeat 32 2) "did:key:zpeer" 7 empty

abbrev pub written : Delta
written = signed_delta libraries [] low (3 ∷ []) [] (pos 60) (record writer { lamport = 1 })

abbrev after_writing : CrdtEngine libraries
after_writing = insert_dag_node libraries written (record writer { lamport = 1 })

writer-KeyPair : KeyPair libraries writer public_key
unfolding new
writer-KeyPair = record {
  own_did = refl;
  key_length = refl;
  key_valid = refl;
  signature_length = λ message. refl;
  verifies_signed = λ message. refl;
}

written_by_writer :
    produce_delta_with_tags libraries [] low (3 ∷ []) [] (pos 60) writer
    ≡ some (after_writing, written)
unfolding produce_delta_with_tags resolve_causal_parents new
written_by_writer = refl

apply-produce_example : discarded (apply libraries written (pos 70) peer).1 ≡ false
unfolding new
apply-produce_example =
    apply-produce libraries writer public_key [] low (3 ∷ []) [] (pos 60) after_writing written peer
      (pos 70) writer-KeyPair written_by_writer refl refl

abbrev without_author : CrdtEngine libraries
without_author = mark_did_revoked libraries author peer

apply-Judged_iff_example :
    (discarded (apply libraries written (pos 70) without_author).1
      ≡ not (admissible libraries written without_author))
    × (admissible libraries written without_author ≡ false
        → OnlyRecords libraries without_author (apply libraries written (pos 70) without_author).0)
apply-Judged_iff_example = apply-Judged_iff libraries written (pos 70) without_author

accepted : admissible libraries written peer ≡ true
unfolding new signed_delta resolve_did verify canonical_bytes strip_prefix derive_did decode
accepted = refl

apply-merged_example :
    let step = apply libraries written (pos 70) peer in
    (step.1 ≡ ok (merged (next_lamport 0 1)))
    × (step.0.doc ≡ [])
    × (step.0.lamport ≡ next_lamport 0 1)
    × ((h : ℕ)
        → contains step.0.known_schemas h
          ≡ (contains peer.known_schemas h || written.schema_hash == h))
    × ((i : DeltaId)
        → row_of i step.0.dag.rows ≡ (
            if written.id == i && not (is_some (row_of i peer.dag.rows))
            then some (record {
              id = written.id;
              stored_payload = zstd.compress written.automerge_bytes;
              row_bytes = none;
              row_lamport = written.lamport;
              row_schema = written.schema_hash;
              row_compacted = false;
              row_author = written.author_did;
              tags = [];
            })
            else row_of i peer.dag.rows))
    × ((p c : DeltaId)
        → has_edge step.0.dag.edges p c
          ≡ (has_edge peer.dag.edges p c || (contains written.causal_parents p && written.id == c)))
    × (step.0.revoked_dids ≡ [])
    × (step.0.schema_definitions ≡ [])
    × (step.0.rejection_records ≡ [])
unfolding new signed_delta load_incoming_doc
apply-merged_example = apply-merged libraries written (pos 70) peer [] accepted refl

abbrev revoked_writing : Delta
revoked_writing = record written { author_did = "did:key:zlost" }

receive_bounds_example :
    let after = receive libraries ((written, pos 70) ∷ (revoked_writing, pos 71) ∷ []) peer in
    (0 ≤ after.lamport)
    × (after.lamport ≤ 5 + 2)
    × (length after.rejection_records ≤ max_rejection_records)
unfolding new signed_delta
receive_bounds_example =
    receive_bounds libraries ((written, pos 70) ∷ (revoked_writing, pos 71) ∷ []) peer 5
      (omega arith) (omega arith, (omega arith, tt)) (omega arith) (omega arith)

abbrev clock : ℕ
clock = 3

abbrev lower : List ℕ
lower = 1 ∷ []

merge_lww-IsOrder_example :
    (((clock ≡ 3) × (lower ≡ 2 ∷ []))
      ⊎ (merge_lww 3 (1 ∷ []) 3 (2 ∷ []) ≡ not (merge_lww 3 (2 ∷ []) 3 (1 ∷ []))))
    × (merge_lww 3 (1 ∷ []) 3 (1 ∷ []) ≡ false)
    × (merge_lww 3 (1 ∷ []) 3 (2 ∷ []) ≡ true
        → merge_lww 3 (2 ∷ []) 2 (9 ∷ []) ≡ true
        → merge_lww 3 (1 ∷ []) 2 (9 ∷ []) ≡ true)
merge_lww-IsOrder_example = merge_lww-IsOrder 3 3 2 (1 ∷ []) (2 ∷ []) (9 ∷ [])
