-- ===== src/Crdt/Engine/Clock.antt =====
-- What a merge does to the engine, and what any number of incoming deltas does to its clock.
use Prim.Native.Nat.{max}
use tir_base.Prelude.{
  ℕ, suc, ◌+◌, ◌%◌, ◌^◌, ◌≤◌, ◌<◌, ◌≡◌, refl, sym, ap, ◌∙◌, inl, inr, Bool, true, false, not, ◌&&◌,
  ◌||◌, ◌==◌, eqb_iff, Option, none, some, List, [], ◌∷◌, ℤ, arith, if◌then◌else◌, nat_eq,
  string_eq, Bool-cases, contains, is_some, length, All,
}
use tir_base.Error.{Result, ok, err}
use tir_base.Crdt.Delta.{DeltaId, Delta}
use tir_base.Crdt.Dag.{Row, row_of, has_edge, insert_row}
use tir_base.Crdt.Dag
use tir_base.Crdt.Dag.Rows.{first_of_two, row_of-insert_row, has_edge-insert_edges}
use tir_base.Crdt.Merge.{merged}
use tir_base.Crdt.Engine.{
  Libraries, CrdtEngine, merge_doc, load_incoming_doc, insert_dag_node, add_known_schema, finish,
  apply, max_rejection_records,
}
use tir_base.Crdt.Engine.Gate.{admissible, apply-Judged, apply-Judged_iff}
use tir_base.Crdt.Engine.Admit.{apply-admitted}

first_or_new :
    (o : Option Row) (r : Row) (same : Bool)
    → (if same then first_of_two o r else o) ≡ (if same && not (is_some o) then some r else o)
first_or_new none r same = ground arith
first_or_new (some q) r same = ground arith

contains-add :
    (h : ℕ) (hs : List ℕ) (x : ℕ)
    → contains (if contains hs h then hs else h ∷ hs) x ≡ (contains hs x || h == x)
contains-add h hs x = elim (Bool-cases (contains hs h)) [
  | inl there ↦ rw there (elim (Bool-cases (h == x)) [
    | inl same ↦ rw same (ap (contains hs) (sym ((eqb_iff h x).0 same)) ∙ there ∙ ground arith)
    | inr other ↦ rw other (ground arith)
  ])
  | inr not_there ↦ rw not_there (ground arith)
]

-- the clock after a merge: a `u64`, which wraps around
abbrev pub next_lamport : ℕ → ℕ → ℕ
next_lamport local incoming = (max local incoming + 1) % 2 ^ 64

pub apply-merged :
    (lib : Libraries) (d : Delta) (now : ℤ) (e : CrdtEngine lib) (doc : lib.automerge.Doc)
    → admissible lib d e ≡ true
    → merge_doc lib e.doc d.lamport e.lamport (load_incoming_doc lib d.automerge_bytes) ≡ ok doc
    → let step = apply lib d now e in
      (step.1 ≡ ok (merged (next_lamport e.lamport d.lamport)))
      × (step.0.doc ≡ doc)
      × (step.0.lamport ≡ next_lamport e.lamport d.lamport)
      × ((h : ℕ)
          → contains step.0.known_schemas h ≡ (contains e.known_schemas h || d.schema_hash == h))
      × ((i : DeltaId)
          → row_of i step.0.dag.rows ≡ (
              if d.id == i && not (is_some (row_of i e.dag.rows))
              then some (record {
                id = d.id;
                stored_payload = lib.zstd.compress d.automerge_bytes;
                row_bytes = lib.delta_to_json d;
                row_lamport = d.lamport;
                row_schema = d.schema_hash;
                row_compacted = false;
                row_author = d.author_did;
                tags = [];
              })
              else row_of i e.dag.rows))
      × ((p c : DeltaId)
          → has_edge step.0.dag.edges p c
            ≡ (has_edge e.dag.edges p c || (contains d.causal_parents p && d.id == c)))
      × (step.0.revoked_dids ≡ e.revoked_dids)
      × (step.0.schema_definitions ≡ e.schema_definitions)
      × (step.0.rejection_records ≡ e.rejection_records)
unfolding insert_dag_node add_known_schema Dag.insert
apply-merged lib d now e doc h merges =
    rw (apply-admitted lib d now e h, merges)
      (
        refl,
        refl,
        refl,
        contains-add d.schema_hash e.known_schemas,
        λ i. row_of-insert_row _ e.dag.rows i ∙ first_or_new (row_of i e.dag.rows) _ (d.id == i),
        λ p c. has_edge-insert_edges d.causal_parents d.id e.dag.edges p c,
        refl,
        refl,
        refl,
      )

module _ (lib : Libraries) where
  -- the clock does not go back, nor ahead of both clocks by more than one
  record Ticks (d : Delta) (e after : CrdtEngine lib) : Type 0 where
    not_back : e.lamport ≤ after.lamport
    not_far : after.lamport ≤ max e.lamport d.lamport + 1

  finish-Ticks :
      (d : Delta) (e adopted : CrdtEngine lib) (r : Result lib.automerge.Doc)
      → adopted.lamport ≡ e.lamport
      → max e.lamport d.lamport + 1 < 2 ^ 64
      → Ticks d e (finish lib d adopted r).0
  unfolding insert_dag_node
  finish-Ticks d e adopted (ok doc) same room = record {
    not_back = omega (arith, same, room);
    not_far = omega (arith, same, room);
  }
  finish-Ticks d e adopted (err x) same room = record {
    not_back = omega (arith, same);
    not_far = omega (arith, same);
  }

  apply-Ticks :
      (d : Delta) (now : ℤ) (e : CrdtEngine lib)
      → max e.lamport d.lamport + 1 < 2 ^ 64
      → Ticks d e (apply lib d now e).0
  unfolding add_known_schema
  apply-Ticks d now e room = elim (Bool-cases (admissible lib d e)) [
    | inl h ↦ rw (apply-admitted lib d now e h) (
        finish-Ticks d e (add_known_schema lib d.schema_hash e)
          (merge_doc lib e.doc d.lamport e.lamport (load_incoming_doc lib d.automerge_bytes)) refl
          room)
    | inr h ↦
        let same : (apply lib d now e).0.lamport ≡ e.lamport =
          ap (λ a. a.lamport) ((apply-Judged_iff lib d now e).1 h) in
        record { not_back = omega (arith, same); not_far = omega (arith, same) }
  ]

  -- deltas that arrive one after another, each with its time
  unfoldable pub receive : List (Delta × ℤ) → CrdtEngine lib → CrdtEngine lib
  receive [] e = e
  receive ((d, now) ∷ rest) e = receive rest (apply lib d now e).0

-- Whatever deltas arrive, as long as no clock reaches 2 ^ 64: with clocks up to `bound` at the
-- start and in the deltas, the engine's clock never goes back and stays within `bound` and one for
-- each delta, and of the rejections at most 1,024 are kept.
pub receive_bounds :
    (lib : Libraries) (incoming : List (Delta × ℤ)) (e : CrdtEngine lib) (bound : ℕ)
    → e.lamport ≤ bound
    → All (λ x. x.0.lamport ≤ bound) incoming
    → bound + length incoming < 2 ^ 64
    → length e.rejection_records ≤ max_rejection_records
    → (e.lamport ≤ (receive lib incoming e).lamport)
      × ((receive lib incoming e).lamport ≤ bound + length incoming)
      × (length (receive lib incoming e).rejection_records ≤ max_rejection_records)
unfolding receive
receive_bounds lib [] e bound low clocks room few = (omega arith, omega arith, few)
receive_bounds lib ((d, now) ∷ rest) e bound low clocks room few =
    let t = apply-Ticks lib d now e (omega (arith, clocks.0)) in
    let more =
      receive_bounds lib rest (apply lib d now e).0 (suc bound) (omega (arith, t.not_far, clocks.0))
        (raise rest clocks.1) (omega arith) ((apply-Judged lib d now e).bounded few) in
    (omega (arith, more.0, t.not_back), omega (arith, more.1), more.2)
  where
    raise :
        (xs : List (Delta × ℤ))
        → All (λ x. x.0.lamport ≤ bound) xs
        → All (λ x. x.0.lamport ≤ suc bound) xs
    raise [] h = tt
    raise (x ∷ xs) h = (omega (arith, h.0), raise xs h.1)
