-- ===== src/Crdt/Dag/Rows.antt =====
-- The tables behind the DAG: what `insert` adds, and what `get` reads back.
use tir_base.Prelude.{
  ◌≡◌, refl, sym, ◌∙◌, inl, inr, false, ◌&&◌, ◌||◌, Option, none, some, List, [], ◌∷◌, ◌++◌, arith,
  if◌then◌else◌, ◌==◌, nat_eq, eqb_iff, contains, Distinct, contains-append, Bool-cases,
  append_assoc, append-nil, eq_refl,
}
use tir_base.Crdt.Delta.{DeltaId}
use tir_base.Crdt.Dag.{
  Zstd, DagNode, Row, ChangesetDag, row_of, has_edge, insert_row, insert_edges, parents_of, insert,
  get,
}

abbrev pub first_of_two : Option Row → Row → Option Row
first_of_two none r = some r
first_of_two (some q) r = some q

pub row_of-insert_row :
    (r : Row) (rs : List Row) (i : DeltaId)
    → row_of i (insert_row r rs) ≡ (if r.id == i then first_of_two (row_of i rs) r else row_of i rs)
row_of-insert_row r [] i = ground arith
row_of-insert_row r (q ∷ rs) i = ground (arith, row_of-insert_row r rs i)

has_edge-snoc :
    (es : List (DeltaId × DeltaId)) (p c q d : DeltaId)
    → has_edge (es ++ (p, c) ∷ []) q d ≡ (has_edge es q d || (p == q && c == d))
has_edge-snoc [] p c q d = ground arith
has_edge-snoc ((a, b) ∷ es) p c q d = ground (arith, has_edge-snoc es p c q d)

has_edge-add :
    (es : List (DeltaId × DeltaId)) (p c q d : DeltaId)
    → has_edge (if has_edge es p c then es else es ++ (p, c) ∷ []) q d
      ≡ (has_edge es q d || (p == q && c == d))
has_edge-add es p c q d = elim (Bool-cases (has_edge es p c)) [
  | inl there ↦ rw there (elim (Bool-cases (p == q && c == d)) [
    | inl same ↦ rw (← (eqb_iff p q).0 (ground arith), ← (eqb_iff c d).0 (ground arith), there) refl
    | inr other ↦ rw other (ground arith)
  ])
  | inr not_there ↦ rw not_there (has_edge-snoc es p c q d)
]

-- The edges afterwards are those before, and one from each parent to the child.
pub has_edge-insert_edges :
    (ps : List DeltaId) (c : DeltaId) (es : List (DeltaId × DeltaId)) (q d : DeltaId)
    → has_edge (insert_edges ps c es) q d ≡ (has_edge es q d || (contains ps q && c == d))
has_edge-insert_edges [] c es q d = ground arith
has_edge-insert_edges (p ∷ ps) c es q d =
    has_edge-insert_edges ps c (if has_edge es p c then es else es ++ (p, c) ∷ []) q d
    ∙ ground (arith, has_edge-add es p c q d)

parents_of-append :
    (es fs : List (DeltaId × DeltaId)) (c : DeltaId)
    → parents_of (es ++ fs) c ≡ parents_of es c ++ parents_of fs c
parents_of-append [] fs c = refl
parents_of-append ((a, b) ∷ es) fs c = ground (arith, parents_of-append es fs c)

contains-parents_of :
    (es : List (DeltaId × DeltaId)) (p c : DeltaId) → contains (parents_of es c) p ≡ has_edge es p c
contains-parents_of [] p c = refl
contains-parents_of ((a, b) ∷ es) p c = ground (arith, contains-parents_of es p c)

-- none of the parents has an edge to the child yet
abbrev AllFresh : List DeltaId → List DeltaId → Type 0
AllFresh old [] = Unit
AllFresh old (p ∷ ps) = (contains old p ≡ false) × AllFresh old ps

AllFresh-snoc :
    (old : List DeltaId) (p : DeltaId) (ps : List DeltaId)
    → AllFresh old ps
    → contains ps p ≡ false
    → AllFresh (old ++ p ∷ []) ps
AllFresh-snoc old p [] f n = tt
AllFresh-snoc old p (q ∷ ps) f n = (
  contains-append old (p ∷ []) q ∙ ground (arith, f.0, eqb_iff p q, eqb_iff q p),
  AllFresh-snoc old p ps f.1 (ground arith),
)

AllFresh-nil : (ps : List DeltaId) → AllFresh [] ps
AllFresh-nil [] = tt
AllFresh-nil (p ∷ ps) = (refl, AllFresh-nil ps)

parents_of-insert_edges :
    (ps : List DeltaId) (c : DeltaId) (es : List (DeltaId × DeltaId))
    → Distinct ps
    → AllFresh (parents_of es c) ps
    → parents_of (insert_edges ps c es) c ≡ parents_of es c ++ ps
parents_of-insert_edges [] c es d f = sym (append-nil (parents_of es c))
parents_of-insert_edges (p ∷ ps) c es d f =
    let es' = es ++ (p, c) ∷ [] in
    let added : parents_of es' c ≡ parents_of es c ++ p ∷ [] =
      parents_of-append es ((p, c) ∷ []) c ∙ ground (arith, eqb_iff c c) in
    rw (sym (contains-parents_of es p c) ∙ f.0) (
      parents_of-insert_edges ps c es' d.1 (rw added (AllFresh-snoc (parents_of es c) p ps f.1 d.0))
      ∙ rw added (append_assoc (parents_of es c) (p ∷ []) ps))

-- A node that is inserted under a new identifier, with no parent twice and no edge to it yet, is
-- read back as it was, with its parents in the order in which SQLite lists them, but for the actor ID, which comes back empty.
pub get-insert :
    (zstd : Zstd) (select : List DeltaId → List DeltaId) (node : DagNode) (dag : ChangesetDag)
    → row_of node.delta_id dag.rows ≡ none
    → parents_of dag.edges node.delta_id ≡ []
    → Distinct node.parent_ids
    → get zstd select node.delta_id (insert zstd node dag)
      ≡ some (record node { parent_ids = select node.parent_ids; actor_id = [] })
unfolding get insert
get-insert zstd select node dag fresh orphan d =
    let ps : parents_of (insert_edges node.parent_ids node.delta_id dag.edges) node.delta_id
        ≡ node.parent_ids =
      parents_of-insert_edges node.parent_ids node.delta_id dag.edges d
        (rw orphan (AllFresh-nil node.parent_ids))
      ∙ rw orphan refl in
    simp (row_of-insert_row, fresh, eq_refl node.delta_id, ps, zstd.decompress-compress)

insert_row_there :
    (r : Row) (rs : List Row) (q : Row) (i : DeltaId)
    → row_of r.id rs ≡ some q
    → row_of i (insert_row r rs) ≡ row_of i rs
insert_row_there r rs q i there = elim (Bool-cases (r.id == i)) [
  | inl same ↦ row_of-insert_row r rs i ∙ rw (same, ← (eqb_iff r.id i).0 same, there) refl
  | inr other ↦ row_of-insert_row r rs i ∙ rw other refl
]

-- A second insert of an identifier changes no row, and still adds the edges of the node it is
-- given, and no other.
pub insert_again :
    (zstd : Zstd) (node : DagNode) (dag : ChangesetDag) (row : Row) (i : DeltaId)
    → row_of node.delta_id dag.rows ≡ some row
    → (row_of i (insert zstd node dag).rows ≡ row_of i dag.rows)
      × ((q d : DeltaId)
          → has_edge (insert zstd node dag).edges q d
            ≡ (has_edge dag.edges q d || (contains node.parent_ids q && node.delta_id == d)))
unfolding insert
insert_again zstd node dag row i there = (
  insert_row_there
      (record {
        id = node.delta_id;
        stored_payload = zstd.compress node.payload;
        row_bytes = node.delta_bytes;
        row_lamport = node.lamport;
        row_schema = node.schema_hash;
        row_compacted = node.compacted;
        row_author = node.author_did;
        tags = [];
      })
      dag.rows row i there,
  λ q d. has_edge-insert_edges node.parent_ids node.delta_id dag.edges q d,
)
