-- ===== src/Crdt/Dag.antt =====
-- tirbase-core/src/crdt/dag.rs: the changeset DAG over the tables dag_nodes and dag_edges. A table
-- is the list of its rows in insertion order, and the SQL statements are what SQLite documents of
-- them: a row whose primary key is there is ignored, a SELECT lists the rows that match. SQLite
-- leaves the order of that list open: what reads one row or node takes the order as a function, and
-- the walks take the order of insertion, on which no theorem about them depends. Errors of
-- the database and of its mutex are not modelled. zstd is the interface `Zstd`.
pub mod Reach
pub mod Search
pub mod Rows
pub mod Kahn
pub mod Topological
use tir_base.Prelude.{
  ℕ, zero, suc, ◌+◌, ◌≡◌, Bool, true, false, not, ◌&&◌, Option, none, some, List, [], ◌∷◌, ◌++◌,
  map, if◌then◌else◌, ◌==◌, nat_eq, string_eq, contains, keep, any, length,
}
use tir_base.Crdt.Delta.{DeltaId, Did, DeltaTag}

pub record Zstd : Type 0 where
  pub compress : List ℕ → List ℕ
  pub decompress : List ℕ → List ℕ
  pub decompress-compress : (bytes : List ℕ) → decompress (compress bytes) ≡ bytes

pub record DagNode : Type 0 where
  pub delta_id : DeltaId
  pub payload : List ℕ
  pub delta_bytes : Option (List ℕ)
  pub parent_ids : List DeltaId
  pub actor_id : List ℕ
  pub lamport : ℕ
  pub schema_hash : ℕ
  pub compacted : Bool
  pub author_did : Did

-- a row of dag_nodes
pub record Row : Type 0 where
  pub id : DeltaId
  pub stored_payload : List ℕ
  pub row_bytes : Option (List ℕ)
  pub row_lamport : ℕ
  pub row_schema : ℕ
  pub row_compacted : Bool
  pub row_author : Did
  pub tags : List DeltaTag

pub record ChangesetDag : Type 0 where
  pub rows : List Row
  pub edges : List (DeltaId × DeltaId)

abbrev pub empty : ChangesetDag
empty = record { rows = []; edges = [] }

-- the row with this primary key
abbrev pub row_of : DeltaId → List Row → Option Row
row_of i [] = none
row_of i (r ∷ rs) = if r.id == i then some r else row_of i rs

abbrev pub has_edge : List (DeltaId × DeltaId) → DeltaId → DeltaId → Bool
has_edge [] p c = false
has_edge ((q, d) ∷ es) p c = if q == p && d == c then true else has_edge es p c

-- INSERT OR IGNORE INTO dag_nodes
abbrev pub insert_row : Row → List Row → List Row
insert_row r [] = r ∷ []
insert_row r (q ∷ rs) = if q.id == r.id then q ∷ rs else q ∷ insert_row r rs

-- the loop of INSERT OR IGNORE INTO dag_edges
abbrev pub insert_edges :
    List DeltaId → DeltaId → List (DeltaId × DeltaId) → List (DeltaId × DeltaId)
insert_edges [] child es = es
insert_edges (p ∷ ps) child es =
    insert_edges ps child (if has_edge es p child then es else es ++ (p, child) ∷ [])

-- SELECT child_id FROM dag_edges WHERE parent_id = ?
abbrev pub children_of : List (DeltaId × DeltaId) → DeltaId → List DeltaId
children_of [] p = []
children_of ((q, c) ∷ es) p = if q == p then c ∷ children_of es p else children_of es p

abbrev pub parents_of : List (DeltaId × DeltaId) → DeltaId → List DeltaId
parents_of [] c = []
parents_of ((p, d) ∷ es) c = if d == c then p ∷ parents_of es c else parents_of es c

-- `select` is the order in which SQLite gives a list
pub children : (List DeltaId → List DeltaId) → ChangesetDag → DeltaId → List DeltaId
children select dag parent_id = select (children_of dag.edges parent_id)

pub parents : (List DeltaId → List DeltaId) → ChangesetDag → DeltaId → List DeltaId
parents select dag child_id = select (parents_of dag.edges child_id)

abbrev ids_where : (Row → Bool) → List Row → List DeltaId
ids_where p [] = []
ids_where p (r ∷ rs) = if p r then r.id ∷ ids_where p rs else ids_where p rs

unfoldable pub nodes_by_schema_hash : ℕ → ChangesetDag → List DeltaId
nodes_by_schema_hash h dag = ids_where (λ r. r.row_schema == h) dag.rows

unfoldable pub nodes_by_author : Did → ChangesetDag → List DeltaId
nodes_by_author did dag = ids_where (λ r. r.row_author == did) dag.rows

unfoldable pub len : ChangesetDag → ℕ
len dag = length dag.rows

module _ (zstd : Zstd) where
  unfoldable pub insert : DagNode → ChangesetDag → ChangesetDag
  insert node dag = record {
    rows =
        insert_row
          (record {
            id = node.delta_id;
            stored_payload = zstd.compress node.payload;
            row_bytes = node.delta_bytes;
            row_lamport = node.lamport;
            row_schema = node.schema_hash;
            row_compacted = node.compacted;
            row_author = node.author_did;
            tags = [];
          })
          dag.rows;
    edges = insert_edges node.parent_ids node.delta_id dag.edges;
  }

  abbrev node_of_row : (List DeltaId → List DeltaId) → ChangesetDag → Option Row → Option DagNode
  node_of_row select dag none = none
  node_of_row select dag (some r) = some (record {
    delta_id = r.id;
    payload = zstd.decompress r.stored_payload;
    delta_bytes = r.row_bytes;
    parent_ids = select (parents_of dag.edges r.id);
    actor_id = [];
    lamport = r.row_lamport;
    schema_hash = r.row_schema;
    compacted = r.row_compacted;
    author_did = r.row_author;
  })

  unfoldable pub get : (List DeltaId → List DeltaId) → DeltaId → ChangesetDag → Option DagNode
  get select delta_id dag = node_of_row select dag (row_of delta_id dag.rows)

-- UPDATE dag_nodes SET … WHERE id = ?
abbrev pub update_row : DeltaId → (Row → Row) → List Row → List Row
update_row i f [] = []
update_row i f (r ∷ rs) = (if r.id == i then f r else r) ∷ update_row i f rs

unfoldable pub mark_compacted : DeltaId → ChangesetDag → ChangesetDag
mark_compacted i dag = record dag {
  rows = update_row i (λ r. record r { row_compacted = true }) dag.rows;
}

abbrev bytes_of_row : Option Row → Option (List ℕ)
bytes_of_row none = none
bytes_of_row (some r) = r.row_bytes

unfoldable pub delta_bytes : DeltaId → ChangesetDag → Option (List ℕ)
delta_bytes i dag = bytes_of_row (row_of i dag.rows)

-- The variables of the loop of `bfs_descendants`.
pub record Walk : Type 0 where
  pub visited : List DeltaId
  pub queue : List DeltaId
  pub result : List DeltaId

module _ (dag : ChangesetDag) where
  -- one round, after `current` left the front of the queue
  visit : DeltaId → List DeltaId → Walk → Walk
  visit current rest w =
      if contains w.visited current
      then record w { queue = rest }
      else let visited = current ∷ w.visited in
        record {
          visited = visited;
          queue =
              rest ++ keep (λ child. not (contains visited child)) (children_of dag.edges current);
          result = w.result ++ current ∷ [];
        }

  -- `none` means that the fuel ran out
  bfs_loop : ℕ → Walk → Option (List DeltaId)
  bfs_loop zero w = elim w.queue [ [] ↦ some w.result | _ ∷ _ ↦ none ]
  bfs_loop (suc fuel) w = elim w.queue [
    | [] ↦ some w.result
    | current ∷ rest ↦ bfs_loop fuel (visit current rest w)
  ]

  -- a round for the root and one for each edge is enough
  unfoldable pub bfs_descendants : DeltaId → Option (List DeltaId)
  unfolding bfs_loop visit
  bfs_descendants root_id =
      bfs_loop (suc (length dag.edges)) (record { visited = []; queue = root_id ∷ []; result = [] })
