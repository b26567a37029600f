-- ===== src/Crdt/Dag/Topological/Examples.antt =====
-- The topological sort of small DAGs.
use tir_base.Prelude.{◌≡◌, ◌↔◌, refl, true, false, some, none, List, [], ◌∷◌, contains, nat_eq}
use tir_base.Crdt.Delta.{DeltaId}
use tir_base.Crdt.Dag.{ChangesetDag, Row, has_edge}
use tir_base.Crdt.Dag.Kahn.{of_edges, release, kahn}
use tir_base.Crdt.Dag.Kahn.Causal.{IsCausal}
use tir_base.Crdt.Dag.Topological.{topological_sort, dag_tips, is_node, topological_sort-IsCausal}

abbrev row : DeltaId → Row
row i = record {
  id = i;
  stored_payload = [];
  row_bytes = none;
  row_lamport = 1;
  row_schema = 3;
  row_compacted = false;
  row_author = "did:key:z1";
  tags = [];
}

-- 1 → 2 → 4 and 1 → 3 → 4, and 6 → 5 where 6 has no row
abbrev gappy : ChangesetDag
gappy = record {
  rows = row 4 ∷ row 3 ∷ row 2 ∷ row 1 ∷ row 5 ∷ [];
  edges = (2, 4) ∷ (3, 4) ∷ (1, 3) ∷ (1, 2) ∷ (6, 5) ∷ [];
}

sort-gappy : topological_sort gappy ≡ some (1 ∷ 3 ∷ 2 ∷ 4 ∷ [])
unfolding topological_sort kahn of_edges release
sort-gappy = refl

-- 5 has no child, and is no tip
tips-gappy : dag_tips gappy ≡ some (4 ∷ [])
unfolding dag_tips topological_sort kahn of_edges release
tips-gappy = refl

topological_sort-IsCausal_example :
    (sorted : List DeltaId) × (topological_sort gappy ≡ some sorted)
    × IsCausal gappy.edges [] sorted
    × ((x : DeltaId)
        → (contains sorted x ≡ true) ↔ (
            (is_node gappy x ≡ true)
            × ((p : DeltaId) → has_edge gappy.edges p x ≡ true → contains sorted p ≡ true)))
topological_sort-IsCausal_example = topological_sort-IsCausal gappy
