-- ===== src/Crdt/Dag/Topological.antt =====
-- `topological_sort` of tirbase-core/src/crdt/dag.rs and `dag_tips` of crdt/mod.rs. The order of
-- the table of degrees stands for the iteration order of the hash map.
mod Examples
use tir_base.Prelude.{
  ℕ, suc, ◌≡◌, ◌↔◌, refl, sym, ◌∙◌, ap, inl, inr, Bool, true, false, not, ◌&&◌, ◌||◌, Option, none,
  some, List, [], ◌∷◌, arith, if◌then◌else◌, ◌==◌, nat_eq, Option-cases, Bool-cases, contains,
  Distinct, any, keep, is_empty, is_some, lookup, insert, lookup-insert, length, eqb_iff,
}
use tir_base.Crdt.Delta.{DeltaId}
use tir_base.Crdt.Dag.{Row, ChangesetDag, children_of, has_edge}
use tir_base.Crdt.Dag.Kahn.{DegreeTable, degree, of_edges, sources, kahn}
use tir_base.Crdt.Dag.Kahn.Release.{degree_in, sources-positives, is_some-kahn}
use tir_base.Crdt.Dag.Kahn.Causal.{
  IsCausal, indegree, served, KeysOnce, KeysOnce-insert, KeysOnce-of_edges, contains-sources,
  Distinct-sources, degree-of_edges, nodes-of_edges,
}
use tir_base.Crdt.Dag.Kahn.Steps.{Arranges, Search, kahn-IsCausal}

-- `entry(id).or_insert(0)` for every row
abbrev pub of_ids : List DeltaId → DegreeTable → DegreeTable
of_ids [] m = m
of_ids (i ∷ ids) m = of_ids ids (insert i (degree (lookup i m)) m)

abbrev pub ids_of : List Row → List DeltaId
ids_of [] = []
ids_of (r ∷ rows) = r.id ∷ ids_of rows

-- a round for each entry of the table of degrees is enough
unfoldable pub topological_sort : ChangesetDag → Option (List DeltaId)
topological_sort dag =
    let m = of_edges dag.edges (of_ids (ids_of dag.rows) []) in
    kahn dag.edges (λ xs. xs) (length m) m (sources m)

abbrev tips_among : ChangesetDag → Option (List DeltaId) → Option (List DeltaId)
tips_among dag none = none
tips_among dag (some all_nodes) = some (keep (λ id. is_empty (children_of dag.edges id)) all_nodes)

-- the nodes without children
unfoldable pub dag_tips : ChangesetDag → Option (List DeltaId)
dag_tips dag = tips_among dag (topological_sort dag)

-- a table of nodes without parents
record Fresh (m : DegreeTable) : Type 0 where
  keys : KeysOnce m
  zeros : (x : DeltaId) → degree_in x m ≡ 0

Fresh-insert : (i : DeltaId) (m : DegreeTable) → Fresh m → Fresh (insert i (degree (lookup i m)) m)
Fresh-insert i m f = record {
  keys = KeysOnce-insert i (degree (lookup i m)) m f.keys;
  zeros = λ x. elim (Bool-cases (i == x)) [
    | inl same ↦ rw (lookup-insert i x (degree (lookup i m)) m, same) (f.zeros i)
    | inr other ↦ rw (lookup-insert i x (degree (lookup i m)) m, other) (f.zeros x)
  ];
}

of_ids-Fresh : (ids : List DeltaId) (m : DegreeTable) → Fresh m → Fresh (of_ids ids m)
of_ids-Fresh [] m f = f
of_ids-Fresh (i ∷ ids) m f =
    of_ids-Fresh ids (insert i (degree (lookup i m)) m) (Fresh-insert i m f)

pub nodes-of_ids :
    (ids : List DeltaId) (m : DegreeTable) (x : DeltaId)
    → is_some (lookup x (of_ids ids m)) ≡ (is_some (lookup x m) || contains ids x)
nodes-of_ids [] m x = ground arith
nodes-of_ids (i ∷ ids) m x =
    nodes-of_ids ids (insert i (degree (lookup i m)) m) x
    ∙ rw (lookup-insert i x (degree (lookup i m)) m) (ground arith)

-- Sorting any list of edges from a fresh table: the search starts with its invariant.
pub start-Search :
    (edges : List (DeltaId × DeltaId)) (ids : List DeltaId) (arrange : List DeltaId → List DeltaId)
    → Arranges arrange
    → let m = of_edges edges (of_ids ids []) in Search edges [] (arrange (sources m)) m
start-Search edges ids arrange a =
    let m₀ = of_ids ids [] in
    let m = of_edges edges m₀ in
    let f = of_ids-Fresh ids [] (record { keys = tt; zeros = λ x. refl }) in
    let once = KeysOnce-of_edges edges m₀ f.keys in
    let source : (x : DeltaId)
        → contains (arrange (sources m)) x ≡ (is_some (lookup x m) && degree_in x m == 0) =
      λ x. a.same (sources m) x ∙ contains-sources m x once in
    let count : (x : DeltaId) → degree_in x m ≡ indegree edges x =
      λ x. omega (arith, degree-of_edges edges m₀ x, f.zeros x) in
    record {
      free = λ x h. ground (arith, source x, h);
      inside = λ x h. ground (arith, source x, h);
      once = a.once (sources m) (Distinct-sources m once);
      lower = λ x. omega (arith, count x);
      upper = λ x h. omega (arith, count x);
      all_free = λ x node h. source x ∙ rw (node, h) refl;
    }

-- a delta of the DAG: it has a row, or an edge from a parent
abbrev pub is_node : ChangesetDag → DeltaId → Bool
is_node dag x = contains (ids_of dag.rows) x || any (λ e. e.1 == x) dag.edges

-- The sort ends on every DAG table, cyclic or not. It lists no delta twice, each behind all its
-- parents, and exactly those deltas whose parents are all listed: not those on a cycle, nor those
-- with a parent that has no row, nor what descends from them.
pub topological_sort-IsCausal :
    (dag : ChangesetDag)
    → (sorted : List DeltaId) × (topological_sort dag ≡ some sorted)
      × IsCausal dag.edges [] sorted
      × ((x : DeltaId)
          → (contains sorted x ≡ true) ↔ (
              (is_node dag x ≡ true)
              × ((p : DeltaId) → has_edge dag.edges p x ≡ true → contains sorted p ≡ true)))
unfolding topological_sort
topological_sort-IsCausal dag =
    let m₀ = of_ids (ids_of dag.rows) [] in
    let m = of_edges dag.edges m₀ in
    let kept : Arranges (λ xs. xs) = record { same = λ xs x. refl; once = λ xs d. d } in
    let ends =
      is_some-kahn dag.edges (λ xs. xs) (λ xs. refl) (length m) m (sources m)
        (omega (arith, sources-positives m)) in
    elim (Option-cases (kahn dag.edges (λ xs. xs) (length m) m (sources m))) [
      | inl e ↦ absurd (ground (arith, e, ends))
      | inr (sorted, e) ↦
          let c =
            kahn-IsCausal dag.edges (λ xs. xs) kept (length m) m (sources m) sorted
              (start-Search dag.edges (ids_of dag.rows) (λ xs. xs) kept) e in
          let node : (x : DeltaId) → is_some (lookup x m) ≡ is_node dag x = λ x.
            nodes-of_edges dag.edges m₀ x
            ∙ ap (λ b. b || any (λ e. e.1 == x) dag.edges) (nodes-of_ids (ids_of dag.rows) [] x) in
          (
            sorted,
            e,
            c.0,
            λ x. (
              λ h. let l = (c.1 x).0 h in (sym (node x) ∙ l.0, l.1),
              λ h. (c.1 x).1 (node x ∙ h.0, h.1),
            ),
          )
    ]

is_some-tips_among :
    (dag : ChangesetDag) (o : Option (List DeltaId)) (sorted : List DeltaId)
    → o ≡ some sorted
    → is_some (tips_among dag o) ≡ true
is_some-tips_among dag none sorted e = cc
is_some-tips_among dag (some found) sorted e = refl

-- the search for the tips ends
pub is_some-dag_tips : (dag : ChangesetDag) → is_some (dag_tips dag) ≡ true
unfolding dag_tips
is_some-dag_tips dag =
    let t = topological_sort-IsCausal dag in is_some-tips_among dag (topological_sort dag) t.0 t.1
