-- ===== src/Crdt/Dag/Kahn.antt =====
-- Kahn's algorithm, as `topological_sort` of tirbase-core/src/crdt/dag.rs and
-- `topological_sort_queue` of tirbase-core/src/durability/cloud_queue.rs write it, over a list of
-- edges from parents to children. The children that become ready together are arranged by a
-- function, which is the identity for the DAG.
pub mod Release
pub mod Degrees
pub mod Causal
pub mod Steps
use tir_base.Prelude.{
  ℕ, zero, suc, Option, none, some, List, [], ◌∷◌, ◌++◌, if◌then◌else◌, ◌==◌, nat_eq, lookup,
  insert,
}
use tir_base.Crdt.Delta.{DeltaId}
use tir_base.Crdt.Dag.{children_of}

abbrev pub DegreeTable : Type 0
DegreeTable = List (DeltaId × ℕ)

abbrev pub degree : Option ℕ → ℕ
degree none = 0
degree (some d) = d

-- `*entry(child).or_insert(0) += 1` for every edge
unfoldable pub of_edges : List (DeltaId × DeltaId) → DegreeTable → DegreeTable
of_edges [] m = m
of_edges ((p, c) ∷ es) m = of_edges es (insert c (suc (degree (lookup c m))) m)

-- the nodes of degree 0
abbrev pub sources : DegreeTable → List DeltaId
sources [] = []
sources ((id, zero) ∷ m) = id ∷ sources m
sources ((id, suc d) ∷ m) = sources m

-- one child loses a parent; a degree of 0, which has nothing to lose, stays
abbrev pub lowered : DeltaId → Option ℕ → DegreeTable → DegreeTable
lowered c none m = m
lowered c (some zero) m = m
lowered c (some (suc d)) m = insert c d m

-- the child, if that was its last parent
abbrev pub ready_now : DeltaId → Option ℕ → List DeltaId → List DeltaId
ready_now c none rest = rest
ready_now c (some zero) rest = rest
ready_now c (some (suc zero)) rest = c ∷ rest
ready_now c (some (suc (suc d))) rest = rest

-- the children of a node lose it: the degrees, and those that have no parent left
unfoldable pub release : List DeltaId → DegreeTable → DegreeTable × List DeltaId
release [] m = (m, [])
release (c ∷ cs) m =
    let o = lookup c m in let rest = release cs (lowered c o m) in (rest.0, ready_now c o rest.1)

abbrev pub then_node : DeltaId → Option (List DeltaId) → Option (List DeltaId)
then_node node none = none
then_node node (some sorted) = some (node ∷ sorted)

-- `none` means that the fuel ran out
unfoldable pub kahn :
    (edges : List (DeltaId × DeltaId)) (arrange : List DeltaId → List DeltaId)
    → ℕ
    → DegreeTable
    → List DeltaId
    → Option (List DeltaId)
kahn edges arrange fuel m [] = some []
kahn edges arrange zero m (node ∷ queue) = none
kahn edges arrange (suc fuel) m (node ∷ queue) =
    let step = release (children_of edges node) m in
    then_node node (kahn edges arrange fuel step.0 (queue ++ arrange step.1))
