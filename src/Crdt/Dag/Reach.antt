-- ===== src/Crdt/Dag/Reach.antt =====
-- Causal descent in the changeset DAG.
use tir_base.Prelude.{◌≡◌, true}
use tir_base.Crdt.Delta.{DeltaId}
use tir_base.Crdt.Dag.{ChangesetDag, has_edge}

-- The deltas that descend from `root`, the root included.
pub data Reach (dag : ChangesetDag) (root : DeltaId) : DeltaId → Type 0 where
  here : Reach dag root root
  step : {u v : DeltaId} → Reach dag root u → has_edge dag.edges u v ≡ true → Reach dag root v
