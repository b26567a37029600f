-- ===== src/Durability/CloudQueue/Examples.antt =====
-- A queue in the wrong order, a ledger that rejects a delta, and the cycle between them.
use tir_base.Prelude.{
  ℕ, ◌+◌, ◌≡◌, ◌↔◌, refl, Bool, true, not, ◌&&◌, Option, none, some, List, [], ◌∷◌, ◌++◌, ◌==◌,
  nat_eq, contains, keep, length,
}
use tir_base.Crdt.Delta.{DeltaId, Did}
use tir_base.Crdt.Dag.{has_edge}
use tir_base.Crdt.Dag.Kahn.{of_edges, release, kahn}
use tir_base.Crdt.Dag.Kahn.Causal.{IsCausal}
use tir_base.Durability.CloudQueue.{
  CloudOutboundQueue, new_entry, new_compacted, acknowledge, ids, queue_edges, find, sort_by_key,
  SyncState, sync_ids, cloud_sync_loop, topological_sort_queue,
}
use tir_base.Durability.CloudQueue.Order.{names_parent, topological_sort_queue-IsCausal}
use tir_base.Durability.CloudQueue.Sync.{left, Accepted}
use tir_base.Durability.CloudQueue.Loop.{cloud_sync_loop-view}

-- 3 after 2 after 1, and 4 and 5 on a cycle
abbrev mixed : CloudOutboundQueue
mixed = record {
  queue =
      new_entry 3 (30 ∷ []) (2 ∷ 9 ∷ [])
      ∷ new_entry 4 (40 ∷ []) (5 ∷ [])
      ∷ new_compacted 2 (1 ∷ []) ("did:key:z1" ∷ [])
      ∷ new_entry 5 (50 ∷ []) (4 ∷ [])
      ∷ record (new_entry 1 (10 ∷ []) []) { tier2_durable = true }
      ∷ [];
}

-- a ledger that counts its requests and rejects 2
abbrev send : ℕ → DeltaId → List ℕ → ℕ × Bool
send n delta_id bytes = (n + 1, not (delta_id == 2))

abbrev refetch : DeltaId → List Did → Option (List ℕ)
refetch delta_id [] = none
refetch delta_id (peer ∷ peers) = some (delta_id ∷ [])

sort-mixed : topological_sort_queue mixed ≡ some (1 ∷ 2 ∷ 3 ∷ 4 ∷ 5 ∷ [])
unfolding topological_sort_queue kahn of_edges release sort_by_key new_entry new_compacted
sort-mixed = refl

-- 3 is sent, and acknowledged, although the ledger rejected its parent 2 in the same cycle
sync-mixed :
    cloud_sync_loop send refetch mixed 0
    ≡ some (record {
      outbound = record { queue = new_compacted 2 (1 ∷ []) ("did:key:z1" ∷ []) ∷ [] };
      conn = 4;
      result = record {
        acknowledged = 4;
        rejected = 1;
        deferred = 0;
        acknowledged_ids = 3 ∷ 4 ∷ 5 ∷ [];
      };
    })
unfolding cloud_sync_loop topological_sort_queue kahn of_edges release sort_by_key new_entry
    new_compacted sync_ids find acknowledge
sync-mixed = refl

topological_sort_queue-IsCausal_example :
    (sorted : List DeltaId) × (topological_sort_queue mixed
      ≡ some (sorted ++ keep (λ i. not (contains sorted i)) (ids mixed.queue)))
    × ((x : DeltaId)
        → contains (sorted ++ keep (λ i. not (contains sorted i)) (ids mixed.queue)) x
          ≡ contains (ids mixed.queue) x)
    × ((p x : DeltaId)
        → has_edge (queue_edges mixed.queue) p x
          ≡ (contains (ids mixed.queue) p && names_parent p x mixed.queue))
    × IsCausal (queue_edges mixed.queue) [] sorted
    × ((x : DeltaId)
        → (contains sorted x ≡ true) ↔ (
            (contains (ids mixed.queue) x ≡ true)
            × ((p : DeltaId)
                → has_edge (queue_edges mixed.queue) p x ≡ true
                → contains sorted p ≡ true)))
topological_sort_queue-IsCausal_example = topological_sort_queue-IsCausal mixed

cloud_sync_loop-view_example :
    (s : SyncState send refetch) × (cloud_sync_loop send refetch mixed 0 ≡ some s)
    × (s.result.acknowledged + s.result.rejected + s.result.deferred ≡ length mixed.queue)
    × ((y : DeltaId) → find y s.outbound ≡ left s.result.acknowledged_ids y (find y mixed))
    × ((y : DeltaId) → contains s.result.acknowledged_ids y ≡ true → Accepted send refetch mixed y)
unfolding new_entry new_compacted
cloud_sync_loop-view_example =
    cloud_sync_loop-view send refetch mixed 0 (refl, (refl, (refl, (refl, (refl, tt)))))
