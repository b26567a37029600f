-- ===== src/Durability/CloudQueue/Loop.antt =====
-- `cloud_sync_loop` of tirbase-core/src/durability/cloud_queue.rs, from the order of the queue to
-- the result of the cycle.
use tir_base.Prelude.{
  ℕ, suc, ◌+◌, ◌≤◌, ◌≡◌, refl, sym, ap, ◌∙◌, inl, inr, Bool, true, false, not, Option, some,
  Option-cases, is_some, List, [], ◌∷◌, ◌++◌, arith, ◌==◌, nat_eq, eqb_iff, Bool-cases, contains,
  Distinct, keep, length, length-le_of_Distinct, if◌then◌else◌,
}
use tir_base.Crdt.Delta.{DeltaId, Did}
use tir_base.Crdt.Dag.Kahn.Causal.{IsCausal}
use tir_base.Crdt.Dag.Kahn.Steps.{Distinct-append}
use tir_base.Durability.CloudQueue.{
  QueueEntry, CloudOutboundQueue, ids, queue_edges, find, no_result, SyncState, cloud_sync_loop,
  run_sync, sync_ids,
}
use tir_base.Durability.CloudQueue.Order.{topological_sort_queue-IsCausal, contains-rest}
use tir_base.Durability.CloudQueue.Sync.{left, is_some-find, Accepted, Synced, sync_ids-Synced}

-- a causal list has no delta twice
Distinct-IsCausal :
    (edges : List (DeltaId × DeltaId)) (done xs : List DeltaId)
    → IsCausal edges done xs
    → Distinct xs × ((x : DeltaId) → contains xs x ≡ true → contains done x ≡ false)
Distinct-IsCausal edges done [] c = (tt, λ x h. cc)
Distinct-IsCausal edges done (x ∷ xs) c =
    let rest = Distinct-IsCausal edges (x ∷ done) xs c.2 in
    (
      (
        elim (Bool-cases (contains xs x)) [
          | inl again ↦ absurd (ground (arith, rest.1 x again, eqb_iff x x))
          | inr once ↦ once
        ],
        rest.0,
      ),
      λ y h. elim (Bool-cases (x == y)) [
        | inl same ↦ ap (contains done) (sym ((eqb_iff x y).0 same)) ∙ c.0
        | inr other ↦ ground (arith, rest.1 y, h, other)
      ],
    )

Distinct-rest :
    (sorted xs : List DeltaId) → Distinct xs → Distinct (keep (λ i. not (contains sorted i)) xs)
Distinct-rest sorted [] d = d
Distinct-rest sorted (x ∷ xs) d =
    let rest = Distinct-rest sorted xs d.1 in ground (arith, rest, contains-rest sorted xs x, d)

length-ids : (es : List QueueEntry) → length (ids es) ≡ length es
length-ids [] = refl
length-ids (e ∷ es) = ap suc (length-ids es)

module _ {ℓ} {Connection : Type ℓ} (send : Connection → DeltaId → List ℕ → Connection × Bool)
    (refetch : DeltaId → List Did → Option (List ℕ)) where
  view-done :
      (q : CloudOutboundQueue) (done acknowledged_ids : List DeltaId) (y : DeltaId)
      → contains done y ≡ contains (ids q.queue) y
      → (if contains done y then left acknowledged_ids y (find y q) else find y q)
        ≡ left acknowledged_ids y (find y q)
  view-done q done acknowledged_ids y same = elim (Bool-cases (contains (ids q.queue) y)) [
    | inl there ↦ rw (same, there) refl
    | inr absent ↦ elim (Option-cases (find y q)) [
      | inl missing ↦ rw (same, absent, missing) (ground arith)
      | inr (e, found) ↦ absurd (ground (arith, is_some-find y q, found, absent, ap is_some found))
    ]
  ]

  -- If the queue has no delta twice, the cycle ends, and counts each entry once: acknowledged,
  -- rejected or deferred. Seen as a map from identifiers, the queue that it leaves is the old one
  -- without the entries acknowledged now or flagged durable before; all others stay as they were.
  -- What the cycle reports as acknowledged was pending, and the ledger accepted its bytes, which
  -- are those of the entry or, for a compacted entry, those fetched again.
  pub cloud_sync_loop-view :
      (q : CloudOutboundQueue) (conn : Connection)
      → Distinct (ids q.queue)
      → (s : SyncState send refetch) × (cloud_sync_loop send refetch q conn ≡ some s)
        × (s.result.acknowledged + s.result.rejected + s.result.deferred ≡ length q.queue)
        × ((y : DeltaId) → find y s.outbound ≡ left s.result.acknowledged_ids y (find y q))
        × ((y : DeltaId) → contains s.result.acknowledged_ids y ≡ true → Accepted send refetch q y)
  unfolding cloud_sync_loop
  cloud_sync_loop-view q conn once =
      let (sorted, e, same, _, causal, _) = topological_sort_queue-IsCausal q in
      let rest = keep (λ i. not (contains sorted i)) (ids q.queue) in
      let order = sorted ++ rest in
      let d : Distinct order =
        Distinct-append sorted rest (Distinct-IsCausal (queue_edges q.queue) [] sorted causal).0
          (Distinct-rest sorted (ids q.queue) once)
          (λ y h. ground (arith, contains-rest sorted (ids q.queue) y, h)) in
      let st : SyncState send refetch = record { outbound = q; conn = conn; result = no_result } in
      let start : Synced send refetch q [] q no_result = record {
        view = λ y. refl;
        total = omega arith;
        taken = λ y h. absurd (ground (arith, h));
        known = λ y h. h;
      } in
      let (done, s, len, all_done) =
        sync_ids-Synced send refetch q order [] st start d (λ y h. refl)
          (λ y h. is_some-find y q ∙ sym (same y) ∙ h) in
      let size : length order ≤ length (ids q.queue) =
        length-le_of_Distinct order (ids q.queue) d (λ y h. sym (same y) ∙ h) in
      let size' : length (ids q.queue) ≤ length order =
        length-le_of_Distinct (ids q.queue) order once (λ y h. same y ∙ h) in
      (
        sync_ids send refetch order st,
        ap (run_sync send refetch st) e,
        omega (arith, s.total, len, size, size', length-ids q.queue),
        λ y.
            s.view y
            ∙ view-done q done (sync_ids send refetch order st).result.acknowledged_ids y
                (all_done y ∙ ground (arith, same y)),
        s.taken,
      )
