-- ===== src/Durability/CloudQueue.antt =====
-- tirbase-core/src/durability/cloud_queue.rs: the deltas that wait for the Cloud Ledger, the order
-- in which they are sent, and the loop that sends them. The connection is a state with a function
-- `send`, which says whether the ledger acknowledged; the log lines and the reason of a rejection are
-- left out. A set or a map of identifiers is a list.
pub mod Order
pub mod Sync
pub mod Loop
mod Examples
use tir_base.Prelude.{
  ℕ, suc, ◌+◌, ◌-◌, ◌^◌, Bool, true, false, not, ◌&&◌, Option, none, some, List, [], ◌∷◌, ◌++◌, map,
  if◌then◌else◌, leb, ◌==◌, nat_eq, string_eq, contains, keep, length,
}
use tir_base.Crdt.Delta.{DeltaId, Did}
use tir_base.Error.{Result, ok, err, cloud_queue_full, refetch_unavailable}
use tir_base.Crdt.Dag.Kahn.{DegreeTable, of_edges, sources, kahn}
use tir_base.Crdt.Dag.Topological.{of_ids}

abbrev pub max_queue_depth : ℕ
max_queue_depth = 100_000

pub record QueueEntry : Type 0 where
  pub delta_id : DeltaId
  pub delta_bytes : Option (List ℕ)
  pub causal_parents : List DeltaId
  pub compacted : Bool
  pub receipt_holders : List Did
  pub tier2_durable : Bool

unfoldable pub new_entry : DeltaId → List ℕ → List DeltaId → QueueEntry
new_entry delta_id delta_bytes causal_parents = record {
  delta_id = delta_id;
  delta_bytes = some delta_bytes;
  causal_parents = causal_parents;
  compacted = false;
  receipt_holders = [];
  tier2_durable = false;
}

unfoldable pub new_compacted : DeltaId → List DeltaId → List Did → QueueEntry
new_compacted delta_id causal_parents receipt_holders = record {
  delta_id = delta_id;
  delta_bytes = none;
  causal_parents = causal_parents;
  compacted = true;
  receipt_holders = receipt_holders;
  tier2_durable = false;
}

pub record CloudOutboundQueue : Type 0 where
  pub queue : List QueueEntry

abbrev pub empty_queue : CloudOutboundQueue
empty_queue = record { queue = [] }

unfoldable pub enqueue : QueueEntry → CloudOutboundQueue → CloudOutboundQueue × Result (Unit {0})
enqueue entry q =
    if leb max_queue_depth (length q.queue)
    then (q, err (cloud_queue_full (length q.queue)))
    else (record { queue = q.queue ++ entry ∷ [] }, ok tt)

unfoldable pub acknowledge : DeltaId → CloudOutboundQueue → CloudOutboundQueue
acknowledge delta_id q = record { queue = keep (λ e. not (e.delta_id == delta_id)) q.queue }

-- the loop that changes the first entry of a delta
abbrev pub update_first : DeltaId → (QueueEntry → QueueEntry) → List QueueEntry → List QueueEntry
update_first delta_id f [] = []
update_first delta_id f (e ∷ es) =
    let rest = update_first delta_id f es in if e.delta_id == delta_id then f e ∷ es else e ∷ rest

unfoldable pub mark_tier2 : DeltaId → CloudOutboundQueue → CloudOutboundQueue
mark_tier2 delta_id q = record {
  queue = update_first delta_id (λ e. record e { tier2_durable = true }) q.queue;
}

unfoldable pub mark_compacted : DeltaId → CloudOutboundQueue → CloudOutboundQueue
mark_compacted delta_id q = record {
  queue = update_first delta_id (λ e. record e { compacted = true; delta_bytes = none }) q.queue;
}

unfoldable pub add_receipt_holder : DeltaId → Did → CloudOutboundQueue → CloudOutboundQueue
add_receipt_holder delta_id holder_did q = record {
  queue =
      update_first delta_id
        (λ e.
          if contains e.receipt_holders holder_did
          then e
          else record e { receipt_holders = e.receipt_holders ++ holder_did ∷ [] })
        q.queue;
}

abbrev pub ids : List QueueEntry → List DeltaId
ids [] = []
ids (e ∷ es) = e.delta_id ∷ ids es

unfoldable pub compacted_entry_ids : CloudOutboundQueue → List DeltaId
compacted_entry_ids q = ids (keep (λ e. not e.tier2_durable && e.compacted) q.queue)

unfoldable pub depth : CloudOutboundQueue → ℕ
depth q = length q.queue

unfoldable pub pending_entries : CloudOutboundQueue → List QueueEntry
pending_entries q = keep (λ e. not e.tier2_durable) q.queue

abbrev pub find_entry : DeltaId → List QueueEntry → Option QueueEntry
find_entry delta_id [] = none
find_entry delta_id (e ∷ es) = if e.delta_id == delta_id then some e else find_entry delta_id es

unfoldable pub find : DeltaId → CloudOutboundQueue → Option QueueEntry
find delta_id q = find_entry delta_id q.queue

-- the first peer that answers
unfoldable pub refetch_for_cloud_sync :
    (Did → DeltaId → Option (List ℕ)) → DeltaId → List Did → Result (List ℕ)
refetch_for_cloud_sync try_fetch_from_peer delta_id [] = err (refetch_unavailable delta_id)
refetch_for_cloud_sync try_fetch_from_peer delta_id (peer ∷ peers) =
    elim (try_fetch_from_peer peer delta_id) [
      | some bytes ↦ ok bytes
      | none ↦ refetch_for_cloud_sync try_fetch_from_peer delta_id peers
    ]

-- the edges to an entry from its parents in the queue
abbrev pub parent_edges : List DeltaId → DeltaId → List DeltaId → List (DeltaId × DeltaId)
parent_edges id_set child [] = []
parent_edges id_set child (p ∷ ps) =
    let rest = parent_edges id_set child ps in if contains id_set p then (p, child) ∷ rest else rest

abbrev pub edges_among : List DeltaId → List QueueEntry → List (DeltaId × DeltaId)
edges_among id_set [] = []
edges_among id_set (e ∷ es) =
    parent_edges id_set e.delta_id e.causal_parents ++ edges_among id_set es

abbrev pub queue_edges : List QueueEntry → List (DeltaId × DeltaId)
queue_edges entries = edges_among (ids entries) entries

-- `order_index`: the last position of a delta, from `i` on
abbrev pub order_index : ℕ → List QueueEntry → DeltaId → Option ℕ
order_index i [] delta_id = none
order_index i (e ∷ es) delta_id = elim (order_index (suc i) es delta_id) [
  | some later ↦ some later
  | none ↦ if e.delta_id == delta_id then some i else none
]

-- `unwrap_or(usize::MAX)`
abbrev pub sort_key : List QueueEntry → DeltaId → ℕ
sort_key entries delta_id = elim (order_index 0 entries delta_id) [ none ↦ 2 ^ 64 - 1 | some i ↦ i ]

-- `sort_by_key`, which is stable
abbrev pub insert_by : (DeltaId → ℕ) → DeltaId → List DeltaId → List DeltaId
insert_by key x [] = x ∷ []
insert_by key x (y ∷ ys) =
    let rest = insert_by key x ys in if leb (key x) (key y) then x ∷ y ∷ ys else y ∷ rest

unfoldable pub sort_by_key : (DeltaId → ℕ) → List DeltaId → List DeltaId
sort_by_key key [] = []
sort_by_key key (x ∷ xs) = insert_by key x (sort_by_key key xs)

-- the entries that the search did not reach, in the order of the queue
abbrev pub with_remaining : List QueueEntry → Option (List DeltaId) → Option (List DeltaId)
with_remaining entries none = none
with_remaining entries (some sorted) =
    some (sorted ++ keep (λ i. not (contains sorted i)) (ids entries))

-- a round for each entry of the table of degrees is enough
unfoldable pub topological_sort_queue : CloudOutboundQueue → Option (List DeltaId)
topological_sort_queue q =
    let edges = queue_edges q.queue in
    let m = of_edges edges (of_ids (ids q.queue) []) in
    let arrange = sort_by_key (sort_key q.queue) in
    with_remaining q.queue (kahn edges arrange (length m) m (arrange (sources m)))

pub record CloudSyncResult : Type 0 where
  pub acknowledged : ℕ
  pub rejected : ℕ
  pub deferred : ℕ
  pub acknowledged_ids : List DeltaId

abbrev pub no_result : CloudSyncResult
no_result = record { acknowledged = 0; rejected = 0; deferred = 0; acknowledged_ids = [] }

module _ {ℓ} {Connection : Type ℓ} (send : Connection → DeltaId → List ℕ → Connection × Bool)
    (refetch : DeltaId → List Did → Option (List ℕ)) where
  -- the variables of the loop
  pub record SyncState : Type ℓ where
    pub outbound : CloudOutboundQueue
    pub conn : Connection
    pub result : CloudSyncResult

  abbrev pub sent : DeltaId → SyncState → Connection × Bool → SyncState
  sent delta_id s (conn, true) = record {
    outbound = acknowledge delta_id s.outbound;
    conn = conn;
    result = record s.result {
      acknowledged = s.result.acknowledged + 1;
      acknowledged_ids = s.result.acknowledged_ids ++ delta_id ∷ [];
    };
  }
  sent delta_id s (conn, false) = record {
    outbound = s.outbound;
    conn = conn;
    result = record s.result { rejected = s.result.rejected + 1 };
  }

  -- the bytes, inline or fetched again
  abbrev pub bytes_of : QueueEntry → Option (List ℕ) → Option (List ℕ)
  bytes_of e (some bytes) = some bytes
  bytes_of e none = if e.compacted then refetch e.delta_id e.receipt_holders else none

  abbrev pub sync_bytes : DeltaId → SyncState → Option (List ℕ) → SyncState
  sync_bytes delta_id s none = record s {
    result = record s.result { deferred = s.result.deferred + 1 };
  }
  sync_bytes delta_id s (some bytes) = sent delta_id s (send s.conn delta_id bytes)

  abbrev pub sync_entry : DeltaId → SyncState → Option QueueEntry → SyncState
  sync_entry delta_id s none = s
  sync_entry delta_id s (some e) =
      if e.tier2_durable
      then record s {
        outbound = acknowledge delta_id s.outbound;
        result = record s.result { acknowledged = s.result.acknowledged + 1 };
      }
      else sync_bytes delta_id s (bytes_of e e.delta_bytes)

  unfoldable pub sync_ids : List DeltaId → SyncState → SyncState
  sync_ids [] s = s
  sync_ids (delta_id ∷ rest) s = sync_ids rest (sync_entry delta_id s (find delta_id s.outbound))

  abbrev pub run_sync : SyncState → Option (List DeltaId) → Option SyncState
  run_sync s none = none
  run_sync s (some order) = some (sync_ids order s)

  unfoldable pub cloud_sync_loop : CloudOutboundQueue → Connection → Option SyncState
  cloud_sync_loop q conn =
      run_sync (record { outbound = q; conn = conn; result = no_result }) (topological_sort_queue q)
