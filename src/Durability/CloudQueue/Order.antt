-- ===== src/Durability/CloudQueue/Order.antt =====
-- The order of the cloud queue: `topological_sort_queue` of tirbase-core/src/durability/cloud_queue.rs.
use tir_base.Prelude.{
  ℕ, suc, ◌≡◌, ◌↔◌, refl, sym, ap, ◌∙◌, inl, inr, Bool, true, false, not, ◌&&◌, ◌||◌, some, List,
  [], ◌∷◌, ◌++◌, arith, ◌==◌, nat_eq, eqb_iff, Option-cases, Bool-cases, contains, contains-append,
  Distinct, any, keep, is_some, lookup, length,
}
use tir_base.Crdt.Delta.{DeltaId}
use tir_base.Crdt.Dag.{has_edge}
use tir_base.Crdt.Dag.Kahn.{of_edges, sources, kahn}
use tir_base.Crdt.Dag.Kahn.Release.{sources-positives, is_some-kahn}
use tir_base.Crdt.Dag.Kahn.Causal.{IsCausal, nodes-of_edges}
use tir_base.Crdt.Dag.Kahn.Steps.{Arranges, kahn-IsCausal}
use tir_base.Crdt.Dag.Topological.{of_ids, nodes-of_ids, start-Search}
use tir_base.Durability.CloudQueue.{
  QueueEntry, CloudOutboundQueue, ids, parent_edges, edges_among, queue_edges, sort_key, insert_by,
  sort_by_key, with_remaining, topological_sort_queue,
}

contains-insert_by :
    (key : DeltaId → ℕ) (x : DeltaId) (xs : List DeltaId) (y : DeltaId)
    → contains (insert_by key x xs) y ≡ contains (x ∷ xs) y
contains-insert_by key x [] y = refl
contains-insert_by key x (z ∷ xs) y = ground (arith, contains-insert_by key x xs y)

Distinct-insert_by :
    (key : DeltaId → ℕ) (x : DeltaId) (xs : List DeltaId)
    → Distinct (x ∷ xs)
    → Distinct (insert_by key x xs)
Distinct-insert_by key x [] d = d
Distinct-insert_by key x (z ∷ xs) d =
    let rest = Distinct-insert_by key x xs (ground (arith, d.0), d.1.1) in
    let apart : contains (insert_by key x xs) z ≡ false =
      ground (arith, contains-insert_by key x xs z, d.0, d.1.0) in
    ground (arith, rest, apart, d)

contains-sort_by_key :
    (key : DeltaId → ℕ) (xs : List DeltaId) (y : DeltaId)
    → contains (sort_by_key key xs) y ≡ contains xs y
unfolding sort_by_key
contains-sort_by_key key [] y = refl
contains-sort_by_key key (x ∷ xs) y =
    contains-insert_by key x (sort_by_key key xs) y
    ∙ ap (λ b. x == y || b) (contains-sort_by_key key xs y)

Distinct-sort_by_key :
    (key : DeltaId → ℕ) (xs : List DeltaId) → Distinct xs → Distinct (sort_by_key key xs)
unfolding sort_by_key
Distinct-sort_by_key key [] d = d
Distinct-sort_by_key key (x ∷ xs) d =
    Distinct-insert_by key x (sort_by_key key xs)
      (contains-sort_by_key key xs x ∙ d.0, Distinct-sort_by_key key xs d.1)

sort_by_key-Arranges : (key : DeltaId → ℕ) → Arranges (sort_by_key key)
sort_by_key-Arranges key = record {
  same = contains-sort_by_key key;
  once = Distinct-sort_by_key key;
}

length-insert_by :
    (key : DeltaId → ℕ) (x : DeltaId) (xs : List DeltaId)
    → length (insert_by key x xs) ≡ suc (length xs)
length-insert_by key x [] = refl
length-insert_by key x (z ∷ xs) = ground (arith, length-insert_by key x xs)

length-sort_by_key :
    (key : DeltaId → ℕ) (xs : List DeltaId) → length (sort_by_key key xs) ≡ length xs
unfolding sort_by_key
length-sort_by_key key [] = refl
length-sort_by_key key (x ∷ xs) =
    length-insert_by key x (sort_by_key key xs) ∙ ap suc (length-sort_by_key key xs)

-- every edge ends at an entry
target-parent_edges :
    (id_set : List DeltaId) (child : DeltaId) (ps : List DeltaId) (x : DeltaId)
    → any (λ e. e.1 == x) (parent_edges id_set child ps) ≡ true
    → child == x ≡ true
target-parent_edges id_set child [] x h = cc
target-parent_edges id_set child (p ∷ ps) x h = elim (Bool-cases (contains id_set p)) [
  | inl same ↦ ground (arith, target-parent_edges id_set child ps x, h, same)
  | inr other ↦ ground (arith, target-parent_edges id_set child ps x, h, other)
]

any-append :
    (x : DeltaId) (es fs : List (DeltaId × DeltaId))
    → any (λ e. e.1 == x) (es ++ fs) ≡ (any (λ e. e.1 == x) es || any (λ e. e.1 == x) fs)
any-append x [] fs = refl
any-append x (e ∷ es) fs = ground (arith, any-append x es fs)

target-edges_among :
    (id_set : List DeltaId) (es : List QueueEntry) (x : DeltaId)
    → any (λ e. e.1 == x) (edges_among id_set es) ≡ true
    → contains (ids es) x ≡ true
target-edges_among id_set [] x h = cc
target-edges_among id_set (e ∷ es) x h =
    let here = parent_edges id_set e.delta_id e.causal_parents in
    ground (
      arith,
      any-append x here (edges_among id_set es),
      target-parent_edges id_set e.delta_id e.causal_parents x,
      target-edges_among id_set es x,
      h,
    )

pub contains-rest :
    (sorted xs : List DeltaId) (x : DeltaId)
    → contains (keep (λ i. not (contains sorted i)) xs) x
      ≡ (contains xs x && not (contains sorted x))
contains-rest sorted [] x = refl
contains-rest sorted (y ∷ xs) x = elim (Bool-cases (y == x)) [
  | inl same ↦
      let e = (eqb_iff y x).0 same in
      rw (same, e) (ground (arith, contains-rest sorted xs x, eqb_iff x x))
  | inr other ↦ ground (arith, contains-rest sorted xs x, other)
]

has_edge-append :
    (es fs : List (DeltaId × DeltaId)) (p x : DeltaId)
    → has_edge (es ++ fs) p x ≡ (has_edge es p x || has_edge fs p x)
has_edge-append [] fs p x = refl
has_edge-append ((a, b) ∷ es) fs p x = ground (arith, has_edge-append es fs p x)

has_edge-parent_edges :
    (id_set : List DeltaId) (child : DeltaId) (ps : List DeltaId) (p x : DeltaId)
    → has_edge (parent_edges id_set child ps) p x
      ≡ (contains id_set p && contains ps p && child == x)
has_edge-parent_edges id_set child [] p x = ground arith
has_edge-parent_edges id_set child (a ∷ ps) p x = elim (Bool-cases (a == p)) [
  | inl same ↦
      rw (same, (eqb_iff a p).0 same)
        (ground (arith, has_edge-parent_edges id_set child ps p x, eqb_iff p p))
  | inr other ↦ rw other (ground (arith, has_edge-parent_edges id_set child ps p x, other))
]

-- an entry of `x` names `p` as a parent
abbrev pub names_parent : DeltaId → DeltaId → List QueueEntry → Bool
names_parent p x es = any (λ e. e.delta_id == x && contains e.causal_parents p) es

has_edge-edges_among :
    (id_set : List DeltaId) (es : List QueueEntry) (p x : DeltaId)
    → has_edge (edges_among id_set es) p x ≡ (contains id_set p && names_parent p x es)
has_edge-edges_among id_set [] p x = ground arith
has_edge-edges_among id_set (e ∷ es) p x =
    has_edge-append (parent_edges id_set e.delta_id e.causal_parents) (edges_among id_set es) p x
    ∙ rw (has_edge-parent_edges id_set e.delta_id e.causal_parents p x)
        (rw (has_edge-edges_among id_set es p x) (ground arith))

-- The order exists for every queue and has exactly the identifiers of its entries, so nothing is
-- dropped. It is a part in which no identifier comes twice and each is behind all its parents in
-- the queue, followed, in the order of the queue, by the entries outside that part. The part has
-- exactly the entries whose parents in the queue are all in it: not those on a cycle of parents,
-- nor what descends from them. The parents in the queue are the entries' causal parents that have
-- an entry themselves.
pub topological_sort_queue-IsCausal :
    (q : CloudOutboundQueue)
    → (sorted : List DeltaId) × (topological_sort_queue q
        ≡ some (sorted ++ keep (λ i. not (contains sorted i)) (ids q.queue)))
      × ((x : DeltaId)
          → contains (sorted ++ keep (λ i. not (contains sorted i)) (ids q.queue)) x
            ≡ contains (ids q.queue) x)
      × ((p x : DeltaId)
          → has_edge (queue_edges q.queue) p x
            ≡ (contains (ids q.queue) p && names_parent p x q.queue))
      × IsCausal (queue_edges q.queue) [] sorted
      × ((x : DeltaId)
          → (contains sorted x ≡ true) ↔ (
              (contains (ids q.queue) x ≡ true)
              × ((p : DeltaId)
                  → has_edge (queue_edges q.queue) p x ≡ true
                  → contains sorted p ≡ true)))
unfolding topological_sort_queue
topological_sort_queue-IsCausal q =
    let edges = queue_edges q.queue in
    let m₀ = of_ids (ids q.queue) [] in
    let m = of_edges edges m₀ in
    let arrange = sort_by_key (sort_key q.queue) in
    let start = arrange (sources m) in
    let kept = sort_by_key-Arranges (sort_key q.queue) in
    let same = length-sort_by_key (sort_key q.queue) in
    let ends =
      is_some-kahn edges arrange same (length m) m start
        (omega (arith, sources-positives m, same (sources m))) in
    elim (Option-cases (kahn edges arrange (length m) m start)) [
      | inl e ↦ absurd (ground (arith, e, ends))
      | inr (sorted, e) ↦
          let c =
            kahn-IsCausal edges arrange kept (length m) m start sorted
              (start-Search edges (ids q.queue) arrange kept) e in
          let node : (x : DeltaId) → is_some (lookup x m) ≡ contains (ids q.queue) x = λ x.
            nodes-of_edges edges m₀ x
            ∙ ap (λ b. b || any (λ e. e.1 == x) edges) (nodes-of_ids (ids q.queue) [] x)
            ∙ ground (arith, target-edges_among (ids q.queue) q.queue x) in
          (
            sorted,
            ap (with_remaining q.queue) e,
            λ x. ground (
              arith,
              contains-append sorted (keep (λ i. not (contains sorted i)) (ids q.queue)) x,
              contains-rest sorted (ids q.queue) x,
              (c.1 x).0,
              node x,
            ),
            has_edge-edges_among (ids q.queue) q.queue,
            c.0,
            λ x. (
              λ h. let l = (c.1 x).0 h in (sym (node x) ∙ l.0, l.1),
              λ h. (c.1 x).1 (node x ∙ h.0, h.1),
            ),
          )
    ]
