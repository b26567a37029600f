-- ===== src/Durability/CloudQueue/Sync.antt =====
-- What `cloud_sync_loop` of tirbase-core/src/durability/cloud_queue.rs leaves in the queue, seen as
-- a map from identifiers to entries.
use mathlib.Core.Path.{subst}
use tir_base.Prelude.{
  ℕ, suc, ◌+◌, ◌≡◌, refl, sym, ap, ◌∙◌, inl, inr, Bool, true, false, not, ◌&&◌, ◌||◌, Option, none,
  some, List, [], ◌∷◌, ◌++◌, arith, if◌then◌else◌, ◌==◌, nat_eq, eqb_iff, eq_refl, Option-cases,
  Bool-cases, contains, contains-append, Distinct, keep, is_some, length,
}
use tir_base.Crdt.Delta.{DeltaId, Did}
use tir_base.Durability.CloudQueue.{
  QueueEntry, CloudOutboundQueue, acknowledge, find, find_entry, ids, CloudSyncResult, SyncState,
  sent, bytes_of, sync_bytes, sync_entry, sync_ids,
}

-- an entry that the ledger has not acknowledged
abbrev pub pending : Option QueueEntry → Option QueueEntry
pending none = none
pending (some e) = if e.tier2_durable then none else some e

-- what is left of an entry after it is processed
abbrev pub left : List DeltaId → DeltaId → Option QueueEntry → Option QueueEntry
left acknowledged_ids y o = if contains acknowledged_ids y then none else pending o

find-keep :
    (x y : DeltaId) (es : List QueueEntry)
    → find_entry y (keep (λ e. not (e.delta_id == x)) es)
      ≡ (if x == y then none else find_entry y es)
find-keep x y [] = ground arith
find-keep x y (e ∷ es) = elim (Bool-cases (e.delta_id == x)) [
  | inl same ↦ rw (same, (eqb_iff e.delta_id x).0 same) (ground (arith, find-keep x y es))
  | inr other ↦ rw other (ground (arith, find-keep x y es, eqb_iff e.delta_id y, eqb_iff x y))
]

find-acknowledge :
    (x y : DeltaId) (q : CloudOutboundQueue)
    → find y (acknowledge x q) ≡ (if x == y then none else find y q)
unfolding find acknowledge
find-acknowledge x y q = find-keep x y q.queue

pub is_some-find :
    (y : DeltaId) (q : CloudOutboundQueue) → is_some (find y q) ≡ contains (ids q.queue) y
unfolding find
is_some-find y q = is_some-find_entry y q.queue
  where
    is_some-find_entry :
        (y : DeltaId) (es : List QueueEntry) → is_some (find_entry y es) ≡ contains (ids es) y
    is_some-find_entry y [] = refl
    is_some-find_entry y (e ∷ es) = ground (arith, is_some-find_entry y es)

module _ {ℓ} {Connection : Type ℓ} (send : Connection → DeltaId → List ℕ → Connection × Bool)
    (refetch : DeltaId → List Did → Option (List ℕ)) (q : CloudOutboundQueue) where
  -- The ledger accepted the bytes of the entry of `y`, inline or fetched again.
  pub record Accepted (y : DeltaId) : Type ℓ where
    pub entry : QueueEntry
    pub found : find y q ≡ some entry
    pub fresh : entry.tier2_durable ≡ false
    pub bytes : List ℕ
    pub read : bytes_of send refetch entry entry.delta_bytes ≡ some bytes
    pub conn : Connection
    pub accepted : (send conn y bytes).1 ≡ true

  -- the invariant of the loop, after the identifiers `done`
  pub record Synced (done : List DeltaId) (out : CloudOutboundQueue) (r : CloudSyncResult)
      : Type ℓ where
    pub view :
        (y : DeltaId)
        → find y out ≡ (if contains done y then left r.acknowledged_ids y (find y q) else find y q)
    pub total : r.acknowledged + r.rejected + r.deferred ≡ length done
    pub taken : (y : DeltaId) → contains r.acknowledged_ids y ≡ true → Accepted y
    pub known : (y : DeltaId) → contains r.acknowledged_ids y ≡ true → contains done y ≡ true

  -- one more identifier is processed
  module _ (x : DeltaId) (done : List DeltaId) (out : CloudOutboundQueue) (r : CloudSyncResult)
      (e : QueueEntry) (s : Synced done out r) (new : contains done x ≡ false)
      (found : find x q ≡ some e) where
    unknown : contains r.acknowledged_ids x ≡ false
    unknown = elim (Bool-cases (contains r.acknowledged_ids x)) [
      | inl h ↦ absurd (ground (arith, s.known x h, new))
      | inr h ↦ h
    ]

    -- rejected or deferred: the entry stays
    Synced-stays :
        (r' : CloudSyncResult)
        → e.tier2_durable ≡ false
        → r'.acknowledged_ids ≡ r.acknowledged_ids
        → r'.acknowledged + r'.rejected + r'.deferred
          ≡ suc (r.acknowledged + r.rejected + r.deferred)
        → Synced (x ∷ done) out r'
    Synced-stays r' waits same counted = record {
      view = λ y. elim (Bool-cases (x == y)) [
        | inl here ↦
            subst
              (λ z. find z out ≡ (
                if contains (x ∷ done) z then left r'.acknowledged_ids z (find z q) else find z q))
              ((eqb_iff x y).0 here)
              (s.view x ∙ rw (new, eq_refl x, same, unknown, found) (ground (arith, waits)))
        | inr there ↦ s.view y ∙ rw (same, there) refl
      ];
      total = omega (arith, counted, s.total);
      taken = λ y h. s.taken y (ap (λ l. contains l y) (sym same) ∙ h);
      known = λ y h. ground (arith, s.known y (ap (λ l. contains l y) (sym same) ∙ h));
    }

    -- acknowledged now, or in an earlier cycle: the entry goes
    Synced-goes :
        (r' : CloudSyncResult)
        → ((y : DeltaId)
            → contains r'.acknowledged_ids y
              ≡ (contains r.acknowledged_ids y || not e.tier2_durable && x == y))
        → (e.tier2_durable ≡ false → Accepted x)
        → r'.acknowledged + r'.rejected + r'.deferred
          ≡ suc (r.acknowledged + r.rejected + r.deferred)
        → Synced (x ∷ done) (acknowledge x out) r'
    Synced-goes r' added accepted counted = record {
      view = λ y. find-acknowledge x y out ∙ elim (Bool-cases (x == y)) [
        | inl here ↦ rw here (
            sym (
              subst (λ z. left r'.acknowledged_ids z (find z q) ≡ none) ((eqb_iff x y).0 here)
                (rw (added x, eq_refl x, unknown, found) (ground arith))))
        | inr there ↦ rw there (s.view y ∙ rw (added y, there) (ground arith))
      ];
      total = omega (arith, counted, s.total);
      taken = λ y h. elim (Bool-cases (contains r.acknowledged_ids y)) [
        | inl old ↦ s.taken y old
        | inr fresh ↦
            subst (λ z. Accepted z) ((eqb_iff x y).0 (ground (arith, added y, h, fresh)))
              (accepted (ground (arith, added y, h, fresh)))
      ];
      known = λ y h. ground (arith, s.known y, added y, h);
    }

  abbrev Done : DeltaId → List DeltaId → SyncState send refetch → Type ℓ
  Done x done s = Synced (x ∷ done) s.outbound s.result

  contains-fresh :
      (acknowledged_ids : List DeltaId) (x y : DeltaId) (durable : Bool)
      → durable ≡ false
      → contains (acknowledged_ids ++ x ∷ []) y
        ≡ (contains acknowledged_ids y || not durable && x == y)
  contains-fresh acknowledged_ids x y durable h =
      rw (contains-append acknowledged_ids (x ∷ []) y, h) (ground arith)

  -- one turn of the loop, for the entry `e`
  module _ (x : DeltaId) (done : List DeltaId) (st : SyncState send refetch) (e : QueueEntry)
      (s : Synced done st.outbound st.result) (new : contains done x ≡ false)
      (found : find x q ≡ some e) where
    sent-Synced :
        (bytes : List ℕ) (answer : Connection × Bool)
        → e.tier2_durable ≡ false
        → bytes_of send refetch e e.delta_bytes ≡ some bytes
        → send st.conn x bytes ≡ answer
        → Done x done (sent send refetch x st answer)
    sent-Synced bytes (conn, true) waits read said =
        Synced-goes x done st.outbound st.result e s new found
          (sent send refetch x st (conn, true)).result
          (λ y. contains-fresh st.result.acknowledged_ids x y e.tier2_durable waits)
          (λ fresh. record {
            entry = e;
            found = found;
            fresh = waits;
            bytes = bytes;
            read = read;
            conn = st.conn;
            accepted = ap (λ a. a.1) said;
          })
          (omega arith)
    sent-Synced bytes (conn, false) waits read said =
        Synced-stays x done st.outbound st.result e s new found
          (sent send refetch x st (conn, false)).result waits refl (omega arith)

    sync_bytes-Synced :
        (o : Option (List ℕ))
        → e.tier2_durable ≡ false
        → bytes_of send refetch e e.delta_bytes ≡ o
        → Done x done (sync_bytes send refetch x st o)
    sync_bytes-Synced none waits read =
        Synced-stays x done st.outbound st.result e s new found
          (sync_bytes send refetch x st none).result waits refl (omega arith)
    sync_bytes-Synced (some bytes) waits read =
        sent-Synced bytes (send st.conn x bytes) waits read refl

    sync_entry-Synced : Done x done (sync_entry send refetch x st (some e))
    sync_entry-Synced = elim (Bool-cases e.tier2_durable) [
      | inl durable ↦ rw durable (
          Synced-goes x done st.outbound st.result e s new found
            (record st.result { acknowledged = st.result.acknowledged + 1 })
            (λ y. rw durable (ground arith)) (λ waits. absurd (ground (arith, durable, waits)))
            (omega arith))
      | inr waits ↦ rw waits (sync_bytes-Synced (bytes_of send refetch e e.delta_bytes) waits refl)
    ]

  -- all turns
  pub sync_ids-Synced :
      (order done : List DeltaId) (st : SyncState send refetch)
      → Synced done st.outbound st.result
      → Distinct order
      → ((x : DeltaId) → contains order x ≡ true → contains done x ≡ false)
      → ((x : DeltaId) → contains order x ≡ true → is_some (find x q) ≡ true)
      → (done' : List DeltaId) × Synced done'
          (sync_ids send refetch order st).outbound
          (sync_ids send refetch order st).result
        × (length done' ≡ length order + length done)
        × ((x : DeltaId) → contains done' x ≡ (contains order x || contains done x))
  unfolding sync_ids
  sync_ids-Synced [] done st s d new here = (done, s, omega arith, λ x. refl)
  sync_ids-Synced (x ∷ order) done st s d new here =
      let fresh = new x (ground (arith, eq_refl x)) in
      elim (Option-cases (find x q)) [
        | inl missing ↦ absurd (ground (arith, missing, here x (ground (arith, eq_refl x))))
        | inr (e, found) ↦
            let same : find x st.outbound ≡ some e = s.view x ∙ rw fresh found in
            let turn : Done x done (sync_entry send refetch x st (find x st.outbound)) =
              rw same (sync_entry-Synced x done st e s fresh found) in
            let rest =
              sync_ids-Synced order (x ∷ done) (sync_entry send refetch x st (find x st.outbound))
                turn d.1 (λ y h. ground (arith, new y, d.0, h, eqb_iff x y))
                (λ y h. here y (ground (arith, h))) in
            (rest.0, rest.1, omega (arith, rest.2), λ y. rest.3 y ∙ ground arith)
      ]
