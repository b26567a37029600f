-- ===== src/Transport/Fragment/Inv/Steps.antt =====
-- `add_fragment` keeps the invariant, and reassembly of a delta whose slots are full never fails.
use tir_base.Prelude.{
  ℕ, suc, ◌≤◌, ◌≡◌, refl, sym, ap, ◌∙◌, Bool, true, false, ◌&&◌, inl, inr, Option, none, some,
  arith, eqb, Bool-cases, length, All, all, is_some, lookup, insert, remove, nat_eq, lookup-insert,
  All-insert, All-remove, All-lookup, length-remove-le, length-insert_new, length-insert_old,
}
use tir_base.Crdt.Delta.{Did}
use tir_base.Error.{ok, err, is_ok, fragment_reassembly_failed}
use tir_base.Transport.Fragment.{
  DeltaFragment, payloads, Slots, Pending, ReassemblyBuffer, empty_slots, set, unwrapped, make_room,
  or_insert, place, add_fragment, max_reassembly_slots,
}
use tir_base.Transport.Fragment.Inv.{
  EntryOk, Inv, length-empty_slots, empty_slots-Placed, length-set, set-Placed,
  reassemble-unwrapped, lookup-make_room, make_room-All, length-make_room, acceptable, prepared,
  add_fragment-cases,
}

-- What holds of the table and the slots before a fragment is stored.
pub record Ready (f : DeltaFragment) (ready : Pending × Slots) : Type 0 where
  pub entries : All EntryOk ready.0
  pub bounded : length ready.0 ≤ max_reassembly_slots
  pub entry : EntryOk (f.delta_id, ready.1)
  pub present : is_some (lookup f.delta_id ready.0) ≡ true

or_insert-Ready :
    (f : DeltaFragment) (pending : Pending) (o : Option Slots)
    → lookup f.delta_id pending ≡ o
    → acceptable f ≡ true
    → All EntryOk pending
    → length pending ≤ max_reassembly_slots
    → (o ≡ none → suc (length pending) ≤ max_reassembly_slots)
    → Ready f (or_insert f.delta_id (empty_slots f.total_fragments) o pending)
or_insert-Ready f pending none e accepted entries bounded room =
    let total = f.total_fragments in
    let n = length-empty_slots total in
    let fresh : EntryOk (f.delta_id, empty_slots total) = rw n (
      ground (arith, accepted),
      ground (arith, accepted),
      empty_slots-Placed f.delta_id total 0 total,
    ) in
    record {
      entries = All-insert EntryOk f.delta_id (empty_slots total) pending fresh entries;
      bounded = omega (arith, room refl, length-insert_new f.delta_id (empty_slots total) pending);
      entry = fresh;
      present = rw (lookup-insert f.delta_id f.delta_id (empty_slots total) pending) (ground arith);
    }
or_insert-Ready f pending (some slots) e accepted entries bounded room = record {
  entries = entries;
  bounded = bounded;
  entry = All-lookup EntryOk f.delta_id slots pending entries e;
  present = rw e refl;
}

pub prepared-Ready :
    (buffer : ReassemblyBuffer) (f : DeltaFragment)
    → Inv buffer
    → acceptable f ≡ true
    → Ready f (prepared buffer f)
prepared-Ready buffer f h accepted =
    let id = f.delta_id in
    let room = length-make_room id buffer.pending h.bounded in
    or_insert-Ready f (make_room id buffer.pending) (lookup id (make_room id buffer.pending)) refl
      accepted (make_room-All EntryOk id buffer.pending h.entries) room.0
      (λ e. room.1 (sym (lookup-make_room id buffer.pending) ∙ e))

abbrev pub stored : DeltaFragment → Slots → Slots
stored f slots = set f.fragment_index (some f) slots

stored-EntryOk :
    (f : DeltaFragment) (slots : Slots)
    → EntryOk (f.delta_id, slots)
    → length slots ≡ f.total_fragments
    → EntryOk (f.delta_id, stored f slots)
stored-EntryOk f slots h e = rw (length-set f.fragment_index (some f) slots) (
  h.0,
  h.1,
  set-Placed f.delta_id (length slots) 0 f.fragment_index f slots refl (omega arith) (sym e) h.2,
)

-- `place` on each of its three branches
place_mismatch :
    (f : DeltaFragment) (sender_did : Did) (ready : Pending × Slots)
    → eqb (length ready.1) f.total_fragments ≡ false
    → place f sender_did ready ≡ (
      record { pending = ready.0 },
      err (fragment_reassembly_failed sender_did f.total_fragments),
    )
place_mismatch f sender_did ready e = ground (arith, e)

pub place_full :
    (f : DeltaFragment) (sender_did : Did) (ready : Pending × Slots)
    → Ready f ready
    → eqb (length ready.1) f.total_fragments ≡ true
    → all is_some (stored f ready.1) ≡ true
    → place f sender_did ready ≡ (
      record { pending = remove f.delta_id ready.0 },
      ok (some (payloads (unwrapped (stored f ready.1)))),
    )
place_full f sender_did ready h e full =
    rw (e, full)
      (rw
        (reassemble-unwrapped f.delta_id (stored f ready.1) sender_did full
          (stored-EntryOk f ready.1 h.entry (ground (arith, e))))
        refl)

pub place_partial :
    (f : DeltaFragment) (sender_did : Did) (ready : Pending × Slots)
    → eqb (length ready.1) f.total_fragments ≡ true
    → all is_some (stored f ready.1) ≡ false
    → place f sender_did ready
      ≡ (record { pending = insert f.delta_id (stored f ready.1) ready.0 }, ok none)
place_partial f sender_did ready e part = rw (e, part) refl

place-Inv :
    (f : DeltaFragment) (sender_did : Did) (ready : Pending × Slots)
    → Ready f ready
    → Inv (place f sender_did ready).0
place-Inv f sender_did ready h = elim (Bool-cases (eqb (length ready.1) f.total_fragments)) [
  | inl e ↦ elim (Bool-cases (all is_some (stored f ready.1))) [
    | inl full ↦ rw (place_full f sender_did ready h e full) (record {
      entries = All-remove EntryOk f.delta_id ready.0 h.entries;
      bounded = omega (arith, length-remove-le f.delta_id ready.0, h.bounded);
    })
    | inr part ↦ rw (place_partial f sender_did ready e part) (record {
      entries =
          All-insert EntryOk f.delta_id (stored f ready.1) ready.0
            (stored-EntryOk f ready.1 h.entry (ground (arith, e))) h.entries;
      bounded =
          omega
            (arith, length-insert_old f.delta_id (stored f ready.1) ready.0 h.present, h.bounded);
    })
  ]
  | inr e ↦
      rw (place_mismatch f sender_did ready e) (record { entries = h.entries; bounded = h.bounded })
]

refused :
    (buffer : ReassemblyBuffer) (f : DeltaFragment) (sender_did : Did)
    → acceptable f ≡ false
    → add_fragment buffer f sender_did
      ≡ (buffer, err (fragment_reassembly_failed sender_did f.total_fragments))
unfolding add_fragment
refused buffer f sender_did h = ground (arith, h)

-- A buffer with at most 1,024 entries, each of 1 to 4,096 slots with fragments of its own delta
-- at their own indices, is such a buffer after every call of `add_fragment`, evictions and
-- completed deltas included.
pub add_fragment-Inv :
    (buffer : ReassemblyBuffer) (f : DeltaFragment) (sender_did : Did)
    → Inv buffer
    → Inv (add_fragment buffer f sender_did).0
add_fragment-Inv buffer f sender_did h = elim (Bool-cases (acceptable f)) [
  | inl e ↦
      rw (add_fragment-cases buffer f sender_did e)
        (place-Inv f sender_did (prepared buffer f) (prepared-Ready buffer f h e))
  | inr e ↦ rw (refused buffer f sender_did e) h
]

-- the total agrees with that of the delta's earlier fragments
abbrev pub agrees : Option Slots → ℕ → Bool
agrees none total = true
agrees (some slots) total = eqb (length slots) total

place-is_ok :
    (f : DeltaFragment) (sender_did : Did) (ready : Pending × Slots)
    → Ready f ready
    → is_ok (place f sender_did ready).1 ≡ eqb (length ready.1) f.total_fragments
place-is_ok f sender_did ready h = elim (Bool-cases (eqb (length ready.1) f.total_fragments)) [
  | inl e ↦ elim (Bool-cases (all is_some (stored f ready.1))) [
    | inl full ↦ rw (place_full f sender_did ready h e full, e) refl
    | inr part ↦ rw (place_partial f sender_did ready e part, e) refl
  ]
  | inr e ↦ rw (place_mismatch f sender_did ready e, e) refl
]

prepared-agrees :
    (f : DeltaFragment) (pending : Pending) (o : Option Slots)
    → eqb
        (length (or_insert f.delta_id (empty_slots f.total_fragments) o pending).1)
        f.total_fragments
      ≡ agrees o f.total_fragments
prepared-agrees f pending none = rw (length-empty_slots f.total_fragments) (ground arith)
prepared-agrees f pending (some slots) = refl

-- On such a buffer `add_fragment` fails exactly when the total is 0 or above 4,096, the index is
-- not below the total, or the total differs from that of the delta's earlier fragments: the
-- reassembly of a delta whose slots are full never fails.
pub is_ok-add_fragment :
    (buffer : ReassemblyBuffer) (f : DeltaFragment) (sender_did : Did)
    → Inv buffer
    → is_ok (add_fragment buffer f sender_did).1
      ≡ (acceptable f && agrees (lookup f.delta_id buffer.pending) f.total_fragments)
is_ok-add_fragment buffer f sender_did h = elim (Bool-cases (acceptable f)) [
  | inl e ↦
      rw (add_fragment-cases buffer f sender_did e, e)
        (place-is_ok f sender_did (prepared buffer f) (prepared-Ready buffer f h e)
          ∙ prepared-agrees f (make_room f.delta_id buffer.pending)
              (lookup f.delta_id (make_room f.delta_id buffer.pending))
          ∙ ap (λ o. agrees o f.total_fragments) (lookup-make_room f.delta_id buffer.pending))
  | inr e ↦ rw (refused buffer f sender_did e, e) refl
]
