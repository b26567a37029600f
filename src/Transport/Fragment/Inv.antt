-- ===== src/Transport/Fragment/Inv.antt =====
-- The reassembly buffer: what every entry of its table looks like, the bound on its size, and the
-- requests that it refuses.
pub mod Steps
use mathlib.Core.List.{Permᴰ}
use mathlib.Core.List.Permᴰ
use tir_base.Prelude.{
  ℕ, zero, suc, ◌+◌, ◌^◌, ◌≤◌, ◌<◌, ◌≡◌, refl, sym, ap, ◌∙◌, Bool, true, false, not, ◌&&◌, ◌||◌,
  inl, inr, Option, none, some, List, [], ◌∷◌, arith, if◌then◌else◌, eqb, leb, ltb, Bool-cases,
  Option-cases, length, All, all, is_some, lookup, insert, remove, nat_eq, lookup-insert,
  lookup-remove, All-insert, All-remove, All-lookup, length-remove-le, length-remove-lt,
  length-insert_new, length-insert_old,
}
use tir_base.Crdt.Delta.{DeltaId, Did}
use tir_base.Error.{Result, ok, err, is_ok, ◌>>=◌}
use tir_base.Transport.Fragment.{
  DeltaFragment, payloads, reassemble, Slots, Pending, ReassemblyBuffer, empty_slots, set, filled,
  unwrapped, fewest_filled, evicted, make_room, or_insert, completed, place, add_fragment,
  max_reassembly_slots, max_fragments_per_delta,
}
use tir_base.Transport.Fragment.Sorting.{InOrder}
use tir_base.Transport.Fragment.Whole.{Complete, reassemble-Complete}

-- the slots from the index `i` on hold fragments of the delta, each at its own index
abbrev pub Placed : DeltaId → (total i : ℕ) → Slots → Type 0
Placed delta_id total i [] = Unit
Placed delta_id total i (none ∷ slots) = Placed delta_id total (suc i) slots
Placed delta_id total i (some f ∷ slots) =
    (f.delta_id ≡ delta_id)
    × (f.fragment_index ≡ i)
    × (f.total_fragments ≡ total)
    × Placed delta_id total (suc i) slots

abbrev pub EntryOk : DeltaId × Slots → Type 0
EntryOk (delta_id, slots) =
    (1 ≤ length slots)
    × (length slots ≤ max_fragments_per_delta)
    × Placed delta_id (length slots) 0 slots

pub record Inv (buffer : ReassemblyBuffer) : Type 0 where
  pub entries : All EntryOk buffer.pending
  pub bounded : length buffer.pending ≤ max_reassembly_slots

pub length-empty_slots : (n : ℕ) → length (empty_slots n) ≡ n
length-empty_slots (suc n) = ap suc (length-empty_slots n)
length-empty_slots zero = refl

empty_slots-Placed : (id total i n : ℕ) → Placed id total i (empty_slots n)
empty_slots-Placed id total i (suc n) = empty_slots-Placed id total (suc i) n
empty_slots-Placed id total i zero = tt

pub length-set :
    (i : ℕ) (slot : Option DeltaFragment) (slots : Slots) → length (set i slot slots) ≡ length slots
length-set i slot [] = refl
length-set (suc i) slot (s ∷ slots) = ap suc (length-set i slot slots)
length-set zero slot (s ∷ slots) = refl

set-Placed :
    (id total i j : ℕ) (f : DeltaFragment) (slots : Slots)
    → f.delta_id ≡ id
    → f.fragment_index ≡ i + j
    → f.total_fragments ≡ total
    → Placed id total i slots
    → Placed id total i (set j (some f) slots)
set-Placed id total i j f [] own at known h = tt
set-Placed id total i (suc j) f (none ∷ slots) own at known h =
    set-Placed id total (suc i) j f slots own (omega arith) known h
set-Placed id total i (suc j) f (some g ∷ slots) own at known h =
    (h.0, h.1, h.2, set-Placed id total (suc i) j f slots own (omega arith) known h.3)
set-Placed id total i zero f (none ∷ slots) own at known h = (own, omega arith, known, h)
set-Placed id total i zero f (some g ∷ slots) own at known h = (own, omega arith, known, h.3)

unwrapped-InOrder :
    (id total i : ℕ) (slots : Slots)
    → all is_some slots ≡ true
    → Placed id total i slots
    → InOrder id total i (unwrapped slots)
unwrapped-InOrder id total i [] full h = tt
unwrapped-InOrder id total i (none ∷ slots) full h = cc
unwrapped-InOrder id total i (some f ∷ slots) full h =
    (h.0, h.1, h.2, unwrapped-InOrder id total (suc i) slots full h.3)

pub length-unwrapped :
    (slots : Slots) → all is_some slots ≡ true → length (unwrapped slots) ≡ length slots
length-unwrapped [] full = refl
length-unwrapped (none ∷ slots) full = cc
length-unwrapped (some f ∷ slots) full = ap suc (length-unwrapped slots full)

-- full slots of a delta reassemble to the payloads in the order of the slots
pub reassemble-unwrapped :
    (id : DeltaId) (slots : Slots) (sender_did : Did)
    → all is_some slots ≡ true
    → EntryOk (id, slots)
    → reassemble (unwrapped slots) sender_did ≡ ok (payloads (unwrapped slots))
reassemble-unwrapped id slots sender_did full h =
    let n = length-unwrapped slots full in
    let c : Complete id (payloads (unwrapped slots)) (unwrapped slots) = record {
      some_fragment = omega (arith, h.0);
      in_order = rw n (unwrapped-InOrder id (length slots) 0 slots full h.2);
      whole = refl;
    } in
    reassemble-Complete sender_did c (omega (arith, h.1)) (Permᴰ.refl (unwrapped slots))

-- The key that is evicted is a key of the table.
fewest_filled-known :
    (key count : ℕ) (m : Pending)
    → (eqb key (fewest_filled key count m) || is_some (lookup (fewest_filled key count m) m)) ≡ true
fewest_filled-known key count [] = ground arith
fewest_filled-known key count ((k, slots) ∷ m) =
    ground (arith, fewest_filled-known key count m, fewest_filled-known k (filled slots) m)

pub evicted-All : (P : DeltaId × Slots → Type 0) (m : Pending) → All P m → All P (evicted m)
unfolding evicted
evicted-All P [] h = tt
evicted-All P ((k, slots) ∷ m) h =
    All-remove P (fewest_filled k (filled slots) m) ((k, slots) ∷ m) h

length-evicted : (m : Pending) → 1 ≤ length m → suc (length (evicted m)) ≤ length m
unfolding evicted
length-evicted [] h = absurd (omega arith)
length-evicted ((k, slots) ∷ m) h =
    length-remove-lt (fewest_filled k (filled slots) m) ((k, slots) ∷ m)
      (ground (arith, fewest_filled-known k (filled slots) m))

lookup-evicted : (id : DeltaId) (m : Pending) → lookup id m ≡ none → lookup id (evicted m) ≡ none
unfolding evicted
lookup-evicted id [] h = refl
lookup-evicted id ((k, slots) ∷ m) h =
    ground (arith, lookup-remove (fewest_filled k (filled slots) m) id ((k, slots) ∷ m))

-- the table, when the entry of the delta is looked for
pub lookup-make_room : (id : DeltaId) (m : Pending) → lookup id (make_room id m) ≡ lookup id m
unfolding make_room
lookup-make_room id m = elim (Option-cases (lookup id m)) [
  | inl e ↦ ground (arith, e, lookup-evicted id m e)
  | inr (slots, e) ↦ rw e (ground (arith, e))
]

pub make_room-All :
    (P : DeltaId × Slots → Type 0) (id : DeltaId) (m : Pending) → All P m → All P (make_room id m)
unfolding make_room
make_room-All P id m h =
    elim (Bool-cases (not (is_some (lookup id m)) && leb max_reassembly_slots (length m))) [
      | inl e ↦ rw e (evicted-All P m h)
      | inr e ↦ rw e h
    ]

-- there is room for a delta that has no entry
pub length-make_room :
    (id : DeltaId) (m : Pending)
    → length m ≤ max_reassembly_slots
    → (length (make_room id m) ≤ max_reassembly_slots)
      × (lookup id m ≡ none → suc (length (make_room id m)) ≤ max_reassembly_slots)
unfolding make_room
length-make_room id m h =
    (ground (arith, length-evicted m), λ e. ground (arith, e, length-evicted m))

abbrev pub held : ℕ → Option Slots → Slots
held total none = empty_slots total
held total (some slots) = slots

-- Guard 1 and the bounds on the index
abbrev pub acceptable : DeltaFragment → Bool
acceptable f =
    leb f.total_fragments max_fragments_per_delta
    && not (eqb f.total_fragments 0)
    && ltb f.fragment_index f.total_fragments

-- the table and the slots on which `place` works
abbrev pub prepared : ReassemblyBuffer → DeltaFragment → Pending × Slots
prepared buffer f =
    let pending = make_room f.delta_id buffer.pending in
    or_insert f.delta_id (empty_slots f.total_fragments) (lookup f.delta_id pending) pending

pub add_fragment-cases :
    (buffer : ReassemblyBuffer) (f : DeltaFragment) (sender_did : Did)
    → acceptable f ≡ true
    → add_fragment buffer f sender_did ≡ place f sender_did (prepared buffer f)
unfolding add_fragment
add_fragment-cases buffer f sender_did h = ground (arith, h)
