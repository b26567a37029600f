-- ===== src/Transport/Fragment.antt =====
-- tirbase-core/src/transport/fragment.rs: a delta cut into fragments that fit the transport's
-- MTU, put together again at once (`reassemble`) or piece by piece (`ReassemblyBuffer`). A `u32`
-- keeps its wrap-around; the table of pending deltas is an association list whose order stands for
-- the iteration order of the hash map.
pub mod Sorting
pub mod Whole
pub mod Inv
pub mod Seen
pub mod Outcomes
pub mod Delivery
mod Examples
use tir_base.Prelude.{
  ℕ, suc, ◌%◌, ◌^◌, Bool, true, false, not, ◌&&◌, ◌||◌, Option, none, some, List, [], ◌∷◌, ◌++◌,
  map, if◌then◌else◌, eqb, leb, ltb, length, all, is_some, lookup, insert, remove, nat_eq,
}
use tir_base.Crdt.Delta.{DeltaId, Did}
use tir_base.Error.{Result, ok, err, fragment_reassembly_failed, ◌>>=◌}

pub record DeltaFragment : Type 0 where
  pub delta_id : DeltaId
  pub fragment_index : ℕ
  pub total_fragments : ℕ
  pub payload : List ℕ

-- the first `n` elements, and the others
abbrev pub take {ℓ} : {A : Type ℓ} → ℕ → List A → List A
take (suc n) (x ∷ xs) = x ∷ take n xs
take _ _ = []

abbrev pub drop {ℓ} : {A : Type ℓ} → ℕ → List A → List A
drop (suc n) (x ∷ xs) = drop n xs
drop _ xs = xs

-- `bytes.chunks(mtu)`: there are at most as many chunks as bytes, the fuel
unfoldable pub chunks : (fuel mtu : ℕ) → List ℕ → List (List ℕ)
chunks (suc n) mtu (b ∷ bytes) = take mtu (b ∷ bytes) ∷ chunks n mtu (drop mtu (b ∷ bytes))
chunks _ mtu bytes = []

-- the chunks with their indices from `i` on
unfoldable pub numbered : DeltaId → (total i : ℕ) → List (List ℕ) → List DeltaFragment
numbered delta_id total i [] = []
numbered delta_id total i (chunk ∷ rest) =
    record {
      delta_id = delta_id;
      fragment_index = i % 2 ^ 32;
      total_fragments = total;
      payload = chunk;
    }
    ∷ numbered delta_id total (suc i) rest

unfoldable pub fragment : DeltaId → List ℕ → ℕ → List DeltaFragment
fragment delta_id [] mtu = []
fragment delta_id (b ∷ bytes) mtu =
    if eqb mtu 0
    then []
    else let cut = chunks (length (b ∷ bytes)) mtu (b ∷ bytes) in
      numbered delta_id (length cut % 2 ^ 32) 0 cut

-- `sort_by_key(|f| f.fragment_index)`, which is stable
abbrev pub insert_by_index : DeltaFragment → List DeltaFragment → List DeltaFragment
insert_by_index f [] = f ∷ []
insert_by_index f (g ∷ gs) =
    let rest = insert_by_index f gs in
    if leb f.fragment_index g.fragment_index then f ∷ g ∷ gs else g ∷ rest

unfoldable pub sort_by_index : List DeltaFragment → List DeltaFragment
sort_by_index [] = []
sort_by_index (f ∷ fs) = insert_by_index f (sort_by_index fs)

-- the fragment belongs to the delta and knows its total
abbrev pub matches : DeltaId → ℕ → DeltaFragment → Bool
matches delta_id total f = eqb f.delta_id delta_id && eqb f.total_fragments total

-- the indices are those from `i` on
abbrev pub in_sequence : ℕ → List DeltaFragment → Bool
in_sequence i [] = true
in_sequence i (f ∷ fs) = eqb f.fragment_index (i % 2 ^ 32) && in_sequence (suc i) fs

abbrev pub payloads : List DeltaFragment → List ℕ
payloads [] = []
payloads (f ∷ fs) = f.payload ++ payloads fs

unfoldable pub reassemble : List DeltaFragment → Did → Result (List ℕ)
reassemble [] sender_did = err (fragment_reassembly_failed sender_did 0)
reassemble (f ∷ fs) sender_did =
    let total = f.total_fragments in
    let failed : Result (List ℕ) = err (fragment_reassembly_failed sender_did total) in
    let sorted = sort_by_index (f ∷ fs) in
    if eqb total 0
    then err (fragment_reassembly_failed sender_did 0)
    else if not (all (matches f.delta_id total) (f ∷ fs))
    then failed
    else if not (eqb (length (f ∷ fs)) total)
    then failed
    else if not (in_sequence 0 sorted)
    then failed
    else ok (payloads sorted)

abbrev pub max_reassembly_slots : ℕ
max_reassembly_slots = 1024

abbrev pub max_fragments_per_delta : ℕ
max_fragments_per_delta = 4096

abbrev pub Slots : Type 0
Slots = List (Option DeltaFragment)

abbrev pub Pending : Type 0
Pending = List (DeltaId × Slots)

pub record ReassemblyBuffer : Type 0 where
  pub pending : Pending

-- `vec![None; total]`
abbrev pub empty_slots : ℕ → Slots
empty_slots (suc n) = none ∷ empty_slots n
empty_slots _ = []

-- `slots[idx] = slot`, within the bounds
abbrev pub set : ℕ → Option DeltaFragment → Slots → Slots
set i slot [] = []
set (suc i) slot (s ∷ slots) = s ∷ set i slot slots
set _ slot (s ∷ slots) = slot ∷ slots

abbrev pub filled : Slots → ℕ
filled [] = 0
filled (none ∷ slots) = filled slots
filled (some f ∷ slots) = suc (filled slots)

-- `slots.into_iter().map(|s| s.unwrap())`, called when every slot is filled
abbrev pub unwrapped : Slots → List DeltaFragment
unwrapped [] = []
unwrapped (none ∷ slots) = unwrapped slots
unwrapped (some f ∷ slots) = f ∷ unwrapped slots

-- `min_by_key`: the first key with the fewest filled slots
abbrev pub fewest_filled : DeltaId → ℕ → Pending → DeltaId
fewest_filled key count [] = key
fewest_filled key count ((k, slots) ∷ rest) =
    let here = fewest_filled k (filled slots) rest in
    let there = fewest_filled key count rest in if ltb (filled slots) count then here else there

-- Guard 2: room for a new delta
unfoldable pub evicted : Pending → Pending
evicted [] = []
evicted ((k, slots) ∷ rest) = remove (fewest_filled k (filled slots) rest) ((k, slots) ∷ rest)

unfoldable pub make_room : DeltaId → Pending → Pending
make_room delta_id pending =
    if not (is_some (lookup delta_id pending)) && leb max_reassembly_slots (length pending)
    then evicted pending
    else pending

-- `entry(delta_id).or_insert_with(...)`: the table, and the slots under the key
abbrev pub or_insert : DeltaId → Slots → Option Slots → Pending → Pending × Slots
or_insert delta_id slots none pending = (insert delta_id slots pending, slots)
or_insert delta_id slots (some there) pending = (pending, there)

abbrev pub completed : Result (List ℕ) → Result (Option (List ℕ))
completed r = r >>= λ bytes. ok (some bytes)

-- what follows the guards, on the table and the slots of the delta
abbrev pub place :
    DeltaFragment → Did → Pending × Slots → ReassemblyBuffer × Result (Option (List ℕ))
place f sender_did (pending, slots) =
    let total = f.total_fragments in
    let stored = set f.fragment_index (some f) slots in
    if not (eqb (length slots) total)
    then (record { pending = pending }, err (fragment_reassembly_failed sender_did total))
    else if all is_some stored
    then (
      record { pending = remove f.delta_id pending },
      completed (reassemble (unwrapped stored) sender_did),
    )
    else (record { pending = insert f.delta_id stored pending }, ok none)

unfoldable pub add_fragment :
    ReassemblyBuffer → DeltaFragment → Did → ReassemblyBuffer × Result (Option (List ℕ))
add_fragment buffer f sender_did =
    let total = f.total_fragments in
    let failed : Result (Option (List ℕ)) = err (fragment_reassembly_failed sender_did total) in
    if ltb max_fragments_per_delta total
    then (buffer, failed)
    else if eqb total 0 || leb total f.fragment_index
    then (buffer, failed)
    else let pending = make_room f.delta_id buffer.pending in
      place f sender_did
        (or_insert f.delta_id (empty_slots total) (lookup f.delta_id pending) pending)
