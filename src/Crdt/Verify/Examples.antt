-- ===== src/Crdt/Verify/Examples.antt =====
-- The read-back over a small library: a document is one list, each element with its ID (a counter
-- and an actor of one byte) and its value.
use tir_base.Prelude.{
  ℕ, suc, ◌+◌, ◌≤◌, ◌≡◌, refl, ◌&&◌, Option, none, some, List, [], ◌∷◌, map, eqb,
}
use tir_base.Crdt.Automerge.{Automerge, list_object}
use tir_base.Crdt.Verify.{element_of_bytes, leb128_u64}
use tir_base.Crdt.Verify.Override.{
  RgaConflict, ConflictSnapshot, lww_rounds, index_maps, find_list, reorder, rga_rounds,
  verify_and_override,
}
use tir_base.Crdt.Verify.Zones.{verify_and_override-Zones}

abbrev pub Element : Type 0
Element = (ℕ × ℕ) × ℕ

abbrev pub id_of : Element → ℕ × ℕ
id_of (id, value) = id

abbrev pub value_of : Element → ℕ
value_of (id, value) = value

abbrev pub delete_at : ℕ → List Element → Option (List Element)
delete_at i [] = none
delete_at (suc i) (x ∷ xs) = elim (delete_at i xs) [ none ↦ none | some ys ↦ some (x ∷ ys) ]
delete_at _ (x ∷ xs) = some xs

abbrev pub insert_at : ℕ → Element → List Element → Option (List Element)
insert_at (suc i) y [] = none
insert_at (suc i) y (x ∷ xs) = elim (insert_at i y xs) [ none ↦ none | some ys ↦ some (x ∷ ys) ]
insert_at _ y xs = some (y ∷ xs)

abbrev pub library : Automerge
library = record {
  Doc = List Element;
  Scalar = ℕ;
  ObjId = ℕ × ℕ;
  new_with_actor = λ actor. [];
  get_actor = λ doc. [];
  load = λ bytes. none;
  merge = λ doc other. none;
  get_changes = λ doc. [];
  map_range = λ doc. ("list", (0, 0), list_object) ∷ [];
  get = λ doc key. none;
  list_range = λ doc obj. map id_of doc;
  same_id = λ a b. eqb a.0 b.0 && eqb a.1 b.1;
  to_bytes = λ id. 16 ∷ 1 ∷ id.1 ∷ 0 ∷ id.0 ∷ [];
  put = λ doc key value. none;
  delete = λ doc obj i. delete_at i doc;
  insert = λ doc obj i value. insert_at i ((50, 1), value) doc;
}

-- two local elements and an incoming one, inserted at the same place
abbrev merged_list : List Element
merged_list = ((2, 8), 20) ∷ ((1, 8), 10) ∷ ((1, 7), 99) ∷ []

abbrev against : ℕ → ℕ → RgaConflict library
against counter value = record {
  local_element = (counter, 8 ∷ []);
  incoming_element = (1, 7 ∷ []);
  local_value = value;
  incoming_value = 99;
}

abbrev one_conflict : ConflictSnapshot library
one_conflict = record { lww = []; rga = against 1 10 ∷ [] }

abbrev two_conflicts : ConflictSnapshot library
two_conflicts = record { lww = []; rga = against 1 10 ∷ against 2 20 ∷ [] }

-- one conflict: the incoming element comes first
one_override :
    map value_of (verify_and_override library merged_list one_conflict 9 3).0 ≡ 20 ∷ 99 ∷ 10 ∷ []
unfolding verify_and_override lww_rounds rga_rounds index_maps find_list reorder element_of_bytes
    leb128_u64
one_override = refl

-- two conflicts with the same element: the second override works with the indices from before the
-- first, the element 10 is lost and 99 is there twice
two_overrides :
    map value_of (verify_and_override library merged_list two_conflicts 9 3).0 ≡ 99 ∷ 20 ∷ 99 ∷ []
unfolding verify_and_override lww_rounds rga_rounds index_maps find_list reorder element_of_bytes
    leb128_u64
two_overrides = refl

verify_and_override-Zones_example :
    let after = verify_and_override library merged_list two_conflicts 3 9 in
    (after.1.overrides_applied + after.1.overrides_failed ≡ after.1.divergences)
    × (3 ≤ 9 → (after.0 ≡ merged_list) × (after.1.divergences ≡ 0))
verify_and_override-Zones_example = verify_and_override-Zones library merged_list two_conflicts 3 9
