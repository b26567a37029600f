-- ===== src/Transport/Fragment/Examples.antt =====
-- Fragmentation at concrete inputs, each theorem among them.
use mathlib.Core.List.{Permᴰ}
use tir_base.Prelude.{ℕ, ◌≡◌, ◌&&◌, refl, none, List, [], ◌∷◌, arith, lookup, length, nat_eq}
use tir_base.Error.{ok, err, is_ok, fragment_reassembly_failed}
use tir_base.Transport.Fragment.{
  DeltaFragment, ReassemblyBuffer, Pending, chunks, numbered, fragment, sort_by_index, reassemble,
  make_room, add_fragment,
}
use tir_base.Transport.Fragment.Whole.{reassemble-fragment}
use tir_base.Transport.Fragment.Inv.{Inv, acceptable}
use tir_base.Transport.Fragment.Inv.Steps.{add_fragment-Inv, is_ok-add_fragment, agrees}
use tir_base.Transport.Fragment.Delivery.{deliver, deliver-fragment}

abbrev bytes : List ℕ
bytes = 1 ∷ 2 ∷ 3 ∷ 4 ∷ 5 ∷ []

abbrev piece : ℕ → List ℕ → DeltaFragment
piece i payload = record {
  delta_id = 9;
  fragment_index = i;
  total_fragments = 3;
  payload = payload;
}

abbrev late_first : List DeltaFragment
late_first = piece 1 (3 ∷ 4 ∷ []) ∷ piece 0 (1 ∷ 2 ∷ []) ∷ piece 2 (5 ∷ []) ∷ []

abbrev other_slots : Pending
other_slots = (4, none ∷ none ∷ []) ∷ []

abbrev buffer : ReassemblyBuffer
buffer = record { pending = other_slots }

buffer-Inv : Inv buffer
buffer-Inv = record { entries = ((omega arith, omega arith, tt), tt); bounded = omega arith }

fragment-bytes :
    fragment 9 bytes 2 ≡ piece 0 (1 ∷ 2 ∷ []) ∷ piece 1 (3 ∷ 4 ∷ []) ∷ piece 2 (5 ∷ []) ∷ []
unfolding fragment chunks numbered
fragment-bytes = refl

late_first-perm : Permᴰ (fragment 9 bytes 2) late_first
unfolding fragment chunks numbered
late_first-perm = Permᴰ.swap refl refl

three : length (fragment 9 bytes 2) ≡ 3
unfolding fragment chunks numbered
three = refl

reassemble-duplicate :
    reassemble (piece 0 [] ∷ piece 0 [] ∷ piece 2 [] ∷ []) "did:key:zA"
    ≡ err (fragment_reassembly_failed "did:key:zA" 3)
unfolding reassemble sort_by_index
reassemble-duplicate = refl

deliver-late_first : (deliver late_first "did:key:zA" buffer).0 ≡ buffer
unfolding deliver add_fragment make_room reassemble sort_by_index
deliver-late_first = refl

reassemble-fragment_example : reassemble late_first "did:key:zA" ≡ ok bytes
reassemble-fragment_example =
    reassemble-fragment 9 bytes 2 late_first "did:key:zA" (omega arith) (omega arith)
      (omega (arith, three)) late_first-perm

deliver-fragment_example : (deliver late_first "did:key:zA" buffer).1 ≡ bytes ∷ []
deliver-fragment_example =
    deliver-fragment 9 bytes 2 late_first "did:key:zA" buffer (omega arith) (omega arith)
      (omega (arith, three)) late_first-perm buffer-Inv refl

add_fragment-Inv_example : Inv (add_fragment buffer (piece 1 (3 ∷ 4 ∷ [])) "did:key:zA").0
add_fragment-Inv_example = add_fragment-Inv buffer (piece 1 (3 ∷ 4 ∷ [])) "did:key:zA" buffer-Inv

is_ok-add_fragment_example :
    is_ok (add_fragment buffer (piece 1 (3 ∷ 4 ∷ [])) "did:key:zA").1
    ≡ (acceptable (piece 1 (3 ∷ 4 ∷ [])) && agrees (lookup 9 other_slots) 3)
is_ok-add_fragment_example =
    is_ok-add_fragment buffer (piece 1 (3 ∷ 4 ∷ [])) "did:key:zA" buffer-Inv
