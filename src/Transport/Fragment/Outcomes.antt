-- ===== src/Transport/Fragment/Outcomes.antt =====
-- What a call of `add_fragment` does to the slots of its own delta, when the fragment is accepted.
use tir_base.Prelude.{
  ℕ, ◌≡◌, refl, ap, ◌∙◌, true, false, Option, none, some, List, arith, eqb, length, all, is_some,
  lookup, nat_eq, lookup-insert, lookup-remove,
}
use tir_base.Crdt.Delta.{DeltaId, Did}
use tir_base.Error.{Result, ok}
use tir_base.Transport.Fragment.{
  DeltaFragment, payloads, Slots, Pending, ReassemblyBuffer, empty_slots, unwrapped, make_room,
  or_insert, add_fragment,
}
use tir_base.Transport.Fragment.Inv.{
  Inv, held, acceptable, prepared, add_fragment-cases, lookup-make_room,
}
use tir_base.Transport.Fragment.Inv.Steps.{prepared-Ready, stored, place_full, place_partial}

or_insert-held :
    (id total : ℕ) (o : Option Slots) (pending : Pending)
    → (or_insert id (empty_slots total) o pending).1 ≡ held total o
or_insert-held id total none pending = refl
or_insert-held id total (some slots) pending = refl

-- the slots of the delta, before the fragment is stored
abbrev pub before : ReassemblyBuffer → DeltaFragment → Slots
before buffer f = held f.total_fragments (lookup f.delta_id buffer.pending)

prepared-before :
    (buffer : ReassemblyBuffer) (f : DeltaFragment) → (prepared buffer f).1 ≡ before buffer f
prepared-before buffer f =
    or_insert-held f.delta_id f.total_fragments
      (lookup f.delta_id (make_room f.delta_id buffer.pending))
      (make_room f.delta_id buffer.pending)
    ∙ ap (held f.total_fragments) (lookup-make_room f.delta_id buffer.pending)

-- What a call does to its own delta: the outcome, and the entry afterwards.
pub record Outcome (step : ReassemblyBuffer × Result (Option (List ℕ))) (id : DeltaId)
    (bytes : Option (List ℕ)) (entry : Option Slots) : Type 0 where
  pub result : step.1 ≡ ok bytes
  pub entry_after : lookup id step.0.pending ≡ entry

module _ (buffer : ReassemblyBuffer) (f : DeltaFragment) (sender_did : Did) where
  pub last_fragment :
      Inv buffer
      → acceptable f ≡ true
      → length (before buffer f) ≡ f.total_fragments
      → all is_some (stored f (before buffer f)) ≡ true
      → Outcome
          (add_fragment buffer f sender_did)
          f.delta_id
          (some (payloads (unwrapped (stored f (before buffer f)))))
          none
  last_fragment h accepted n full =
      let ready = prepared buffer f in
      let e = prepared-before buffer f in
      let same : eqb (length ready.1) f.total_fragments ≡ true = rw (e, n) (ground arith) in
      let all_there : all is_some (stored f ready.1) ≡ true = rw e full in
      rw
        (
          add_fragment-cases buffer f sender_did accepted,
          place_full f sender_did ready (prepared-Ready buffer f h accepted) same all_there,
        )
        (record {
          result = rw e refl;
          entry_after = rw (lookup-remove f.delta_id f.delta_id ready.0) (ground arith);
        })

  pub earlier_fragment :
      acceptable f ≡ true
      → length (before buffer f) ≡ f.total_fragments
      → all is_some (stored f (before buffer f)) ≡ false
      → Outcome
          (add_fragment buffer f sender_did)
          f.delta_id
          none
          (some (stored f (before buffer f)))
  earlier_fragment accepted n part =
      let ready = prepared buffer f in
      let e = prepared-before buffer f in
      let same : eqb (length ready.1) f.total_fragments ≡ true = rw (e, n) (ground arith) in
      let missing : all is_some (stored f ready.1) ≡ false = rw e part in
      rw
        (
          add_fragment-cases buffer f sender_did accepted,
          place_partial f sender_did ready same missing,
        )
        (record {
          result = refl;
          entry_after =
              rw (lookup-insert f.delta_id f.delta_id (stored f ready.1) ready.0, e) (ground arith);
        })
