-- ===== src/Crdt/Verify/Zones.antt =====
-- The zones of the read-back: without a definitive clock nothing is overridden, and every
-- divergence is overridden or counted as failed.
use Prim.Native.Nat.{min, max}
use tir_base.Prelude.{
  ℕ, ◌+◌, ◌≤◌, ◌≡◌, refl, ◌∙◌, inl, inr, Bool, true, false, Option, none, some, List, [], ◌∷◌,
  arith, ltb, Bool-cases,
}
use tir_base.Crdt.Automerge.{Automerge}
use tir_base.Crdt.Verify.{VerificationReport, no_report}
use tir_base.Crdt.Verify.Override.{
  LwwConflict, RgaConflict, ConflictSnapshot, State, put_result, lww_round, lww_rounds, index_maps,
  find_list, reorder, reorder_result, rga_round, rga_rounds, verify_and_override,
}

module _ (lib : Automerge) where
  abbrev Balanced : State lib → Type 0
  Balanced s = s.1.overrides_applied + s.1.overrides_failed ≡ s.1.divergences

  -- the document and the count of divergences are as they were
  abbrev Untouched : State lib → State lib → Type 0
  Untouched s t = (t.0 ≡ s.0) × (t.1.divergences ≡ s.1.divergences)

  -- what a round keeps
  record Sound (definitive : Bool) (s t : State lib) : Type 0 where
    balanced : Balanced s → Balanced t
    untouched : definitive ≡ false → Untouched s t

  put_result-Balanced :
      (doc : lib.Doc) (r : VerificationReport) (o : Option lib.Doc)
      → r.overrides_applied + r.overrides_failed + 1 ≡ r.divergences
      → Balanced (put_result lib doc r o)
  put_result-Balanced doc r none h = omega arith
  put_result-Balanced doc r (some doc₂) h = omega arith

  lww_round-Sound :
      (definitive : Bool) (c : LwwConflict lib) (doc : lib.Doc) (r : VerificationReport)
      (o : Option lib.ObjId)
      → Sound definitive (doc, r) (lww_round lib definitive c doc r o)
  lww_round-Sound definitive c doc r none = record {
    balanced = λ h. h;
    untouched = λ h. (refl, refl);
  }
  lww_round-Sound false c doc r (some actual) = record {
    balanced = λ h. h;
    untouched = λ h. (refl, refl);
  }
  lww_round-Sound true c doc r (some actual) = record {
    balanced = λ h. elim (Bool-cases (lib.same_id actual c.incoming_exid)) [
      | inl won ↦ rw won h
      | inr lost ↦ elim (Bool-cases (lib.same_id actual c.local_exid)) [
        | inl local ↦
            rw (lost, local)
              (put_result-Balanced doc _ (lib.put doc c.key c.incoming_value) (omega arith))
        | inr third ↦ rw (lost, third) h
      ]
    ];
    untouched = λ h. cc;
  }

  Sound-trans :
      (definitive : Bool) (s t u : State lib)
      → Sound definitive s t
      → Sound definitive t u
      → Sound definitive s u
  Sound-trans definitive s t u p q = record {
    balanced = λ h. q.balanced (p.balanced h);
    untouched = λ h. let a = p.untouched h in let b = q.untouched h in (b.0 ∙ a.0, b.1 ∙ a.1);
  }

  lww_rounds-Sound :
      (definitive : Bool) (cs : List (LwwConflict lib)) (s : State lib)
      → Sound definitive s (lww_rounds lib definitive cs s)
  unfolding lww_rounds
  lww_rounds-Sound definitive [] s = record { balanced = λ h. h; untouched = λ h. (refl, refl) }
  lww_rounds-Sound definitive (c ∷ cs) (doc, r) =
      let next = lww_round lib definitive c doc r (lib.get doc c.key) in
      Sound-trans definitive (doc, r) next (lww_rounds lib definitive cs next)
        (lww_round-Sound definitive c doc r (lib.get doc c.key))
        (lww_rounds-Sound definitive cs next)

  reorder_result-Balanced :
      (r : VerificationReport) (result : lib.Doc × Bool)
      → r.overrides_applied + r.overrides_failed + 1 ≡ r.divergences
      → Balanced (reorder_result lib r result)
  reorder_result-Balanced r (doc, true) h = omega arith
  reorder_result-Balanced r (doc, false) h = omega arith

  rga_round-Sound :
      (definitive : Bool) (c : RgaConflict lib) (doc : lib.Doc) (r : VerificationReport)
      (o : Option (lib.ObjId × ℕ × ℕ))
      → Sound definitive (doc, r) (rga_round lib definitive c doc r o)
  rga_round-Sound definitive c doc r none = record {
    balanced = λ h. h;
    untouched = λ h. (refl, refl);
  }
  rga_round-Sound false c doc r (some (obj, i, j)) = record {
    balanced = λ h. h;
    untouched = λ h. (refl, refl);
  }
  rga_round-Sound true c doc r (some (obj, i, j)) = record {
    balanced = λ h. elim (Bool-cases (ltb j i)) [
      | inl first ↦ rw first h
      | inr later ↦
          rw later
            (reorder_result-Balanced _ (reorder lib c obj (min i j) (max i j) doc) (omega arith))
    ];
    untouched = λ h. cc;
  }

  rga_rounds-Sound :
      (definitive : Bool) (maps : List (lib.ObjId × List lib.ObjId)) (cs : List (RgaConflict lib))
      (s : State lib)
      → Sound definitive s (rga_rounds lib definitive maps cs s)
  unfolding rga_rounds
  rga_rounds-Sound definitive maps [] s = record {
    balanced = λ h. h;
    untouched = λ h. (refl, refl);
  }
  rga_rounds-Sound definitive maps (c ∷ cs) (doc, r) =
      let next = rga_round lib definitive c doc r (find_list lib c maps) in
      Sound-trans definitive (doc, r) next (rga_rounds lib definitive maps cs next)
        (rga_round-Sound definitive c doc r (find_list lib c maps))
        (rga_rounds-Sound definitive maps cs next)

-- The read-back counts each divergence as one override that was applied or that failed; and for
-- an incoming delta whose clock is not ahead of the local one it counts no divergence and leaves
-- the merged document as it is.
pub verify_and_override-Zones :
    (lib : Automerge) (doc : lib.Doc) (snapshot : ConflictSnapshot lib)
    (delta_lamport local_lamport : ℕ)
    → let after = verify_and_override lib doc snapshot delta_lamport local_lamport in
      (after.1.overrides_applied + after.1.overrides_failed ≡ after.1.divergences)
      × (delta_lamport ≤ local_lamport → (after.0 ≡ doc) × (after.1.divergences ≡ 0))
unfolding verify_and_override
verify_and_override-Zones lib doc snapshot delta_lamport local_lamport =
    let definitive = ltb local_lamport delta_lamport in
    let middle = lww_rounds lib definitive snapshot.lww (doc, no_report) in
    let sound =
      Sound-trans lib definitive (doc, no_report) middle
        (rga_rounds lib definitive (index_maps lib middle.0 (lib.map_range middle.0)) snapshot.rga
          middle)
        (lww_rounds-Sound lib definitive snapshot.lww (doc, no_report))
        (rga_rounds-Sound lib definitive (index_maps lib middle.0 (lib.map_range middle.0))
          snapshot.rga middle) in
    (sound.balanced (omega arith), λ h. sound.untouched (ground arith))
