-- ===== src/Contamination/Engine/Index.antt =====
-- The index of contaminated rows after verify_data.
use tir_base.Prelude.{
  ℕ, ◌≡◌, ◌⊎◌, both, refl, inl, inr, Bool, true, false, none, some, Option, contains, nat_eq,
  eq_refl, List, [], ◌∷◌, String, ℤ, arith, ◌==◌, pair_eq, keep, lookup, Bool-cases,
}
use tir_base.Error.{Result, ok, err, is_ok, open_state}
use tir_base.Contamination.Database.{Database}
use tir_base.Contamination.Incident.{IncidentContextObject, CompositeIncidentInstance}
use tir_base.Contamination.Resolution.{is_open, open_of_is_open}
use tir_base.Crdt.Delta.{DeltaId, Did, IncidentId}
use tir_base.Identity.{Crypto}
use tir_base.Contamination.Verify
use tir_base.Contamination.Verify.{Decomposition, has_resolved_tag}
use tir_base.Contamination.Engine.{
  CausalContaminationEngine, active_incident_for_row, verify_data, holds, scope_of, on_ok,
  incident_holds, unresolved,
}

lookup-keep :
    (p : IncidentId → Bool) (key : String × String) (m : List ((String × String) × IncidentId))
    (id : IncidentId)
    → lookup key (keep (λ entry. p entry.1) m) ≡ some id
    → p id ≡ true
lookup-keep p key [] id h = cc
lookup-keep p key ((k, i) ∷ m) id h = elim (Bool-cases (p i)) [
  | inl kept ↦ elim (Bool-cases (k == key)) [
    | inl same ↦ ground (arith, h, kept, same)
    | inr other ↦ lookup-keep p key m id (ground (arith, h, kept, other))
  ]
  | inr gone ↦ lookup-keep p key m id (ground (arith, h, gone))
]

module _ (table row_key : String) (id : IncidentId) (cce : CausalContaminationEngine) where
  holds-on_ok :
      (r : Result (Unit {0}) × Decomposition)
      → is_ok (on_ok r cce).0 ≡ true
      → active_incident_for_row table row_key (on_ok r cce).1 ≡ some id
      → holds (scope_of (on_ok r cce).1) id ≡ true
  unfolding active_incident_for_row
  holds-on_ok (err e, d) h there = cc
  holds-on_ok (ok u, d) h there = lookup-keep (holds d.scope) (table, row_key) _ id there

-- a root of the list without a Resolved tag
abbrev pub UnresolvedRoot : Database → List DeltaId → Type 0
UnresolvedRoot db roots =
    (root : DeltaId) × (contains roots root ≡ true) × (has_resolved_tag db root ≡ false)

-- an open incident, or if there is none under this identifier an open composite, with such a root
abbrev pub StillOpen : CausalContaminationEngine → IncidentId → Type 0
StillOpen cce id =
    ((ico : IncidentContextObject) × (lookup id cce.incidents ≡ some ico)
      × (ico.state ≡ open_state)
      × UnresolvedRoot cce.db ico.contamination_roots)
    ⊎ ((lookup id cce.incidents ≡ none)
        × (c : CompositeIncidentInstance) × (lookup id cce.composite_incidents ≡ some c)
        × (c.state ≡ open_state)
        × UnresolvedRoot cce.db c.contamination_roots)

unresolved-UnresolvedRoot :
    (db : Database) (roots : List DeltaId) → unresolved db roots ≡ true → UnresolvedRoot db roots
unresolved-UnresolvedRoot db [] h = cc
unresolved-UnresolvedRoot db (r ∷ roots) h = elim (Bool-cases (has_resolved_tag db r)) [
  | inl done ↦
      let (root, there, left) = unresolved-UnresolvedRoot db roots (ground (arith, h, done)) in
      (root, ground (arith, there), left)
  | inr left ↦ (r, ground (arith, eq_refl r), left)
]

incident_holds-StillOpen :
    (cce : CausalContaminationEngine) (id : IncidentId) (o : Option IncidentContextObject)
    (k : Option CompositeIncidentInstance)
    → lookup id cce.incidents ≡ o
    → lookup id cce.composite_incidents ≡ k
    → incident_holds cce.db o k ≡ true
    → StillOpen cce id
incident_holds-StillOpen cce id (some ico) k e f h =
    let b = both (is_open ico.state) (unresolved cce.db ico.contamination_roots) h in
    inl (
      ico,
      e,
      open_of_is_open ico.state b.0,
      unresolved-UnresolvedRoot cce.db ico.contamination_roots b.1,
    )
incident_holds-StillOpen cce id none none e f h = cc
incident_holds-StillOpen cce id none (some c) e f h =
    let b = both (is_open c.state) (unresolved cce.db c.contamination_roots) h in
    inr (
      e,
      c,
      f,
      open_of_is_open c.state b.0,
      unresolved-UnresolvedRoot cce.db c.contamination_roots b.1,
    )

-- After a successful verification, every row that the index still calls contaminated points to an
-- incident or a composite that is open and has a contamination root without a Resolved tag.
pub verify_data-holds :
    (crypto : Crypto) (delta_bytes : DeltaId → List ℕ) (late_at : DeltaId → IncidentId → ℤ)
    (fresh : IncidentId → DeltaId → IncidentId) (root : DeltaId) (did : Did) (sig : List ℕ)
    (token_expiry now_secs at : ℤ) (cce : CausalContaminationEngine) (table row_key : String)
    (id : IncidentId)
    → let d =
        verify_data crypto delta_bytes late_at fresh root did sig token_expiry now_secs at cce in
      is_ok d.0 ≡ true → active_incident_for_row table row_key d.1 ≡ some id → StillOpen d.1 id
unfolding verify_data
verify_data-holds crypto delta_bytes late_at fresh root did sig token_expiry now_secs at cce table
      row_key id done there =
    let d =
      verify_data crypto delta_bytes late_at fresh root did sig token_expiry now_secs at cce in
    incident_holds-StillOpen d.1 id (lookup id d.1.incidents) (lookup id d.1.composite_incidents)
      refl refl
      (holds-on_ok table row_key id cce
        (Verify.verify_data crypto delta_bytes late_at fresh root did sig token_expiry now_secs at
          (scope_of cce))
        done there)
