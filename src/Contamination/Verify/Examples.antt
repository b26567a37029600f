-- ===== src/Contamination/Verify/Examples.antt =====
-- Tests and instances for verify_data.
use tir_base.Prelude.{ℕ, ◌≡◌, refl, true, false, some, List, [], ◌∷◌, ℤ, pos, i64}
use tir_base.Error.{Result, is_ok}
use tir_base.Crdt.Delta.{DeltaId, Did, IncidentId}
use tir_base.Crdt.Dag.{Row, row_of}
use tir_base.Identity.{derive_did, resolve_did, strip_prefix, verify}
use tir_base.Contamination.Taint.{append_tag, append_tags, read_tags}
use tir_base.Contamination.Resolution.{verify_manager_auth}
use tir_base.Contamination.Verify.{
  has_resolved_tag, verify_data, resolve, decompose_composites_if_needed, verify_incidents,
  verify_incident, late_incidents, late_incident, late_composites, late_composite, decompose_all,
}
use tir_base.Contamination.Verify.Logs.{Grown, verify_data-Grown}
use tir_base.Contamination.Engine
use tir_base.Contamination.Engine.{
  CausalContaminationEngine, scope_of, holds, active_incident_for_row,
}
use tir_base.Contamination.Engine.Index.{StillOpen, verify_data-holds}
use tir_base.Contamination.Examples.{cce}
use tir_base.Examples.{crypto, repeat, decode}

abbrev manager : Did
manager = derive_did crypto (repeat 32 1)

abbrev bytes : DeltaId → List ℕ
bytes i = i ∷ []

abbrev clock : DeltaId → IncidentId → ℤ
clock root id = pos 9000001

abbrev fresh : IncidentId → DeltaId → IncidentId
fresh id root = 100

verify_data-Grown_example :
    let auth = verify_manager_auth crypto manager (repeat 64 0) (bytes 1) (pos 20000000) (pos 9) in
    let d =
      verify_data crypto bytes clock fresh 1 manager
        (repeat 64 0)
        (pos 20000000)
        (pos 9)
        (pos 9000000)
        (scope_of cce) in
    (is_ok d.0 ≡ is_ok auth)
    × (is_ok auth ≡ false → d.1 ≡ record { scope = scope_of cce; new_icos = [] })
    × Grown cce.db d.1.scope.db
    × ((r : Row)
        → is_ok auth ≡ true
        → row_of 1 cce.db.dag.rows ≡ some r
        → has_resolved_tag d.1.scope.db 1 ≡ true)
verify_data-Grown_example =
    verify_data-Grown crypto bytes clock fresh 1 manager (repeat 64 0) (pos 20000000) (pos 9)
      (pos 9000000) (scope_of cce)

-- a row of an open incident, while another root is verified
abbrev indexed : CausalContaminationEngine
indexed = record cce { contaminated_rows = (("beds", "7"), 50) ∷ [] }

abbrev after : Result (Unit {0}) × CausalContaminationEngine
after =
    Engine.verify_data crypto bytes clock fresh 2 manager (repeat 64 0) (pos 20000000) (pos 9)
      (pos 9000000) indexed

accepted : is_ok after.0 ≡ true
unfolding Engine.verify_data verify_data verify_manager_auth resolve_did derive_did strip_prefix
    verify decode i64
accepted = refl

still_there : active_incident_for_row "beds" "7" after.1 ≡ some 50
unfolding Engine.verify_data verify_data verify_manager_auth resolve_did derive_did strip_prefix
    verify decode resolve decompose_composites_if_needed verify_incidents verify_incident
    late_incidents late_incident late_composites late_composite decompose_all
    active_incident_for_row has_resolved_tag read_tags append_tag append_tags i64
still_there = refl

verify_data-holds_example : StillOpen after.1 50
verify_data-holds_example =
    verify_data-holds crypto bytes clock fresh 2 manager (repeat 64 0) (pos 20000000) (pos 9)
      (pos 9000000) indexed "beds" "7" 50 accepted still_there
