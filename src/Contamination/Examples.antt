-- ===== src/Contamination/Examples.antt =====
-- Tests and instances for the contamination engine.
use tir_base.Prelude.{
  ◌≡◌, refl, ◌++◌, ◌&&◌, true, false, none, some, List, [], ◌∷◌, pos, if◌then◌else◌, ◌==◌, nat_eq,
  lookup,
}
use tir_base.Error.{is_ok, open_state, closed}
use tir_base.Crdt.Delta.{DeltaId, IncidentId, contaminated}
use tir_base.Crdt.Dag.{Row}
use tir_base.Crdt.Dag.Reach.{Reach}
use tir_base.Crdt.Dag.Search.{AreDescendants}
use tir_base.Contamination.Database.{Database}
use tir_base.Contamination.Incident.{
  IncidentContextObject, device_revocation, bad_migration, AuditOperation,
}
use tir_base.Contamination.Taint.{read_tags, AllFlagged, resolve_affected_rows}
use tir_base.Contamination.Resolution.{
  Incidents, admin_close, is_open_in, verify_manager_auth, admin_close-ok,
}
use tir_base.Contamination.Engine.{CausalContaminationEngine, tag_contamination_root}
use tir_base.Contamination.Engine.Tagging.{
  Outcome, tag_contamination_root-Outcome, read_tags-tag_contamination_root,
}
use tir_base.Contamination.Engine.Tagging
use tir_base.Examples.{crypto}

abbrev pub row : DeltaId → Row
row i = record {
  id = i;
  stored_payload = [];
  row_bytes = none;
  row_lamport = i;
  row_schema = 3;
  row_compacted = false;
  row_author = "did:key:z1";
  tags = [];
}

-- 1 → 3, 2 → 3 and 3 → 4
abbrev pub db : Database
db = record {
  dag = record { rows = row 1 ∷ row 2 ∷ row 3 ∷ row 4 ∷ []; edges = (1, 3) ∷ (2, 3) ∷ (3, 4) ∷ [] };
  proj = record { table = "beds"; row_key = "7"; flagged = false } ∷ [];
}

abbrev pub earlier : IncidentContextObject
earlier = record {
  id = 50;
  state = open_state;
  taint_source = device_revocation 1;
  contamination_roots = 1 ∷ [];
  contaminated_deltas = 1 ∷ 3 ∷ 4 ∷ [];
  affected_rows = [];
  composite_of = none;
  created_at = pos 0;
  updated_at = pos 0;
  audit_log = [];
}

abbrev pub cce : CausalContaminationEngine
cce = record {
  db = db;
  incidents = (50, earlier) ∷ [];
  composite_incidents = [];
  contaminated_rows = [];
}

tag_contamination_root-Outcome_example :
    (result : IncidentId × CausalContaminationEngine) × (tag_contamination_root 2
        (bad_migration 8)
        51
        52
        (pos 9)
        cce
      ≡ some result)
    × (deltas : List DeltaId) × AreDescendants cce.db.dag 2 deltas
    × Outcome 52
        (pos 9)
        cce.incidents
        (record {
          id = 51;
          state = open_state;
          taint_source = bad_migration 8;
          contamination_roots = 2 ∷ [];
          contaminated_deltas = deltas;
          affected_rows =
              resolve_affected_rows 2 (Tagging.tagged_db 2 (bad_migration 8) 51 52 (pos 9) cce);
          composite_of = none;
          created_at = pos 9;
          updated_at = pos 9;
          audit_log = [];
        })
        result
tag_contamination_root-Outcome_example =
    tag_contamination_root-Outcome 2 (bad_migration 8) 51 52 (pos 9) cce ((refl, refl), tt) refl

abbrev the_result : IncidentId × CausalContaminationEngine
the_result =
    (tag_contamination_root-Outcome 2 (bad_migration 8) 51 52 (pos 9) cce ((refl, refl), tt) refl).0

-- delta 4 descends from the root 2, delta 1 does not
read_tags-tag_contamination_root_example :
    (Reach db.dag 2 4 → read_tags 4 the_result.1.db ≡ [] ++ contaminated 2 51 ∷ [])
    × (¬ Reach db.dag 2 4 → read_tags 4 the_result.1.db ≡ [])
    × AllFlagged the_result.1.db.proj
read_tags-tag_contamination_root_example =
    read_tags-tag_contamination_root 2 (bad_migration 8) 51 52 (pos 9) cce the_result 4 (row 4)
      (tag_contamination_root-Outcome 2 (bad_migration 8) 51 52 (pos 9) cce ((refl, refl), tt)
        refl).1
      refl

abbrev keys : Incidents
keys = (50, earlier) ∷ []

admin_close-ok_example :
    let done = admin_close crypto (λ i. i ∷ []) 50 "did:key:z1" [] (pos 5) (pos 9) (pos 9) keys in
    (is_ok done.0 ≡ (
      is_ok (verify_manager_auth crypto "did:key:z1" [] (50 ∷ []) (pos 5) (pos 9))
      && is_open_in 50 keys))
    × (is_ok done.0 ≡ false → done.1 ≡ keys)
    × ((ico : IncidentContextObject)
        → is_ok done.0 ≡ true
        → lookup 50 keys ≡ some ico
        → (j : IncidentId)
        → lookup j done.1 ≡ (
            if 50 == j
            then some (record ico {
              state = closed;
              updated_at = pos 9;
              audit_log =
                  ico.audit_log
                  ++ record {
                    operation = AuditOperation.admin_close;
                    manager_did = "did:key:z1";
                    utc_timestamp = pos 9;
                    affected_delta_ids = [];
                  }
                    ∷ [];
            })
            else lookup j keys))
admin_close-ok_example =
    admin_close-ok crypto (λ i. i ∷ []) 50 "did:key:z1" [] (pos 5) (pos 9) (pos 9) keys
