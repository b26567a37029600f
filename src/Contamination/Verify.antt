-- ===== src/Contamination/Verify.antt =====
-- verify_data of tirbase-core/src/contamination/resolution.rs with the late-arrival walk of taint.rs
-- and the decomposition of composites. The clock of the operation is `at`; each late-arrival walk
-- reads the clock again, which is `late_at` of its root and incident; the UUID that a decomposition
-- makes for a root of a composite is `fresh` of the two. A loop over the values of a HashMap goes in
-- the order of the keyed list.
pub mod Logs
mod Examples
use tir_base.Prelude.{
  ℕ, Bool, true, false, not, ◌&&◌, Option, none, some, List, [], ◌∷◌, ◌++◌, ℤ, if◌then◌else◌,
  nat_eq, contains, any, all, keep, is_empty, lookup, insert,
}
use tir_base.Error.{Result, ok, err, open_state, decomposed}
use tir_base.Crdt.Delta.{
  DeltaId, DeltaTag, Did, IncidentId, contaminated, decontaminated, resolved,
  contaminated_by_human_reaction, contaminated_by_corrupted_migration, replay_complete,
}
use tir_base.Identity.{Crypto}
use tir_base.Contamination.Database.{Database, clear_row_contamination}
use tir_base.Contamination.Incident.{
  IncidentContextObject, CompositeIncidentInstance, AffectedRow, AuditOperation, device_revocation,
  union,
}
use tir_base.Contamination.Taint.{
  append_tag, append_tags, read_tags, walk_dag_descendants, resolve_affected_rows, mark_rows,
}
use tir_base.Contamination.Resolution.{Incidents, is_open, verify_manager_auth}

abbrev pub Composites : Type 0
Composites = List (IncidentId × CompositeIncidentInstance)

-- what the operation changes
pub record Scope : Type 0 where
  pub db : Database
  pub incidents : Incidents
  pub composites : Composites

abbrev pub is_resolved : DeltaTag → Bool
is_resolved (resolved did at) = true
is_resolved (contaminated root id) = false
is_resolved (decontaminated id at) = false
is_resolved (contaminated_by_human_reaction id) = false
is_resolved (contaminated_by_corrupted_migration m) = false
is_resolved (replay_complete m) = false

unfoldable pub has_resolved_tag : Database → DeltaId → Bool
has_resolved_tag db i = any is_resolved (read_tags i db)

-- `for row in …: clear_row_contamination`
unfoldable pub clear_rows : List AffectedRow → Database → Database
clear_rows [] db = db
clear_rows (r ∷ rs) db = clear_rows rs (clear_row_contamination r.table r.row_key db)

abbrev incidents_with : DeltaId → Incidents → List IncidentId
incidents_with root [] = []
incidents_with root ((k, ico) ∷ rest) =
    if contains ico.contamination_roots root
    then ico.id ∷ incidents_with root rest
    else incidents_with root rest

abbrev composites_with : (CompositeIncidentInstance → Bool) → Composites → List IncidentId
composites_with p [] = []
composites_with p ((k, c) ∷ rest) =
    if p c then c.id ∷ composites_with p rest else composites_with p rest

-- The live descendants of a root that the snapshot lacks get a tag each; the result is those
-- descendants, and the database.
unfoldable pub walk_late_arrival_descendants :
    DeltaId → List DeltaId → Bool → IncidentId → ℤ → Database → List DeltaId × Database
walk_late_arrival_descendants root snapshot done incident_id at db =
    let late = keep (λ d. not (contains snapshot d)) (walk_dag_descendants db.dag root) in
    (
      late,
      append_tags late
          (if done then decontaminated incident_id at else contaminated root incident_id) db,
    )

module _ (late_at : DeltaId → IncidentId → ℤ) where
  -- the loop over the roots of one incident, with the deltas it has so far
  unfoldable pub late_roots :
      Bool → IncidentId → List DeltaId → List DeltaId → Database → List DeltaId × Database
  late_roots done id [] snapshot db = (snapshot, db)
  late_roots done id (root ∷ roots) snapshot db =
      let (late, db') = walk_late_arrival_descendants root snapshot done id (late_at root id) db in
      let walked = late_roots done id roots (union snapshot late) db' in
      let skipped = late_roots done id roots snapshot db in
      if (if done then has_resolved_tag db root else not (has_resolved_tag db root))
      then walked
      else skipped

  late_incident : IncidentId → Option IncidentContextObject → Scope → Scope
  late_incident id none s = s
  late_incident id (some ico) s =
      let (deltas, db) =
        late_roots (all (has_resolved_tag s.db) ico.contamination_roots) id ico.contamination_roots
          ico.contaminated_deltas s.db in
      record s {
        db = db;
        incidents = insert id (record ico { contaminated_deltas = deltas }) s.incidents;
      }

  late_incidents : List IncidentId → Scope → Scope
  late_incidents [] s = s
  late_incidents (id ∷ ids) s = late_incidents ids (late_incident id (lookup id s.incidents) s)

  late_composite : IncidentId → Option CompositeIncidentInstance → Scope → Scope
  late_composite id none s = s
  late_composite id (some c) s =
      let (deltas, db) =
        late_roots (all (has_resolved_tag s.db) c.contamination_roots) id c.contamination_roots
          c.contaminated_deltas s.db in
      record s {
        db = db;
        composites = insert id (record c { contaminated_deltas = deltas }) s.composites;
      }

  late_composites : List IncidentId → Scope → Scope
  late_composites [] s = s
  late_composites (id ∷ ids) s = late_composites ids (late_composite id (lookup id s.composites) s)

module _ (did : Did) (root : DeltaId) (at : ℤ) where
  -- the audit entry of one incident, and what follows when all its roots are resolved
  verify_incident : IncidentId → Option IncidentContextObject → Scope → Scope
  verify_incident id none s = s
  verify_incident id (some ico) s =
      let audited = record ico {
        audit_log =
            ico.audit_log
            ++ record {
              operation = AuditOperation.verify_data;
              manager_did = did;
              utc_timestamp = at;
              affected_delta_ids = root ∷ [];
            }
              ∷ [];
        updated_at = at;
      } in
      let s' = record s { incidents = insert id audited s.incidents } in
      if all (has_resolved_tag s.db) ico.contamination_roots
      then record s' {
        db =
            clear_rows ico.affected_rows
              (append_tags ico.contaminated_deltas (decontaminated ico.id at) s.db);
      }
      else s'

  verify_incidents : List IncidentId → Scope → Scope
  verify_incidents [] s = s
  verify_incidents (id ∷ ids) s =
      verify_incidents ids (verify_incident id (lookup id s.incidents) s)

pub record Decomposition : Type 0 where
  pub scope : Scope
  pub new_icos : List (IncidentId × List AffectedRow)

module _ (fresh : IncidentId → DeltaId → IncidentId) (at : ℤ) where
  -- a new incident for each unresolved root of a composite
  reregister : IncidentId → List DeltaId → Decomposition → Decomposition
  reregister composite_id [] d = d
  reregister composite_id (root ∷ roots) d =
      let s = d.scope in
      let id = fresh composite_id root in
      let rows = resolve_affected_rows root s.db in
      let ico : IncidentContextObject = record {
        id = id;
        state = open_state;
        taint_source = device_revocation root;
        contamination_roots = root ∷ [];
        contaminated_deltas = walk_dag_descendants s.db.dag root;
        affected_rows = rows;
        composite_of = none;
        created_at = at;
        updated_at = at;
        audit_log = [];
      } in
      reregister composite_id roots (record {
        scope = record s { db = mark_rows rows s.db; incidents = insert id ico s.incidents };
        new_icos = d.new_icos ++ (id, rows) ∷ [];
      })

  -- both branches end in DECOMPOSED; with no unresolved root, nothing is registered
  decompose : IncidentId → Option CompositeIncidentInstance → Decomposition → Decomposition
  decompose id none d = d
  decompose id (some c) d =
      let s = d.scope in
      reregister id (keep (λ r. not (has_resolved_tag s.db r)) c.contamination_roots) (record d {
        scope = record s { composites = insert id (record c { state = decomposed }) s.composites };
      })

  decompose_all : List IncidentId → Decomposition → Decomposition
  decompose_all [] d = d
  decompose_all (id ∷ ids) d = decompose_all ids (decompose id (lookup id d.scope.composites) d)

  unfoldable pub decompose_composites_if_needed : DeltaId → Scope → Decomposition
  unfolding decompose_all decompose reregister
  decompose_composites_if_needed root s =
      decompose_all (composites_with (λ c. contains c.contamination_roots root) s.composites)
        (record { scope = s; new_icos = [] })

module _ (crypto : Crypto) (delta_bytes : DeltaId → List ℕ) (late_at : DeltaId → IncidentId → ℤ)
    (fresh : IncidentId → DeltaId → IncidentId) where
  -- after the authorisation
  unfoldable pub resolve : DeltaId → Did → ℤ → Scope → Decomposition
  unfolding verify_incidents verify_incident late_incidents late_incident late_composites
      late_composite
  resolve root did at s =
      let tagged = record s { db = append_tag root (resolved did at) s.db } in
      let ids = incidents_with root s.incidents in
      let audited = verify_incidents did root at ids tagged in
      let comp_ids =
        composites_with (λ c. is_open c.state && contains c.contamination_roots root)
          s.composites in
      decompose_composites_if_needed fresh at root
        (late_composites late_at comp_ids (late_incidents late_at ids audited))

  abbrev on_auth : Result (Unit {0}) → Decomposition → Scope → Result (Unit {0}) × Decomposition
  on_auth (ok u) d s = (ok tt, d)
  on_auth (err e) d s = (err e, record { scope = s; new_icos = [] })

  unfoldable pub verify_data :
      DeltaId → Did → List ℕ → ℤ → ℤ → ℤ → Scope → Result (Unit {0}) × Decomposition
  verify_data root did sig token_expiry now_secs at s =
      on_auth (verify_manager_auth crypto did sig (delta_bytes root) token_expiry now_secs)
        (resolve root did at s) s
