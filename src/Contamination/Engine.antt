-- ===== src/Contamination/Engine.antt =====
-- tirbase-core/src/contamination/mod.rs: the native CausalContaminationEngine, and the helper of
-- human_reaction.rs. The UUIDs that an operation makes and its clock are arguments; a HashMap is a
-- keyed list whose order stands for the map's; `none` is the panic of an `unwrap`. The connection
-- is the field `db`, which the DAG of the engine shares.
pub mod Tagging
pub mod Index
use tir_base.Prelude.{
  ℕ, Bool, true, false, not, ◌&&◌, ◌||◌, Option, none, some, List, [], ◌∷◌, ◌++◌, String, ℤ,
  if◌then◌else◌, ◌==◌, nat_eq, pair_eq, contains, any, keep, lookup, insert, remove, is_some,
}
use tir_base.Error.{Result, ok, err, IncidentState, open_state}
use tir_base.Crdt.Delta.{
  DeltaId, Delta, DeltaTag, Did, IncidentId, contaminated, contaminated_by_human_reaction,
}
use tir_base.Identity.{Crypto}
use tir_base.Contamination.Database.{Database}
use tir_base.Contamination.Incident.{
  IncidentContextObject, CompositeIncidentInstance, AffectedRow, TaintSource, Merged,
  composite_merge,
}
use tir_base.Contamination.Taint.{
  append_tags, walk_dag_descendants, resolve_affected_rows, mark_rows,
}
use tir_base.Contamination.Verify
use tir_base.Contamination.Verify.{Scope, Decomposition, has_resolved_tag}
use tir_base.Contamination.Resolution
use tir_base.Contamination.Resolution.{Incidents, is_open}

pub record CausalContaminationEngine : Type 0 where
  pub db : Database
  pub incidents : Incidents
  pub composite_incidents : List (IncidentId × CompositeIncidentInstance)
  pub contaminated_rows : List ((String × String) × IncidentId)

unfoldable pub new : Database → CausalContaminationEngine
new db = record { db = db; incidents = []; composite_incidents = []; contaminated_rows = [] }

-- `existing.contaminated_deltas` has a member in common with `deltas`, and the incident is open
abbrev pub overlaps : List DeltaId → IncidentContextObject → Bool
overlaps deltas existing =
    is_open existing.state && any (contains deltas) existing.contaminated_deltas

abbrev pub find_overlap : List DeltaId → Incidents → Option IncidentId
find_overlap deltas [] = none
find_overlap deltas ((i, existing) ∷ rest) =
    if overlaps deltas existing then some existing.id else find_overlap deltas rest

-- `for row in rows: contaminated_rows.insert((row.table, row.row_key), id)`
abbrev pub index_rows :
    List AffectedRow
    → IncidentId
    → List ((String × String) × IncidentId)
    → List ((String × String) × IncidentId)
index_rows [] id rows = rows
index_rows (r ∷ rs) id rows = index_rows rs id (insert (r.table, r.row_key) id rows)

abbrev pub new_incident :
    DeltaId → TaintSource → IncidentId → ℤ → List DeltaId → List AffectedRow → IncidentContextObject
new_incident root source ico_id now descendants rows = record {
  id = ico_id;
  state = open_state;
  taint_source = source;
  contamination_roots = root ∷ [];
  contaminated_deltas = descendants;
  affected_rows = rows;
  composite_of = none;
  created_at = now;
  updated_at = now;
  audit_log = [];
}

-- the merge with the overlapping incident, once both are in the map and taken out again
abbrev merged :
    IncidentId
    → IncidentId
    → IncidentId
    → Merged
    → Incidents
    → CausalContaminationEngine
    → IncidentId × CausalContaminationEngine
merged existing_id ico_id composite_id m incidents cce = (
  composite_id,
  record cce {
    incidents = insert ico_id m.ico_b (insert existing_id m.ico_a incidents);
    composite_incidents = insert composite_id m.composite cce.composite_incidents;
    contaminated_rows = index_rows m.composite.affected_rows composite_id cce.contaminated_rows;
  },
)

-- `remove(id).unwrap()`
abbrev taken :
    {A : Type 0} → Option IncidentContextObject → (IncidentContextObject → Option A) → Option A
taken none f = none
taken (some ico) f = f ico

abbrev merge_with :
    IncidentId
    → IncidentId
    → IncidentId
    → ℤ
    → CausalContaminationEngine
    → Option (IncidentId × CausalContaminationEngine)
merge_with existing_id ico_id composite_id now cce = taken (lookup ico_id cce.incidents) (λ ico_b.
    let without_b = remove ico_id cce.incidents in
    taken (lookup existing_id without_b) (λ ico_a. some (
      merged existing_id ico_id composite_id (composite_merge composite_id ico_a ico_b now)
        (remove existing_id without_b) cce)))

abbrev registered :
    Option IncidentId
    → IncidentContextObject
    → IncidentId
    → ℤ
    → CausalContaminationEngine
    → Option (IncidentId × CausalContaminationEngine)
registered none new_ico composite_id now cce = some (
  new_ico.id,
  record cce {
    incidents = insert new_ico.id new_ico cce.incidents;
    contaminated_rows = index_rows new_ico.affected_rows new_ico.id cce.contaminated_rows;
  },
)
registered (some existing_id) new_ico composite_id now cce =
    merge_with existing_id new_ico.id composite_id now
      (record cce { incidents = insert new_ico.id new_ico cce.incidents })

unfoldable pub tag_contamination_root :
    DeltaId
    → TaintSource
    → IncidentId
    → IncidentId
    → ℤ
    → CausalContaminationEngine
    → Option (IncidentId × CausalContaminationEngine)
tag_contamination_root root source ico_id composite_id now cce =
    let descendants = walk_dag_descendants cce.db.dag root in
    let tagged_db = append_tags descendants (contaminated root ico_id) cce.db in
    let rows = resolve_affected_rows root tagged_db in
    let new_ico = new_incident root source ico_id now descendants rows in
    registered (find_overlap descendants cce.incidents) new_ico composite_id now
      (record cce { db = mark_rows rows tagged_db })

module _ (crypto : Crypto) (uuid_bytes : IncidentId → List ℕ) where
  unfoldable pub admin_close :
      IncidentId
      → Did
      → List ℕ
      → ℤ
      → ℤ
      → ℤ
      → CausalContaminationEngine
      → Result (Unit {0}) × CausalContaminationEngine
  admin_close incident_id manager_did sig token_expiry now_secs at cce =
      let (result, incidents) =
        Resolution.admin_close crypto uuid_bytes incident_id manager_did sig token_expiry now_secs
          at cce.incidents in
      (result, record cce { incidents = incidents })

unfoldable pub get_incident : IncidentId → CausalContaminationEngine → Option IncidentContextObject
get_incident id cce = lookup id cce.incidents

abbrev open_of : Incidents → List IncidentContextObject
open_of [] = []
open_of ((i, ico) ∷ rest) = if is_open ico.state then ico ∷ open_of rest else open_of rest

unfoldable pub open_incidents : CausalContaminationEngine → List IncidentContextObject
open_incidents cce = open_of cce.incidents

unfoldable pub active_incident_for_row :
    String → String → CausalContaminationEngine → Option IncidentId
active_incident_for_row table row_key cce = lookup (table, row_key) cce.contaminated_rows

unfoldable pub is_row_contaminated : String → String → CausalContaminationEngine → Bool
is_row_contaminated table row_key cce = is_some (lookup (table, row_key) cce.contaminated_rows)

pub record WriteContext : Type 0 where
  pub local_projection_contaminated : Bool
  pub quarantine_active : Bool
  pub active_incident_id : Option IncidentId

abbrev react : Option IncidentId → Delta → Option (DeltaId × IncidentId) × Delta
react none delta = (none, delta)
react (some incident_id) delta = (
  some (delta.id, incident_id),
  record delta { tags = delta.tags ++ contaminated_by_human_reaction incident_id ∷ [] },
)

unfoldable pub on_write_commit : Delta → WriteContext → Option (DeltaId × IncidentId) × Delta
on_write_commit delta ctx =
    if not ctx.local_projection_contaminated && not ctx.quarantine_active
    then (none, delta)
    else react ctx.active_incident_id delta

-- `for (new_ico_id, rows) in …` and its inner loop
abbrev pub index_all :
    List (IncidentId × List AffectedRow)
    → List ((String × String) × IncidentId)
    → List ((String × String) × IncidentId)
index_all [] rows = rows
index_all ((id, affected) ∷ rest) rows = index_all rest (index_rows affected id rows)

abbrev pub unresolved : Database → List DeltaId → Bool
unresolved db roots = any (λ root. not (has_resolved_tag db root)) roots

abbrev composite_holds : Database → Option CompositeIncidentInstance → Bool
composite_holds db none = false
composite_holds db (some c) = is_open c.state && unresolved db c.contamination_roots

abbrev pub incident_holds :
    Database → Option IncidentContextObject → Option CompositeIncidentInstance → Bool
incident_holds db (some ico) c = is_open ico.state && unresolved db ico.contamination_roots
incident_holds db none c = composite_holds db c

-- what `retain` asks of an entry's incident
abbrev pub holds : Scope → IncidentId → Bool
holds s id = incident_holds s.db (lookup id s.incidents) (lookup id s.composites)

abbrev pub scope_of : CausalContaminationEngine → Scope
scope_of cce = record {
  db = cce.db;
  incidents = cce.incidents;
  composites = cce.composite_incidents;
}

abbrev pub verified : Decomposition → CausalContaminationEngine → CausalContaminationEngine
verified d cce = record {
  db = d.scope.db;
  incidents = d.scope.incidents;
  composite_incidents = d.scope.composites;
  contaminated_rows =
      keep (λ entry. holds d.scope entry.1) (index_all d.new_icos cce.contaminated_rows);
}

abbrev on_ok :
    Result (Unit {0}) × Decomposition
    → CausalContaminationEngine
    → Result (Unit {0}) × CausalContaminationEngine
on_ok (ok u, d) cce = (ok u, verified d cce)
on_ok (err e, d) cce = (err e, cce)

module _ (crypto : Crypto) (delta_bytes : DeltaId → List ℕ) (late_at : DeltaId → IncidentId → ℤ)
    (fresh : IncidentId → DeltaId → IncidentId) where
  unfoldable pub verify_data :
      DeltaId
      → Did
      → List ℕ
      → ℤ
      → ℤ
      → ℤ
      → CausalContaminationEngine
      → Result (Unit {0}) × CausalContaminationEngine
  verify_data root did sig token_expiry now_secs at cce =
      on_ok
        (Verify.verify_data crypto delta_bytes late_at fresh root did sig token_expiry now_secs at
          (scope_of cce))
        cce
