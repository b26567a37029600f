-- ===== src/Contamination/Taint.antt =====
-- tirbase-core/src/contamination/taint.rs: the tag log of a delta, the taint walk, and the rows of
-- the projection that an incident affects. The tags of a row are its tags_json column; a delta with
-- no row has no tags, and tagging it does nothing, as the UPDATE then matches no row.
use tir_base.Prelude.{
  ◌≡◌, refl, sym, ◌∙◌, inl, inr, true, ◌||◌, Option, none, some, List, [], ◌∷◌, ◌++◌, arith,
  if◌then◌else◌, ◌==◌, nat_eq, string_eq, contains, All, Distinct, Bool-cases, eqb_iff,
}
use tir_base.Crdt.Delta.{DeltaId, DeltaTag}
use tir_base.Crdt.Dag.{Row, ChangesetDag, row_of, update_row, bfs_descendants}
use tir_base.Crdt.Dag.Search.{AreDescendants, bfs_descendants-AreDescendants}
use tir_base.Contamination.Database.{ProjRow, Database, mark_row_contaminated, set_flag}
use tir_base.Contamination.Incident.{AffectedRow, has_row}

abbrev pub add_tag : DeltaTag → Row → Row
add_tag tag r = record r { tags = r.tags ++ tag ∷ [] }

unfoldable pub append_tag : DeltaId → DeltaTag → Database → Database
append_tag i tag db = record db {
  dag = record db.dag { rows = update_row i (add_tag tag) db.dag.rows };
}

abbrev pub tags_of : Option Row → List DeltaTag
tags_of none = []
tags_of (some r) = r.tags

unfoldable pub read_tags : DeltaId → Database → List DeltaTag
read_tags i db = tags_of (row_of i db.dag.rows)

-- `for delta_id in …: append_tag`
unfoldable pub append_tags : List DeltaId → DeltaTag → Database → Database
append_tags [] tag db = db
append_tags (i ∷ is) tag db = append_tags is tag (append_tag i tag db)

abbrev listed : Option (List DeltaId) → List DeltaId
listed none = []
listed (some ids) = ids

-- the fuel of `bfs_descendants` is enough, so `none` never comes
unfoldable pub walk_dag_descendants : ChangesetDag → DeltaId → List DeltaId
walk_dag_descendants dag root = listed (bfs_descendants dag root)

abbrev affected : DeltaId → List ProjRow → List AffectedRow
affected root [] = []
affected root (r ∷ rs) =
    record { table = r.table; row_key = r.row_key; delta_id = root } ∷ affected root rs

-- every row of every projection table, attributed to the root
unfoldable pub resolve_affected_rows : DeltaId → Database → List AffectedRow
resolve_affected_rows root db = affected root db.proj

unfoldable pub mark_rows : List AffectedRow → Database → Database
mark_rows [] db = db
mark_rows (r ∷ rs) db = mark_rows rs (mark_row_contaminated r.table r.row_key db)

pub walk-AreDescendants :
    (dag : ChangesetDag) (root : DeltaId) → AreDescendants dag root (walk_dag_descendants dag root)
unfolding walk_dag_descendants
walk-AreDescendants dag root = let (found, e, h) = bfs_descendants-AreDescendants dag root in rw e h

abbrev pub tagged : DeltaTag → Option Row → Option Row
tagged tag none = none
tagged tag (some r) = some (add_tag tag r)

pub row_of-append_tag :
    (i j : DeltaId) (tag : DeltaTag) (rs : List Row)
    → row_of i (update_row j (add_tag tag) rs)
      ≡ (if j == i then tagged tag (row_of i rs) else row_of i rs)
row_of-append_tag i j tag [] = ground arith
row_of-append_tag i j tag (r ∷ rs) = elim (Bool-cases (j == i)) [
  | inl same ↦
      ground (arith, row_of-append_tag i j tag rs, eqb_iff j i, eqb_iff r.id j, eqb_iff r.id i)
  | inr other ↦
      ground (arith, row_of-append_tag i j tag rs, eqb_iff j i, eqb_iff r.id j, eqb_iff r.id i)
]

-- One tag for each delta of a list without repetition: a listed delta that has a row gets the tag
-- at the end of its log, and every other row is left alone.
pub row_of-append_tags :
    (is : List DeltaId) (tag : DeltaTag) (db : Database) (i : DeltaId)
    → Distinct is
    → row_of i (append_tags is tag db).dag.rows
      ≡ (if contains is i then tagged tag (row_of i db.dag.rows) else row_of i db.dag.rows)
unfolding append_tags append_tag
row_of-append_tags [] tag db i d = refl
row_of-append_tags (j ∷ is) tag db i d =
    row_of-append_tags is tag (append_tag j tag db) i d.1 ∙ elim (Bool-cases (j == i)) [
      | inl same ↦ ground (arith, row_of-append_tag i j tag db.dag.rows, (eqb_iff j i).0 same, d.0)
      | inr other ↦ ground (arith, row_of-append_tag i j tag db.dag.rows, other)
    ]

pub proj-append_tags :
    (is : List DeltaId) (tag : DeltaTag) (db : Database) → (append_tags is tag db).proj ≡ db.proj
unfolding append_tags append_tag
proj-append_tags [] tag db = refl
proj-append_tags (i ∷ is) tag db = proj-append_tags is tag (append_tag i tag db)

pub dag-mark_rows : (rs : List AffectedRow) (db : Database) → (mark_rows rs db).dag ≡ db.dag
unfolding mark_rows mark_row_contaminated
dag-mark_rows [] db = refl
dag-mark_rows (r ∷ rs) db = dag-mark_rows rs (mark_row_contaminated r.table r.row_key db)

abbrev flagged_by : List AffectedRow → List ProjRow → List ProjRow
flagged_by rs [] = []
flagged_by rs (p ∷ ps) =
    record p { flagged = p.flagged || has_row rs p.table p.row_key } ∷ flagged_by rs ps

flagged_by-set_flag :
    (r : AffectedRow) (rs : List AffectedRow) (ps : List ProjRow)
    → flagged_by rs (set_flag true r.table r.row_key ps) ≡ flagged_by (r ∷ rs) ps
flagged_by-set_flag r rs [] = refl
flagged_by-set_flag r rs (p ∷ ps) = ground (
  arith,
  flagged_by-set_flag r rs ps,
  string_eq.beq_iff r.table p.table,
  string_eq.beq_iff p.table r.table,
  string_eq.beq_iff r.row_key p.row_key,
  string_eq.beq_iff p.row_key r.row_key,
)

flagged_by-nil : (ps : List ProjRow) → flagged_by [] ps ≡ ps
flagged_by-nil [] = refl
flagged_by-nil (p ∷ ps) = ground (arith, flagged_by-nil ps)

pub proj-mark_rows :
    (rs : List AffectedRow) (db : Database) → (mark_rows rs db).proj ≡ flagged_by rs db.proj
unfolding mark_rows mark_row_contaminated
proj-mark_rows [] db = sym (flagged_by-nil db.proj)
proj-mark_rows (r ∷ rs) db =
    proj-mark_rows rs (mark_row_contaminated r.table r.row_key db)
    ∙ flagged_by-set_flag r rs db.proj

-- every row of the projection carries the flag
abbrev pub AllFlagged : List ProjRow → Type 0
AllFlagged ps = All (λ p. p.flagged ≡ true) ps

all_flagged :
    (rs : List AffectedRow) (ps : List ProjRow)
    → All (λ p. has_row rs p.table p.row_key ≡ true) ps
    → AllFlagged (flagged_by rs ps)
all_flagged rs [] h = tt
all_flagged rs (p ∷ ps) h = (ground (arith, h.0), all_flagged rs ps h.1)

All-affected :
    (root : DeltaId) (r : ProjRow) (rs ps : List ProjRow)
    → All (λ p. has_row (affected root rs) p.table p.row_key ≡ true) ps
    → All (λ p. has_row (affected root (r ∷ rs)) p.table p.row_key ≡ true) ps
All-affected root r rs [] h = tt
All-affected root r rs (p ∷ ps) h = (ground (arith, h.0), All-affected root r rs ps h.1)

affected-All :
    (root : DeltaId) (ps : List ProjRow)
    → All (λ p. has_row (affected root ps) p.table p.row_key ≡ true) ps
affected-All root [] = tt
affected-All root (p ∷ ps) = (
  ground (arith, string_eq.beq_iff p.table p.table, string_eq.beq_iff p.row_key p.row_key),
  All-affected root p ps ps (affected-All root ps),
)

-- Marking the rows that an incident affects flags the whole projection.
pub all-mark_rows :
    (root : DeltaId) (db : Database)
    → AllFlagged (mark_rows (resolve_affected_rows root db) db).proj
unfolding resolve_affected_rows
all-mark_rows root db =
    rw (proj-mark_rows (affected root db.proj) db)
      (all_flagged (affected root db.proj) db.proj (affected-All root db.proj))
