-- ===== src/Contamination/Incident.antt =====
-- tirbase-core/src/contamination/incident.rs: incidents, composites and their merge. A set of
-- deltas is a list; the UUID that `composite_merge` makes is an argument.
use tir_base.Prelude.{
  ℕ, ◌≡◌, refl, inl, inr, sym, ap, ◌∙◌, Bool, true, false, ◌&&◌, ◌||◌, String, Option, List, [],
  ◌∷◌, ◌++◌, arith, ℤ, if◌then◌else◌, ◌==◌, nat_eq, string_eq, contains, contains-append, eqb_iff,
  Bool-cases,
}
use tir_base.Crdt.Delta.{DeltaId, Did, IncidentId}
use tir_base.Error.{IncidentState, open_state, superseded_by}

pub data TaintSource : Type 0 where
  device_revocation : DeltaId → TaintSource
  bad_migration : ℕ → TaintSource
  human_reaction : IncidentId → TaintSource

pub record AffectedRow : Type 0 where
  pub table : String
  pub row_key : String
  pub delta_id : DeltaId

pub data AuditOperation : Type 0 where
  verify_data admin_close : AuditOperation

pub record AuditEntry : Type 0 where
  pub operation : AuditOperation
  pub manager_did : Did
  pub utc_timestamp : ℤ
  pub affected_delta_ids : List DeltaId

pub record IncidentContextObject : Type 0 where
  pub id : IncidentId
  pub state : IncidentState
  pub taint_source : TaintSource
  pub contamination_roots : List DeltaId
  pub contaminated_deltas : List DeltaId
  pub affected_rows : List AffectedRow
  pub composite_of : Option (List IncidentId)
  pub created_at : ℤ
  pub updated_at : ℤ
  pub audit_log : List AuditEntry

pub record CompositeIncidentInstance : Type 0 where
  pub id : IncidentId
  pub state : IncidentState
  pub composite_of : List IncidentId
  pub contamination_roots : List DeltaId
  pub contaminated_deltas : List DeltaId
  pub affected_rows : List AffectedRow
  pub created_at : ℤ
  pub updated_at : ℤ
  pub audit_log : List AuditEntry

-- the loops that push what is not there yet, and the union of two BTreeSets
abbrev pub union : List DeltaId → List DeltaId → List DeltaId
union xs [] = xs
union xs (y ∷ ys) = union (if contains xs y then xs else xs ++ y ∷ []) ys

-- `any(|r| r.row_key == row.row_key)`
abbrev pub has_key : List AffectedRow → String → Bool
has_key [] k = false
has_key (r ∷ rs) k = r.row_key == k || has_key rs k

abbrev pub union_rows : List AffectedRow → List AffectedRow → List AffectedRow
union_rows xs [] = xs
union_rows xs (y ∷ ys) = union_rows (if has_key xs y.row_key then xs else xs ++ y ∷ []) ys

pub record Merged : Type 0 where
  pub ico_a : IncidentContextObject
  pub ico_b : IncidentContextObject
  pub composite : CompositeIncidentInstance

unfoldable pub composite_merge :
    IncidentId → IncidentContextObject → IncidentContextObject → ℤ → Merged
composite_merge composite_id ico_a ico_b now = record {
  ico_a = record ico_a { state = superseded_by composite_id };
  ico_b = record ico_b { state = superseded_by composite_id };
  composite = record {
    id = composite_id;
    state = open_state;
    composite_of = ico_a.id ∷ ico_b.id ∷ [];
    contamination_roots = union ico_a.contamination_roots ico_b.contamination_roots;
    contaminated_deltas = union ico_a.contaminated_deltas ico_b.contaminated_deltas;
    affected_rows = union_rows ico_a.affected_rows ico_b.affected_rows;
    created_at = now;
    updated_at = now;
    audit_log = [];
  };
}

pub contains-union :
    (xs ys : List DeltaId) (d : DeltaId)
    → contains (union xs ys) d ≡ (contains xs d || contains ys d)
contains-union xs [] d = ground arith
contains-union xs (y ∷ ys) d = elim (Bool-cases (contains xs y)) [
  | inl old ↦ rw old (
      contains-union xs ys d ∙ elim (Bool-cases (y == d)) [
        | inl same ↦ rw (← (eqb_iff y d).0 same, old) refl
        | inr other ↦ ground arith
      ])
  | inr new ↦
      rw new (contains-union (xs ++ y ∷ []) ys d ∙ ground (arith, contains-append xs (y ∷ []) d))
]

-- `table` and `row_key` name a row of the list
abbrev pub has_row : List AffectedRow → String → String → Bool
has_row [] t k = false
has_row (r ∷ rs) t k = (r.table == t && r.row_key == k) || has_row rs t k

has_row-append :
    (xs ys : List AffectedRow) (t k : String)
    → has_row (xs ++ ys) t k ≡ (has_row xs t k || has_row ys t k)
has_row-append [] ys t k = refl
has_row-append (x ∷ xs) ys t k = ground (arith, has_row-append xs ys t k)

has_key-append :
    (xs ys : List AffectedRow) (k : String) → has_key (xs ++ ys) k ≡ (has_key xs k || has_key ys k)
has_key-append [] ys k = refl
has_key-append (x ∷ xs) ys k = ground (arith, has_key-append xs ys k)

-- a row whose key the first list has is never added
pub union_rows_key :
    (xs ys : List AffectedRow) (t k : String)
    → has_key xs k ≡ true
    → has_row (union_rows xs ys) t k ≡ has_row xs t k
union_rows_key xs [] t k h = refl
union_rows_key xs (y ∷ ys) t k h = elim (Bool-cases (has_key xs y.row_key)) [
  | inl old ↦ rw old (union_rows_key xs ys t k h)
  | inr new ↦ rw new (elim (Bool-cases (y.row_key == k)) [
    | inl same ↦
        let e : has_key xs k ≡ false =
          ap (has_key xs) (sym ((string_eq.beq_iff y.row_key k).0 same)) ∙ new in
        ground (arith, h, e)
    | inr other ↦
        union_rows_key (xs ++ y ∷ []) ys t k (ground (arith, has_key-append xs (y ∷ []) k, h))
        ∙ ground (arith, has_row-append xs (y ∷ []) t k, other)
  ])
]

has_key-union_rows :
    (xs ys : List AffectedRow) (k : String)
    → has_key (union_rows xs ys) k ≡ (has_key xs k || has_key ys k)
has_key-union_rows xs [] k = ground arith
has_key-union_rows xs (y ∷ ys) k = elim (Bool-cases (has_key xs y.row_key)) [
  | inl old ↦ rw old (
      has_key-union_rows xs ys k ∙ elim (Bool-cases (y.row_key == k)) [
        | inl same ↦ rw (← (string_eq.beq_iff y.row_key k).0 same, old) refl
        | inr other ↦ ground (arith, other)
      ])
  | inr new ↦
      rw new (has_key-union_rows (xs ++ y ∷ []) ys k ∙ ground (arith, has_key-append xs (y ∷ []) k))
]

-- Merging two incidents supersedes both by the composite, which is open, names both, holds a
-- delta or a root exactly when one of them does, and a row key exactly when one of them has it.
pub composite_merge-Merged :
    (composite_id : IncidentId) (a b : IncidentContextObject) (now : ℤ)
    → let m = composite_merge composite_id a b now in
      (m.ico_a.state ≡ superseded_by composite_id)
      × (m.ico_b.state ≡ superseded_by composite_id)
      × (m.composite.state ≡ open_state)
      × (m.composite.composite_of ≡ a.id ∷ b.id ∷ [])
      × ((d : DeltaId)
          → (contains m.composite.contaminated_deltas d
              ≡ (contains a.contaminated_deltas d || contains b.contaminated_deltas d))
            × (contains m.composite.contamination_roots d
                ≡ (contains a.contamination_roots d || contains b.contamination_roots d)))
      × ((k : String)
          → has_key m.composite.affected_rows k
            ≡ (has_key a.affected_rows k || has_key b.affected_rows k))
unfolding composite_merge
composite_merge-Merged composite_id a b now = (
  refl,
  refl,
  refl,
  refl,
  λ d. (
    contains-union a.contaminated_deltas b.contaminated_deltas d,
    contains-union a.contamination_roots b.contamination_roots d,
  ),
  λ k. has_key-union_rows a.affected_rows b.affected_rows k,
)

-- A row of the second incident whose key the first has only under another table is not a row of
-- the composite: the table takes no part in what counts as the same row.
pub composite_drops_row :
    (composite_id : IncidentId) (a b : IncidentContextObject) (now : ℤ) (table row_key : String)
    → has_key a.affected_rows row_key ≡ true
    → has_row a.affected_rows table row_key ≡ false
    → has_row b.affected_rows table row_key ≡ true
    → has_row (composite_merge composite_id a b now).composite.affected_rows table row_key ≡ false
unfolding composite_merge
composite_drops_row composite_id a b now table row_key key other there =
    union_rows_key a.affected_rows b.affected_rows table row_key key ∙ other
