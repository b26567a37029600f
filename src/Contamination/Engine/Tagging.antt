-- ===== src/Contamination/Engine/Tagging.antt =====
-- What tagging a contamination root does to the DAG, the projection and the incidents.
use tir_base.Prelude.{
  Bool, ◌≡◌, ◌⊎◌, both, refl, sym, ◌∙◌, ap, inl, inr, true, false, any, Option, none, some, List,
  [], ◌∷◌, ◌++◌, ℤ, arith, if◌then◌else◌, ◌==◌, nat_eq, contains, All, lookup, insert, remove,
  lookup-insert, lookup-remove, eq_refl, Bool-cases, eqb_iff,
}
use tir_base.Error.{IncidentState, open_state, superseded_by}
use tir_base.Crdt.Delta.{DeltaId, IncidentId, contaminated}
use tir_base.Crdt.Dag.{ChangesetDag, Row, row_of}
use tir_base.Crdt.Dag.Reach.{Reach}
use tir_base.Crdt.Dag.Search.{AreDescendants}
use tir_base.Contamination.Database.{Database}
use tir_base.Contamination.Incident.{IncidentContextObject, TaintSource, composite_merge}
use tir_base.Contamination.Taint.{
  append_tags, walk_dag_descendants, resolve_affected_rows, mark_rows, read_tags, tags_of,
  walk-AreDescendants, row_of-append_tags, dag-mark_rows, all-mark_rows, AllFlagged,
}
use tir_base.Contamination.Resolution.{Incidents, is_open, open_of_is_open}
use tir_base.Contamination.Engine.{
  CausalContaminationEngine, find_overlap, overlaps, new_incident, merge_with, merged, taken,
  registered, index_rows, tag_contamination_root,
}

-- A map of incidents: an entry is found under its key, which is its identifier.
abbrev EntriesOf : Incidents → Incidents → Type 0
EntriesOf is entries = All (λ p. (p.0 ≡ p.1.id) × (lookup p.0 is ≡ some p.1)) entries

abbrev pub IsKeyed : Incidents → Type 0
IsKeyed is = EntriesOf is is

abbrev pub state_in : Option IncidentContextObject → Option IncidentState
state_in none = none
state_in (some ico) = some ico.state

-- a delta that two lists have in common
abbrev pub Shares : List DeltaId → List DeltaId → Type 0
Shares deltas others = (x : DeltaId) × (contains deltas x ≡ true) × (contains others x ≡ true)

any-Shares :
    (deltas others : List DeltaId) → any (contains deltas) others ≡ true → Shares deltas others
any-Shares deltas [] h = cc
any-Shares deltas (x ∷ others) h = elim (Bool-cases (contains deltas x)) [
  | inl there ↦ (x, there, ground (arith, eq_refl x))
  | inr absent ↦
      let (y, m, n) = any-Shares deltas others (ground (arith, h, absent)) in
      (y, m, ground (arith, n))
]

any_of_Shares :
    (deltas others : List DeltaId) → Shares deltas others → any (contains deltas) others ≡ true
any_of_Shares deltas [] s = cc
any_of_Shares deltas (y ∷ others) (x, m, n) = elim (Bool-cases (y == x)) [
  | inl same ↦ ground (arith, ap (contains deltas) ((eqb_iff y x).0 same), m)
  | inr other ↦
      let later = any_of_Shares deltas others (x, m, ground (arith, n, other)) in
      ground (arith, later)
]

abbrev id_or : Option IncidentId → IncidentId
id_or none = 0
id_or (some i) = i

abbrev overlaps_some : List DeltaId → Option IncidentContextObject → Bool
overlaps_some deltas none = false
overlaps_some deltas (some ico) = overlaps deltas ico

-- The incident that a walk overlaps is in the map, under its identifier, and overlaps.
found_overlap :
    (deltas : List DeltaId) (is entries : Incidents) (e : IncidentId)
    → EntriesOf is entries
    → find_overlap deltas entries ≡ some e
    → (ico : IncidentContextObject) × (lookup e is ≡ some ico) × (overlaps deltas ico ≡ true)
found_overlap deltas is [] e k f = cc
found_overlap deltas is ((i, ico) ∷ rest) e k f = elim (Bool-cases (overlaps deltas ico)) [
  | inl hit ↦
      let same : i ≡ e = k.0.0 ∙ ap id_or (rw hit at f) in
      (ico, ap (λ x. lookup x is) (sym same) ∙ k.0.1, hit)
  | inr miss ↦ found_overlap deltas is rest e k.1 (ground (arith, f, miss))
]

missed_overlap :
    (deltas : List DeltaId) (entries : Incidents) (j : IncidentId) (ico : IncidentContextObject)
    → find_overlap deltas entries ≡ none
    → lookup j entries ≡ some ico
    → overlaps deltas ico ≡ false
missed_overlap deltas [] j ico f there = cc
missed_overlap deltas ((i, other) ∷ rest) j ico f there =
    elim (Bool-cases (overlaps deltas other)) [
      | inl hit ↦ absurd (ground (arith, f, hit))
      | inr miss ↦ elim (Bool-cases (i == j)) [
        | inl same ↦ sym (ap (overlaps_some deltas) (rw same at there)) ∙ miss
        | inr apart ↦
            missed_overlap deltas rest j ico (ground (arith, f, miss))
              (ground (arith, there, apart))
      ]
    ]

-- What becomes of the incidents when a new one is registered: it stands alone, or one that is open
-- and shares a delta with it is merged with it.
abbrev pub Alone :
    Incidents → IncidentContextObject → IncidentId × CausalContaminationEngine → Type 0
Alone is new result =
    (result.0 ≡ new.id)
    × ((j : IncidentId) (ico : IncidentContextObject)
        → lookup j is ≡ some ico
        → ico.state ≡ open_state
        → ¬ Shares new.contaminated_deltas ico.contaminated_deltas)
    × ((j : IncidentId)
        → lookup j result.1.incidents ≡ (if new.id == j then some new else lookup j is))

abbrev pub Composed :
    IncidentId
    → ℤ
    → Incidents
    → IncidentContextObject
    → IncidentId × CausalContaminationEngine
    → Type 0
Composed composite_id now is new result =
    (e : IncidentId) × (a : IncidentContextObject) × (lookup e is ≡ some a)
    × (a.state ≡ open_state)
    × Shares new.contaminated_deltas a.contaminated_deltas
    × (result.0 ≡ composite_id)
    × (state_in (lookup e result.1.incidents) ≡ some (superseded_by composite_id))
    × (state_in (lookup new.id result.1.incidents) ≡ some (superseded_by composite_id))
    × (lookup composite_id result.1.composite_incidents
        ≡ some (composite_merge composite_id a new now).composite)
    × ((j : IncidentId)
        → (new.id == j) ≡ false
        → (e == j) ≡ false
        → lookup j result.1.incidents ≡ lookup j is)

abbrev pub Outcome :
    IncidentId
    → ℤ
    → Incidents
    → IncidentContextObject
    → IncidentId × CausalContaminationEngine
    → Type 0
Outcome composite_id now is new result =
    Alone is new result ⊎ Composed composite_id now is new result

-- two incidents taken out of the map and put back
lookup_swapped :
    (is : Incidents) (x y : IncidentId) (new a b : IncidentContextObject) (j : IncidentId)
    → lookup j (insert x b (insert y a (remove y (remove x (insert x new is)))))
      ≡ (if x == j then some b else if y == j then some a else lookup j is)
lookup_swapped is x y new a b j = ground (
  arith,
  lookup-insert x j b (insert y a (remove y (remove x (insert x new is)))),
  lookup-insert y j a (remove y (remove x (insert x new is))),
  lookup-remove y j (remove x (insert x new is)),
  lookup-remove x j (insert x new is),
  lookup-insert x j new is,
)

module _ (is : Incidents) (new : IncidentContextObject) (e composite_id : IncidentId) (now : ℤ)
    (cce : CausalContaminationEngine) where
  -- The merge finds both incidents, so it does not panic.
  merge-Outcome :
      cce.incidents ≡ insert new.id new is
      → lookup new.id is ≡ none
      → (a : IncidentContextObject) → lookup e is ≡ some a
      → overlaps new.contaminated_deltas a ≡ true
      → (result : IncidentId × CausalContaminationEngine) × (merge_with e new.id composite_id now
            cce
          ≡ some result)
        × Outcome composite_id now is new result
        × (result.1.db ≡ cce.db)
  unfolding composite_merge
  merge-Outcome at_start fresh a there hit =
      let apart : (new.id == e) ≡ false = elim (Bool-cases (new.id == e)) [
        | inl same ↦ absurd (cc (fresh, there, ap (λ k. lookup k is) ((eqb_iff new.id e).0 same)))
        | inr other ↦ other
      ] in
      let b : lookup new.id cce.incidents ≡ some new =
        rw at_start (lookup-insert new.id new.id new is ∙ rw (eq_refl new.id) refl) in
      let without_b = remove new.id cce.incidents in
      let a_there : lookup e without_b ≡ some a =
        lookup-remove new.id e cce.incidents
        ∙ rw (apart, at_start) (lookup-insert new.id e new is ∙ rw apart there) in
      let m = composite_merge composite_id a new now in
      let result = merged e new.id composite_id m (remove e without_b) cce in
      let h =
        both (is_open a.state) (any (contains new.contaminated_deltas) a.contaminated_deltas) hit in
      (
        result,
        rw (b, a_there) refl,
        inr (
          e,
          a,
          there,
          open_of_is_open a.state h.0,
          any-Shares new.contaminated_deltas a.contaminated_deltas h.1,
          refl,
          rw (at_start, lookup_swapped is new.id e new m.ico_a m.ico_b e)
              (rw (apart, eq_refl e) refl),
          rw (at_start, lookup_swapped is new.id e new m.ico_a m.ico_b new.id)
              (rw (eq_refl new.id) refl),
          lookup-insert composite_id composite_id m.composite cce.composite_incidents
              ∙ rw (eq_refl composite_id) refl,
          λ j p q. rw (at_start, lookup_swapped is new.id e new m.ico_a m.ico_b j) (rw (p, q) refl),
        ),
        refl,
      )

alone :
    (deltas : List DeltaId) (ico : IncidentContextObject)
    → ico.state ≡ open_state
    → Shares deltas ico.contaminated_deltas
    → overlaps deltas ico ≡ false
    → ⊥
alone deltas ico is_op shares miss =
    let h = any_of_Shares deltas ico.contaminated_deltas shares in
    let o : is_open ico.state ≡ true = rw is_op refl in ground (arith, h, o, miss)

registered-Outcome :
    (is : Incidents) (new : IncidentContextObject) (o : Option IncidentId)
    (composite_id : IncidentId) (now : ℤ) (cce : CausalContaminationEngine)
    → cce.incidents ≡ is
    → lookup new.id is ≡ none
    → IsKeyed is
    → find_overlap new.contaminated_deltas is ≡ o
    → (result : IncidentId × CausalContaminationEngine) × (registered o new composite_id now cce
        ≡ some result)
      × Outcome composite_id now is new result
      × (result.1.db ≡ cce.db)
registered-Outcome is new none composite_id now cce at_start fresh keyed f = (
  (
    new.id,
    record cce {
      incidents = insert new.id new cce.incidents;
      contaminated_rows = index_rows new.affected_rows new.id cce.contaminated_rows;
    },
  ),
  refl,
  inl (
    refl,
    λ j ico there is_op shares.
        alone new.contaminated_deltas ico is_op shares
          (missed_overlap new.contaminated_deltas is j ico f there),
    λ j. rw at_start (lookup-insert new.id j new is),
  ),
  refl,
)
registered-Outcome is new (some e) composite_id now cce at_start fresh keyed f =
    let (a, there, hit) = found_overlap new.contaminated_deltas is is e keyed f in
    merge-Outcome is new e composite_id now
      (record cce { incidents = insert new.id new cce.incidents }) (ap (insert new.id new) at_start)
      fresh a there hit

abbrev db_or : Database → Option (IncidentId × CausalContaminationEngine) → Database
db_or db none = db
db_or db (some result) = result.1.db

db_or-merged :
    (e ico_id composite_id : IncidentId) (now : ℤ) (cce : CausalContaminationEngine)
    (b a : Option IncidentContextObject)
    → db_or cce.db (
        taken b (λ ico_b. taken a (λ ico_a. some (
          merged e ico_id composite_id
            (composite_merge composite_id ico_a ico_b now)
            (remove e (remove ico_id cce.incidents))
            cce))))
      ≡ cce.db
db_or-merged e ico_id composite_id now cce none a = refl
db_or-merged e ico_id composite_id now cce (some b) none = refl
db_or-merged e ico_id composite_id now cce (some b) (some a) = refl

-- The registration of an incident leaves the database alone.
db_or-registered :
    (o : Option IncidentId) (new : IncidentContextObject) (composite_id : IncidentId) (now : ℤ)
    (cce : CausalContaminationEngine)
    → db_or cce.db (registered o new composite_id now cce) ≡ cce.db
db_or-registered none new composite_id now cce = refl
db_or-registered (some e) new composite_id now cce =
    let start = insert new.id new cce.incidents in
    db_or-merged e new.id composite_id now (record cce { incidents = start }) (lookup new.id start)
      (lookup e (remove new.id start))

module _ (root : DeltaId) (source : TaintSource) (ico_id composite_id : IncidentId) (now : ℤ)
    (cce : CausalContaminationEngine) where
  abbrev pub descendants : List DeltaId
  descendants = walk_dag_descendants cce.db.dag root

  abbrev pub tagged_db : Database
  tagged_db = append_tags descendants (contaminated root ico_id) cce.db

  abbrev pub the_incident : IncidentContextObject
  the_incident =
      new_incident root source ico_id now descendants (resolve_affected_rows root tagged_db)

  abbrev pub tagging : Option (IncidentId × CausalContaminationEngine)
  tagging = tag_contamination_root root source ico_id composite_id now cce

  -- With fresh UUIDs and the incidents in a map under their identifiers, tagging a root returns, and
  -- registers an incident that is open, has this source and this root alone, the deltas that descend
  -- from the root, the affected rows, and no audit entry. If no open incident shares a delta
  -- with it, that is all that happens to the incidents; else one of those and the new one are
  -- superseded by their composite, which is stored, and whose identifier is returned, and no other
  -- incident changes.
  pub tag_contamination_root-Outcome :
      IsKeyed cce.incidents
      → lookup ico_id cce.incidents ≡ none
      → (result : IncidentId × CausalContaminationEngine) × (tagging ≡ some result)
        × (deltas : List DeltaId) × AreDescendants cce.db.dag root deltas
        × Outcome composite_id now cce.incidents
            (record {
              id = ico_id;
              state = open_state;
              taint_source = source;
              contamination_roots = root ∷ [];
              contaminated_deltas = deltas;
              affected_rows = resolve_affected_rows root tagged_db;
              composite_of = none;
              created_at = now;
              updated_at = now;
              audit_log = [];
            })
            result
  unfolding tag_contamination_root
  tag_contamination_root-Outcome keyed fresh =
      let (result, done, outcome, db) =
        registered-Outcome cce.incidents the_incident (find_overlap descendants cce.incidents)
          composite_id now
          (record cce { db = mark_rows (resolve_affected_rows root tagged_db) tagged_db }) refl
          fresh keyed refl in
      (result, done, descendants, walk-AreDescendants cce.db.dag root, outcome)

  db-tagging :
      (result : IncidentId × CausalContaminationEngine)
      → tagging ≡ some result
      → result.1.db ≡ mark_rows (resolve_affected_rows root tagged_db) tagged_db
  unfolding tag_contamination_root
  db-tagging result done =
      let tagged = record cce { db = mark_rows (resolve_affected_rows root tagged_db) tagged_db } in
      sym (ap (db_or tagged.db) done)
      ∙ db_or-registered (find_overlap descendants cce.incidents) the_incident composite_id now
          tagged

  log-tagging :
      (result : IncidentId × CausalContaminationEngine) (i : DeltaId) (row : Row)
      → tagging ≡ some result
      → row_of i cce.db.dag.rows ≡ some row
      → read_tags i result.1.db
        ≡ (if contains descendants i then row.tags ++ contaminated root ico_id ∷ [] else row.tags)
  unfolding read_tags
  log-tagging result i row done there =
      ap (λ (db : Database). tags_of (row_of i db.dag.rows)) (db-tagging result done)
      ∙ ap (λ (dag : ChangesetDag). tags_of (row_of i dag.rows))
          (dag-mark_rows (resolve_affected_rows root tagged_db) tagged_db)
      ∙ ap tags_of (
          row_of-append_tags descendants (contaminated root ico_id) cce.db i
            (walk-AreDescendants cce.db.dag root).distinct)
      ∙ rw there (ground arith)

  -- Tagging a root appends exactly one Contaminated tag, with the root and the new incident, to the
  -- log of every delta that descends from the root, leaves the log of every other delta as it was,
  -- and flags every row of the projection.
  pub read_tags-tag_contamination_root :
      (result : IncidentId × CausalContaminationEngine) (i : DeltaId) (row : Row)
      → tagging ≡ some result
      → row_of i cce.db.dag.rows ≡ some row
      → (Reach cce.db.dag root i
          → read_tags i result.1.db ≡ row.tags ++ contaminated root ico_id ∷ [])
        × (¬ Reach cce.db.dag root i → read_tags i result.1.db ≡ row.tags)
        × AllFlagged result.1.db.proj
  read_tags-tag_contamination_root result i row done there =
      let h = walk-AreDescendants cce.db.dag root in
      let log = log-tagging result i row done there in
      (
        λ r. log ∙ rw (h.full i r) refl,
        λ n. log ∙ elim (Bool-cases (contains descendants i)) [
          | inl m ↦ absurd (n (h.sound i m))
          | inr m ↦ rw m refl
        ],
        rw (db-tagging result done) (all-mark_rows root tagged_db),
      )
