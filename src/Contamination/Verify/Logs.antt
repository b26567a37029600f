-- ===== src/Contamination/Verify/Logs.antt =====
-- The tag logs under verify_data: they only grow, and the root is resolved afterwards.
use tir_base.Prelude.{
  ℕ, ◌≡◌, refl, sym, ◌∙◌, ap, inl, inr, Bool, true, false, not, ◌&&◌, Option, none, some, List, [],
  ◌∷◌, ◌++◌, ℤ, arith, if◌then◌else◌, ◌==◌, nat_eq, any, all, contains, lookup, append-nil,
  append_assoc, Bool-cases, Option-cases, eq_refl,
}
use tir_base.Error.{Result, ok, err, is_ok}
use tir_base.Crdt.Delta.{DeltaId, DeltaTag, Did, IncidentId, resolved, decontaminated}
use tir_base.Crdt.Dag.{ChangesetDag, Row, row_of}
use tir_base.Identity.{Crypto}
use tir_base.Contamination.Database.{Database, clear_row_contamination}
use tir_base.Contamination.Incident.{
  IncidentContextObject, CompositeIncidentInstance, AffectedRow, union,
}
use tir_base.Contamination.Taint.{
  append_tag, append_tags, read_tags, tags_of, add_tag, dag-mark_rows, row_of-append_tag,
  resolve_affected_rows,
}
use tir_base.Contamination.Resolution.{is_open, verify_manager_auth}
use tir_base.Contamination.Verify.{
  Scope, Decomposition, is_resolved, has_resolved_tag, clear_rows, walk_late_arrival_descendants,
  late_roots, late_incident, late_incidents, late_composite, late_composites, verify_incident,
  verify_incidents, reregister, decompose, decompose_all, decompose_composites_if_needed, resolve,
  verify_data, on_auth, incidents_with, composites_with,
}

-- Every tag log of the first database is a prefix of the log in the second.
abbrev pub Grown : Database → Database → Type 0
Grown db db' = (i : DeltaId) → (more : List DeltaTag) × (read_tags i db' ≡ read_tags i db ++ more)

Grown-refl : (db : Database) → Grown db db
Grown-refl db i = ([], sym (append-nil (read_tags i db)))

Grown-trans : (a b c : Database) → Grown a b → Grown b c → Grown a c
Grown-trans a b c f g i = (
  (f i).0 ++ (g i).0,
  (g i).1
      ∙ ap (λ (log : List DeltaTag). log ++ (g i).0) (f i).1
      ∙ append_assoc (read_tags i a) (f i).0 (g i).0,
)

Grown-of_dag : (a b : Database) → b.dag ≡ a.dag → Grown a b
unfolding read_tags
Grown-of_dag a b e i = (
  [],
  ap (λ (dag : ChangesetDag). tags_of (row_of i dag.rows)) e ∙ sym (append-nil (read_tags i a)),
)

Grown-append_tag : (j : DeltaId) (tag : DeltaTag) (db : Database) → Grown db (append_tag j tag db)
unfolding read_tags append_tag
Grown-append_tag j tag db i = elim (Option-cases (row_of i db.dag.rows)) [
  | inl e ↦ ([], ground (arith, row_of-append_tag i j tag db.dag.rows, e))
  | inr (r, e) ↦ elim (Bool-cases (j == i)) [
    | inl same ↦ (tag ∷ [], ground (arith, row_of-append_tag i j tag db.dag.rows, e, same))
    | inr other ↦
        let kept : row_of i (append_tag j tag db).dag.rows ≡ row_of i db.dag.rows =
          row_of-append_tag i j tag db.dag.rows ∙ ground (arith, other) in
        ([], ap tags_of kept ∙ sym (append-nil (tags_of (row_of i db.dag.rows))))
  ]
]

Grown-append_tags :
    (is : List DeltaId) (tag : DeltaTag) (db : Database) → Grown db (append_tags is tag db)
unfolding append_tags
Grown-append_tags [] tag db = Grown-refl db
Grown-append_tags (i ∷ is) tag db =
    Grown-trans db (append_tag i tag db) (append_tags is tag (append_tag i tag db))
      (Grown-append_tag i tag db) (Grown-append_tags is tag (append_tag i tag db))

dag-clear_rows : (rs : List AffectedRow) (db : Database) → (clear_rows rs db).dag ≡ db.dag
unfolding clear_rows clear_row_contamination
dag-clear_rows [] db = refl
dag-clear_rows (r ∷ rs) db = dag-clear_rows rs (clear_row_contamination r.table r.row_key db)

Grown-pick :
    (b : Bool) (db : Database) (x y : List DeltaId × Database)
    → Grown db x.1
    → Grown db y.1
    → Grown db (if b then x else y).1
Grown-pick true db x y f g = f
Grown-pick false db x y f g = g

module _ (late_at : DeltaId → IncidentId → ℤ) where
  Grown-late_roots :
      (done : Bool) (id : IncidentId) (roots snapshot : List DeltaId) (db : Database)
      → Grown db (late_roots late_at done id roots snapshot db).1
  unfolding late_roots walk_late_arrival_descendants
  Grown-late_roots done id [] snapshot db = Grown-refl db
  Grown-late_roots done id (root ∷ roots) snapshot db =
      let w = walk_late_arrival_descendants root snapshot done id (late_at root id) db in
      Grown-pick (if done then has_resolved_tag db root else not (has_resolved_tag db root)) db
        (late_roots late_at done id roots (union snapshot w.0) w.1)
        (late_roots late_at done id roots snapshot db)
        (Grown-trans db w.1 (late_roots late_at done id roots (union snapshot w.0) w.1).1
          (Grown-append_tags w.0 _ db) (Grown-late_roots done id roots (union snapshot w.0) w.1))
        (Grown-late_roots done id roots snapshot db)

  Grown-late_incident :
      (id : IncidentId) (o : Option IncidentContextObject) (s : Scope)
      → Grown s.db (late_incident late_at id o s).db
  unfolding late_incident
  Grown-late_incident id none s = Grown-refl s.db
  Grown-late_incident id (some ico) s =
      Grown-late_roots (all (has_resolved_tag s.db) ico.contamination_roots) id
        ico.contamination_roots ico.contaminated_deltas s.db

  Grown-late_incidents :
      (ids : List IncidentId) (s : Scope) → Grown s.db (late_incidents late_at ids s).db
  unfolding late_incidents
  Grown-late_incidents [] s = Grown-refl s.db
  Grown-late_incidents (id ∷ ids) s =
      let s' = late_incident late_at id (lookup id s.incidents) s in
      Grown-trans s.db s'.db (late_incidents late_at ids s').db
        (Grown-late_incident id (lookup id s.incidents) s) (Grown-late_incidents ids s')

  Grown-late_composite :
      (id : IncidentId) (o : Option CompositeIncidentInstance) (s : Scope)
      → Grown s.db (late_composite late_at id o s).db
  unfolding late_composite
  Grown-late_composite id none s = Grown-refl s.db
  Grown-late_composite id (some c) s =
      Grown-late_roots (all (has_resolved_tag s.db) c.contamination_roots) id c.contamination_roots
        c.contaminated_deltas s.db

  Grown-late_composites :
      (ids : List IncidentId) (s : Scope) → Grown s.db (late_composites late_at ids s).db
  unfolding late_composites
  Grown-late_composites [] s = Grown-refl s.db
  Grown-late_composites (id ∷ ids) s =
      let s' = late_composite late_at id (lookup id s.composites) s in
      Grown-trans s.db s'.db (late_composites late_at ids s').db
        (Grown-late_composite id (lookup id s.composites) s) (Grown-late_composites ids s')

module _ (did : Did) (root : DeltaId) (at : ℤ) where
  Grown-verify_incident :
      (id : IncidentId) (o : Option IncidentContextObject) (s : Scope)
      → Grown s.db (verify_incident did root at id o s).db
  unfolding verify_incident
  Grown-verify_incident id none s = Grown-refl s.db
  Grown-verify_incident id (some ico) s =
      elim (Bool-cases (all (has_resolved_tag s.db) ico.contamination_roots)) [
        | inl e ↦
            let db' = append_tags ico.contaminated_deltas (decontaminated ico.id at) s.db in
            rw e (
              Grown-trans s.db db' (clear_rows ico.affected_rows db')
                (Grown-append_tags ico.contaminated_deltas (decontaminated ico.id at) s.db)
                (Grown-of_dag db' (clear_rows ico.affected_rows db')
                  (dag-clear_rows ico.affected_rows db')))
        | inr e ↦ rw e (Grown-refl s.db)
      ]

  Grown-verify_incidents :
      (ids : List IncidentId) (s : Scope) → Grown s.db (verify_incidents did root at ids s).db
  unfolding verify_incidents
  Grown-verify_incidents [] s = Grown-refl s.db
  Grown-verify_incidents (id ∷ ids) s =
      let s' = verify_incident did root at id (lookup id s.incidents) s in
      Grown-trans s.db s'.db (verify_incidents did root at ids s').db
        (Grown-verify_incident id (lookup id s.incidents) s) (Grown-verify_incidents ids s')

module _ (fresh : IncidentId → DeltaId → IncidentId) (at : ℤ) where
  dag-reregister :
      (id : IncidentId) (roots : List DeltaId) (d : Decomposition)
      → (reregister fresh at id roots d).scope.db.dag ≡ d.scope.db.dag
  unfolding reregister
  dag-reregister id [] d = refl
  dag-reregister id (root ∷ roots) d =
      dag-reregister id roots _ ∙ dag-mark_rows (resolve_affected_rows root d.scope.db) d.scope.db

  dag-decompose :
      (id : IncidentId) (o : Option CompositeIncidentInstance) (d : Decomposition)
      → (decompose fresh at id o d).scope.db.dag ≡ d.scope.db.dag
  unfolding decompose
  dag-decompose id none d = refl
  dag-decompose id (some c) d = dag-reregister id _ _

  dag-decompose_all :
      (ids : List IncidentId) (d : Decomposition)
      → (decompose_all fresh at ids d).scope.db.dag ≡ d.scope.db.dag
  unfolding decompose_all
  dag-decompose_all [] d = refl
  dag-decompose_all (id ∷ ids) d =
      dag-decompose_all ids _ ∙ dag-decompose id (lookup id d.scope.composites) d

any-append : (xs ys : List DeltaTag) → any is_resolved xs ≡ true → any is_resolved (xs ++ ys) ≡ true
any-append [] ys h = cc
any-append (x ∷ xs) ys h = ground (arith, h, any-append xs ys)

any-snoc :
    (xs : List DeltaTag) (x : DeltaTag)
    → is_resolved x ≡ true
    → any is_resolved (xs ++ x ∷ []) ≡ true
any-snoc [] x h = ground (arith, h)
any-snoc (y ∷ xs) x h = ground (arith, any-snoc xs x h)

has_resolved_tag-Grown :
    (db db' : Database) (i : DeltaId)
    → Grown db db'
    → has_resolved_tag db i ≡ true
    → has_resolved_tag db' i ≡ true
unfolding has_resolved_tag
has_resolved_tag-Grown db db' i g h =
    let (more, e) = g i in ap (any is_resolved) e ∙ any-append (read_tags i db) more h

resolved_now :
    (i : DeltaId) (did : Did) (at : ℤ) (db : Database) (row : Row)
    → row_of i db.dag.rows ≡ some row
    → has_resolved_tag (append_tag i (resolved did at) db) i ≡ true
unfolding has_resolved_tag read_tags append_tag
resolved_now i did at db row there =
    let log : row_of i (append_tag i (resolved did at) db).dag.rows
        ≡ some (add_tag (resolved did at) row) =
      row_of-append_tag i i (resolved did at) db.dag.rows ∙ rw (eq_refl i, there) refl in
    ap (λ o. any is_resolved (tags_of o)) log ∙ any-snoc row.tags (resolved did at) refl

module _ (crypto : Crypto) (delta_bytes : DeltaId → List ℕ) (late_at : DeltaId → IncidentId → ℤ)
    (fresh : IncidentId → DeltaId → IncidentId) where
  Grown-resolve :
      (root : DeltaId) (did : Did) (at : ℤ) (s : Scope)
      → Grown
          (append_tag root (resolved did at) s.db)
          (resolve crypto delta_bytes late_at fresh root did at s).scope.db
  unfolding resolve decompose_composites_if_needed
  Grown-resolve root did at s =
      let db' = append_tag root (resolved did at) s.db in
      let ids = incidents_with root s.incidents in
      let comp_ids =
        composites_with (λ c. is_open c.state && contains c.contamination_roots root)
          s.composites in
      let audited = verify_incidents did root at ids (record s { db = db' }) in
      let late = late_incidents late_at ids audited in
      let walked = late_composites late_at comp_ids late in
      Grown-trans db' audited.db _ (Grown-verify_incidents did root at ids (record s { db = db' }))
        (Grown-trans audited.db late.db _ (Grown-late_incidents late_at ids audited) (
          Grown-trans late.db walked.db _ (Grown-late_composites late_at comp_ids late) (
            Grown-of_dag walked.db _ (
              dag-decompose_all fresh at
                (composites_with (λ c. contains c.contamination_roots root) walked.composites)
                (record { scope = walked; new_icos = [] })))))

  on_auth_lem :
      (r : Result (Unit {0})) (root : DeltaId) (did : Did) (at : ℤ) (s : Scope)
      → let d =
          on_auth crypto delta_bytes late_at fresh r
            (resolve crypto delta_bytes late_at fresh root did at s)
            s in
        (is_ok d.0 ≡ is_ok r)
        × (is_ok r ≡ false → d.1 ≡ record { scope = s; new_icos = [] })
        × Grown s.db d.1.scope.db
        × ((row : Row)
            → is_ok r ≡ true
            → row_of root s.db.dag.rows ≡ some row
            → has_resolved_tag d.1.scope.db root ≡ true)
  on_auth_lem (err e) root did at s = (refl, λ h. refl, Grown-refl s.db, λ row h there. cc)
  on_auth_lem (ok u) root did at s =
      let db' = append_tag root (resolved did at) s.db in
      let d = resolve crypto delta_bytes late_at fresh root did at s in
      (
        refl,
        λ h. cc,
        Grown-trans s.db db' d.scope.db (Grown-append_tag root (resolved did at) s.db)
            (Grown-resolve root did at s),
        λ row h there.
            has_resolved_tag-Grown db' d.scope.db root (Grown-resolve root did at s)
              (resolved_now root did at s.db row there),
      )

  -- Verifying a root succeeds exactly when the manager is authorised; without that nothing changes
  -- and nothing is registered. Every tag log only grows at its end, and after a success a root that
  -- has a row carries a Resolved tag.
  pub verify_data-Grown :
      (root : DeltaId) (did : Did) (sig : List ℕ) (token_expiry now_secs at : ℤ) (s : Scope)
      → let auth = verify_manager_auth crypto did sig (delta_bytes root) token_expiry now_secs in
        let d =
          verify_data crypto delta_bytes late_at fresh root did sig token_expiry now_secs at s in
        (is_ok d.0 ≡ is_ok auth)
        × (is_ok auth ≡ false → d.1 ≡ record { scope = s; new_icos = [] })
        × Grown s.db d.1.scope.db
        × ((row : Row)
            → is_ok auth ≡ true
            → row_of root s.db.dag.rows ≡ some row
            → has_resolved_tag d.1.scope.db root ≡ true)
  unfolding verify_data
  verify_data-Grown root did sig token_expiry now_secs at s =
      on_auth_lem (verify_manager_auth crypto did sig (delta_bytes root) token_expiry now_secs) root
        did at s
