-- ===== src/Crdt/Verify/Override.antt =====
-- tirbase-core/src/crdt/verify.rs: the conflicts between two documents before a merge, and the
-- overrides after it, over any automerge library.
use Prim.Native.Nat.{min, max}
use tir_base.Prelude.{
  ℕ, suc, ◌+◌, String, Bool, true, false, not, Option, none, some, List, [], ◌∷◌, ◌++◌,
  if◌then◌else◌, ltb, ◌==◌, string_eq, str_leb,
}
use tir_base.Crdt.Automerge.{Automerge, Value, scalar, list_object, other_object, Op, Change}
use tir_base.Crdt.Verify.{
  ElementId, same_element, same_predecessor, VerificationReport, no_report, element_of_bytes,
}

module _ (lib : Automerge) where
  pub record LwwConflict : Type 0 where
    pub key : String
    pub incoming_exid : lib.ObjId
    pub incoming_value : lib.Scalar
    pub local_exid : lib.ObjId
    pub local_value : lib.Scalar

  pub record RgaConflict : Type 0 where
    pub local_element : ElementId
    pub incoming_element : ElementId
    pub local_value : lib.Scalar
    pub incoming_value : lib.Scalar

  pub record ConflictSnapshot : Type 0 where
    pub lww : List LwwConflict
    pub rga : List RgaConflict

  -- `root_scalars`: a key is at the root at most once
  unfoldable pub root_scalars :
      List (String × lib.ObjId × Value lib.Scalar) → List (String × lib.ObjId × lib.Scalar)
  root_scalars [] = []
  root_scalars ((key, id, scalar v) ∷ items) = (key, id, v) ∷ root_scalars items
  root_scalars ((key, id, list_object) ∷ items) = root_scalars items
  root_scalars ((key, id, other_object) ∷ items) = root_scalars items

  abbrev local_entry :
      String → List (String × lib.ObjId × lib.Scalar) → Option (lib.ObjId × lib.Scalar)
  local_entry key [] = none
  local_entry key ((k, id, v) ∷ entries) =
      if k == key then some (id, v) else local_entry key entries

  abbrev conflict_at :
      String
      → lib.ObjId
      → lib.Scalar
      → Option (lib.ObjId × lib.Scalar)
      → List LwwConflict
      → List LwwConflict
  conflict_at key incoming_exid incoming_value none rest = rest
  conflict_at key incoming_exid incoming_value (some (local_exid, local_value)) rest =
      if lib.same_id local_exid incoming_exid
      then rest
      else record {
        key = key;
        incoming_exid = incoming_exid;
        incoming_value = incoming_value;
        local_exid = local_exid;
        local_value = local_value;
      }
        ∷ rest

  unfoldable conflicts_of :
      List (String × lib.ObjId × lib.Scalar)
      → List (String × lib.ObjId × lib.Scalar)
      → List LwwConflict
  conflicts_of local_map [] = []
  conflicts_of local_map ((key, id, v) ∷ incoming_map) =
      conflict_at key id v (local_entry key local_map) (conflicts_of local_map incoming_map)

  -- `sort_by(|a, b| a.key.cmp(&b.key))`
  abbrev insert_conflict : LwwConflict → List LwwConflict → List LwwConflict
  insert_conflict c [] = c ∷ []
  insert_conflict c (d ∷ ds) =
      let rest = insert_conflict c ds in if str_leb c.key d.key then c ∷ d ∷ ds else d ∷ rest

  unfoldable sort_conflicts : List LwwConflict → List LwwConflict
  sort_conflicts [] = []
  sort_conflicts (c ∷ cs) = insert_conflict c (sort_conflicts cs)

  unfoldable pub capture_lww : lib.Doc → lib.Doc → List LwwConflict
  unfolding root_scalars conflicts_of sort_conflicts
  capture_lww local incoming =
      sort_conflicts
        (conflicts_of (root_scalars (lib.map_range local)) (root_scalars (lib.map_range incoming)))

  -- the predecessor, the element and the value of an insertion into a list
  abbrev InsertOp : Type 0
  InsertOp = Option ElementId × ElementId × lib.Scalar

  abbrev insert_op : Op lib.Scalar → ElementId → Option lib.Scalar → List InsertOp → List InsertOp
  insert_op op element none rest = rest
  insert_op op element (some value) rest =
      if op.is_insert then (op.key_element, element, value) ∷ rest else rest

  unfoldable ops_of : ℕ → List ℕ → List (Op lib.Scalar) → List InsertOp
  ops_of i actor [] = []
  ops_of i actor (op ∷ ops) = insert_op op (i, actor) op.primitive_value (ops_of (suc i) actor ops)

  unfoldable list_inserts : List (Change lib.Scalar) → List InsertOp
  unfolding ops_of
  list_inserts [] = []
  list_inserts (c ∷ changes) = ops_of c.start_op c.actor c.operations ++ list_inserts changes

  unfoldable same_position : InsertOp → List InsertOp → List RgaConflict
  same_position here [] = []
  same_position (pred, element, value) ((inc_pred, inc_element, inc_value) ∷ incoming) =
      let rest = same_position (pred, element, value) incoming in
      if same_predecessor pred inc_pred
      then record {
        local_element = element;
        incoming_element = inc_element;
        local_value = value;
        incoming_value = inc_value;
      }
        ∷ rest
      else rest

  unfoldable capture_rga : List InsertOp → List InsertOp → List RgaConflict
  unfolding same_position
  capture_rga [] incoming = []
  capture_rga (here ∷ local) incoming = same_position here incoming ++ capture_rga local incoming

  unfoldable pub capture_conflicts : lib.Doc → lib.Doc → ConflictSnapshot
  unfolding capture_lww list_inserts capture_rga
  capture_conflicts local incoming = record {
    lww = capture_lww local incoming;
    rga =
        capture_rga (list_inserts (lib.get_changes local))
          (list_inserts (lib.get_changes incoming));
  }

  abbrev pub State : Type 0
  State = lib.Doc × VerificationReport

  -- the override of a key, applied or failed
  abbrev pub put_result : lib.Doc → VerificationReport → Option lib.Doc → State
  put_result doc r none = (doc, record r { overrides_failed = r.overrides_failed + 1 })
  put_result doc r (some doc₂) = (doc₂, record r { overrides_applied = r.overrides_applied + 1 })

  -- one round of the loop over the keys, with the winner that was read back
  abbrev pub lww_round :
      Bool → LwwConflict → lib.Doc → VerificationReport → Option lib.ObjId → State
  lww_round definitive c doc r none = (doc, r)
  lww_round definitive c doc r (some actual) =
      let checked : VerificationReport = record r { lww_checked = r.lww_checked + 1 } in
      let unclear : VerificationReport = record checked { indeterminate = r.indeterminate + 1 } in
      if not definitive
      then (doc, unclear)
      else if lib.same_id actual c.incoming_exid
      then (doc, checked)
      else if not (lib.same_id actual c.local_exid)
      then (doc, unclear)
      else put_result doc (record checked { divergences = r.divergences + 1 })
          (lib.put doc c.key c.incoming_value)

  unfoldable pub lww_rounds : Bool → List LwwConflict → State → State
  lww_rounds definitive [] s = s
  lww_rounds definitive (c ∷ cs) (doc, r) =
      lww_rounds definitive cs (lww_round definitive c doc r (lib.get doc c.key))

  -- the indices of the elements of a list; the last of an element counts
  abbrev index_in : ElementId → ℕ → List lib.ObjId → Option ℕ
  index_in e i [] = none
  index_in e i (id ∷ ids) = elim (index_in e (suc i) ids) [
    | some later ↦ some later
    | none ↦ elim (element_of_bytes (lib.to_bytes id)) [
      | none ↦ none
      | some f ↦ if same_element f e then some i else none
    ]
  ]

  -- the lists at the root, with their elements as they are before the overrides
  unfoldable pub index_maps :
      lib.Doc → List (String × lib.ObjId × Value lib.Scalar) → List (lib.ObjId × List lib.ObjId)
  index_maps doc [] = []
  index_maps doc ((key, id, list_object) ∷ items) =
      (id, lib.list_range doc id) ∷ index_maps doc items
  index_maps doc ((key, id, other_object) ∷ items) = index_maps doc items
  index_maps doc ((key, id, scalar v) ∷ items) = index_maps doc items

  abbrev both_indices : Option ℕ → Option ℕ → Option (ℕ × ℕ)
  both_indices (some i) (some j) = some (i, j)
  both_indices (some i) none = none
  both_indices none j = none

  -- the first list that has both elements: the list and their indices
  unfoldable pub find_list :
      RgaConflict → List (lib.ObjId × List lib.ObjId) → Option (lib.ObjId × ℕ × ℕ)
  find_list c [] = none
  find_list c ((obj, ids) ∷ maps) =
      elim (both_indices (index_in c.local_element 0 ids) (index_in c.incoming_element 0 ids)) [
        | some (i, j) ↦ some (obj, i, j)
        | none ↦ find_list c maps
      ]

  -- the calls of the corrective write, up to the first that fails
  abbrev then_call : lib.Doc × Bool → (lib.Doc → Option lib.Doc) → lib.Doc × Bool
  then_call (doc, false) call = (doc, false)
  then_call (doc, true) call = elim (call doc) [ none ↦ (doc, false) | some doc₂ ↦ (doc₂, true) ]

  unfoldable pub reorder : RgaConflict → lib.ObjId → (lo hi : ℕ) → lib.Doc → lib.Doc × Bool
  reorder c obj lo hi doc =
      let one = then_call (doc, true) (λ d. lib.delete d obj hi) in
      let two = then_call one (λ d. lib.delete d obj lo) in
      let three = then_call two (λ d. lib.insert d obj lo c.incoming_value) in
      then_call three (λ d. lib.insert d obj (lo + 1) c.local_value)

  abbrev pub reorder_result : VerificationReport → lib.Doc × Bool → State
  reorder_result r (doc, true) = (doc, record r { overrides_applied = r.overrides_applied + 1 })
  reorder_result r (doc, false) = (doc, record r { overrides_failed = r.overrides_failed + 1 })

  abbrev pub rga_round :
      Bool → RgaConflict → lib.Doc → VerificationReport → Option (lib.ObjId × ℕ × ℕ) → State
  rga_round definitive c doc r none = (doc, r)
  rga_round definitive c doc r (some (obj, idx_local, idx_incoming)) =
      let checked : VerificationReport = record r { rga_checked = r.rga_checked + 1 } in
      if not definitive
      then (doc, record checked { indeterminate = r.indeterminate + 1 })
      else if ltb idx_incoming idx_local
      then (doc, checked)
      else reorder_result (record checked { divergences = r.divergences + 1 })
          (reorder c obj (min idx_local idx_incoming) (max idx_local idx_incoming) doc)

  -- every round looks into the same indices
  unfoldable pub rga_rounds :
      Bool → List (lib.ObjId × List lib.ObjId) → List RgaConflict → State → State
  unfolding find_list
  rga_rounds definitive maps [] s = s
  rga_rounds definitive maps (c ∷ cs) (doc, r) =
      rga_rounds definitive maps cs (rga_round definitive c doc r (find_list c maps))

  -- the keys of the actors only matter for the log lines
  unfoldable pub verify_and_override :
      lib.Doc → ConflictSnapshot → (delta_lamport local_lamport : ℕ) → State
  verify_and_override doc snapshot delta_lamport local_lamport =
      let definitive = ltb local_lamport delta_lamport in
      let after_lww = lww_rounds definitive snapshot.lww (doc, no_report) in
      rga_rounds definitive (index_maps after_lww.0 (lib.map_range after_lww.0)) snapshot.rga
        after_lww
