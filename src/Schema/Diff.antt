-- ===== src/Schema/Diff.antt =====
-- tirbase-core/src/schema/diff.rs: what changes from a base schema to an incoming one, table by
-- table and field by field, and whether it is additive or breaking.
mod Quiet
pub mod Keeps
use tir_base.Prelude.{
  String, Bool, true, false, not, ◌&&◌, ◌||◌, Option, none, some, List, [], ◌∷◌, ◌++◌, map,
  if◌then◌else◌, ◌==◌, string_eq, contains, keep, is_empty, lookup,
}
use tir_base.Schema.{Schema, TableDef, FieldDef, canonical_str, sort_names, collect_by, keys}

pub record FieldRef : Type 0 where
  pub table : String
  pub field : String

pub record RetypedField : Type 0 where
  pub table : String
  pub field : String
  pub from : String
  pub to : String

pub record SchemaDiff : Type 0 where
  pub added_tables : List String
  pub removed_tables : List String
  pub added_fields : List FieldRef
  pub removed_fields : List FieldRef
  pub retyped_fields : List RetypedField

unfoldable pub is_identical : SchemaDiff → Bool
is_identical d =
    is_empty d.added_tables
    && is_empty d.removed_tables
    && is_empty d.added_fields
    && is_empty d.removed_fields
    && is_empty d.retyped_fields

unfoldable pub is_additive : SchemaDiff → Bool
unfolding is_identical
is_additive d =
    not (is_identical d)
    && is_empty d.removed_tables
    && is_empty d.removed_fields
    && is_empty d.retyped_fields

unfoldable pub is_breaking : SchemaDiff → Bool
is_breaking d =
    not (is_empty d.removed_tables)
    || not (is_empty d.removed_fields)
    || not (is_empty d.retyped_fields)

abbrev pub tables_by_name : Schema → List (String × TableDef)
tables_by_name s = collect_by (λ t. t.name) s.tables []

abbrev pub fields_by_name : TableDef → List (String × FieldDef)
fields_by_name t = collect_by (λ f. f.name) t.fields []

-- the names of the first list that the second has not, in order
abbrev pub missing : List String → List String → List String
missing names others = keep (λ name. not (contains others name)) names

abbrev pub field_ref : String → String → FieldRef
field_ref table field = record { table = table; field = field }

-- a field of the base table and its namesake of the incoming one, if their types differ
abbrev pub type_change :
    String → String → Option FieldDef → Option FieldDef → List RetypedField → List RetypedField
type_change table field (some base) (some incoming) rest =
    if canonical_str base.field_type == canonical_str incoming.field_type
    then rest
    else record {
      table = table;
      field = field;
      from = canonical_str base.field_type;
      to = canonical_str incoming.field_type;
    }
      ∷ rest
type_change table field (some base) none rest = rest
type_change table field none incoming rest = rest

unfoldable pub retyped :
    String → List (String × FieldDef) → List (String × FieldDef) → List String → List RetypedField
retyped table base incoming [] = []
retyped table base incoming (field ∷ fields) =
    type_change table field (lookup field base) (lookup field incoming)
      (retyped table base incoming fields)

-- the fields of a table of both schemas
abbrev pub diff_fields : String → Option TableDef → Option TableDef → SchemaDiff → SchemaDiff
diff_fields name (some base) (some incoming) diff =
    let base_map = fields_by_name base in
    let incoming_map = fields_by_name incoming in
    let base_names = sort_names (keys base_map) in
    let incoming_names = sort_names (keys incoming_map) in
    record diff {
      removed_fields =
          diff.removed_fields ++ map (field_ref name) (missing base_names incoming_names);
      added_fields = diff.added_fields ++ map (field_ref name) (missing incoming_names base_names);
      retyped_fields = diff.retyped_fields ++ retyped name base_map incoming_map base_names;
    }
diff_fields name (some base) none diff = diff
diff_fields name none incoming diff = diff

-- a table that is in one schema only is skipped
unfoldable pub diff_tables :
    List (String × TableDef) → List (String × TableDef) → List String → SchemaDiff → SchemaDiff
diff_tables base incoming [] diff = diff
diff_tables base incoming (name ∷ names) diff =
    diff_tables base incoming names
      (diff_fields name (lookup name base) (lookup name incoming) diff)

unfoldable pub diff_schemas : Schema → Schema → SchemaDiff
diff_schemas base incoming =
    let base_tables = tables_by_name base in
    let incoming_tables = tables_by_name incoming in
    let base_names = sort_names (keys base_tables) in
    let incoming_names = sort_names (keys incoming_tables) in
    diff_tables base_tables incoming_tables base_names (record {
      added_tables = missing incoming_names base_names;
      removed_tables = missing base_names incoming_names;
      added_fields = [];
      removed_fields = [];
      retyped_fields = [];
    })
