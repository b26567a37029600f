-- ===== src/Schema/Examples.antt =====
-- Schema changes at concrete schemas.
use tir_base.Prelude.{
  ◌≡◌, ◌↔◌, refl, String, true, false, none, some, List, [], ◌∷◌, string_eq, str_leb,
}
use tir_base.Schema.{Schema, FieldDef, FieldType, text, integer, never, sort_names}
use tir_base.Schema.Diff.{
  diff_schemas, diff_tables, retyped, is_breaking, is_additive, is_identical,
}
use tir_base.Schema.Diff.Keeps.{has_table, type_of, is_breaking_iff}

abbrev field : String → FieldType → FieldDef
field name type = record { name = name; field_type = type; nullable = false; default = none }

abbrev pub schema : List FieldDef → Schema
schema fields = record {
  tables =
      record { name = "beds"; fields = fields; compaction_policy = never; constraints = [] } ∷ [];
  version = "1.0.0";
}

abbrev pub old_schema : Schema
old_schema = schema (field "id" text ∷ [])

abbrev pub wider_schema : Schema
wider_schema = schema (field "ward" integer ∷ field "id" text ∷ [])

abbrev pub retyped_schema : Schema
retyped_schema = schema (field "id" integer ∷ [])

wider_schema-additive : is_additive (diff_schemas old_schema wider_schema) ≡ true
unfolding is_additive is_identical diff_schemas diff_tables retyped sort_names str_leb
wider_schema-additive = refl

retyped_schema-breaking : is_breaking (diff_schemas old_schema retyped_schema) ≡ true
unfolding is_breaking diff_schemas diff_tables retyped sort_names str_leb
retyped_schema-breaking = refl

is_breaking_iff_example : (is_breaking (diff_schemas old_schema wider_schema) ≡ false) ↔ (
    ((t : String) → has_table old_schema t ≡ true → has_table wider_schema t ≡ true)
    × ((t f ty : String) → type_of old_schema t f ≡ some ty → type_of wider_schema t f ≡ some ty))
is_breaking_iff_example = is_breaking_iff old_schema wider_schema
