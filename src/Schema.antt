-- ===== src/Schema.antt =====
-- tirbase-core/src/schema/mod.rs: schemas, and CompactionPolicy of store/compaction.rs. A `f64`
-- is the number of its bits.
pub mod Diff
pub mod Hash
pub mod Examples
use tir_base.Prelude.{
  ℕ, String, Bool, true, false, ◌&&◌, ◌||◌, Option, List, [], ◌∷◌, ℤ, if◌then◌else◌, ltb, string_eq,
  str_leb, insert,
}

pub data CompactionPolicy : Type 0 where
  aggressive : ℕ → CompactionPolicy
  never : CompactionPolicy

-- should_compact of store/compaction.rs
unfoldable pub should_compact : CompactionPolicy → ℕ → Bool
should_compact (aggressive threshold) current_delta_count = ltb threshold current_delta_count
should_compact never current_delta_count = false

pub data FieldType : Type 0 where
  text integer real blob boolean : FieldType

abbrev pub canonical_str : FieldType → String
canonical_str text = "TEXT"
canonical_str integer = "INTEGER"
canonical_str real = "REAL"
canonical_str blob = "BLOB"
canonical_str boolean = "BOOLEAN"

pub data DefaultValue : Type 0 where
  text_value : String → DefaultValue
  integer_value : ℤ → DefaultValue
  real_value : ℕ → DefaultValue
  boolean_value : Bool → DefaultValue
  null : DefaultValue

pub data Constraint : Type 0 where
  primary_key unique : List String → Constraint
  not_null : String → Constraint

pub record FieldDef : Type 0 where
  pub name : String
  pub field_type : FieldType
  pub nullable : Bool
  pub default : Option DefaultValue

pub record TableDef : Type 0 where
  pub name : String
  pub fields : List FieldDef
  pub compaction_policy : CompactionPolicy
  pub constraints : List Constraint

pub record Schema : Type 0 where
  pub tables : List TableDef
  pub version : String

-- `names.sort()`
abbrev pub insert_name : String → List String → List String
insert_name a [] = a ∷ []
insert_name a (b ∷ bs) = let rest = insert_name a bs in if str_leb a b then a ∷ b ∷ bs else b ∷ rest

unfoldable pub sort_names : List String → List String
sort_names [] = []
sort_names (a ∷ names) = insert_name a (sort_names names)

-- a hash map collected from the pairs of names and definitions: the last of a name stays
abbrev pub collect_by {ℓ} :
    {A : Type ℓ} → (A → String) → List A → List (String × A) → List (String × A)
collect_by name [] m = m
collect_by name (a ∷ rest) m = collect_by name rest (insert (name a) a m)

abbrev pub keys {ℓ} : {A : Type ℓ} → List (String × A) → List String
keys [] = []
keys ((k, a) ∷ m) = k ∷ keys m
