-- ===== src/Schema/Diff/Keeps.antt =====
-- What the classification means: a schema that is not breaking keeps every table and every field
-- of the base, with its type.
use tir_base.Prelude.{
  ◌≡◌, ◌↔◌, refl, sym, ap, ◌∙◌, String, Bool, true, false, ◌&&◌, Option, none, some, arith,
  string_eq, contains, is_some, lookup,
}
use text.Mathlib.TextEquality.{eq_iff}
use tir_base.Schema.{Schema, TableDef, FieldDef, canonical_str, sort_names, keys}
use tir_base.Schema.Diff.{is_breaking, tables_by_name, fields_by_name, diff_schemas}
use tir_base.Schema.Diff.Quiet.{names_of, all_iff, field_kept, table_kept, base_names, not_breaking}

-- The independent description: the tables and the types of the fields that a schema declares.
abbrev pub has_table : Schema → String → Bool
has_table s t = is_some (lookup t (tables_by_name s))

abbrev type_text : Option FieldDef → Option String
type_text none = none
type_text (some f) = some (canonical_str f.field_type)

abbrev type_in : Option TableDef → String → Option String
type_in none f = none
type_in (some t) f = type_text (lookup f (fields_by_name t))

abbrev pub type_of : Schema → String → String → Option String
type_of s t f = type_in (lookup t (tables_by_name s)) f

field_iff :
    (base incoming : Option FieldDef)
    → is_some base ≡ true
    → ((is_some incoming && field_kept base incoming) ≡ true)
      ↔ ((ty : String) → type_text base ≡ some ty → type_text incoming ≡ some ty)
field_iff none incoming there = cc
field_iff (some b) none there = (λ h. cc, λ h. absurd (cc (h (canonical_str b.field_type) refl)))
field_iff (some b) (some i) there = (
  λ same ty e.
      ap some (sym ((eq_iff (canonical_str b.field_type) (canonical_str i.field_type)).0 same)) ∙ e,
  λ h.
      let e : canonical_str b.field_type ≡ canonical_str i.field_type =
        cc (h (canonical_str b.field_type) refl) in
      (eq_iff (canonical_str b.field_type) (canonical_str i.field_type)).1 e,
)

present : {A : Type 0} (o : Option A) (a : A) → o ≡ some a → is_some o ≡ true
present o a e = rw e refl

table_iff :
    (base incoming : Option TableDef)
    → is_some base ≡ true
    → is_some incoming ≡ true
    → (table_kept base incoming ≡ true)
      ↔ ((f ty : String) → type_in base f ≡ some ty → type_in incoming f ≡ some ty)
table_iff none incoming there kept_there = cc
table_iff (some b) none there kept_there = cc
table_iff (some b) (some i) there kept_there =
    let bm = fields_by_name b in
    let im = fields_by_name i in
    let kept : String → Bool =
      λ f. is_some (lookup f im) && field_kept (lookup f bm) (lookup f im) in
    let every = all_iff kept (sort_names (keys bm)) in
    (
      λ h f ty e.
          let has : is_some (lookup f bm) ≡ true = has_type f (lookup f bm) ty e in
          (field_iff (lookup f bm) (lookup f im) has).0 (every.0 h f (names_of bm f ∙ has)) ty e,
      λ h. every.1 λ f m. (field_iff (lookup f bm) (lookup f im) (sym (names_of bm f) ∙ m)).1 (h f),
    )
  where
    has_type :
        (f : String) (o : Option FieldDef) (ty : String) → type_text o ≡ some ty → is_some o ≡ true
    has_type f none ty e = cc
    has_type f (some d) ty e = refl

table_of_type : (o : Option TableDef) (f ty : String) → type_in o f ≡ some ty → is_some o ≡ true
table_of_type none f ty e = cc
table_of_type (some t) f ty e = refl

-- A change of schema is not breaking exactly when every table of the base schema is a table of
-- the incoming one, and every field of the base has there the type it had.
pub is_breaking_iff :
    (base incoming : Schema)
    → (is_breaking (diff_schemas base incoming) ≡ false) ↔ (
        ((t : String) → has_table base t ≡ true → has_table incoming t ≡ true)
        × ((t f ty : String) → type_of base t f ≡ some ty → type_of incoming t f ≡ some ty))
is_breaking_iff base incoming =
    let b = tables_by_name base in
    let i = tables_by_name incoming in
    let split = not_breaking base incoming in
    let tables = all_iff (λ t. contains (base_names incoming) t) (base_names base) in
    let fields = all_iff (λ t. table_kept (lookup t b) (lookup t i)) (base_names base) in
    (
      λ h.
          let keeps : (t : String) → has_table base t ≡ true → has_table incoming t ≡ true =
            λ t m. sym (names_of i t) ∙ tables.0 (ground (arith, split, h)) t (names_of b t ∙ m) in
          (
            keeps,
            λ t f ty e.
                let m : is_some (lookup t b) ≡ true = table_of_type (lookup t b) f ty e in
                (table_iff (lookup t b) (lookup t i) m (keeps t m)).0
                  (fields.0 (ground (arith, split, h)) t (names_of b t ∙ m)) f ty e,
          ),
      λ h.
          let all_tables = tables.1 (λ t m. names_of i t ∙ h.0 t (sym (names_of b t) ∙ m)) in
          let all_fields = fields.1 λ t m.
            let known : is_some (lookup t b) ≡ true = sym (names_of b t) ∙ m in
            (table_iff (lookup t b) (lookup t i) known (h.0 t known)).1 (h.1 t) in
          ground (arith, split, all_tables, all_fields),
    )
