-- ===== src/Schema/Diff/Quiet.antt =====
-- The verdict of the diff as one test over the names of the base schema.
use tir_base.Prelude.{
  ◌≡◌, ◌↔◌, refl, sym, ap, ◌∙◌, inl, inr, String, Bool, true, false, not, ◌&&◌, ◌||◌, Option, none,
  some, List, [], ◌∷◌, ◌++◌, map, arith, ◌==◌, string_eq, Bool-cases, contains, is_empty, is_some,
  all, lookup,
}
use text.Mathlib.TextEquality.{eq_iff}
use tir_base.Schema.{Schema, TableDef, FieldDef, canonical_str, insert_name, sort_names, keys}
use tir_base.Schema.Diff.{
  RetypedField, SchemaDiff, is_breaking, tables_by_name, fields_by_name, missing, field_ref,
  type_change, retyped, diff_fields, diff_tables, diff_schemas,
}

-- The names of a map, sorted, are its keys.
contains-insert_name :
    (a : String) (names : List String) (b : String)
    → contains (insert_name a names) b ≡ (a == b || contains names b)
contains-insert_name a [] b = refl
contains-insert_name a (c ∷ names) b = ground (arith, contains-insert_name a names b)

contains-sort_names :
    (names : List String) (b : String) → contains (sort_names names) b ≡ contains names b
unfolding sort_names
contains-sort_names [] b = refl
contains-sort_names (a ∷ names) b =
    contains-insert_name a (sort_names names) b
    ∙ ap (λ c. a == b || c) (contains-sort_names names b)

contains-keys :
    {A : Type 0} (m : List (String × A)) (k : String) → contains (keys m) k ≡ is_some (lookup k m)
contains-keys [] k = refl
contains-keys ((j, a) ∷ m) k = ground (arith, contains-keys m k)

pub names_of :
    {A : Type 0} (m : List (String × A)) (k : String)
    → contains (sort_names (keys m)) k ≡ is_some (lookup k m)
names_of m k = contains-sort_names (keys m) k ∙ contains-keys m k

pub all_iff :
    (p : String → Bool) (names : List String)
    → (all p names ≡ true) ↔ ((a : String) → contains names a ≡ true → p a ≡ true)
all_iff p [] = (λ e a h. cc, λ h. refl)
all_iff p (b ∷ names) = (
  λ e a h. elim (Bool-cases (b == a)) [
    | inl same ↦ ap p (sym ((eq_iff b a).0 same)) ∙ ground (arith, e)
    | inr other ↦ (all_iff p names).0 (ground (arith, e)) a (ground (arith, h, other))
  ],
  λ h. ground (
    arith,
    h b (ground (arith, (eq_iff b b).1 refl)),
    (all_iff p names).1 (λ a m. h a (ground (arith, m))),
  ),
)

is_empty-missing :
    (names others : List String)
    → is_empty (missing names others) ≡ all (λ name. contains others name) names
is_empty-missing [] others = refl
is_empty-missing (a ∷ names) others = ground (arith, is_empty-missing names others)

is_empty-append : {A : Type 0} (xs ys : List A) → is_empty (xs ++ ys) ≡ (is_empty xs && is_empty ys)
is_empty-append [] ys = refl
is_empty-append (x ∷ xs) ys = refl

is_empty-map : {A B : Type 0} (f : A → B) (xs : List A) → is_empty (map f xs) ≡ is_empty xs
is_empty-map f [] = refl
is_empty-map f (x ∷ xs) = refl

-- the field of the base is in the incoming table, with its type
abbrev pub field_kept : Option FieldDef → Option FieldDef → Bool
field_kept none incoming = true
field_kept (some base) none = false
field_kept (some base) (some incoming) =
    canonical_str base.field_type == canonical_str incoming.field_type

is_empty-type_change :
    (table field : String) (base incoming : Option FieldDef) (rest : List RetypedField)
    → (is_some incoming && is_empty (type_change table field base incoming rest))
      ≡ (is_some incoming && field_kept base incoming && is_empty rest)
is_empty-type_change table field none none rest = refl
is_empty-type_change table field none (some i) rest = refl
is_empty-type_change table field (some b) none rest = refl
is_empty-type_change table field (some b) (some i) rest = ground arith

fields_kept :
    (table : String) (base incoming : List (String × FieldDef)) (names : List String)
    → (all (λ f. is_some (lookup f incoming)) names && is_empty (retyped table base incoming names))
      ≡ all
          (λ f. is_some (lookup f incoming) && field_kept (lookup f base) (lookup f incoming))
          names
unfolding retyped
fields_kept table base incoming [] = refl
fields_kept table base incoming (f ∷ names) = ground (
  arith,
  fields_kept table base incoming names,
  is_empty-type_change table f (lookup f base) (lookup f incoming)
      (retyped table base incoming names),
)

all-congr :
    (p q : String → Bool) (names : List String)
    → ((a : String) → p a ≡ q a)
    → all p names ≡ all q names
all-congr p q [] e = refl
all-congr p q (a ∷ names) e = ground (arith, e a, all-congr p q names e)

-- every field of the base table is kept
abbrev pub table_kept : Option TableDef → Option TableDef → Bool
table_kept (some base) (some incoming) =
    all
      (λ f.
        is_some (lookup f (fields_by_name incoming))
        && field_kept (lookup f (fields_by_name base)) (lookup f (fields_by_name incoming)))
      (sort_names (keys (fields_by_name base)))
table_kept (some base) none = true
table_kept none incoming = true

-- no field was removed or retyped so far
abbrev quiet : SchemaDiff → Bool
quiet d = is_empty d.removed_fields && is_empty d.retyped_fields

fields_missing :
    (base incoming : List (String × FieldDef))
    → is_empty (missing (sort_names (keys base)) (sort_names (keys incoming)))
      ≡ all (λ f. is_some (lookup f incoming)) (sort_names (keys base))
fields_missing base incoming =
    is_empty-missing (sort_names (keys base)) (sort_names (keys incoming))
    ∙ all-congr (λ f. contains (sort_names (keys incoming)) f) (λ f. is_some (lookup f incoming))
        (sort_names (keys base)) (names_of incoming)

quiet-diff_fields :
    (name : String) (base incoming : Option TableDef) (d : SchemaDiff)
    → quiet (diff_fields name base incoming d) ≡ (quiet d && table_kept base incoming)
quiet-diff_fields name none incoming d = ground arith
quiet-diff_fields name (some base) none d = ground arith
quiet-diff_fields name (some base) (some incoming) d =
    let bm = fields_by_name base in
    let im = fields_by_name incoming in
    let names = sort_names (keys bm) in
    let gone = map (field_ref name) (missing names (sort_names (keys im))) in
    let changed = retyped name bm im names in
    rw
      (
        is_empty-append d.removed_fields gone,
        is_empty-append d.retyped_fields changed,
        is_empty-map (field_ref name) (missing names (sort_names (keys im))),
        fields_missing bm im,
        ← fields_kept name bm im names,
      )
      (ground arith)

quiet-diff_tables :
    (base incoming : List (String × TableDef)) (names : List String) (d : SchemaDiff)
    → quiet (diff_tables base incoming names d)
      ≡ (quiet d && all (λ t. table_kept (lookup t base) (lookup t incoming)) names)
unfolding diff_tables
quiet-diff_tables base incoming [] d = ground arith
quiet-diff_tables base incoming (t ∷ names) d = ground (
  arith,
  quiet-diff_tables base incoming names (diff_fields t (lookup t base) (lookup t incoming) d),
  quiet-diff_fields t (lookup t base) (lookup t incoming) d,
)

removed_tables-diff_fields :
    (name : String) (base incoming : Option TableDef) (d : SchemaDiff)
    → (diff_fields name base incoming d).removed_tables ≡ d.removed_tables
removed_tables-diff_fields name none incoming d = refl
removed_tables-diff_fields name (some base) none d = refl
removed_tables-diff_fields name (some base) (some incoming) d = refl

removed_tables-diff_tables :
    (base incoming : List (String × TableDef)) (names : List String) (d : SchemaDiff)
    → (diff_tables base incoming names d).removed_tables ≡ d.removed_tables
unfolding diff_tables
removed_tables-diff_tables base incoming [] d = refl
removed_tables-diff_tables base incoming (t ∷ names) d =
    removed_tables-diff_tables base incoming names
      (diff_fields t (lookup t base) (lookup t incoming) d)
    ∙ removed_tables-diff_fields t (lookup t base) (lookup t incoming) d

abbrev pub base_names : Schema → List String
base_names s = sort_names (keys (tables_by_name s))

pub not_breaking :
    (base incoming : Schema)
    → not (is_breaking (diff_schemas base incoming)) ≡ (
        all (λ t. contains (base_names incoming) t) (base_names base)
        && all
            (λ t. table_kept (lookup t (tables_by_name base)) (lookup t (tables_by_name incoming)))
            (base_names base))
unfolding is_breaking diff_schemas
not_breaking base incoming =
    let start : SchemaDiff = record {
      added_tables = missing (base_names incoming) (base_names base);
      removed_tables = missing (base_names base) (base_names incoming);
      added_fields = [];
      removed_fields = [];
      retyped_fields = [];
    } in
    let b = tables_by_name base in
    let i = tables_by_name incoming in
    let e = quiet-diff_tables b i (base_names base) start in
    rw (removed_tables-diff_tables b i (base_names base) start)
      (ground (arith, e, is_empty-missing (base_names base) (base_names incoming)))
