-- ===== src/Schema/Hash.antt =====
-- tirbase-core/src/schema/hash.rs and Schema::identifier_hash of schema/mod.rs: the bytes that
-- identify the structure of a schema, and their SHA-256 hash as a number. The bytes of a text are
-- the function `utf8`.
use tir_base.Prelude.{ℕ, ◌+◌, ◌*◌, String, List, [], ◌∷◌, ◌++◌, map, if◌then◌else◌, str_leb}
use tir_base.Identity.{Crypto}
use tir_base.Schema.{Schema, canonical_str}

-- `sort_by_key(|(name, _)| *name)`, which is stable
abbrev insert_named {ℓ} : {A : Type ℓ} → String × A → List (String × A) → List (String × A)
insert_named x [] = x ∷ []
insert_named (a, x) ((b, y) ∷ rest) =
    let after = insert_named (a, x) rest in
    if str_leb a b then (a, x) ∷ (b, y) ∷ rest else (b, y) ∷ after

unfoldable pub sort_named {ℓ} : {A : Type ℓ} → List (String × A) → List (String × A)
sort_named [] = []
sort_named (x ∷ rest) = insert_named x (sort_named rest)

-- a big-endian number
abbrev pub from_bytes : ℕ → List ℕ → ℕ
from_bytes n [] = n
from_bytes n (b ∷ bytes) = from_bytes (n * 256 + b) bytes

module _ (crypto : Crypto) (utf8 : String → List ℕ) where
  abbrev fields_input : List (String × String) → List ℕ
  fields_input [] = []
  fields_input ((name, type) ∷ fields) =
      utf8 name ++ utf8 ":" ++ utf8 type ++ utf8 ";" ++ fields_input fields

  unfoldable tables_input : List (String × List (String × String)) → List ℕ
  tables_input [] = []
  tables_input ((name, fields) ∷ tables) =
      utf8 name ++ utf8 "|" ++ fields_input (sort_named fields) ++ utf8 "||" ++ tables_input tables

  unfoldable pub compute_schema_identifier_hash : List (String × List (String × String)) → ℕ
  unfolding tables_input sort_named
  compute_schema_identifier_hash tables =
      from_bytes 0 (crypto.sha256 (tables_input (sort_named tables)))

  unfoldable pub identifier_hash : Schema → ℕ
  identifier_hash schema =
      compute_schema_identifier_hash (
        map (λ t. (t.name, map (λ f. (f.name, canonical_str f.field_type)) t.fields)) schema.tables)
