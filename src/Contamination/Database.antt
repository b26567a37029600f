-- ===== src/Contamination/Database.antt =====
-- The part of the SQLite database that the contamination engine shares with the DAG and the store:
-- the DAG's tables, and the rows of the projection tables (store/projection.rs) with their flags.
use tir_base.Prelude.{
  Bool, true, false, ◌&&◌, String, List, [], ◌∷◌, if◌then◌else◌, ◌==◌, string_eq,
}
use tir_base.Crdt.Dag.{ChangesetDag}

pub record ProjRow : Type 0 where
  pub table : String
  pub row_key : String
  pub flagged : Bool

pub record Database : Type 0 where
  pub dag : ChangesetDag
  pub proj : List ProjRow

-- UPDATE … SET contaminated = flag WHERE key = ?
abbrev pub set_flag : Bool → String → String → List ProjRow → List ProjRow
set_flag b t k [] = []
set_flag b t k (r ∷ rs) =
    (if r.table == t && r.row_key == k then record r { flagged = b } else r) ∷ set_flag b t k rs

unfoldable pub mark_row_contaminated : String → String → Database → Database
mark_row_contaminated t k db = record db { proj = set_flag true t k db.proj }

unfoldable pub clear_row_contamination : String → String → Database → Database
clear_row_contamination t k db = record db { proj = set_flag false t k db.proj }
