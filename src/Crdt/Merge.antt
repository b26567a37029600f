-- ===== src/Crdt/Merge.antt =====
-- tirbase-core/src/crdt/merge.rs and the comparisons of crdt/mod.rs: the outcome of a merge, and
-- which of two concurrent writes wins. A byte text is ordered byte by byte.
pub mod Order
use tir_base.Prelude.{
  ℕ, String, Bool, true, false, ◌&&◌, ◌||◌, List, [], ◌∷◌, ltb, eqb, if◌then◌else◌,
}

pub data QuarantineReason : Type 0 where
  breaking_schema_change unknown_schema_hash missing_or_malformed_hash : QuarantineReason

-- the reason of a rejection is a text for the reader, and left out
pub data MergeOutcome : Type 0 where
  merged : (new_lamport : ℕ) → MergeOutcome
  quarantined : QuarantineReason → MergeOutcome
  rejected : MergeOutcome

-- `a > b` on byte slices
unfoldable pub bytes_gt : List ℕ → List ℕ → Bool
bytes_gt [] bs = false
bytes_gt (a ∷ more) [] = true
bytes_gt (a ∷ more) (b ∷ bs) =
    let rest = bytes_gt more bs in if ltb b a then true else eqb a b && rest

unfoldable pub lww_incoming_wins : ℕ → List ℕ → ℕ → List ℕ → Bool
lww_incoming_wins incoming_lamport incoming_actor current_lamport current_actor =
    if ltb current_lamport incoming_lamport
    then true
    else if ltb incoming_lamport current_lamport
    then false
    else bytes_gt incoming_actor current_actor

unfoldable pub rga_incoming_has_priority : ℕ → List ℕ → ℕ → List ℕ → Bool
unfolding lww_incoming_wins
rga_incoming_has_priority incoming_lamport incoming_actor current_lamport current_actor =
    lww_incoming_wins incoming_lamport incoming_actor current_lamport current_actor

unfoldable pub merge_lww : ℕ → List ℕ → ℕ → List ℕ → Bool
unfolding lww_incoming_wins
merge_lww incoming_lamport incoming_actor_id current_lamport current_actor_id =
    lww_incoming_wins incoming_lamport incoming_actor_id current_lamport current_actor_id

unfoldable pub merge_rga : ℕ → List ℕ → ℕ → List ℕ → Bool
unfolding rga_incoming_has_priority
merge_rga incoming_lamport incoming_actor_id current_lamport current_actor_id =
    rga_incoming_has_priority incoming_lamport incoming_actor_id current_lamport current_actor_id
