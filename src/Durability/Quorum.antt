-- ===== src/Durability/Quorum.antt =====
-- tirbase-core/src/durability/quorum.rs and spatial.rs: the tracker of receipts for one delta set.
-- f64 is the type `F`, and `over count total f` is its test `count / total > f`. Counters do not
-- wrap. The log line of a degraded diversity is left out.
pub mod Issuers
mod Examples
use tir_base.Prelude.{
  ℕ, zero, suc, ◌+◌, Bool, true, false, not, ◌&&◌, Option, none, some, List, [], ◌∷◌, ◌++◌, String,
  ℤ, ltb, leb, eqb, if◌then◌else◌, ◌==◌, string_eq, contains, length, lookup, insert,
}
use tir_base.Error.{Result, ok}
use tir_base.Crdt.Delta.{Did}

pub record BeaconToken : Type 0 where
  pub beacon_did : Did
  pub beacon_signature : List ℕ
  pub epoch : ℕ
  pub location_claim : String
  pub issued_at : ℤ

pub record DurabilityReceipt : Type 0 where
  pub id : ℕ
  pub state_hash : ℕ
  pub issuer_did : Did
  pub issuer_signature : List ℕ
  pub spatial_tag : Option String
  pub beacon_token : Option BeaconToken
  pub issued_at : ℤ

pub record SpatialDiversityTracker : Type 0 where
  pub tag_counts : List (String × ℕ)
  pub untagged : ℕ

abbrev pub count_or_zero : Option ℕ → ℕ
count_or_zero none = 0
count_or_zero (some n) = n

-- SpatialDiversityTracker::add
abbrev pub add : Option String → SpatialDiversityTracker → SpatialDiversityTracker
add none s = record s { untagged = suc s.untagged }
add (some tag) s = record s {
  tag_counts = insert tag (suc (count_or_zero (lookup tag s.tag_counts))) s.tag_counts;
}

abbrev pub distinct_tag_count : SpatialDiversityTracker → ℕ
distinct_tag_count s = length s.tag_counts

abbrev pub sum_counts : List (String × ℕ) → ℕ
sum_counts [] = 0
sum_counts ((tag, n) ∷ rest) = n + sum_counts rest

abbrev pub tagged_receipt_count : SpatialDiversityTracker → ℕ
tagged_receipt_count s = sum_counts s.tag_counts

module _ {F : Type 0} (over : ℕ → ℕ → F → Bool) where
  -- some tag has more than its share
  abbrev pub any_over : F → ℕ → List (String × ℕ) → Bool
  any_over f total [] = false
  any_over f total ((tag, count) ∷ rest) =
      if over count total f then true else any_over f total rest

  unfoldable pub satisfies_diversity : ℕ → F → ℕ → SpatialDiversityTracker → Bool
  satisfies_diversity min_tags f total s =
      if ltb (distinct_tag_count s) min_tags
      then true
      else if eqb total 0
      then false
      else not (any_over f total s.tag_counts)

pub record QuorumConfig (F : Type 0) : Type 0 where
  pub k : ℕ
  pub n : ℕ
  pub spatial_diversity_min : ℕ
  pub max_single_sector_fraction : F

pub record Tier1QuorumTracker (F : Type 0) : Type 0 where
  pub config : QuorumConfig F
  pub receipts : List DurabilityReceipt
  pub seen_issuers : List Did
  pub spatial : SpatialDiversityTracker
  pub tier1_achieved : Bool

unfoldable pub new : {F : Type 0} → QuorumConfig F → Tier1QuorumTracker F
new config = record {
  config = config;
  receipts = [];
  seen_issuers = [];
  spatial = record { tag_counts = []; untagged = 0 };
  tier1_achieved = false;
}

abbrev min_ℕ : ℕ → ℕ → ℕ
min_ℕ a b = if leb a b then a else b

unfoldable pub effective_min_distinct : {F : Type 0} → Tier1QuorumTracker F → ℕ
effective_min_distinct t =
    if eqb t.config.spatial_diversity_min 0
    then min_ℕ t.config.k (distinct_tag_count t.spatial)
    else t.config.spatial_diversity_min

-- `diversity_tag.or(receipt.spatial_tag)`
abbrev pub tag_or : Option String → Option String → Option String
tag_or (some t) own = some t
tag_or none own = own

module _ {F : Type 0} (over : ℕ → ℕ → F → Bool) where
  -- a receipt of a new issuer, counted
  abbrev pub counted :
      DurabilityReceipt → Option String → Tier1QuorumTracker F → Tier1QuorumTracker F
  counted receipt tag t = record t {
    spatial = add (tag_or tag receipt.spatial_tag) t.spatial;
    seen_issuers = receipt.issuer_did ∷ t.seen_issuers;
    receipts = t.receipts ++ receipt ∷ [];
  }

  abbrev pub quorum_formed : Tier1QuorumTracker F → Bool
  quorum_formed t =
      not t.tier1_achieved
      && leb t.config.k (length t.receipts)
      && satisfies_diversity over (effective_min_distinct t) t.config.max_single_sector_fraction
          (length t.receipts) t.spatial

  unfoldable pub add_receipt_with_tag :
      DurabilityReceipt → Option String → Tier1QuorumTracker F → Bool × Tier1QuorumTracker F
  add_receipt_with_tag receipt tag t =
      if contains t.seen_issuers receipt.issuer_did
      then (t.tier1_achieved, t)
      else let t' = counted receipt tag t in
        if quorum_formed t' then (true, record t' { tier1_achieved = true }) else (false, t')

  unfoldable pub add_receipt :
      DurabilityReceipt → Tier1QuorumTracker F → Bool × Tier1QuorumTracker F
  add_receipt receipt t = add_receipt_with_tag receipt none t
