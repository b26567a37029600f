-- ===== src/Durability/Quorum/Examples.antt =====
-- Tests and instances for the quorum, with a share in percent in place of f64.
use tir_base.Prelude.{
  ℕ, ◌+◌, ◌*◌, ◌≡◌, ◌≤◌, refl, Bool, true, Option, none, some, List, [], ◌∷◌, String, pos, ltb,
  contains, string_eq, Distinct, length,
}
use tir_base.Crdt.Delta.{Did}
use tir_base.Durability.Quorum.{
  DurabilityReceipt, QuorumConfig, new, add_receipt_with_tag, satisfies_diversity,
  effective_min_distinct, tagged_receipt_count,
}
use tir_base.Durability.Quorum.Issuers.{firsts, run, issued_by, tier1_issuers}

abbrev over : ℕ → ℕ → ℕ → Bool
over count total percent = ltb (percent * total) (100 * count)

abbrev config : QuorumConfig ℕ
config = record { k = 2; n = 5; spatial_diversity_min = 2; max_single_sector_fraction = 60 }

abbrev receipt : Did → String → DurabilityReceipt × Option String
receipt did tag = (
  record {
    id = 1;
    state_hash = 7;
    issuer_did = did;
    issuer_signature = [];
    spatial_tag = some tag;
    beacon_token = none;
    issued_at = pos 0;
  },
  none,
)

abbrev arrivals : List (DurabilityReceipt × Option String)
arrivals = receipt "a" "north" ∷ receipt "a" "north" ∷ receipt "b" "south" ∷ []

tier1_issuers_example :
    let t = run over arrivals (new config) in
    (t.tier1_achieved ≡ true
      → (issuers : List Did) × Distinct issuers
        × (2 ≤ length issuers)
        × ((who : Did) → contains issuers who ≡ issued_by over arrivals who))
    × (length t.seen_issuers ≡ length t.receipts)
    × (t.receipts ≡ firsts over [] arrivals)
    × (tagged_receipt_count t.spatial + t.spatial.untagged ≡ length t.receipts)
tier1_issuers_example = tier1_issuers over config arrivals

reached : (run over arrivals (new config)).tier1_achieved ≡ true
unfolding run new add_receipt_with_tag satisfies_diversity effective_min_distinct
reached = refl
