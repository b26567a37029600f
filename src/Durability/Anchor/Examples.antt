-- ===== src/Durability/Anchor/Examples.antt =====
-- A beacon that attests a location, a replayed token, and a threshold that is too large.
use tir_base.Prelude.{
  ℕ, ◌≡◌, ◌≤◌, refl, String, true, false, some, List, [], ◌∷◌, pos, nat_eq, contains, ◌-ℤ◌,
}
use tir_base.Error.{is_ok}
use tir_base.Identity.{verify}
use tir_base.Durability.Quorum.{BeaconToken}
use tir_base.Durability.Anchor.{
  AnchorAttestedLocation, beacon_attested, advance_epoch, find_beacon_key, check_signal_loss,
  verify_beacon_token, peer_has_valid_token,
}
use tir_base.Durability.Anchor.Counted.{
  AnchorStep, advance, count_token, epochs, loses, run, signed, peer_has_valid_token-run,
}
use tir_base.Examples.{crypto, repeat}

abbrev utf8 : String → List ℕ
utf8 s = []

abbrev start : AnchorAttestedLocation
start = record {
  beacon_registry = record { beacon_did = "did:key:z1"; public_key = 7 ∷ [] } ∷ [];
  current_epoch = 3;
  mode = beacon_attested;
  degradation_log = [];
  beacon_last_seen = [];
}

abbrev token : BeaconToken
token = record {
  beacon_did = "did:key:z1";
  beacon_signature = repeat 64 0;
  epoch = 5;
  location_claim = "gate";
  issued_at = pos 9;
}

abbrev steps : List AnchorStep
steps = advance 4 ∷ count_token token (pos 100) ∷ []

-- the token of epoch 5 is a replay in epoch 6
replay : (peer_has_valid_token crypto utf8 token (pos 100) (advance_epoch 6 start)).1 ≡ false
unfolding peer_has_valid_token verify_beacon_token advance_epoch verify
replay = refl

seen : check_signal_loss (pos 160) 60 (run crypto utf8 steps start) ≡ []
unfolding check_signal_loss peer_has_valid_token verify_beacon_token advance_epoch verify ◌-ℤ◌
seen = refl

-- the largest threshold is -1 as an i64, so a beacon seen in this second counts as lost
threshold_wraps :
    check_signal_loss (pos 100) 18_446_744_073_709_551_615 (run crypto utf8 steps start)
    ≡ (7 ∷ []) ∷ []
unfolding check_signal_loss peer_has_valid_token verify_beacon_token advance_epoch verify ◌-ℤ◌
threshold_wraps = refl

peer_has_valid_token-run_example :
    (start.mode ≡ beacon_attested)
    × (loses steps ≡ false)
    × (start.current_epoch ≤ token.epoch)
    × ((n : ℕ) → contains (epochs steps) n ≡ true → n ≤ token.epoch)
    × (key : List ℕ) × (find_beacon_key token.beacon_did start.beacon_registry ≡ some key)
    × (is_ok (signed crypto utf8 token key) ≡ true)
unfolding peer_has_valid_token verify_beacon_token advance_epoch verify
peer_has_valid_token-run_example =
    peer_has_valid_token-run crypto utf8 steps start token (pos 110) refl
