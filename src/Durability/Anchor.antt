-- ===== src/Durability/Anchor.antt =====
-- tirbase-core/src/durability/anchor.rs: the tokens by which fixed beacons attest a location, and the
-- loss of their signal. The reason in an event and the log line are left out. A public key is the
-- list of its bytes, `utf8` gives the bytes of a text, and the i64 of a time is an integer.
pub mod Counted
mod Examples
use tir_base.Prelude.{
  ℕ, zero, suc, ◌+◌, ◌-◌, ◌/◌, ◌%◌, ◌^◌, String, Bool, true, false, Option, none, some, List, [],
  ◌∷◌, ◌++◌, map, ℤ, pos, negsuc, sub_ℕ, ◌-ℤ◌, ltb_ℤ, ltb, if◌then◌else◌, ◌==◌, string_eq, bytes_eq,
  lookup, insert,
}
use tir_base.Error.{Result, ok, err, signature_verification_failed, is_ok}
use tir_base.Crdt.Delta.{Did}
use tir_base.Identity.{Crypto, derive_did, verify}
use tir_base.Durability.Quorum.{BeaconToken}

pub record BeaconRegistryEntry : Type 0 where
  pub beacon_did : Did
  pub public_key : List ℕ

abbrev pub le_bytes : ℕ → ℕ → List ℕ
le_bytes zero n = []
le_bytes (suc k) n = n % 256 ∷ le_bytes k (n / 256)

abbrev pub beacon_token_signing_payload : (String → List ℕ) → ℕ → String → List ℕ
beacon_token_signing_payload utf8 epoch location_claim = le_bytes 8 epoch ++ utf8 location_claim

pub data AnchorMode : Type 0 where
  beacon_attested squad_tag_fallback : AnchorMode

pub record TransportDegradationEvent : Type 0 where
  pub timestamp : ℤ
  pub affected_peer_dids : List Did

pub record AnchorAttestedLocation : Type 0 where
  pub beacon_registry : List BeaconRegistryEntry
  pub current_epoch : ℕ
  pub mode : AnchorMode
  pub degradation_log : List TransportDegradationEvent
  pub beacon_last_seen : List (List ℕ × ℤ)

unfoldable pub new : List BeaconRegistryEntry → ℕ → AnchorAttestedLocation
new beacon_registry initial_epoch = record {
  beacon_registry = beacon_registry;
  current_epoch = initial_epoch;
  mode = beacon_attested;
  degradation_log = [];
  beacon_last_seen = [];
}

unfoldable pub advance_epoch : ℕ → AnchorAttestedLocation → AnchorAttestedLocation
advance_epoch new_epoch a =
    if ltb a.current_epoch new_epoch then record a { current_epoch = new_epoch } else a

abbrev pub find_beacon_key : Did → List BeaconRegistryEntry → Option (List ℕ)
find_beacon_key did [] = none
find_beacon_key did (e ∷ es) =
    if e.beacon_did == did then some e.public_key else find_beacon_key did es

abbrev pub beacon_did_for_key : List ℕ → List BeaconRegistryEntry → Option Did
beacon_did_for_key public_key [] = none
beacon_did_for_key public_key (e ∷ es) =
    if e.public_key == public_key then some e.beacon_did else beacon_did_for_key public_key es

unfoldable pub on_beacon_signal_lost :
    ℤ → List Did → AnchorAttestedLocation → AnchorAttestedLocation
on_beacon_signal_lost timestamp affected_peer_dids a = record a {
  degradation_log =
      a.degradation_log
      ++ record { timestamp = timestamp; affected_peer_dids = affected_peer_dids } ∷ [];
  mode = squad_tag_fallback;
}

-- the bounds of an i64
abbrev pub saturated : ℤ → ℤ
saturated (pos n) = if ltb n (2 ^ 63) then pos n else pos (2 ^ 63 - 1)
saturated (negsuc n) = if ltb n (2 ^ 63) then negsuc n else negsuc (2 ^ 63 - 1)

-- `as i64` of a u64
abbrev pub as_i64 : ℕ → ℤ
as_i64 n = if ltb n (2 ^ 63) then pos n else sub_ℕ n (2 ^ 64)

-- `unwrap_or(i64::MIN)`
abbrev pub seen_at : Option ℤ → ℤ
seen_at none = negsuc (2 ^ 63 - 1)
seen_at (some at) = at

abbrev pub lost_among : ℤ → ℤ → List (List ℕ × ℤ) → List BeaconRegistryEntry → List (List ℕ)
lost_among now_secs threshold seen [] = []
lost_among now_secs threshold seen (e ∷ es) =
    let rest = lost_among now_secs threshold seen es in
    if ltb_ℤ threshold (saturated (now_secs -ℤ seen_at (lookup e.public_key seen)))
    then e.public_key ∷ rest
    else rest

abbrev pub lost_in : AnchorMode → List (List ℕ) → List (List ℕ)
lost_in beacon_attested lost = lost
lost_in squad_tag_fallback lost = []

unfoldable pub check_signal_loss : ℤ → ℕ → AnchorAttestedLocation → List (List ℕ)
check_signal_loss now_secs threshold_secs a =
    lost_in a.mode
      (lost_among now_secs (as_i64 threshold_secs) a.beacon_last_seen a.beacon_registry)

module _ (crypto : Crypto) (utf8 : String → List ℕ) where
  unfoldable pub from_beacon_public_keys : List (List ℕ) → ℕ → AnchorAttestedLocation
  from_beacon_public_keys beacon_public_keys initial_epoch =
      new
        (map
          (λ public_key. record {
            beacon_did = derive_did crypto public_key;
            public_key = public_key;
          })
          beacon_public_keys)
        initial_epoch

  abbrev pub seen_if :
      List ℕ
      → ℤ
      → AnchorAttestedLocation
      → Result (Unit {0})
      → AnchorAttestedLocation × Result (Unit {0})
  seen_if public_key now_secs a (ok _) =
      (record a { beacon_last_seen = insert public_key now_secs a.beacon_last_seen }, ok tt)
  seen_if public_key now_secs a (err e) = (a, err signature_verification_failed)

  abbrev pub checked_with :
      Option (List ℕ)
      → BeaconToken
      → ℤ
      → AnchorAttestedLocation
      → AnchorAttestedLocation × Result (Unit {0})
  checked_with none token now_secs a = (a, err signature_verification_failed)
  checked_with (some public_key) token now_secs a =
      let payload = beacon_token_signing_payload utf8 token.epoch token.location_claim in
      if ltb token.epoch a.current_epoch
      then (a, err signature_verification_failed)
      else seen_if public_key now_secs a (verify crypto public_key payload token.beacon_signature)

  unfoldable pub verify_beacon_token :
      BeaconToken → ℤ → AnchorAttestedLocation → AnchorAttestedLocation × Result (Unit {0})
  verify_beacon_token token now_secs a =
      checked_with (find_beacon_key token.beacon_did a.beacon_registry) token now_secs a

  abbrev pub counted_in :
      AnchorMode
      → AnchorAttestedLocation
      → AnchorAttestedLocation × Result (Unit {0})
      → AnchorAttestedLocation × Bool
  counted_in beacon_attested a done = (done.0, is_ok done.1)
  counted_in squad_tag_fallback a done = (a, false)

  unfoldable pub peer_has_valid_token :
      BeaconToken → ℤ → AnchorAttestedLocation → AnchorAttestedLocation × Bool
  peer_has_valid_token token now_secs a = counted_in a.mode a (verify_beacon_token token now_secs a)
