-- ===== src/Transport/Saturate.antt =====
-- tirbase-core/src/transport/saturate.rs: Saturate_Mode and its lease. Times are in seconds; the
-- `now` arguments are the caller's. A token's verdict and a signature's are the interfaces Biscuit
-- and Crypto; `verify_did_signature` is modelled in Identity.
pub mod Lease
pub mod Promise
pub mod Threshold
mod Examples
use tir_base.Prelude.{
  ℕ, ◌*◌, Bool, true, false, ◌&&◌, Option, none, some, List, [], ◌∷◌, ℤ, pos, ◌+ℤ◌, ◌-ℤ◌, i64,
  leb_ℤ, ltb_ℤ, ltb, if◌then◌else◌, contains, string_eq, length, is_empty,
}
use tir_base.Crdt.Delta.{Did}
use tir_base.Error.{Result, ok, err, signature_verification_failed, threshold_not_met, ◌>>=◌, ◌>>◌}
use tir_base.Identity.{Crypto, verify_did_signature}
use tir_base.Auth.Biscuit.{Biscuit}

pub data SaturateState : Type 0 where
  normal saturate : SaturateState

pub record SaturateLease : Type 0 where
  pub activated_at : ℤ
  pub expires_at : ℤ
  pub last_renewed_at : Option ℤ
  pub activating_manager_did : Did

abbrev pub saturate_lease_duration_secs : ℤ
saturate_lease_duration_secs = pos (60 * 60)

abbrev pub renewal_window_secs : ℤ
renewal_window_secs = pos (15 * 60)

unfoldable pub is_expired : SaturateLease → ℤ → Bool
is_expired lease now = leb_ℤ lease.expires_at now

unfoldable pub in_renewal_window : SaturateLease → ℤ → Bool
in_renewal_window lease now =
    leb_ℤ (i64 (lease.expires_at -ℤ renewal_window_secs)) now && ltb_ℤ now lease.expires_at

pub record SaturateModeStateMachine : Type 0 where
  pub state : SaturateState
  pub lease : Option SaturateLease
  pub termination_threshold_m : ℕ
  pub root_ca_public_key : ℕ
  pub lease_duration_secs : ℤ

unfoldable pub new : ℕ → ℕ → ℤ → SaturateModeStateMachine
new m root_ca_public_key duration = record {
  state = normal;
  lease = none;
  termination_threshold_m = m;
  root_ca_public_key = root_ca_public_key;
  lease_duration_secs = duration;
}

abbrev caveat_verdict : Result Bool → Result (Unit {0})
caveat_verdict (ok true) = ok tt
caveat_verdict (ok false) = err signature_verification_failed
caveat_verdict (err e) = err signature_verification_failed

module _ (biscuit : Biscuit) where
  unfoldable pub verify_disaster_alert_token :
      SaturateModeStateMachine → List ℕ → ℤ → Result (Unit {0})
  verify_disaster_alert_token m token now =
      if is_empty token
      then err signature_verification_failed
      else caveat_verdict
          (biscuit.verify_and_check_caveat token "disaster-alert" m.root_ca_public_key now)

  abbrev activated : Did → ℤ → SaturateModeStateMachine → SaturateModeStateMachine
  activated manager_did now m = record m {
    state = saturate;
    lease = some (record {
      activated_at = now;
      expires_at = i64 (now +ℤ m.lease_duration_secs);
      last_renewed_at = none;
      activating_manager_did = manager_did;
    });
  }

  abbrev on_ok :
      Result (Unit {0})
      → Result (Unit {0}) × SaturateModeStateMachine
      → SaturateModeStateMachine
      → Result (Unit {0}) × SaturateModeStateMachine
  on_ok (ok u) done m = done
  on_ok (err e) done m = (err e, m)

  unfoldable pub activate :
      Did → List ℕ → ℤ → SaturateModeStateMachine → Result (Unit {0}) × SaturateModeStateMachine
  unfolding verify_disaster_alert_token
  activate manager_did token now m =
      on_ok (verify_disaster_alert_token m token now) (ok tt, activated manager_did now m) m

  abbrev extended :
      Option SaturateLease
      → ℤ
      → SaturateModeStateMachine
      → Result (Unit {0}) × SaturateModeStateMachine
  extended none now m = (err signature_verification_failed, m)
  extended (some lease) now m = (
    ok tt,
    record m {
      lease = some (record lease {
        expires_at = i64 (now +ℤ m.lease_duration_secs);
        last_renewed_at = some now;
      });
    },
  )

  pub renew_in :
      SaturateState
      → Did
      → List ℕ
      → ℤ
      → SaturateModeStateMachine
      → Result (Unit {0}) × SaturateModeStateMachine
  renew_in normal manager_did token now m = (err signature_verification_failed, m)
  renew_in saturate manager_did token now m =
      on_ok (verify_disaster_alert_token m token now) (extended m.lease now m) m

  unfoldable pub renew :
      Did → List ℕ → ℤ → SaturateModeStateMachine → Result (Unit {0}) × SaturateModeStateMachine
  unfolding renew_in verify_disaster_alert_token
  renew manager_did token now m = renew_in m.state manager_did token now m

module _ (crypto : Crypto) where
  -- the loop over the signatures, with the DIDs already counted
  count_loop : List Did → List (Did × List ℕ) → List ℕ → List Did
  count_loop seen_dids [] message = seen_dids
  count_loop seen_dids ((did, signature) ∷ signatures) message =
      count_loop
        (if contains seen_dids did
          then seen_dids
          else if verify_did_signature crypto did signature message
          then did ∷ seen_dids
          else seen_dids)
        signatures message

  unfoldable pub count_valid_distinct_signatures : List (Did × List ℕ) → List ℕ → ℕ
  unfolding count_loop
  count_valid_distinct_signatures signatures message = length (count_loop [] signatures message)

  abbrev ended : SaturateModeStateMachine → SaturateModeStateMachine
  ended m = record m { state = normal; lease = none }

  pub terminate_in :
      SaturateState
      → List (Did × List ℕ)
      → List ℕ
      → SaturateModeStateMachine
      → Result (Unit {0}) × SaturateModeStateMachine
  terminate_in normal signatures message m = (ok tt, m)
  terminate_in saturate signatures message m =
      let valid_distinct = count_valid_distinct_signatures signatures message in
      if ltb valid_distinct m.termination_threshold_m
      then (err (threshold_not_met valid_distinct m.termination_threshold_m), m)
      else (ok tt, ended m)

  unfoldable pub terminate :
      List (Did × List ℕ)
      → List ℕ
      → SaturateModeStateMachine
      → Result (Unit {0}) × SaturateModeStateMachine
  unfolding terminate_in
  terminate signatures message m = terminate_in m.state signatures message m

pub expire_lease : Option SaturateLease → ℤ → SaturateModeStateMachine → SaturateModeStateMachine
expire_lease none now m = m
expire_lease (some lease) now m =
    if is_expired lease now then record m { state = normal; lease = none } else m

pub tick_in : SaturateState → ℤ → SaturateModeStateMachine → SaturateModeStateMachine
tick_in normal now m = m
tick_in saturate now m = expire_lease m.lease now m

unfoldable pub tick : ℤ → SaturateModeStateMachine → SaturateModeStateMachine
unfolding tick_in expire_lease is_expired
tick now m = tick_in m.state now m
