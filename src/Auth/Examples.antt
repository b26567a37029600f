-- ===== src/Auth/Examples.antt =====
-- Tests and instances for trust levels and capability tokens.
use tir_base.Prelude.{◌≡◌, refl, true, false, none, some, List, [], ◌∷◌, pos}
use tir_base.Error.{ok}
use tir_base.Auth.Trust.{
  TrustLevelStateMachine, verified, unverified, revoked, Event, valid_token, revocation,
  token_expired, handle, run, unverified_warning, is_unverified, warning_iff_unverified,
  run_revoked, on_token_expired, on_token_expired_idem,
}
use tir_base.Auth.Trust
use tir_base.Auth.Biscuit.{Biscuit, BiscuitClaims, valid}
use tir_base.Auth.Capability.{CapabilityManager, present_token, present_token_reinstates}

abbrev history : List Event
history = token_expired (pos 5) ∷ token_expired (pos 9) ∷ []

abbrev fresh : TrustLevelStateMachine
fresh = record { level = verified; unverified_since = none }

abbrev exiled : TrustLevelStateMachine
exiled = record { level = revoked; unverified_since = none }

warning_time : unverified_warning (run fresh history) ≡ some (pos 5)
unfolding unverified_warning run handle
warning_time = refl

-- a machine made in UNVERIFIED gives no warning
no_warning_yet : unverified_warning (Trust.new unverified) ≡ none
unfolding unverified_warning Trust.new
no_warning_yet = refl

run_revoked_example : (run exiled (token_expired (pos 5) ∷ revocation ∷ [])).level ≡ revoked
run_revoked_example = run_revoked exiled (token_expired (pos 5) ∷ revocation ∷ []) refl refl

abbrev claims : BiscuitClaims
claims = record { did = "did:key:z1"; role = "member"; issued_at = pos 0; expires_at = pos 3600 }

-- a library that accepts every token
abbrev lenient : Biscuit
lenient = record {
  verify_token = λ token key now. ok claims;
  verify_token_distinguish_expiry = λ token key now. valid claims;
  verify_and_check_caveat = λ token caveat key now. ok true;
}

abbrev revoked_device : CapabilityManager
revoked_device = record {
  trust_state = exiled;
  root_ca_keys = 7 ∷ [];
  revocation_m = 2;
  revocation_n = 3;
  extended_ttl_accepted_risk = false;
  current_token_expires_at = none;
  last_revocation_ts = some (pos 1);
}

present_token_reinstates_example :
    ((present_token lenient (1 ∷ []) (pos 10) (pos 10000000) revoked_device).0 ≡ ok verified)
    × ((present_token lenient (1 ∷ []) (pos 10) (pos 10000000) revoked_device).1.trust_state.level
        ≡ verified)
present_token_reinstates_example =
    present_token_reinstates lenient (1 ∷ []) (pos 10) (pos 10000000) revoked_device claims refl
      refl
