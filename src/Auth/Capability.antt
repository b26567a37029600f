-- ===== src/Auth/Capability.antt =====
-- CapabilityManager of tirbase-core/src/auth/mod.rs with the root CA registry of auth/root_ca.rs.
-- The clock of `present_token` and `apply_revocation` is an argument. The store of pending
-- revocations that the manager hands out is modelled in Revocation.
use tir_base.Prelude.{
  ℕ, ◌≡◌, refl, Bool, false, Option, none, some, List, [], ◌∷◌, ◌++◌, arith, ℤ, if◌then◌else◌,
  contains, nat_eq, is_empty,
}
use tir_base.Error.{TirBaseError, authorisation_failed, Result, ok, err}
use tir_base.Auth.Trust.{
  TrustLevel, verified, unverified, revoked, TrustLevelStateMachine, on_valid_token,
  on_token_expired, on_revocation,
}
use tir_base.Auth.Trust
use tir_base.Auth.Biscuit.{BiscuitClaims, Presented, valid, token_expired, other_failure, Biscuit}

pub record CapabilityManager : Type 0 where
  pub trust_state : TrustLevelStateMachine
  pub root_ca_keys : List ℕ
  pub revocation_m : ℕ
  pub revocation_n : ℕ
  pub extended_ttl_accepted_risk : Bool
  pub current_token_expires_at : Option ℤ
  pub last_revocation_ts : Option ℤ

unfoldable pub new : List ℕ → ℕ → ℕ → Bool → CapabilityManager
unfolding Trust.new
new root_ca_keys m n risk = record {
  trust_state = Trust.new unverified;
  root_ca_keys = root_ca_keys;
  revocation_m = m;
  revocation_n = n;
  extended_ttl_accepted_risk = risk;
  current_token_expires_at = none;
  last_revocation_ts = none;
}

-- RootCaRegistry::register
unfoldable pub register : ℕ → List ℕ → List ℕ
register key keys = if contains keys key then keys else keys ++ key ∷ []

module _ (biscuit : Biscuit) where
  -- the loop of `verify_token` over the registered keys
  verify_keys :
      List ℕ
      → ℤ
      → List ℕ
      → Option TirBaseError
      → CapabilityManager
      → Result TrustLevel × CapabilityManager
  verify_keys token now [] none m = (err authorisation_failed, m)
  verify_keys token now [] (some e) m = (err e, m)
  verify_keys token now (key ∷ keys) last m = elim (biscuit.verify_token token key now) [
    | ok claims ↦ let t = on_valid_token m.trust_state in (ok t.level, record m { trust_state = t })
    | err e ↦ verify_keys token now keys (some e) m
  ]

  abbrev unless_revoked :
      TrustLevel
      → Result TrustLevel × CapabilityManager
      → CapabilityManager
      → Result TrustLevel × CapabilityManager
  unless_revoked revoked r m = (err authorisation_failed, m)
  unless_revoked verified r m = r
  unless_revoked unverified r m = r

  unfoldable pub verify_token :
      List ℕ → ℤ → CapabilityManager → Result TrustLevel × CapabilityManager
  unfolding verify_keys
  verify_token token now m =
      unless_revoked m.trust_state.level (verify_keys token now m.root_ca_keys none m) m

  -- the loop of `present_token` over the registered keys
  present_keys : List ℕ → ℤ → ℤ → List ℕ → CapabilityManager → Result TrustLevel × CapabilityManager
  present_keys token now now_micros [] m = (ok unverified, m)
  present_keys token now now_micros (key ∷ keys) m =
      elim (biscuit.verify_token_distinguish_expiry token key now) [
        | valid claims ↦
            let t = on_valid_token m.trust_state in
            (
              ok t.level,
              record m { trust_state = t; current_token_expires_at = some claims.expires_at },
            )
        | token_expired ↦
            (ok unverified, record m { trust_state = on_token_expired now_micros m.trust_state })
        | other_failure e ↦ present_keys token now now_micros keys m
      ]

  unfoldable pub present_token :
      List ℕ → ℤ → ℤ → CapabilityManager → Result TrustLevel × CapabilityManager
  unfolding present_keys
  present_token token now now_micros m =
      if is_empty m.root_ca_keys
      then (err authorisation_failed, m)
      else present_keys token now now_micros m.root_ca_keys m

  unfoldable pub register_root_ca_key :
      ℕ → Option (List ℕ × ℤ) → CapabilityManager → Result TrustLevel × CapabilityManager
  unfolding register verify_token
  register_root_ca_key key none m =
      (ok m.trust_state.level, record m { root_ca_keys = register key m.root_ca_keys })
  register_root_ca_key key (some (token, now)) m =
      verify_token token now (record m { root_ca_keys = register key m.root_ca_keys })

unfoldable pub apply_revocation : ℤ → CapabilityManager → CapabilityManager
unfolding on_revocation
apply_revocation now_micros m = record m {
  trust_state = on_revocation m.trust_state;
  last_revocation_ts = some now_micros;
}

module _ (biscuit : Biscuit) (token : List ℕ) (now : ℤ) (m : CapabilityManager) where
  -- In REVOKED, `verify_token` refuses every token and changes nothing, whatever the library says.
  pub verify_token_revoked :
      m.trust_state.level ≡ revoked
      → verify_token biscuit token now m ≡ (err authorisation_failed, m)
  unfolding verify_token
  verify_token_revoked h = ground arith

-- the verdict of the first key that finds the token valid or expired
abbrev pub first_verdict : Biscuit → List ℕ → ℤ → List ℕ → Option Presented
first_verdict biscuit token now [] = none
first_verdict biscuit token now (key ∷ keys) =
    elim (biscuit.verify_token_distinguish_expiry token key now) [
      | valid claims ↦ some (valid claims)
      | token_expired ↦ some token_expired
      | other_failure e ↦ first_verdict biscuit token now keys
    ]

present_keys_valid :
    (biscuit : Biscuit) (token : List ℕ) (now now_micros : ℤ) (keys : List ℕ)
    (m : CapabilityManager) (claims : BiscuitClaims)
    → first_verdict biscuit token now keys ≡ some (valid claims)
    → ((present_keys biscuit token now now_micros keys m).0 ≡ ok verified)
      × ((present_keys biscuit token now now_micros keys m).1.trust_state.level ≡ verified)
unfolding present_keys on_valid_token
present_keys_valid biscuit token now now_micros [] m claims v = cc
present_keys_valid biscuit token now now_micros (key ∷ keys) m claims v =
    ground (arith, present_keys_valid biscuit token now now_micros keys m claims)

has_keys :
    (biscuit : Biscuit) (token : List ℕ) (now : ℤ) (keys : List ℕ) (p : Presented)
    → first_verdict biscuit token now keys ≡ some p
    → is_empty keys ≡ false
has_keys biscuit token now [] p v = cc
has_keys biscuit token now (key ∷ keys) p v = refl

-- `present_token` has no such guard: a device in REVOKED that presents a token whose first
-- decisive verdict among its root CA keys is valid is answered VERIFIED, and is in VERIFIED again.
pub present_token_reinstates :
    (biscuit : Biscuit) (token : List ℕ) (now now_micros : ℤ) (m : CapabilityManager)
    (claims : BiscuitClaims)
    → m.trust_state.level ≡ revoked
    → first_verdict biscuit token now m.root_ca_keys ≡ some (valid claims)
    → ((present_token biscuit token now now_micros m).0 ≡ ok verified)
      × ((present_token biscuit token now now_micros m).1.trust_state.level ≡ verified)
unfolding present_token
present_token_reinstates biscuit token now now_micros m claims h v = ground (
  arith,
  has_keys biscuit token now m.root_ca_keys (valid claims) v,
  present_keys_valid biscuit token now now_micros m.root_ca_keys m claims v,
)
