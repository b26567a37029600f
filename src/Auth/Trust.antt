-- ===== src/Auth/Trust.antt =====
-- tirbase-core/src/auth/trust.rs: the trust level of a device and its warning.
use tir_base.Prelude.{
  ◌≡◌, refl, Bool, true, false, Option, none, some, List, [], ◌∷◌, arith, ℤ, is_some,
}

pub data TrustLevel : Type 0 where
  verified unverified revoked : TrustLevel

pub record TrustLevelStateMachine : Type 0 where
  pub level : TrustLevel
  pub unverified_since : Option ℤ

unfoldable pub new : TrustLevel → TrustLevelStateMachine
new initial_level = record { level = initial_level; unverified_since = none }

unfoldable pub on_valid_token : TrustLevelStateMachine → TrustLevelStateMachine
on_valid_token s = record { level = verified; unverified_since = none }

abbrev since_or : Option ℤ → ℤ → Option ℤ
since_or none now = some now
since_or (some t) now = some t

expire : TrustLevel → ℤ → TrustLevelStateMachine → TrustLevelStateMachine
expire revoked now s = s
expire verified now s = record {
  level = unverified;
  unverified_since = since_or s.unverified_since now;
}
expire unverified now s = record {
  level = unverified;
  unverified_since = since_or s.unverified_since now;
}

unfoldable pub on_token_expired : ℤ → TrustLevelStateMachine → TrustLevelStateMachine
unfolding expire
on_token_expired now s = expire s.level now s

unfoldable pub on_revocation : TrustLevelStateMachine → TrustLevelStateMachine
on_revocation s = record { level = revoked; unverified_since = none }

warn : TrustLevel → Option ℤ → Option ℤ
warn unverified since = since
warn verified since = none
warn revoked since = none

-- the time stamp of the warning
unfoldable pub unverified_warning : TrustLevelStateMachine → Option ℤ
unfolding warn
unverified_warning s = warn s.level s.unverified_since

pub data Event : Type 0 where
  valid_token revocation : Event
  token_expired : ℤ → Event

unfoldable pub handle : TrustLevelStateMachine → Event → TrustLevelStateMachine
unfolding on_valid_token on_token_expired on_revocation
handle s valid_token = on_valid_token s
handle s (token_expired now) = on_token_expired now s
handle s revocation = on_revocation s

unfoldable pub run : TrustLevelStateMachine → List Event → TrustLevelStateMachine
run s [] = s
run s (e ∷ es) = run (handle s e) es

abbrev pub is_unverified : TrustLevel → Bool
is_unverified unverified = true
is_unverified verified = false
is_unverified revoked = false

-- The time of a warning is there exactly in UNVERIFIED.
abbrev pub IsConsistent : TrustLevelStateMachine → Type 0
IsConsistent s = is_some s.unverified_since ≡ is_unverified s.level

-- No event is a token.
abbrev pub has_token : List Event → Bool
has_token [] = false
has_token (valid_token ∷ es) = true
has_token (revocation ∷ es) = has_token es
has_token (token_expired now ∷ es) = has_token es

handle-IsConsistent :
    (s : TrustLevelStateMachine) (e : Event) → IsConsistent s → IsConsistent (handle s e)
unfolding handle
handle-IsConsistent s valid_token h = refl
handle-IsConsistent s (token_expired now) h = ground arith
handle-IsConsistent s revocation h = refl

run-IsConsistent :
    (s : TrustLevelStateMachine) (es : List Event) → IsConsistent s → IsConsistent (run s es)
unfolding run
run-IsConsistent s [] h = h
run-IsConsistent s (e ∷ es) h = run-IsConsistent (handle s e) es (handle-IsConsistent s e h)

-- From a consistent state, such as a new machine in VERIFIED or REVOKED, and after any events,
-- there is a warning exactly when the level is UNVERIFIED.
pub warning_iff_unverified :
    (s : TrustLevelStateMachine) (es : List Event)
    → IsConsistent s
    → is_some (unverified_warning (run s es)) ≡ is_unverified (run s es).level
unfolding unverified_warning
warning_iff_unverified s es h = ground (arith, run-IsConsistent s es h)

-- A second expiry changes nothing: the warning keeps the time of the first.
pub on_token_expired_idem :
    (s : TrustLevelStateMachine) (first second : ℤ)
    → on_token_expired second (on_token_expired first s) ≡ on_token_expired first s
unfolding on_token_expired
on_token_expired_idem s first second = ground arith

handle_revoked :
    (s : TrustLevelStateMachine) (e : Event)
    → s.level ≡ revoked
    → has_token (e ∷ []) ≡ false
    → (handle s e).level ≡ revoked
unfolding handle
handle_revoked s valid_token h no_token = cc
handle_revoked s (token_expired now) h no_token = ground arith
handle_revoked s revocation h no_token = refl

-- REVOKED stays under any events in which no token is accepted.
pub run_revoked :
    (s : TrustLevelStateMachine) (es : List Event)
    → s.level ≡ revoked
    → has_token es ≡ false
    → (run s es).level ≡ revoked
unfolding run
run_revoked s [] h no_token = h
run_revoked s (valid_token ∷ es) h no_token = cc
run_revoked s (revocation ∷ es) h no_token =
    run_revoked (handle s revocation) es (handle_revoked s revocation h refl) no_token
run_revoked s (token_expired now ∷ es) h no_token =
    run_revoked (handle s (token_expired now)) es (handle_revoked s (token_expired now) h refl)
      no_token
