-- ===== src/Contamination/Resolution.antt =====
-- tirbase-core/src/contamination/resolution.rs: the authorisation of a manager and the close of an
-- incident. The clock of an operation is the argument `at`; the bytes of an identifier are a
-- function of the section.
use tir_base.Prelude.{
  ℕ, ◌*◌, ◌≡◌, refl, Bool, true, false, ◌&&◌, Bool-cases, inl, inr, Option, none, some, List, [],
  ◌∷◌, ◌++◌, arith, ℤ, i64, leb_ℤ, sub_ℕ, pos_part, neg_part, ◌==◌, lookup-insert, if◌then◌else◌,
  lookup, insert, nat_eq,
}
use tir_base.Crdt.Delta.{Did, IncidentId}
use tir_base.Error.{
  Result, ok, err, is_ok, ◌>>=◌, authorisation_failed, local_store_write_failed,
  invalid_incident_state, IncidentState, open_state, closed, decomposed, superseded_by,
}
use tir_base.Identity.{Crypto, resolve_did, verify}
use tir_base.Contamination.Incident.{IncidentContextObject, AuditOperation}

abbrev pub Incidents : Type 0
Incidents = List (IncidentId × IncidentContextObject)

-- `map_err` to AuthorisationFailed
abbrev refused {ℓ} : {A : Type ℓ} → Result A → Result A
refused (ok a) = ok a
refused (err e) = err authorisation_failed

-- `now_secs * 1_000_000` on i64
abbrev micros : ℤ → ℤ
micros now_secs = i64 (sub_ℕ (pos_part now_secs * 1000000) (neg_part now_secs * 1000000))

module _ (crypto : Crypto) where
  unfoldable pub verify_manager_auth : Did → List ℕ → List ℕ → ℤ → ℤ → Result (Unit {0})
  verify_manager_auth manager_did sig payload token_expiry now_secs =
      if leb_ℤ token_expiry (micros now_secs)
      then err authorisation_failed
      else refused (resolve_did crypto manager_did) >>= λ public_key.
          refused (verify crypto public_key payload sig)

abbrev pub is_open : IncidentState → Bool
is_open open_state = true
is_open closed = false
is_open decomposed = false
is_open (superseded_by c) = false

pub open_of_is_open : (s : IncidentState) → is_open s ≡ true → s ≡ open_state
open_of_is_open open_state h = refl
open_of_is_open closed h = cc
open_of_is_open decomposed h = cc
open_of_is_open (superseded_by c) h = cc

abbrev pub closed_by : Did → ℤ → IncidentContextObject → IncidentContextObject
closed_by manager_did at ico = record ico {
  state = closed;
  updated_at = at;
  audit_log =
      ico.audit_log
      ++ record {
        operation = AuditOperation.admin_close;
        manager_did = manager_did;
        utc_timestamp = at;
        affected_delta_ids = [];
      }
        ∷ [];
}

close_found :
    IncidentId → Did → ℤ → Incidents → Option IncidentContextObject → Result (Unit {0}) × Incidents
close_found incident_id manager_did at incidents none = (err local_store_write_failed, incidents)
close_found incident_id manager_did at incidents (some ico) =
    if is_open ico.state
    then (ok tt, insert incident_id (closed_by manager_did at ico) incidents)
    else (err (invalid_incident_state ico.state), incidents)

abbrev pub open_found : Option IncidentContextObject → Bool
open_found none = false
open_found (some ico) = is_open ico.state

abbrev pub is_open_in : IncidentId → Incidents → Bool
is_open_in incident_id incidents = open_found (lookup incident_id incidents)

abbrev after_auth :
    Result (Unit {0}) → Result (Unit {0}) × Incidents → Incidents → Result (Unit {0}) × Incidents
after_auth (ok u) done incidents = done
after_auth (err e) done incidents = (err e, incidents)

module _ (crypto : Crypto) (uuid_bytes : IncidentId → List ℕ) where
  unfoldable pub admin_close :
      IncidentId → Did → List ℕ → ℤ → ℤ → ℤ → Incidents → Result (Unit {0}) × Incidents
  unfolding close_found
  admin_close incident_id manager_did sig token_expiry now_secs at incidents =
      after_auth
        (verify_manager_auth crypto manager_did sig (uuid_bytes incident_id) token_expiry now_secs)
        (close_found incident_id manager_did at incidents (lookup incident_id incidents)) incidents

closed_lookup :
    (r : Result (Unit {0})) (incident_id : IncidentId) (did : Did) (at : ℤ) (incidents : Incidents)
    (ico : IncidentContextObject)
    → let done = after_auth r (close_found incident_id did at incidents (some ico)) incidents in
      is_ok done.0 ≡ true
      → (j : IncidentId)
      → lookup j done.1
        ≡ (if incident_id == j then some (closed_by did at ico) else lookup j incidents)
unfolding close_found
closed_lookup (err e) incident_id did at incidents ico h j = cc
closed_lookup (ok u) incident_id did at incidents ico h j = elim (Bool-cases (is_open ico.state)) [
  | inl o ↦ simp o (lookup-insert incident_id j (closed_by did at ico) incidents)
  | inr o ↦ ground (arith, h, o)
]

-- The incident has no manager's authority, is not there, is not open, or is open.
module _ (crypto : Crypto) (uuid_bytes : IncidentId → List ℕ) (incident_id : IncidentId) (did : Did)
    (sig : List ℕ) (token_expiry now_secs at : ℤ) (incidents : Incidents) where
  abbrev pub authorised : Bool
  authorised =
      is_ok (verify_manager_auth crypto did sig (uuid_bytes incident_id) token_expiry now_secs)

  abbrev pub closing : Result (Unit {0}) × Incidents
  closing = admin_close crypto uuid_bytes incident_id did sig token_expiry now_secs at incidents

  -- A close succeeds exactly when the manager is authorised and the incident is there and open;
  -- then the incident alone changes: it is closed, updated now, and has one audit entry more, of
  -- this manager and time. Otherwise nothing does.
  pub admin_close-ok :
      (is_ok closing.0 ≡ (authorised && is_open_in incident_id incidents))
      × (is_ok closing.0 ≡ false → closing.1 ≡ incidents)
      × ((ico : IncidentContextObject)
          → is_ok closing.0 ≡ true
          → lookup incident_id incidents ≡ some ico
          → (j : IncidentId)
          → lookup j closing.1 ≡ (
              if incident_id == j
              then some (record ico {
                state = closed;
                updated_at = at;
                audit_log =
                    ico.audit_log
                    ++ record {
                      operation = AuditOperation.admin_close;
                      manager_did = did;
                      utc_timestamp = at;
                      affected_delta_ids = [];
                    }
                      ∷ [];
              })
              else lookup j incidents))
  unfolding admin_close close_found
  admin_close-ok = (
    ground arith,
    λ h. ground (arith, h),
    λ ico h f. rw f (
        closed_lookup
          (verify_manager_auth crypto did sig (uuid_bytes incident_id) token_expiry now_secs)
          incident_id did at incidents ico (rw f at h)),
  )
