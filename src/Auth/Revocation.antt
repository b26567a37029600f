-- ===== src/Auth/Revocation.antt =====
-- PendingRevocationStore of tirbase-core/src/auth/revocation.rs: the signatures that managers give
-- toward the revocation of a device. The clock of an operation is the argument `now`; the bytes of
-- a text are the function `utf8`; the texts of errors and of the warning are left out.
pub mod Collected
mod Examples
use tir_base.Prelude.{
  ℕ, Bool, true, false, ◌&&◌, Option, none, some, List, [], ◌∷◌, ◌++◌, String, ℤ, ltb, leb, eqb,
  if◌then◌else◌, ◌==◌, string_eq, contains, map, length, lookup, insert,
}
use tir_base.Error.{Result, ok, err, ◌>>=◌, authorisation_failed}
use tir_base.Crdt.Delta.{Did}
use tir_base.Identity.{Crypto, resolve_did, verify}

pub record ManagerSignature : Type 0 where
  pub manager_did : Did
  pub signature : List ℕ

pub record RevocationDelta : Type 0 where
  pub target_did : Did
  pub signatures : List ManagerSignature
  pub created_at : ℤ

pub record PendingRevocation : Type 0 where
  pub target_did : Did
  pub signatures : List ManagerSignature
  pub threshold_m : ℕ
  pub threshold_n : ℕ
  pub initiated_at : ℤ
  pub last_receipt_timestamp : Option ℤ

pub data RevocationStatus : Type 0 where
  pending : ℕ → ℕ → RevocationStatus
  applied : RevocationStatus

pub record PendingRevocationStore : Type 0 where
  pub entries : List (Did × PendingRevocation)

abbrev pub empty_store : PendingRevocationStore
empty_store = record { entries = [] }

abbrev pub managers : List ManagerSignature → List Did
managers [] = []
managers (s ∷ ss) = s.manager_did ∷ managers ss

-- `entry(target).or_insert_with(…)`
abbrev pub entry_or : Option PendingRevocation → Did → ℕ → ℕ → ℤ → PendingRevocation
entry_or (some p) target m n now = p
entry_or none target m n now = record {
  target_did = target;
  signatures = [];
  threshold_m = m;
  threshold_n = n;
  initiated_at = now;
  last_receipt_timestamp = none;
}

-- the entry after the signature joined it
abbrev pub joined : ManagerSignature → ℤ → PendingRevocation → PendingRevocation
joined sig now p = record p {
  signatures = p.signatures ++ sig ∷ [];
  last_receipt_timestamp =
      if leb p.threshold_m (length (p.signatures ++ sig ∷ []))
      then some now
      else p.last_receipt_timestamp;
}

abbrev pub status_of : PendingRevocation → RevocationStatus
status_of p =
    if leb p.threshold_m (length p.signatures)
    then applied
    else pending (length p.signatures) p.threshold_m

-- a signature that verifies, on an entry with the thresholds of the call
unfoldable pub collect :
    ManagerSignature → ℤ → PendingRevocation → Result RevocationStatus × PendingRevocation
collect sig now p =
    if contains (managers p.signatures) sig.manager_did
    then (err authorisation_failed, p)
    else if leb p.threshold_m (length p.signatures)
    then (ok applied, p)
    else (ok (status_of (joined sig now p)), joined sig now p)

module _ (crypto : Crypto) (utf8 : String → List ℕ) where
  unfoldable pub signing_payload : Did → List ℕ
  signing_payload target = crypto.sha256 (utf8 "revoke:" ++ utf8 target)

  unfoldable pub check_signature : Did → ManagerSignature → Result (Unit {0})
  check_signature target sig = resolve_did crypto sig.manager_did >>= λ public_key.
      verify crypto public_key (signing_payload target) sig.signature

  abbrev stored :
      Did
      → Result RevocationStatus × PendingRevocation
      → PendingRevocationStore
      → Result RevocationStatus × PendingRevocationStore
  stored target (status, p) store = (status, record { entries = insert target p store.entries })

  abbrev once_checked :
      Result (Unit {0})
      → Result RevocationStatus × PendingRevocationStore
      → PendingRevocationStore
      → Result RevocationStatus × PendingRevocationStore
  once_checked (ok u) done store = done
  once_checked (err e) done store = (err e, store)

  unfoldable pub add_signature :
      Did
      → ManagerSignature
      → ℕ
      → ℕ
      → List Did
      → ℤ
      → PendingRevocationStore
      → Result RevocationStatus × PendingRevocationStore
  add_signature target sig m n revoked_dids now store =
      if contains revoked_dids sig.manager_did
      then (err authorisation_failed, store)
      else once_checked (check_signature target sig)
          (stored target
            (collect sig now (record (entry_or (lookup target store.entries) target m n now) {
              threshold_m = m;
              threshold_n = n;
            }))
            store)
          store

abbrev status_in : Option PendingRevocation → Option RevocationStatus
status_in none = none
status_in (some p) = some (status_of p)

unfoldable pub status : Did → PendingRevocationStore → Option RevocationStatus
status target store = status_in (lookup target store.entries)

abbrev receipt_in : Option PendingRevocation → Option ℤ
receipt_in none = none
receipt_in (some p) = p.last_receipt_timestamp

unfoldable pub last_revocation_receipt_timestamp : Did → PendingRevocationStore → Option ℤ
last_revocation_receipt_timestamp target store = receipt_in (lookup target store.entries)

abbrev time_or : Option ℤ → ℤ → ℤ
time_or none t = t
time_or (some s) t = s

abbrev pub built : Did → Option PendingRevocation → Option RevocationDelta
built target none = none
built target (some p) =
    if ltb (length p.signatures) p.threshold_m
    then none
    else some (record {
      target_did = target;
      signatures = p.signatures;
      created_at = time_or p.last_receipt_timestamp p.initiated_at;
    })

unfoldable pub build_revocation_delta : Did → PendingRevocationStore → Option RevocationDelta
build_revocation_delta target store = built target (lookup target store.entries)

-- whether there is a warning
unfoldable pub check_1_of_1_warning : ℕ → ℕ → Bool
check_1_of_1_warning m n = eqb m 1 && eqb n 1
