-- ===== src/Auth/Revocation/Examples.antt =====
-- Tests and instances for revocations.
use tir_base.Prelude.{
  ℕ, ◌≡◌, ◌≤◌, refl, true, some, List, [], ◌∷◌, String, pos, Distinct, string_eq, All, lookup,
}
use tir_base.Error.{is_ok}
use tir_base.Crdt.Delta.{Did}
use tir_base.Identity.{derive_did, resolve_did, strip_prefix, verify}
use tir_base.Auth.Revocation.{
  ManagerSignature, RevocationDelta, PendingRevocation, empty_store, managers, collect,
  check_signature, add_signature, build_revocation_delta,
}
use tir_base.Auth.Revocation.Collected.{Call, call, run, built_signatures}
use tir_base.Examples.{crypto, repeat, decode}

abbrev utf8 : String → List ℕ
utf8 s = []

abbrev manager : ℕ → Did
manager b = derive_did crypto (repeat 32 b)

abbrev signed : ℕ → ManagerSignature
signed b = record { manager_did = manager b; signature = repeat 64 0 }

abbrev asks : ℕ → Call
asks b = record {
  target = "did:key:lost";
  sig = signed b;
  threshold_m = 2;
  threshold_n = 3;
  revoked_dids = [];
  now = pos 5;
}

-- the second manager signs twice
abbrev calls : List Call
calls = asks 1 ∷ asks 2 ∷ asks 2 ∷ []

abbrev revocation : RevocationDelta
revocation = record {
  target_did = "did:key:lost";
  signatures = signed 1 ∷ signed 2 ∷ [];
  created_at = pos 5;
}

is_built :
    build_revocation_delta "did:key:lost" (run crypto utf8 calls empty_store) ≡ some revocation
unfolding build_revocation_delta run call add_signature check_signature collect resolve_did
    derive_did strip_prefix verify decode
is_built = refl

built_signatures_example :
    (revocation.target_did ≡ revocation.target_did)
    × Distinct (managers revocation.signatures)
    × All
        (λ s. is_ok (check_signature crypto utf8 "did:key:lost" s) ≡ true)
        (signed 1 ∷ signed 2 ∷ [])
    × ((p : PendingRevocation)
        → lookup "did:key:lost" (run crypto utf8 calls empty_store).entries ≡ some p
        → p.threshold_m ≤ 2)
built_signatures_example = built_signatures crypto utf8 calls "did:key:lost" revocation is_built
