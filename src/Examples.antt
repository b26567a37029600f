-- ===== src/Examples.antt =====
-- Concrete libraries for the tests, and instances for identities, the DAG and incidents.
use Prim.Native.Char.{char, code}
use tir_base.Prelude.{
  ℕ, zero, suc, ◌+◌, ◌≡◌, refl, ◌∙◌, ap, String, true, false, ◌||◌, nat_eq, string_eq, Option, none,
  some, List, [], ◌∷◌, ◌++◌, arith, pos, if◌then◌else◌, eqb, contains,
}
use tir_base.Error.{ok, ◌>>=◌, is_ok, open_state, superseded_by}
use tir_base.Identity.{
  Crypto, derive_did, resolve_did, verify, verify_did_signature, resolve_did-derive_did,
  verify_did_signature-eq-resolve,
}
use tir_base.Auth.Biscuit.{Biscuit, BiscuitClaims, valid}
use tir_base.Crdt.Delta.{DeltaId}
use tir_base.Crdt.Dag.{Zstd, DagNode, ChangesetDag, empty, insert, get, bfs_descendants}
use tir_base.Crdt.Dag.Search.{AreDescendants, bfs_descendants-AreDescendants}
use tir_base.Crdt.Dag.Rows.{get-insert}
use tir_base.Contamination.Incident.{
  IncidentContextObject, AffectedRow, device_revocation, has_key, composite_merge,
  composite_merge-Merged,
}

-- A byte is written in unary, and each byte ends with a full stop.
abbrev pub unary : ℕ → String → String
unary zero s = String.◌∷◌ (char 46 tt) s
unary (suc n) s = String.◌∷◌ (char 49 tt) (unary n s)

abbrev pub encode : List ℕ → String
encode [] = String.[]
encode (b ∷ bs) = unary b (encode bs)

abbrev with_byte : ℕ → Option (List ℕ) → Option (List ℕ)
with_byte n none = none
with_byte n (some bs) = some (n ∷ bs)

unfoldable pub decode : ℕ → String → Option (List ℕ)
decode n String.[] = some []
decode n (String.◌∷◌ c s) = if eqb (code c) 46 then with_byte n (decode 0 s) else decode (suc n) s

decode-unary : (n b : ℕ) (s : String) → decode n (unary b s) ≡ with_byte (n + b) (decode 0 s)
unfolding decode
decode-unary n zero s = ground arith
decode-unary n (suc b) s =
    let e : suc n + b ≡ n + suc b = omega arith in
    decode-unary (suc n) b s ∙ ap (λ k. with_byte k (decode 0 s)) e

pub decode-encode : (bytes : List ℕ) → decode 0 (encode bytes) ≡ some bytes
unfolding decode
decode-encode [] = refl
decode-encode (b ∷ bs) =
    let e : 0 + b ≡ b = omega arith in
    decode-unary 0 b (encode bs)
    ∙ ap (λ k. with_byte k (decode 0 (encode bs))) e
    ∙ ap (with_byte b) (decode-encode bs)

-- libraries under which every key of any length is a key and the signature of 64 zeros verifies
abbrev pub crypto : Crypto
crypto = record {
  bs58_encode = encode;
  bs58_decode = decode 0;
  valid_key = λ key. true;
  verifies = λ key message signature. true;
  sha256 = λ bytes. bytes;
  decode-encode = decode-encode;
}

abbrev pub claims : BiscuitClaims
claims = record { did = "did:key:z1"; role = "member"; issued_at = pos 0; expires_at = pos 3600 }

-- a library that accepts every token
abbrev pub lenient : Biscuit
lenient = record {
  verify_token = λ token key now. ok claims;
  verify_token_distinguish_expiry = λ token key now. valid claims;
  verify_and_check_caveat = λ token caveat key now. ok true;
}

abbrev pub repeat : ℕ → ℕ → List ℕ
repeat zero b = []
repeat (suc n) b = b ∷ repeat n b

resolve_did-derive_did_example :
    resolve_did crypto (derive_did crypto (repeat 32 1)) ≡ ok (repeat 32 1)
resolve_did-derive_did_example = resolve_did-derive_did crypto (repeat 32 1) refl

verify_did_signature-eq-resolve_example :
    verify_did_signature crypto (derive_did crypto (repeat 32 1)) (repeat 64 0) (5 ∷ [])
    ≡ is_ok (
        resolve_did crypto (derive_did crypto (repeat 32 1)) >>= λ key.
        verify crypto key (5 ∷ []) (repeat 64 0))
verify_did_signature-eq-resolve_example =
    verify_did_signature-eq-resolve crypto (derive_did crypto (repeat 32 1)) (repeat 64 0) (5 ∷ [])

abbrev pub zstd : Zstd
zstd = record {
  compress = λ bytes. 0 ∷ bytes;
  decompress = λ bytes. elim bytes [ [] ↦ [] | b ∷ bs ↦ bs ];
  decompress-compress = λ bytes. refl;
}

abbrev node : DeltaId → List DeltaId → DagNode
node i ps = record {
  delta_id = i;
  payload = 1 ∷ 2 ∷ [];
  delta_bytes = none;
  parent_ids = ps;
  actor_id = 4 ∷ [];
  lamport = 1;
  schema_hash = 3;
  compacted = false;
  author_did = "did:key:z1";
}

-- 1 → 2 → 4 and 1 → 3 → 4
abbrev diamond : ChangesetDag
diamond =
    insert zstd (node 4 (2 ∷ 3 ∷ [])) (
      insert zstd (node 3 (1 ∷ [])) (insert zstd (node 2 (1 ∷ [])) (insert zstd (node 1 []) empty)))

bfs_descendants-AreDescendants_example :
    (found : List DeltaId) × (bfs_descendants diamond 1 ≡ some found)
    × AreDescendants diamond 1 found
bfs_descendants-AreDescendants_example = bfs_descendants-AreDescendants diamond 1

-- two parents, the later one first
abbrev descending : List DeltaId → List DeltaId
descending [] = []
descending (i ∷ is) = descending is ++ i ∷ []

get-insert_example :
    get zstd descending 5 (insert zstd (node 5 (1 ∷ 4 ∷ [])) diamond)
    ≡ some (record (node 5 (1 ∷ 4 ∷ [])) { parent_ids = 4 ∷ 1 ∷ []; actor_id = [] })
unfolding insert
get-insert_example =
    get-insert zstd descending (node 5 (1 ∷ 4 ∷ [])) diamond refl refl (refl, (refl, tt))

abbrev one : ChangesetDag
one = insert zstd (node 1 []) empty

abbrev incident : DeltaId → List DeltaId → List AffectedRow → IncidentContextObject
incident root deltas rows = record {
  id = root;
  state = open_state;
  taint_source = device_revocation root;
  contamination_roots = root ∷ [];
  contaminated_deltas = deltas;
  affected_rows = rows;
  composite_of = none;
  created_at = pos 0;
  updated_at = pos 0;
  audit_log = [];
}

abbrev first : IncidentContextObject
first = incident 1 (1 ∷ 3 ∷ []) (record { table = "beds"; row_key = "7"; delta_id = 1 } ∷ [])

abbrev second : IncidentContextObject
second = incident 2 (2 ∷ 3 ∷ []) (record { table = "drugs"; row_key = "7"; delta_id = 2 } ∷ [])

composite_merge-Merged_example :
    let m = composite_merge 9 first second (pos 5) in
    (m.ico_a.state ≡ superseded_by 9)
    × (m.ico_b.state ≡ superseded_by 9)
    × (m.composite.state ≡ open_state)
    × (m.composite.composite_of ≡ 1 ∷ 2 ∷ [])
    × ((d : DeltaId)
        → (contains m.composite.contaminated_deltas d
            ≡ (contains (1 ∷ 3 ∷ []) d || contains (2 ∷ 3 ∷ []) d))
          × (contains m.composite.contamination_roots d
              ≡ (contains (1 ∷ []) d || contains (2 ∷ []) d)))
    × ((k : String)
        → has_key m.composite.affected_rows k
          ≡ (has_key first.affected_rows k || has_key second.affected_rows k))
composite_merge-Merged_example = composite_merge-Merged 9 first second (pos 5)
