-- ===== src/Identity.antt =====
-- tirbase-core/src/identity: the did:key texts of Ed25519 keys (did.rs) and the signatures under
-- them (keypair.rs). The encodings and the cryptography come from bs58, ed25519-dalek and sha2:
-- they are the interface `Crypto`. A text is stripped of a prefix character by character.
use Prim.Native.Char.{code}
use tir_base.Prelude.{
  ℕ, ◌≡◌, refl, inl, inr, Option-cases, String, Bool, false, ◌&&◌, Option, none, some, List, [],
  ◌∷◌, arith, eqb, if◌then◌else◌, length,
}
use tir_base.Crdt.Delta.{Did}
use tir_base.Error.{
  Result, ok, err, did_resolution_failed, signature_verification_failed, ◌>>=◌, is_ok,
}

-- What the libraries decide, with the one law that is relied on: decoding undoes encoding.
pub record Crypto : Type 0 where
  pub bs58_encode : List ℕ → String
  pub bs58_decode : String → Option (List ℕ)
  pub valid_key : List ℕ → Bool
  pub verifies : List ℕ → List ℕ → List ℕ → Bool
  pub sha256 : List ℕ → List ℕ
  pub decode-encode : (bytes : List ℕ) → bs58_decode (bs58_encode bytes) ≡ some bytes

-- `s.strip_prefix(p)`
unfoldable pub strip_prefix : String → String → Option String
strip_prefix String.[] s = some s
strip_prefix (String.◌∷◌ c p) String.[] = none
strip_prefix (String.◌∷◌ c p) (String.◌∷◌ d s) =
    let rest = strip_prefix p s in if eqb (code c) (code d) then rest else none

-- a text after another
abbrev pub concat : String → String → String
concat String.[] t = t
concat (String.◌∷◌ c s) t = String.◌∷◌ c (concat s t)

-- the key behind the multicodec prefix 0xed 0x01, if it has 32 bytes
abbrev pub multicodec_key : List ℕ → Option (List ℕ)
multicodec_key [] = none
multicodec_key (a ∷ []) = none
multicodec_key (a ∷ b ∷ key) =
    if eqb a 0xed && eqb b 0x01 && eqb (length key) 32 then some key else none

module _ (crypto : Crypto) where
  unfoldable pub derive_did : List ℕ → Did
  derive_did public_key = concat "did:key:z" (crypto.bs58_encode (0xed ∷ 0x01 ∷ public_key))

  abbrev resolved : Did → Option (List ℕ) → Result (List ℕ)
  resolved did none = err (did_resolution_failed did)
  resolved did (some key) = ok key

  abbrev decoded_key : Option (List ℕ) → Option (List ℕ)
  decoded_key none = none
  decoded_key (some bytes) = multicodec_key bytes

  abbrev encoded_key : Option String → Option (List ℕ)
  encoded_key none = none
  encoded_key (some encoded) = decoded_key (crypto.bs58_decode encoded)

  unfoldable pub resolve_did : Did → Result (List ℕ)
  resolve_did did = resolved did (encoded_key (strip_prefix "did:key:z" did))

  -- keypair::verify
  unfoldable pub verify : List ℕ → List ℕ → List ℕ → Result (Unit {0})
  verify public_key payload signature =
      if crypto.valid_key public_key
        && eqb (length signature) 64
        && crypto.verifies public_key payload signature
      then ok tt
      else err signature_verification_failed

  -- decode_multibase_z of transport/saturate.rs
  abbrev decode_stripped : Option String → Option (List ℕ)
  decode_stripped none = none
  decode_stripped (some s) = crypto.bs58_decode s

  unfoldable pub decode_multibase_z : String → Option (List ℕ)
  unfolding strip_prefix
  decode_multibase_z s = decode_stripped (strip_prefix "z" s)

  -- verify_did_signature of transport/saturate.rs
  abbrev key_verifies : Option (List ℕ) → List ℕ → List ℕ → Bool
  key_verifies none signature message = false
  key_verifies (some key) signature message =
      crypto.valid_key key && eqb (length signature) 64 && crypto.verifies key message signature

  abbrev part_verifies : Option String → List ℕ → List ℕ → Bool
  part_verifies none signature message = false
  part_verifies (some key_part) signature message =
      key_verifies (decoded_key (decode_multibase_z key_part)) signature message

  unfoldable pub verify_did_signature : Did → List ℕ → List ℕ → Bool
  verify_did_signature did signature message =
      part_verifies (strip_prefix "did:key:" did) signature message

strip_prefix-concat : (p s : String) → strip_prefix p (concat p s) ≡ some s
unfolding strip_prefix
strip_prefix-concat String.[] s = refl
strip_prefix-concat (String.◌∷◌ c p) s = ground (arith, strip_prefix-concat p s)

abbrev strip_then : String → Option String → Option String
strip_then q none = none
strip_then q (some s) = strip_prefix q s

strip_prefix_twice :
    (p q s : String) → strip_then q (strip_prefix p s) ≡ strip_prefix (concat p q) s
unfolding strip_prefix
strip_prefix_twice String.[] q s = refl
strip_prefix_twice (String.◌∷◌ c p) q String.[] = refl
strip_prefix_twice (String.◌∷◌ c p) q (String.◌∷◌ d s) = ground (arith, strip_prefix_twice p q s)

-- A DID that was derived from a key of 32 bytes resolves to that key.
pub resolve_did-derive_did :
    (crypto : Crypto) (key : List ℕ)
    → length key ≡ 32
    → resolve_did crypto (derive_did crypto key) ≡ ok key
unfolding resolve_did derive_did
resolve_did-derive_did crypto key h =
    rw (strip_prefix-concat "did:key:z" (crypto.bs58_encode (0xed ∷ 0x01 ∷ key)))
      (rw (crypto.decode-encode (0xed ∷ 0x01 ∷ key)) (ground (arith, h)))

verify_agrees :
    (crypto : Crypto) (did : Did) (key : Option (List ℕ)) (signature message : List ℕ)
    → key_verifies crypto key signature message
      ≡ is_ok (resolved crypto did key >>= λ k. verify crypto k message signature)
unfolding verify
verify_agrees crypto did none signature message = refl
verify_agrees crypto did (some key) signature message = ground arith

part_verifies-eq :
    (crypto : Crypto) (did : Did) (part : Option String) (signature message : List ℕ)
    → part_verifies crypto part signature message
      ≡ is_ok (
          resolved crypto did (encoded_key crypto (strip_then "z" part)) >>= λ k.
          verify crypto k message signature)
unfolding decode_multibase_z
part_verifies-eq crypto did none signature message = refl
part_verifies-eq crypto did (some part) signature message =
    elim (Option-cases (strip_prefix "z" part)) [
      | inl e ↦ rw e refl
      | inr (encoded, e) ↦ rw e (
          verify_agrees crypto did (decoded_key crypto (crypto.bs58_decode encoded)) signature
            message)
    ]

-- Saturate_Mode checks a DID's signature by code of its own, which accepts exactly what resolving
-- the DID and verifying under the resolved key accepts.
pub verify_did_signature-eq-resolve :
    (crypto : Crypto) (did : Did) (signature message : List ℕ)
    → verify_did_signature crypto did signature message
      ≡ is_ok (resolve_did crypto did >>= λ key. verify crypto key message signature)
unfolding verify_did_signature resolve_did
verify_did_signature-eq-resolve crypto did signature message =
    let e : strip_then "z" (strip_prefix "did:key:" did) ≡ strip_prefix "did:key:z" did =
      strip_prefix_twice "did:key:" "z" did in
    rw (← e) (part_verifies-eq crypto did (strip_prefix "did:key:" did) signature message)
