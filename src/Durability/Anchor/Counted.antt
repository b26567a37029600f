-- ===== src/Durability/Anchor/Counted.antt =====
-- Runs of the operations of tirbase-core/src/durability/anchor.rs, and the tokens that count after them.
use tir_base.Prelude.{
  ℕ, ◌≤◌, ◌≡◌, refl, sym, ap, ◌∙◌, inl, inr, String, Bool, true, false, Option, none, some, List,
  [], ◌∷◌, arith, ℤ, ltb, ◌==◌, nat_eq, eqb_iff, Bool-cases, contains,
}
use tir_base.Error.{Result, ok, err, is_ok}
use tir_base.Crdt.Delta.{Did}
use tir_base.Identity.{Crypto, verify}
use tir_base.Durability.Quorum.{BeaconToken}
use tir_base.Durability.Anchor.{
  AnchorMode, beacon_attested, squad_tag_fallback, AnchorAttestedLocation, advance_epoch,
  on_beacon_signal_lost, find_beacon_key, beacon_token_signing_payload, seen_if, checked_with,
  verify_beacon_token, counted_in, peer_has_valid_token,
}

-- the operations that change the state
pub data AnchorStep : Type 0 where
  advance : ℕ → AnchorStep
  verify_token count_token : BeaconToken → ℤ → AnchorStep
  lose_signal : ℤ → List Did → AnchorStep

-- the epochs announced, and whether a signal was lost
abbrev pub epochs : List AnchorStep → List ℕ
epochs [] = []
epochs (advance n ∷ steps) = n ∷ epochs steps
epochs (verify_token token now ∷ steps) = epochs steps
epochs (count_token token now ∷ steps) = epochs steps
epochs (lose_signal at peers ∷ steps) = epochs steps

abbrev pub loses : List AnchorStep → Bool
loses [] = false
loses (advance n ∷ steps) = loses steps
loses (verify_token token now ∷ steps) = loses steps
loses (count_token token now ∷ steps) = loses steps
loses (lose_signal at peers ∷ steps) = true

-- what a step keeps
record Keeps (a b : AnchorAttestedLocation) : Type 0 where
  registry : b.beacon_registry ≡ a.beacon_registry
  older : a.current_epoch ≤ b.current_epoch
  attested : b.mode ≡ beacon_attested → a.mode ≡ beacon_attested

Keeps-refl : (a : AnchorAttestedLocation) → Keeps a a
Keeps-refl a = record { registry = refl; older = omega arith; attested = λ h. h }

advance_epoch-Keeps : (n : ℕ) (a : AnchorAttestedLocation) → Keeps a (advance_epoch n a)
unfolding advance_epoch
advance_epoch-Keeps n a = elim (Bool-cases (ltb a.current_epoch n)) [
  | inl later ↦
      rw later (record { registry = refl; older = ground (arith, later); attested = λ h. h })
  | inr other ↦ rw other (Keeps-refl a)
]

le-advance_epoch : (n : ℕ) (a : AnchorAttestedLocation) → n ≤ (advance_epoch n a).current_epoch
unfolding advance_epoch
le-advance_epoch n a = ground arith

module _ (crypto : Crypto) (utf8 : String → List ℕ) where
  abbrev pub step : AnchorStep → AnchorAttestedLocation → AnchorAttestedLocation
  step (advance n) a = advance_epoch n a
  step (verify_token token now) a = (verify_beacon_token crypto utf8 token now a).0
  step (count_token token now) a = (peer_has_valid_token crypto utf8 token now a).0
  step (lose_signal at peers) a = on_beacon_signal_lost at peers a

  abbrev pub run : List AnchorStep → AnchorAttestedLocation → AnchorAttestedLocation
  run [] a = a
  run (s ∷ steps) a = run steps (step s a)

  seen_if-Keeps :
      (key : List ℕ) (now : ℤ) (a : AnchorAttestedLocation) (r : Result (Unit {0}))
      → Keeps a (seen_if crypto utf8 key now a r).0
  seen_if-Keeps key now a (ok _) = record {
    registry = refl;
    older = omega arith;
    attested = λ h. h;
  }
  seen_if-Keeps key now a (err e) = Keeps-refl a

  -- the signature, for a token of the epoch that now is, or a later one
  abbrev pub signed : BeaconToken → List ℕ → Result (Unit {0})
  signed token key =
      verify crypto key (beacon_token_signing_payload utf8 token.epoch token.location_claim)
        token.beacon_signature

  verify_beacon_token-Keeps :
      (token : BeaconToken) (now : ℤ) (a : AnchorAttestedLocation)
      → Keeps a (verify_beacon_token crypto utf8 token now a).0
  unfolding verify_beacon_token
  verify_beacon_token-Keeps token now a =
      checked (find_beacon_key token.beacon_did a.beacon_registry)
    where
      checked : (o : Option (List ℕ)) → Keeps a (checked_with crypto utf8 o token now a).0
      checked none = Keeps-refl a
      checked (some key) = elim (Bool-cases (ltb token.epoch a.current_epoch)) [
        | inl stale ↦ rw stale (Keeps-refl a)
        | inr fresh ↦ rw fresh (seen_if-Keeps key now a (signed token key))
      ]

  peer_has_valid_token-Keeps :
      (token : BeaconToken) (now : ℤ) (a : AnchorAttestedLocation)
      → Keeps a (peer_has_valid_token crypto utf8 token now a).0
  unfolding peer_has_valid_token
  peer_has_valid_token-Keeps token now a = counted a.mode
    where
      counted :
          (m : AnchorMode)
          → Keeps a (counted_in crypto utf8 m a (verify_beacon_token crypto utf8 token now a)).0
      counted beacon_attested = verify_beacon_token-Keeps token now a
      counted squad_tag_fallback = Keeps-refl a

  record Ran (steps : List AnchorStep) (a b : AnchorAttestedLocation) : Type 0 where
    registry : b.beacon_registry ≡ a.beacon_registry
    older : a.current_epoch ≤ b.current_epoch
    attested : b.mode ≡ beacon_attested → (a.mode ≡ beacon_attested) × (loses steps ≡ false)
    newer : (n : ℕ) → contains (epochs steps) n ≡ true → n ≤ b.current_epoch

  -- a step before a run that neither announces an epoch nor loses a signal
  Ran-Keeps :
      (s : AnchorStep) (steps : List AnchorStep) (a m b : AnchorAttestedLocation)
      → epochs (s ∷ steps) ≡ epochs steps
      → loses (s ∷ steps) ≡ loses steps
      → Keeps a m
      → Ran steps m b
      → Ran (s ∷ steps) a b
  Ran-Keeps s steps a m b same_epochs same_loses k r = record {
    registry = r.registry ∙ k.registry;
    older = omega (arith, k.older, r.older);
    attested = λ h. (k.attested (r.attested h).0, same_loses ∙ (r.attested h).1);
    newer = λ n h. r.newer n (ap (λ l. contains l n) (sym same_epochs) ∙ h);
  }

  run-Ran : (steps : List AnchorStep) (a : AnchorAttestedLocation) → Ran steps a (run steps a)
  unfolding on_beacon_signal_lost
  run-Ran [] a = record {
    registry = refl;
    older = omega arith;
    attested = λ h. (h, refl);
    newer = λ n h. cc;
  }
  run-Ran (advance n ∷ steps) a =
      let r = run-Ran steps (advance_epoch n a) in
      let k = advance_epoch-Keeps n a in
      record {
        registry = r.registry ∙ k.registry;
        older = omega (arith, k.older, r.older);
        attested = λ h. (k.attested (r.attested h).0, (r.attested h).1);
        newer = λ e h. elim (Bool-cases (n == e)) [
          | inl same ↦ omega (arith, (eqb_iff n e).0 same, le-advance_epoch n a, r.older)
          | inr other ↦ r.newer e (ground (arith, h, other))
        ];
      }
  run-Ran (verify_token token now ∷ steps) a =
      let m = step (verify_token token now) a in
      Ran-Keeps (verify_token token now) steps a m (run steps m) refl refl
        (verify_beacon_token-Keeps token now a) (run-Ran steps m)
  run-Ran (count_token token now ∷ steps) a =
      let m = step (count_token token now) a in
      Ran-Keeps (count_token token now) steps a m (run steps m) refl refl
        (peer_has_valid_token-Keeps token now a) (run-Ran steps m)
  run-Ran (lose_signal at peers ∷ steps) a =
      let r = run-Ran steps (on_beacon_signal_lost at peers a) in
      record {
        registry = r.registry;
        older = r.older;
        attested = λ h. absurd (fallback (r.attested h).0);
        newer = r.newer;
      }
    where
      fallback : squad_tag_fallback ≡ beacon_attested → ⊥
      fallback h = cc

  -- what a token that is accepted shows
  pub record Accepted (token : BeaconToken) (a : AnchorAttestedLocation) : Type 0 where
    pub key : List ℕ
    pub registered : find_beacon_key token.beacon_did a.beacon_registry ≡ some key
    pub fresh : a.current_epoch ≤ token.epoch
    pub genuine : is_ok (signed token key) ≡ true

  seen_if-is_ok :
      (key : List ℕ) (now : ℤ) (a : AnchorAttestedLocation) (r : Result (Unit {0}))
      → is_ok (seen_if crypto utf8 key now a r).1 ≡ is_ok r
  seen_if-is_ok key now a (ok _) = refl
  seen_if-is_ok key now a (err e) = refl

  verify_beacon_token-Accepted :
      (token : BeaconToken) (now : ℤ) (a : AnchorAttestedLocation)
      → is_ok (verify_beacon_token crypto utf8 token now a).1 ≡ true
      → Accepted token a
  unfolding verify_beacon_token
  verify_beacon_token-Accepted token now a =
      checked (find_beacon_key token.beacon_did a.beacon_registry) refl
    where
      checked :
          (o : Option (List ℕ))
          → find_beacon_key token.beacon_did a.beacon_registry ≡ o
          → is_ok (checked_with crypto utf8 o token now a).1 ≡ true
          → Accepted token a
      checked none e h = cc
      checked (some key) e h = elim (Bool-cases (ltb token.epoch a.current_epoch)) [
        | inl stale ↦ absurd (ground (arith, h, stale))
        | inr fresh ↦ record {
          key = key;
          registered = e;
          fresh = ground (arith, fresh);
          genuine = sym (seen_if-is_ok key now a (signed token key)) ∙ rw fresh at h;
        }
      ]

  counted_in-attested :
      (m : AnchorMode) (a : AnchorAttestedLocation)
      (done : AnchorAttestedLocation × Result (Unit {0}))
      → (counted_in crypto utf8 m a done).1 ≡ true
      → (m ≡ beacon_attested) × (is_ok done.1 ≡ true)
  counted_in-attested beacon_attested a done h = (refl, h)
  counted_in-attested squad_tag_fallback a done h = cc

  -- After any run of the operations, a token counts toward spatial diversity only if the mode was
  -- attested at the start and no loss of signal was declared since, its epoch is none before the
  -- epoch at the start or any announced in the run, and its signature verifies under the key that
  -- the registry at the start has for its beacon.
  pub peer_has_valid_token-run :
      (steps : List AnchorStep) (a : AnchorAttestedLocation) (token : BeaconToken) (now : ℤ)
      → (peer_has_valid_token crypto utf8 token now (run steps a)).1 ≡ true
      → (a.mode ≡ beacon_attested)
        × (loses steps ≡ false)
        × (a.current_epoch ≤ token.epoch)
        × ((n : ℕ) → contains (epochs steps) n ≡ true → n ≤ token.epoch)
        × (key : List ℕ) × (find_beacon_key token.beacon_did a.beacon_registry ≡ some key)
        × (is_ok (signed token key) ≡ true)
  unfolding peer_has_valid_token
  peer_has_valid_token-run steps a token now h =
      let b = run steps a in
      let r = run-Ran steps a in
      let c = counted_in-attested b.mode b (verify_beacon_token crypto utf8 token now b) h in
      let v = verify_beacon_token-Accepted token now b c.1 in
      let mode = r.attested c.0 in
      (
        mode.0,
        mode.1,
        omega (arith, r.older, v.fresh),
        λ n e. omega (arith, r.newer n e, v.fresh),
        v.key,
        ap (find_beacon_key token.beacon_did) (sym r.registry) ∙ v.registered,
        v.genuine,
      )
