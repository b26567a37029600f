-- ===== src/Transport/Saturate/Threshold.antt =====
-- The M-of-N threshold of `terminate`.
use tir_base.Prelude.{
  ℕ, ◌≤◌, ◌≡◌, ◌↔◌, refl, sym, ◌∙◌, Bool, true, false, ◌||◌, ◌&&◌, none, List, [], ◌∷◌, arith,
  contains, string_eq, Distinct, length, length-le_of_Distinct, Bool-cases, inl, inr, ◌==◌,
}
use tir_base.Crdt.Delta.{Did}
use tir_base.Error.{is_ok}
use tir_base.Identity.{Crypto, verify_did_signature}
use tir_base.Transport.Saturate.{
  normal, saturate, SaturateModeStateMachine, count_loop, count_valid_distinct_signatures,
  terminate,
}

seen_already :
    (seen : List Did) (did who : Did) (good later : Bool)
    → contains seen did ≡ true
    → (contains seen who || later) ≡ (contains seen who || (did == who && good || later))
seen_already seen did who good later old = elim (Bool-cases (did == who)) [
  | inl same ↦ rw (← (string_eq.beq_iff did who).0 same, old) refl
  | inr other ↦ rw other refl
]

module _ (crypto : Crypto) (message : List ℕ) where
  -- `did` has a signature over the message that verifies
  abbrev pub signed_by : List (Did × List ℕ) → Did → Bool
  signed_by [] who = false
  signed_by ((did, signature) ∷ signatures) who =
      (did == who && verify_did_signature crypto did signature message) || signed_by signatures who

  -- the DIDs that the loop counts: those it had, and those that signed
  contains-count_loop :
      (seen : List Did) (signatures : List (Did × List ℕ)) (who : Did)
      → contains (count_loop crypto seen signatures message) who
        ≡ (contains seen who || signed_by signatures who)
  unfolding count_loop
  contains-count_loop seen [] who = ground arith
  contains-count_loop seen ((did, signature) ∷ signatures) who =
      elim (Bool-cases (contains seen did)) [
        | inl old ↦ rw old (
            contains-count_loop seen signatures who
            ∙ seen_already seen did who (verify_did_signature crypto did signature message)
                (signed_by signatures who) old)
        | inr new ↦ rw new (elim (Bool-cases (verify_did_signature crypto did signature message)) [
          | inl good ↦ rw good (contains-count_loop (did ∷ seen) signatures who ∙ ground arith)
          | inr bad ↦ rw bad (contains-count_loop seen signatures who ∙ ground arith)
        ])
      ]

  Distinct-count_loop :
      (seen : List Did) (signatures : List (Did × List ℕ))
      → Distinct seen
      → Distinct (count_loop crypto seen signatures message)
  unfolding count_loop
  Distinct-count_loop seen [] h = h
  Distinct-count_loop seen ((did, signature) ∷ signatures) h =
      elim (Bool-cases (contains seen did)) [
        | inl old ↦ rw old (Distinct-count_loop seen signatures h)
        | inr new ↦ rw new (elim (Bool-cases (verify_did_signature crypto did signature message)) [
          | inl good ↦ rw good (Distinct-count_loop (did ∷ seen) signatures (new, h))
          | inr bad ↦ rw bad (Distinct-count_loop seen signatures h)
        ])
      ]

  -- Some `n` different DIDs signed.
  abbrev pub Signed : List (Did × List ℕ) → ℕ → Type 0
  Signed signatures n =
      (signers : List Did) × Distinct signers
      × ((who : Did) → contains signers who ≡ true → signed_by signatures who ≡ true)
      × (n ≤ length signers)

  -- The count is the largest number of different DIDs with a signature that verifies, however
  -- often and in whatever order a DID signs.
  pub count-Signed :
      (signatures : List (Did × List ℕ)) (n : ℕ)
      → (n ≤ count_valid_distinct_signatures crypto signatures message) ↔ Signed signatures n
  unfolding count_valid_distinct_signatures
  count-Signed signatures n = (
    λ h. (
      count_loop crypto [] signatures message,
      Distinct-count_loop [] signatures tt,
      λ who m. sym (contains-count_loop [] signatures who) ∙ m,
      h,
    ),
    λ s. omega (
      arith,
      length-le_of_Distinct s.0 (count_loop crypto [] signatures message) s.1
          (λ who m. contains-count_loop [] signatures who ∙ s.2 who m),
      s.3,
    ),
  )

  -- In SATURATE a termination succeeds exactly when at least as many different DIDs as the
  -- threshold asks for signed the message, and then the machine is in NORMAL with no lease.
  pub terminate_threshold :
      (signatures : List (Did × List ℕ)) (m : SaturateModeStateMachine)
      → m.state ≡ saturate
      → ((is_ok (terminate crypto signatures message m).0 ≡ true)
          ↔ Signed signatures m.termination_threshold_m)
        × (is_ok (terminate crypto signatures message m).0 ≡ true
            → ((terminate crypto signatures message m).1.state ≡ normal)
              × ((terminate crypto signatures message m).1.lease ≡ none))
  unfolding terminate
  terminate_threshold signatures m h = (
    ground (arith, h, count-Signed signatures m.termination_threshold_m),
    λ done. ground (arith, h, done),
  )
