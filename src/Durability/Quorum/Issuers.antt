-- ===== src/Durability/Quorum/Issuers.antt =====
-- Who stands behind a Tier-1 quorum.
use tir_base.Prelude.{
  ℕ, suc, ◌+◌, ◌≤◌, ◌≡◌, refl, sym, ◌∙◌, ap, inl, inr, Bool, true, false, ◌||◌, Option, none, some,
  List, [], ◌∷◌, ◌++◌, append_assoc, append-nil, String, arith, ◌==◌, string_eq, contains, Distinct,
  length, length-append, lookup, insert, Bool-cases, if◌then◌else◌,
}
use tir_base.Crdt.Delta.{Did}
use tir_base.Durability.Quorum.{
  DurabilityReceipt, QuorumConfig, Tier1QuorumTracker, SpatialDiversityTracker, new,
  add_receipt_with_tag, counted, quorum_formed, add, tag_or, sum_counts, count_or_zero,
  tagged_receipt_count,
}

sum_counts-insert :
    (tag : String) (m : List (String × ℕ))
    → sum_counts (insert tag (suc (count_or_zero (lookup tag m))) m) ≡ suc (sum_counts m)
sum_counts-insert tag [] = refl
sum_counts-insert tag ((t, n) ∷ m) = ground (arith, sum_counts-insert tag m)

total-add :
    (tag : Option String) (s : SpatialDiversityTracker)
    → tagged_receipt_count (add tag s) + (add tag s).untagged
      ≡ suc (tagged_receipt_count s + s.untagged)
total-add none s = omega arith
total-add (some tag) s = omega (arith, sum_counts-insert tag s.tag_counts)

module _ {F : Type 0} (over : ℕ → ℕ → F → Bool) where
  -- the receipts of a delta set, each with the tag that its beacon gave it, in order of arrival
  unfoldable pub run :
      List (DurabilityReceipt × Option String) → Tier1QuorumTracker F → Tier1QuorumTracker F
  run [] t = t
  run ((receipt, tag) ∷ rs) t = run rs (add_receipt_with_tag over receipt tag t).1

  abbrev pub issued_by : List (DurabilityReceipt × Option String) → Did → Bool
  issued_by [] who = false
  issued_by ((receipt, tag) ∷ rs) who = receipt.issuer_did == who || issued_by rs who

  record IsTracked (k : ℕ) (t : Tier1QuorumTracker F) : Type 0 where
    configured : t.config.k ≡ k
    distinct : Distinct t.seen_issuers
    one_each : length t.seen_issuers ≡ length t.receipts
    tagged_once : tagged_receipt_count t.spatial + t.spatial.untagged ≡ length t.receipts
    enough : t.tier1_achieved ≡ true → k ≤ length t.receipts

  counted-IsTracked :
      (k : ℕ) (receipt : DurabilityReceipt) (tag : Option String) (t : Tier1QuorumTracker F)
      → contains t.seen_issuers receipt.issuer_did ≡ false
      → IsTracked k t
      → IsTracked k (counted over receipt tag t)
  counted-IsTracked k receipt tag t new_one h = record {
    configured = h.configured;
    distinct = (new_one, h.distinct);
    one_each = omega (arith, length-append t.receipts (receipt ∷ []), h.one_each);
    tagged_once = omega (
      arith,
      total-add (tag_or tag receipt.spatial_tag) t.spatial,
      length-append t.receipts (receipt ∷ []),
      h.tagged_once,
    );
    enough = λ done. omega (arith, length-append t.receipts (receipt ∷ []), h.enough done);
  }

  formed-IsTracked :
      (k : ℕ) (t : Tier1QuorumTracker F)
      → quorum_formed over t ≡ true
      → IsTracked k t
      → IsTracked k (record t { tier1_achieved = true })
  formed-IsTracked k t formed h = record {
    configured = h.configured;
    distinct = h.distinct;
    one_each = h.one_each;
    tagged_once = h.tagged_once;
    enough = λ done. ground (arith, formed, h.configured);
  }

  step-IsTracked :
      (k : ℕ) (receipt : DurabilityReceipt) (tag : Option String) (t : Tier1QuorumTracker F)
      → IsTracked k t
      → IsTracked k (add_receipt_with_tag over receipt tag t).1
  unfolding add_receipt_with_tag
  step-IsTracked k receipt tag t h =
      elim (Bool-cases (contains t.seen_issuers receipt.issuer_did)) [
        | inl old ↦ rw old h
        | inr new_one ↦
            let c = counted-IsTracked k receipt tag t new_one h in
            elim (Bool-cases (quorum_formed over (counted over receipt tag t))) [
              | inl formed ↦
                  rw (new_one, formed) (formed-IsTracked k (counted over receipt tag t) formed c)
              | inr not_formed ↦ rw (new_one, not_formed) c
            ]
      ]

  run-IsTracked :
      (k : ℕ) (rs : List (DurabilityReceipt × Option String)) (t : Tier1QuorumTracker F)
      → IsTracked k t
      → IsTracked k (run rs t)
  unfolding run
  run-IsTracked k [] t h = h
  run-IsTracked k ((receipt, tag) ∷ rs) t h =
      run-IsTracked k rs (add_receipt_with_tag over receipt tag t).1
        (step-IsTracked k receipt tag t h)

  seen-step :
      (receipt : DurabilityReceipt) (tag : Option String) (t : Tier1QuorumTracker F) (who : Did)
      → contains (add_receipt_with_tag over receipt tag t).1.seen_issuers who
        ≡ (receipt.issuer_did == who || contains t.seen_issuers who)
  unfolding add_receipt_with_tag
  seen-step receipt tag t who = elim (Bool-cases (contains t.seen_issuers receipt.issuer_did)) [
    | inl old ↦ elim (Bool-cases (receipt.issuer_did == who)) [
      | inl same ↦
          let e : contains t.seen_issuers who ≡ true =
            ap (contains t.seen_issuers) (sym ((string_eq.beq_iff receipt.issuer_did who).0 same))
            ∙ old in
          rw old (ground (arith, e, same))
      | inr other ↦ rw old (ground (arith, other))
    ]
    | inr new_one ↦ elim (Bool-cases (quorum_formed over (counted over receipt tag t))) [
      | inl formed ↦ rw (new_one, formed) refl
      | inr not_formed ↦ rw (new_one, not_formed) refl
    ]
  ]

  seen-run :
      (rs : List (DurabilityReceipt × Option String)) (t : Tier1QuorumTracker F) (who : Did)
      → contains (run rs t).seen_issuers who ≡ (issued_by rs who || contains t.seen_issuers who)
  unfolding run
  seen-run [] t who = refl
  seen-run ((receipt, tag) ∷ rs) t who =
      seen-run rs (add_receipt_with_tag over receipt tag t).1 who
      ∙ ground (arith, seen-step receipt tag t who)

  new-IsTracked : (config : QuorumConfig F) → IsTracked config.k (new config)
  unfolding new
  new-IsTracked config = record {
    configured = refl;
    distinct = tt;
    one_each = refl;
    tagged_once = refl;
    enough = λ done. cc;
  }

  -- the first receipt of each issuer, in order of arrival
  abbrev pub firsts : List Did → List (DurabilityReceipt × Option String) → List DurabilityReceipt
  firsts seen [] = []
  firsts seen ((receipt, tag) ∷ rs) =
      let rest = firsts seen rs in
      let rest' = firsts (receipt.issuer_did ∷ seen) rs in
      if contains seen receipt.issuer_did then rest else receipt ∷ rest'

  receipts-step :
      (receipt : DurabilityReceipt) (tag : Option String)
      (rs : List (DurabilityReceipt × Option String)) (t : Tier1QuorumTracker F)
      → let t' = (add_receipt_with_tag over receipt tag t).1 in
        t'.receipts ++ firsts t'.seen_issuers rs
        ≡ t.receipts ++ firsts t.seen_issuers ((receipt, tag) ∷ rs)
  unfolding add_receipt_with_tag
  receipts-step receipt tag rs t = elim (Bool-cases (contains t.seen_issuers receipt.issuer_did)) [
    | inl old ↦ rw old refl
    | inr new_one ↦
        let rest = firsts (receipt.issuer_did ∷ t.seen_issuers) rs in
        elim (Bool-cases (quorum_formed over (counted over receipt tag t))) [
          | inl formed ↦ rw (new_one, formed) (append_assoc t.receipts (receipt ∷ []) rest)
          | inr not_formed ↦ rw (new_one, not_formed) (append_assoc t.receipts (receipt ∷ []) rest)
        ]
  ]

  receipts-run :
      (rs : List (DurabilityReceipt × Option String)) (t : Tier1QuorumTracker F)
      → (run rs t).receipts ≡ t.receipts ++ firsts t.seen_issuers rs
  unfolding run
  receipts-run [] t = sym (append-nil t.receipts)
  receipts-run ((receipt, tag) ∷ rs) t =
      receipts-run rs (add_receipt_with_tag over receipt tag t).1 ∙ receipts-step receipt tag rs t

  pub tier1_issuers :
      (config : QuorumConfig F) (rs : List (DurabilityReceipt × Option String))
      → let t = run rs (new config) in
        (t.tier1_achieved ≡ true
          → (issuers : List Did) × Distinct issuers
            × (config.k ≤ length issuers)
            × ((who : Did) → contains issuers who ≡ issued_by rs who))
        × (length t.seen_issuers ≡ length t.receipts)
        × (t.receipts ≡ firsts [] rs)
        × (tagged_receipt_count t.spatial + t.spatial.untagged ≡ length t.receipts)
  unfolding new
  tier1_issuers config rs =
      let t = run rs (new config) in
      let h = run-IsTracked config.k rs (new config) (new-IsTracked config) in
      (
        λ done. (
          t.seen_issuers,
          h.distinct,
          omega (arith, h.enough done, h.one_each),
          λ who. seen-run rs (new config) who ∙ ground arith,
        ),
        h.one_each,
        receipts-run rs (new config),
        h.tagged_once,
      )

  step_keeps :
      (receipt : DurabilityReceipt) (tag : Option String) (t : Tier1QuorumTracker F)
      → t.tier1_achieved ≡ true
      → (add_receipt_with_tag over receipt tag t).1.tier1_achieved ≡ true
  unfolding add_receipt_with_tag
  step_keeps receipt tag t done = ground (arith, done)

  -- Tier-1 stays, whatever receipts come later.
  pub tier1_stays :
      (rs : List (DurabilityReceipt × Option String)) (t : Tier1QuorumTracker F)
      → t.tier1_achieved ≡ true
      → (run rs t).tier1_achieved ≡ true
  unfolding run
  tier1_stays [] t done = done
  tier1_stays ((receipt, tag) ∷ rs) t done =
      tier1_stays rs (add_receipt_with_tag over receipt tag t).1 (step_keeps receipt tag t done)
