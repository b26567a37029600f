-- ===== src/Auth/Revocation/Collected.antt =====
-- What stands behind a revocation that the store builds.
use tir_base.Prelude.{
  ℕ, ◌≤◌, ◌≡◌, refl, sym, ◌∙◌, ap, inl, inr, Bool, true, false, Option, none, some, List, [], ◌∷◌,
  ◌++◌, String, ℤ, arith, if◌then◌else◌, ◌==◌, string_eq, contains, Distinct, Distinct-snoc, All,
  All-append, length, lookup, insert, lookup-insert, Bool-cases, Option-cases, leb, ltb,
}
use mathlib.Core.Path.{subst}
use tir_base.Error.{Result, ok, err, is_ok, authorisation_failed}
use tir_base.Crdt.Delta.{Did}
use tir_base.Identity.{Crypto}
use tir_base.Auth.Revocation.{
  ManagerSignature, RevocationDelta, PendingRevocation, PendingRevocationStore, RevocationStatus,
  empty_store, managers, entry_or, collect, check_signature, add_signature, build_revocation_delta,
  built, time_or, stored, once_checked,
}

-- one call of `add_signature`
pub record Call : Type 0 where
  pub target : Did
  pub sig : ManagerSignature
  pub threshold_m : ℕ
  pub threshold_n : ℕ
  pub revoked_dids : List Did
  pub now : ℤ

some_inj : (p q : PendingRevocation) → some p ≡ some q → p ≡ q
some_inj p q e = cc

delta_inj : (x y : RevocationDelta) → some x ≡ some y → x ≡ y
delta_inj x y e = cc

managers-append : (xs ys : List ManagerSignature) → managers (xs ++ ys) ≡ managers xs ++ managers ys
managers-append [] ys = refl
managers-append (x ∷ xs) ys = ap (λ (ds : List Did). x.manager_did ∷ ds) (managers-append xs ys)

module _ (crypto : Crypto) (utf8 : String → List ℕ) where
  -- every signature is of another manager, and verifies for this target
  record IsCollected (target : Did) (signatures : List ManagerSignature) : Type 0 where
    distinct : Distinct (managers signatures)
    checked : All (λ s. is_ok (check_signature crypto utf8 target s) ≡ true) signatures

  abbrev IsSound : PendingRevocationStore → Type 0
  IsSound store =
      (target : Did) (p : PendingRevocation)
      → lookup target store.entries ≡ some p
      → IsCollected target p.signatures

  collect-IsCollected :
      (target : Did) (sig : ManagerSignature) (now : ℤ) (p : PendingRevocation)
      → is_ok (check_signature crypto utf8 target sig) ≡ true
      → IsCollected target p.signatures
      → IsCollected target (collect sig now p).1.signatures
  unfolding collect
  collect-IsCollected target sig now p good h =
      elim (Bool-cases (contains (managers p.signatures) sig.manager_did)) [
        | inl old ↦ rw old h
        | inr new_one ↦ elim (Bool-cases (leb p.threshold_m (length p.signatures))) [
          | inl done ↦ rw (new_one, done) h
          | inr open_yet ↦
              rw (new_one, open_yet)
                (record {
                  distinct =
                      rw (managers-append p.signatures (sig ∷ []))
                        (Distinct-snoc (managers p.signatures) sig.manager_did h.distinct new_one);
                  checked = All-append _ p.signatures (sig ∷ []) h.checked (good, tt);
                })
        ]
      ]

  entry_or-IsCollected :
      (o : Option PendingRevocation) (target : Did) (m n : ℕ) (now : ℤ)
      → ((p : PendingRevocation) → o ≡ some p → IsCollected target p.signatures)
      → IsCollected target (entry_or o target m n now).signatures
  entry_or-IsCollected none target m n now h = record { distinct = tt; checked = tt }
  entry_or-IsCollected (some p) target m n now h = h p refl

  insert-IsSound :
      (store : PendingRevocationStore) (target : Did) (p : PendingRevocation)
      → IsSound store
      → IsCollected target p.signatures
      → IsSound (record { entries = insert target p store.entries })
  insert-IsSound store target p h c other q there =
      let found = sym (lookup-insert target other p store.entries) ∙ there in
      elim (Bool-cases (target == other)) [
        | inl same ↦
            let e : p ≡ q = some_inj p q (ground (arith, found, same)) in
            subst (λ t. IsCollected t q.signatures) ((string_eq.beq_iff target other).0 same)
              (subst (λ (r : PendingRevocation). IsCollected target r.signatures) e c)
        | inr apart ↦ h other q (ground (arith, found, apart))
      ]

  once_checked-IsSound :
      (r : Result (Unit {0})) (done : Result RevocationStatus × PendingRevocationStore)
      (store : PendingRevocationStore)
      → IsSound store
      → (is_ok r ≡ true → IsSound done.1)
      → IsSound (once_checked crypto utf8 r done store).1
  once_checked-IsSound (ok u) done store h f = f refl
  once_checked-IsSound (err e) done store h f = h

  either-IsSound :
      (b : Bool) (x y : Result RevocationStatus × PendingRevocationStore)
      → IsSound x.1
      → IsSound y.1
      → IsSound (if b then x else y).1
  either-IsSound true x y f g = f
  either-IsSound false x y f g = g

  unfoldable pub call : Call → PendingRevocationStore → PendingRevocationStore
  call c store =
      (add_signature crypto utf8 c.target c.sig c.threshold_m c.threshold_n c.revoked_dids c.now
        store).1

  unfoldable pub run : List Call → PendingRevocationStore → PendingRevocationStore
  run [] store = store
  run (c ∷ cs) store = run cs (call c store)

  call-IsSound :
      (c : Call) (store : PendingRevocationStore) → IsSound store → IsSound (call c store)
  unfolding call add_signature
  call-IsSound c store h =
      let p =
        record (entry_or (lookup c.target store.entries) c.target c.threshold_m c.threshold_n
          c.now) { threshold_m = c.threshold_m; threshold_n = c.threshold_n } in
      let done = stored crypto utf8 c.target (collect c.sig c.now p) store in
      let checked = check_signature crypto utf8 c.target c.sig in
      either-IsSound (contains c.revoked_dids c.sig.manager_did) (err authorisation_failed, store)
        (once_checked crypto utf8 checked done store) h
        (once_checked-IsSound checked done store h (λ good.
          insert-IsSound store c.target (collect c.sig c.now p).1 h (
            collect-IsCollected c.target c.sig c.now p good (
              entry_or-IsCollected (lookup c.target store.entries) c.target c.threshold_m
                c.threshold_n c.now (h c.target)))))

  run-IsSound :
      (cs : List Call) (store : PendingRevocationStore) → IsSound store → IsSound (run cs store)
  unfolding run
  run-IsSound [] store h = h
  run-IsSound (c ∷ cs) store h = run-IsSound cs (call c store) (call-IsSound c store h)

  none-built : (target : Did) (d : RevocationDelta) → ¬ (built target none ≡ some d)
  none-built target d b = cc

  built_of_entry :
      (target : Did) (p : PendingRevocation) (d : RevocationDelta)
      → built target (some p) ≡ some d
      → (d.target_did ≡ target)
        × (p.signatures ≡ d.signatures)
        × (p.threshold_m ≤ length d.signatures)
  built_of_entry target p d b = elim (Bool-cases (ltb (length p.signatures) p.threshold_m)) [
    | inl few ↦ absurd (ground (arith, b, few))
    | inr enough ↦
        let e : record {
          target_did = target;
          signatures = p.signatures;
          created_at = time_or p.last_receipt_timestamp p.initiated_at;
        }
            ≡ d =
          delta_inj _ d (ground (arith, b, enough)) in
        (
          sym (ap (λ (r : RevocationDelta). r.target_did) e),
          ap (λ (r : RevocationDelta). r.signatures) e,
          subst (λ (ss : List ManagerSignature). p.threshold_m ≤ length ss)
              (ap (λ (r : RevocationDelta). r.signatures) e) (ground (arith, enough)),
        )
  ]

  -- Every revocation that the store builds, after any signatures for any targets in any order, is
  -- for the target asked, and carries at least as many signatures as the threshold of its entry
  -- asks for, of different managers, each of which verifies over the payload of that target under
  -- the key of its manager's DID.
  pub built_signatures :
      (cs : List Call) (target : Did) (d : RevocationDelta)
      → build_revocation_delta target (run cs empty_store) ≡ some d
      → (d.target_did ≡ target)
        × Distinct (managers d.signatures)
        × All (λ s. is_ok (check_signature crypto utf8 target s) ≡ true) d.signatures
        × ((p : PendingRevocation)
            → lookup target (run cs empty_store).entries ≡ some p
            → p.threshold_m ≤ length d.signatures)
  unfolding build_revocation_delta
  built_signatures cs target d b =
      elim (Option-cases (lookup target (run cs empty_store).entries)) [
        | inl e ↦ absurd (none-built target d (sym (ap (built target) e) ∙ b))
        | inr (p, e) ↦
            let (same, ss, enough) = built_of_entry target p d (sym (ap (built target) e) ∙ b) in
            let h =
              subst (IsCollected target) ss
                (run-IsSound cs empty_store (λ t q there. cc) target p e) in
            (
              same,
              h.distinct,
              h.checked,
              λ q there. (built_of_entry target q d (sym (ap (built target) there) ∙ b)).2,
            )
      ]
