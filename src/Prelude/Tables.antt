-- ===== src/Prelude/Tables.antt =====
-- What the operations of an association list keep: a predicate on its rows, and its length.
use Prim.Native.Nat.{suc, ◌≤◌}
use mathlib.Core.Path.{◌≡◌, subst}
use mathlib.Core.Logic.{inl, inr}
use mathlib.Core.Bool.{true}
use mathlib.Core.Option.{some}
use mathlib.Core.List.{List, [], ◌∷◌}
use native.Mathlib.Omega.{arith}
use tir_base.Prelude.Lists.{length, All}
use tir_base.Prelude.Tests.{Bool-cases, is_some}
use tir_base.Prelude.Keys.{Eq, ◌==◌, lookup, insert, remove}

module _ {ℓ κ} {K : Type ℓ} {V : Type κ} ⦃e : Eq K⦄ where
  module _ {ι} (P : K × V → Type ι) where
    pub All-remove : (k : K) (m : List (K × V)) → All P m → All P (remove k m)
    All-remove k [] h = tt
    All-remove k ((j, w) ∷ m) h = elim (Bool-cases (j == k)) [
      | inl same ↦ rw same (All-remove k m h.1)
      | inr other ↦ rw other (h.0, All-remove k m h.1)
    ]

    pub All-insert : (k : K) (v : V) (m : List (K × V)) → P (k, v) → All P m → All P (insert k v m)
    All-insert k v [] new h = (new, tt)
    All-insert k v ((j, w) ∷ m) new h = elim (Bool-cases (j == k)) [
      | inl same ↦ rw same (new, h.1)
      | inr other ↦ rw other (h.0, All-insert k v m new h.1)
    ]

    pub All-lookup : (k : K) (v : V) (m : List (K × V)) → All P m → lookup k m ≡ some v → P (k, v)
    All-lookup k v [] h found = cc
    All-lookup k v ((j, w) ∷ m) h found = elim (Bool-cases (j == k)) [
      | inl same ↦
          let value : w ≡ v = ground (arith, same, found) in
          subst (λ i. P (i, v)) ((e.beq_iff j k).0 same) (subst (λ u. P (j, u)) value h.0)
      | inr other ↦ All-lookup k v m h.1 (ground (arith, other, found))
    ]

  pub length-remove-le : (k : K) (m : List (K × V)) → length (remove k m) ≤ length m
  length-remove-le k [] = omega arith
  length-remove-le k ((j, w) ∷ m) = ground (arith, length-remove-le k m)

  pub length-remove-lt :
      (k : K) (m : List (K × V))
      → is_some (lookup k m) ≡ true
      → suc (length (remove k m)) ≤ length m
  length-remove-lt k [] h = cc
  length-remove-lt k ((j, w) ∷ m) h = ground (arith, length-remove-lt k m, length-remove-le k m)

  pub length-insert_new :
      (k : K) (v : V) (m : List (K × V)) → length (insert k v m) ≤ suc (length m)
  length-insert_new k v [] = omega arith
  length-insert_new k v ((j, w) ∷ m) = ground (arith, length-insert_new k v m)

  pub length-insert_old :
      (k : K) (v : V) (m : List (K × V))
      → is_some (lookup k m) ≡ true
      → length (insert k v m) ≡ length m
  length-insert_old k v [] h = cc
  length-insert_old k v ((j, w) ∷ m) h = ground (arith, length-insert_old k v m)
