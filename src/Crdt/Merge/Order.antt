-- ===== src/Crdt/Merge/Order.antt =====
-- The rule of the last writer as an order on writes.
use mathlib.Core.Path.{ap₂}
use tir_base.Prelude.{
  ℕ, ◌≡◌, ◌⊎◌, inl, inr, refl, true, false, not, List, [], ◌∷◌, arith, eqb, Bool-cases,
}
use tir_base.Crdt.Merge.{bytes_gt, merge_lww}

bytes_gt_asym : (a b : List ℕ) → bytes_gt a b ≡ true → bytes_gt b a ≡ false
unfolding bytes_gt
bytes_gt_asym [] b h = cc
bytes_gt_asym (x ∷ a) [] h = refl
bytes_gt_asym (x ∷ a) (y ∷ b) h = ground (arith, bytes_gt_asym a b)

bytes_gt_trans : (a b c : List ℕ) → bytes_gt a b ≡ true → bytes_gt b c ≡ true → bytes_gt a c ≡ true
unfolding bytes_gt
bytes_gt_trans [] b c h k = cc
bytes_gt_trans (x ∷ a) [] c h k = cc
bytes_gt_trans (x ∷ a) (y ∷ b) [] h k = refl
bytes_gt_trans (x ∷ a) (y ∷ b) (z ∷ c) h k = ground (arith, bytes_gt_trans a b c)

bytes_gt_total : (a b : List ℕ) → bytes_gt a b ≡ false → bytes_gt b a ≡ false → a ≡ b
unfolding bytes_gt
bytes_gt_total [] [] h k = refl
bytes_gt_total [] (y ∷ b) h k = cc
bytes_gt_total (x ∷ a) [] h k = cc
bytes_gt_total (x ∷ a) (y ∷ b) h k =
    let head : x ≡ y = ground (arith, h, k) in
    ap₂ (◌∷◌) head (bytes_gt_total a b (ground arith) (ground arith))

-- Of two writes with different clocks or actors exactly one wins against the other; no write wins
-- against one with its own clock and actor; and who wins against a second, which wins against a
-- third, wins against the third.
pub merge_lww-IsOrder :
    (l m n : ℕ) (a b c : List ℕ)
    → (((l ≡ m) × (a ≡ b)) ⊎ (merge_lww l a m b ≡ not (merge_lww m b l a)))
      × (merge_lww l a l a ≡ false)
      × (merge_lww l a m b ≡ true → merge_lww m b n c ≡ true → merge_lww l a n c ≡ true)
unfolding merge_lww
merge_lww-IsOrder l m n a b c = (
  elim (Bool-cases (bytes_gt a b)) [
    | inl ab ↦ inr (ground (arith, ab, bytes_gt_asym a b ab))
    | inr not_ab ↦ elim (Bool-cases (bytes_gt b a)) [
      | inl ba ↦ inr (ground (arith, ba, not_ab))
      | inr not_ba ↦ elim (Bool-cases (eqb l m)) [
        | inl same ↦ inl (ground (arith, same), bytes_gt_total a b not_ab not_ba)
        | inr other ↦ inr (ground (arith, other))
      ]
    ]
  ],
  elim (Bool-cases (bytes_gt a a)) [
    | inl aa ↦ absurd (ground (arith, bytes_gt_asym a a aa, aa))
    | inr not_aa ↦ ground (arith, not_aa)
  ],
  ground (arith, bytes_gt_trans a b c),
)
