-- ===== src/Transport/Fragment/Sorting.antt =====
-- The sort by index and the checks of `reassemble` on fragments that arrive in any order.
use mathlib.Core.Path.{ap₂}
use mathlib.Core.List.{Permᴰ}
use tir_base.Prelude.{
  ℕ, suc, ◌+◌, ◌^◌, ◌≤◌, ◌≡◌, refl, ap, ◌∙◌, Bool, true, false, List, [], ◌∷◌, map, arith, eqb,
  length, all, contains, Distinct, nat_eq,
}
use tir_base.Crdt.Delta.{DeltaId}
use tir_base.Transport.Fragment.{
  DeltaFragment, insert_by_index, sort_by_index, matches, in_sequence,
}

abbrev pub index : DeltaFragment → ℕ
index f = f.fragment_index

insert_by_index_comm :
    (f g : DeltaFragment) (fs : List DeltaFragment)
    → eqb (index f) (index g) ≡ false
    → insert_by_index f (insert_by_index g fs) ≡ insert_by_index g (insert_by_index f fs)
insert_by_index_comm f g [] n = ground arith
insert_by_index_comm f g (h ∷ fs) n = ground (arith, insert_by_index_comm f g fs n)

pub contains-perm :
    {xs ys : List DeltaFragment} (k : ℕ)
    → Permᴰ xs ys
    → contains (map index xs) k ≡ contains (map index ys) k
contains-perm k Permᴰ.nil = refl
contains-perm k (Permᴰ.cons e p) = ground (arith, contains-perm k p, ap index e)
contains-perm k (Permᴰ.swap d e) = ground (arith, ap index d, ap index e)
contains-perm k (Permᴰ.trans p q) = contains-perm k p ∙ contains-perm k q

pub Distinct-perm :
    {xs ys : List DeltaFragment} → Permᴰ xs ys → Distinct (map index xs) → Distinct (map index ys)
Distinct-perm Permᴰ.nil d = tt
Distinct-perm (Permᴰ.cons {a = a} e p) d =
    (ground (arith, contains-perm (index a) p, ap index e), Distinct-perm p d.1)
Distinct-perm (Permᴰ.swap d e) h =
    (ground (arith, ap index d, ap index e), (ground (arith, ap index d, ap index e), h.1.1))
Distinct-perm (Permᴰ.trans p q) d = Distinct-perm q (Distinct-perm p d)

-- With distinct indices the sorted list does not depend on the order of arrival.
pub sort_by_index-perm :
    {xs ys : List DeltaFragment}
    → Permᴰ xs ys
    → Distinct (map index xs)
    → sort_by_index xs ≡ sort_by_index ys
unfolding sort_by_index
sort_by_index-perm Permᴰ.nil d = refl
sort_by_index-perm (Permᴰ.cons e p) d = ap₂ insert_by_index e (sort_by_index-perm p d.1)
sort_by_index-perm (Permᴰ.swap {a = a} {b = b} {l = l} d e) h =
    rw (← d, ← e) (insert_by_index_comm a b (sort_by_index l) (ground arith))
sort_by_index-perm (Permᴰ.trans p q) d =
    sort_by_index-perm p d ∙ sort_by_index-perm q (Distinct-perm p d)

pub length-perm : {xs ys : List DeltaFragment} → Permᴰ xs ys → length xs ≡ length ys
length-perm Permᴰ.nil = refl
length-perm (Permᴰ.cons e p) = ap suc (length-perm p)
length-perm (Permᴰ.swap d e) = refl
length-perm (Permᴰ.trans p q) = length-perm p ∙ length-perm q

pub all-perm :
    {xs ys : List DeltaFragment} (p : DeltaFragment → Bool) → Permᴰ xs ys → all p xs ≡ all p ys
all-perm p Permᴰ.nil = refl
all-perm p (Permᴰ.cons e q) = ground (arith, all-perm p q, ap p e)
all-perm p (Permᴰ.swap d e) = ground (arith, ap p d, ap p e)
all-perm p (Permᴰ.trans q r) = all-perm p q ∙ all-perm p r

-- The fragments of a delta from the index `i` on, in order.
abbrev pub InOrder : DeltaId → (total i : ℕ) → List DeltaFragment → Type 0
InOrder delta_id total i [] = Unit
InOrder delta_id total i (f ∷ fs) =
    (f.delta_id ≡ delta_id)
    × (f.fragment_index ≡ i)
    × (f.total_fragments ≡ total)
    × InOrder delta_id total (suc i) fs

module _ (delta_id : DeltaId) (total : ℕ) where
  pub InOrder-all-matches :
      (i : ℕ) (fs : List DeltaFragment)
      → InOrder delta_id total i fs
      → all (matches delta_id total) fs ≡ true
  InOrder-all-matches i [] h = refl
  InOrder-all-matches i (f ∷ fs) h = ground (arith, h.0, h.2, InOrder-all-matches (suc i) fs h.3)

  pub InOrder-in_sequence :
      (i : ℕ) (fs : List DeltaFragment)
      → i + length fs ≤ 2 ^ 32
      → InOrder delta_id total i fs
      → in_sequence i fs ≡ true
  InOrder-in_sequence i [] b h = refl
  InOrder-in_sequence i (f ∷ fs) b h =
      ground (arith, h.1, InOrder-in_sequence (suc i) fs (omega arith) h.3)

  pub sort_by_index-InOrder :
      (i : ℕ) (fs : List DeltaFragment) → InOrder delta_id total i fs → sort_by_index fs ≡ fs
  unfolding sort_by_index
  sort_by_index-InOrder i [] h = refl
  sort_by_index-InOrder i (f ∷ []) h = refl
  sort_by_index-InOrder i (f ∷ g ∷ fs) h =
      rw (sort_by_index-InOrder (suc i) (g ∷ fs) h.3) (ground (arith, h.1, h.3.1))

  -- an index that has passed does not come again
  pub InOrder-fresh :
      (i j : ℕ) (fs : List DeltaFragment)
      → suc j ≤ i
      → InOrder delta_id total i fs
      → contains (map index fs) j ≡ false
  InOrder-fresh i j [] lt h = refl
  InOrder-fresh i j (f ∷ fs) lt h =
      ground (arith, h.1, InOrder-fresh (suc i) j fs (omega arith) h.3)

  pub InOrder-Distinct :
      (i : ℕ) (fs : List DeltaFragment) → InOrder delta_id total i fs → Distinct (map index fs)
  InOrder-Distinct i [] h = tt
  InOrder-Distinct i (f ∷ fs) h =
      (rw h.1 (InOrder-fresh (suc i) i fs (omega arith) h.3), InOrder-Distinct (suc i) fs h.3)
