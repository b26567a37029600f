-- ===== src/Transport/Fragment/Seen.antt =====
-- The slots of a delta while its fragments arrive, and when they are all there.
use mathlib.Core.Path.{subst}
use tir_base.Prelude.{
  ℕ, zero, suc, ◌+◌, ◌≤◌, ◌<◌, ◌≡◌, ◌⊎◌, refl, ap, Bool, true, false, inl, inr, none, some, List,
  [], ◌∷◌, arith, if◌then◌else◌, eqb, Bool-cases, length, all, is_some, contains, nat_eq,
}
use tir_base.Transport.Fragment.{DeltaFragment, Slots, empty_slots, set, unwrapped}
use tir_base.Transport.Fragment.Sorting.{index, InOrder}

-- The slots of a delta of which the fragments with the indices `ks` have arrived.
unfoldable pub seen : List ℕ → List DeltaFragment → Slots
seen ks [] = []
seen ks (f ∷ fs) = (if contains ks (index f) then some f else none) ∷ seen ks fs

pub length-seen : (ks : List ℕ) (fs : List DeltaFragment) → length (seen ks fs) ≡ length fs
unfolding seen
length-seen ks [] = refl
length-seen ks (f ∷ fs) = ap suc (length-seen ks fs)

pub seen-nil : (fs : List DeltaFragment) → seen [] fs ≡ empty_slots (length fs)
unfolding seen
seen-nil [] = refl
seen-nil (f ∷ fs) = ap (◌∷◌ none) (seen-nil fs)

-- one of the fragments, by what it is
abbrev pub Among : List DeltaFragment → DeltaFragment → Type 0
Among [] g = ⊥
Among (f ∷ fs) g = (f ≡ g) ⊎ Among fs g

seen_later :
    (id total i k : ℕ) (ks : List ℕ) (fs : List DeltaFragment)
    → k < i
    → InOrder id total i fs
    → seen (k ∷ ks) fs ≡ seen ks fs
unfolding seen
seen_later id total i k ks [] lt h = refl
seen_later id total i k ks (f ∷ fs) lt h =
    let other : eqb k (index f) ≡ false = rw h.1 (ground arith) in
    rw (other, seen_later id total (suc i) k ks fs (omega arith) h.3) refl

seen_head :
    (id total i : ℕ) (ks : List ℕ) (f : DeltaFragment) (fs : List DeltaFragment)
    → InOrder id total i (f ∷ fs)
    → (some f ∷ seen ks fs) ≡ seen (index f ∷ ks) (f ∷ fs)
unfolding seen
seen_head id total i ks f fs h =
    rw (seen_later id total (suc i) (index f) ks fs (omega (arith, h.1)) h.3) (ground arith)

-- a fragment that is one of them belongs to the delta, and its index is in range
pub record Known (id total i : ℕ) (fs : List DeltaFragment) (g : DeltaFragment) : Type 0 where
  pub own : g.delta_id ≡ id
  pub total_known : g.total_fragments ≡ total
  pub from : i ≤ index g
  pub below : index g < i + length fs

pub Among→Known :
    (id total i : ℕ) (fs : List DeltaFragment) (g : DeltaFragment)
    → InOrder id total i fs
    → Among fs g
    → Known id total i fs g
Among→Known id total i [] g h m = absurd m
Among→Known id total i (f ∷ fs) g h (inl same) =
    subst (Known id total i (f ∷ fs)) same (record {
      own = h.0;
      total_known = h.2;
      from = omega (arith, h.1);
      below = omega (arith, h.1);
    })
Among→Known id total i (f ∷ fs) g h (inr later) =
    let k = Among→Known id total (suc i) fs g h.3 later in
    record {
      own = k.own;
      total_known = k.total_known;
      from = omega (arith, k.from);
      below = omega (arith, k.below);
    }

pub set-seen :
    (id total i j : ℕ) (ks : List ℕ) (fs : List DeltaFragment) (g : DeltaFragment)
    → InOrder id total i fs
    → Among fs g
    → index g ≡ i + j
    → set j (some g) (seen ks fs) ≡ seen (index g ∷ ks) fs
unfolding seen
set-seen id total i j ks [] g h m e = absurd m
set-seen id total i zero ks (f ∷ fs) g h (inl same) e =
    subst (λ x. (some x ∷ seen ks fs) ≡ seen (index x ∷ ks) (f ∷ fs)) same
      (seen_head id total i ks f fs h)
set-seen id total i zero ks (f ∷ fs) g h (inr later) e =
    absurd (omega (arith, (Among→Known id total (suc i) fs g h.3 later).from))
set-seen id total i (suc j) ks (f ∷ fs) g h (inl same) e =
    absurd (omega (arith, ap index same, h.1))
set-seen id total i (suc j) ks (f ∷ fs) g h (inr later) e =
    let other : eqb (index g) (index f) ≡ false = rw (h.1, e) (ground arith) in
    rw other (
      ap (◌∷◌ (if contains ks (index f) then some f else none))
        (set-seen id total (suc i) j ks fs g h.3 later (omega arith)))

pub all-seen :
    (ks : List ℕ) (fs : List DeltaFragment)
    → all is_some (seen ks fs) ≡ all (λ f. contains ks (index f)) fs
unfolding seen
all-seen ks [] = refl
all-seen ks (f ∷ fs) = ground (arith, all-seen ks fs)

pub unwrapped-seen :
    (ks : List ℕ) (fs : List DeltaFragment)
    → all (λ f. contains ks (index f)) fs ≡ true
    → unwrapped (seen ks fs) ≡ fs
unfolding seen
unwrapped-seen ks [] h = refl
unwrapped-seen ks (f ∷ fs) h = elim (Bool-cases (contains ks (index f))) [
  | inl e ↦ rw e (ap (◌∷◌ f) (unwrapped-seen ks fs (ground arith)))
  | inr e ↦ absurd (ground arith)
]

pub all_of_Among :
    (p : DeltaFragment → Bool) (fs : List DeltaFragment)
    → ((g : DeltaFragment) → Among fs g → p g ≡ true)
    → all p fs ≡ true
all_of_Among p [] h = refl
all_of_Among p (f ∷ fs) h = ground (arith, h f (inl refl), all_of_Among p fs (λ g m. h g (inr m)))

pub all-eq-false :
    (p : DeltaFragment → Bool) (fs : List DeltaFragment) (g : DeltaFragment)
    → Among fs g
    → p g ≡ false
    → all p fs ≡ false
all-eq-false p [] g m h = absurd m
all-eq-false p (f ∷ fs) g (inl same) h = ground (arith, ap p same, h)
all-eq-false p (f ∷ fs) g (inr later) h = ground (arith, all-eq-false p fs g later h)
