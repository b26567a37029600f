-- ===== src/Prelude/Keys.antt =====
-- Types with a Boolean equality, sets as lists without repetition, and association lists for
-- the program's hash maps.
use Prim.Native.Nat.{ℕ, suc, ◌≤◌}
use Prim.Native.String.{String}
use mathlib.Core.Path.{◌≡◌, refl, ap, ap₂}
use mathlib.Core.Logic.{◌↔◌, inl, inr}
use mathlib.Core.Bool.{Bool, true, false, ◌||◌}
use mathlib.Core.Option.{Option, none, some}
use mathlib.Core.List.{List, [], ◌∷◌, ◌++◌}
use text.Mathlib.Text.{◌==◌ as str_eq}
use text.Mathlib.TextEquality.{eq_iff}
use native.Mathlib.Omega.{arith}
use tir_base.Prelude.Lists.{length}
use tir_base.Prelude.Tests.{eqb, eqb_iff, Bool-cases, if◌then◌else◌}

pub record Eq {ℓ} (K : Type ℓ) : Type ℓ where
  pub beq : K → K → Bool
  pub beq_iff : (j k : K) → (beq j k ≡ true) ↔ (j ≡ k)

infix 50 ◌==◌
abbrev pub ◌==◌ {ℓ} : {K : Type ℓ} ⦃eq : Eq K⦄ → K → K → Bool
◌==◌ ⦃eq⦄ = eq.beq

-- texts first: they are the keys of projection rows
instance abbrev pub string_eq : Eq String
string_eq = record { beq_iff = eq_iff; beq = str_eq }

instance abbrev pub nat_eq : Eq ℕ
nat_eq = record { beq_iff = eqb_iff; beq = eqb }

-- pairs of texts
abbrev pub pair_beq : String × String → String × String → Bool
pair_beq (a, b) (c, d) = if str_eq a c then str_eq b d else false

pub pair_beq_iff : (j k : String × String) → (pair_beq j k ≡ true) ↔ (j ≡ k)
pair_beq_iff (a, b) (c, d) = (
  λ e. elim (Bool-cases (str_eq a c)) [
    | inl same ↦
        let both : str_eq b d ≡ true = ground (arith, e, same) in
        ap₂ (λ (x y : String). (x, y)) ((eq_iff a c).0 same) ((eq_iff b d).0 both)
    | inr other ↦ ground (arith, e, other)
  ],
  λ e. rw ((eq_iff a c).1 (ap (λ p. p.0) e)) ((eq_iff b d).1 (ap (λ p. p.1) e)),
)

instance abbrev pub pair_eq : Eq (String × String)
pair_eq = record { beq = pair_beq; beq_iff = pair_beq_iff }

-- lists of bytes
abbrev pub bytes_beq : List ℕ → List ℕ → Bool
bytes_beq [] [] = true
bytes_beq [] (b ∷ bs) = false
bytes_beq (a ∷ rest) [] = false
bytes_beq (a ∷ rest) (b ∷ bs) = let same = bytes_beq rest bs in if eqb a b then same else false

pub bytes_beq_iff : (j k : List ℕ) → (bytes_beq j k ≡ true) ↔ (j ≡ k)
bytes_beq_iff [] [] = (λ e. refl, λ e. refl)
bytes_beq_iff [] (b ∷ bs) = (λ e. cc, λ e. cc)
bytes_beq_iff (a ∷ rest) [] = (λ e. cc, λ e. cc)
bytes_beq_iff (a ∷ rest) (b ∷ bs) = ground (arith, bytes_beq_iff rest bs)

instance abbrev pub bytes_eq : Eq (List ℕ)
bytes_eq = record { beq = bytes_beq; beq_iff = bytes_beq_iff }

module _ {ℓ} {K : Type ℓ} ⦃e : Eq K⦄ where
  abbrev pub contains : List K → K → Bool
  contains [] a = false
  contains (x ∷ xs) a = x == a || contains xs a

  -- no key twice
  abbrev pub Distinct : List K → Type 0
  Distinct [] = Unit
  Distinct (x ∷ xs) = (contains xs x ≡ false) × Distinct xs

  pub contains-append :
      (xs ys : List K) (a : K) → contains (xs ++ ys) a ≡ (contains xs a || contains ys a)
  contains-append [] ys a = refl
  contains-append (x ∷ xs) ys a = ground (arith, contains-append xs ys a)

  pub Distinct-snoc :
      (xs : List K) (a : K) → Distinct xs → contains xs a ≡ false → Distinct (xs ++ a ∷ [])
  Distinct-snoc [] a d h = (refl, tt)
  Distinct-snoc (x ∷ xs) a d h = (
    ground (arith, contains-append xs (a ∷ []) x, e.beq_iff x a, e.beq_iff a x),
    Distinct-snoc xs a d.1 (ground arith),
  )

module _ {ℓ κ} {K : Type ℓ} {V : Type κ} ⦃e : Eq K⦄ where
  -- `map.get(&k)`
  abbrev pub lookup : K → List (K × V) → Option V
  lookup k [] = none
  lookup k ((j, v) ∷ m) = if j == k then some v else lookup k m

  -- `map.insert(k, v)`
  abbrev pub insert : K → V → List (K × V) → List (K × V)
  insert k v [] = (k, v) ∷ []
  insert k v ((j, w) ∷ m) = if j == k then (k, v) ∷ m else (j, w) ∷ insert k v m

  -- `map.remove(&k)`
  abbrev pub remove : K → List (K × V) → List (K × V)
  remove k [] = []
  remove k ((j, w) ∷ m) = let rest = remove k m in if j == k then rest else (j, w) ∷ rest

  pub lookup-insert :
      (k j : K) (v : V) (m : List (K × V))
      → lookup j (insert k v m) ≡ (if k == j then some v else lookup j m)
  lookup-insert k j v [] = refl
  lookup-insert k j v ((i, w) ∷ m) =
      ground (arith, e.beq_iff k j, e.beq_iff i k, e.beq_iff i j, lookup-insert k j v m)

  pub lookup-remove :
      (k j : K) (m : List (K × V)) → lookup j (remove k m) ≡ (if k == j then none else lookup j m)
  lookup-remove k j [] = ground arith
  lookup-remove k j ((i, w) ∷ m) =
      ground (arith, lookup-remove k j m, e.beq_iff i k, e.beq_iff i j, e.beq_iff k j)

module _ {ℓ} {K : Type ℓ} ⦃e : Eq K⦄ where
  pub eq_refl : (a : K) → (a == a) ≡ true
  eq_refl a = (e.beq_iff a a).1 refl

-- The size of a set does not depend on the list that stands for it.
module _ {ℓ} {K : Type ℓ} ⦃e : Eq K⦄ where
  erase : K → List K → List K
  erase a [] = []
  erase a (x ∷ xs) = if x == a then xs else x ∷ erase a xs

  length-erase :
      (a : K) (xs : List K) → contains xs a ≡ true → suc (length (erase a xs)) ≡ length xs
  unfolding erase
  length-erase a [] h = cc
  length-erase a (x ∷ xs) h = ground (arith, length-erase a xs)

  contains-erase :
      (a b : K) (xs : List K)
      → (a == b) ≡ false
      → contains xs b ≡ true
      → contains (erase a xs) b ≡ true
  unfolding erase
  contains-erase a b [] n h = cc
  contains-erase a b (x ∷ xs) n h =
      ground (arith, contains-erase a b xs n, e.beq_iff x a, e.beq_iff x b, e.beq_iff a b)

  abbrev pub Includes : List K → List K → Type ℓ
  Includes ys xs = (a : K) → contains xs a ≡ true → contains ys a ≡ true

  ne_of_contains :
      (x a : K) (xs : List K) → contains xs x ≡ false → contains xs a ≡ true → (x == a) ≡ false
  ne_of_contains x a xs out m = elim (Bool-cases (x == a)) [
    | inl same ↦ cc (ap (λ (k : K). contains xs k) ((e.beq_iff x a).0 same))
    | inr other ↦ other
  ]

  -- `xs` without repetition, and within `ys`, is no longer than `ys`.
  pub length-le_of_Distinct :
      (xs ys : List K) → Distinct xs → Includes ys xs → length xs ≤ length ys
  length-le_of_Distinct [] ys d h = omega arith
  length-le_of_Distinct (x ∷ xs) ys d h = omega (
    arith,
    length-erase x ys (h x (ground (arith, e.beq_iff x x))),
    length-le_of_Distinct xs (erase x ys) d.1
        (λ a m. contains-erase x a ys (ne_of_contains x a xs d.0 m) (h a (ground (arith, m)))),
  )
