-- ===== src/Crdt/Dag/Kahn/Release.antt =====
-- What a round does to the degrees, and that a round for each node is enough.
use tir_base.Prelude.{
  ℕ, zero, suc, ◌+◌, ◌≤◌, ◌≡◌, refl, ◌∙◌, inl, inr, true, Option, none, some, List, [], ◌∷◌, ◌++◌,
  arith, if◌then◌else◌, ◌==◌, nat_eq, Bool-cases, Option-cases, is_some, length, length-append,
  lookup, insert,
}
use tir_base.Crdt.Delta.{DeltaId}
use tir_base.Crdt.Dag.{children_of}
use tir_base.Crdt.Dag.Kahn.{DegreeTable, degree, sources, release, then_node, kahn}

abbrev pub degree_in : DeltaId → DegreeTable → ℕ
degree_in x m = degree (lookup x m)

-- how often a node is in a list
abbrev pub count : DeltaId → List DeltaId → ℕ
count x [] = 0
count x (y ∷ ys) = let n = count x ys in if y == x then suc n else n

-- the entries that still have a parent
abbrev positives : DegreeTable → ℕ
positives [] = 0
positives ((id, zero) ∷ m) = positives m
positives ((id, suc d) ∷ m) = suc (positives m)

pub sources-positives : (m : DegreeTable) → length (sources m) + positives m ≡ length m
sources-positives [] = refl
sources-positives ((id, zero) ∷ m) = omega (arith, sources-positives m)
sources-positives ((id, suc d) ∷ m) = omega (arith, sources-positives m)

-- one, for the last parent
abbrev last_parent : ℕ → ℕ
last_parent zero = 1
last_parent (suc d) = 0

positives-insert :
    (c d : ℕ) (m : DegreeTable)
    → lookup c m ≡ some (suc d)
    → positives (insert c d m) + last_parent d ≡ positives m
positives-insert c d [] h = cc
positives-insert c d ((id, zero) ∷ m) h = elim (Bool-cases (id == c)) [
  | inl same ↦ absurd (ground (arith, same, h))
  | inr other ↦ rw other (positives-insert c d m (ground (arith, other, h)))
]
positives-insert c zero ((id, suc e) ∷ m) h = elim (Bool-cases (id == c)) [
  | inl same ↦ rw same (omega arith)
  | inr other ↦ rw other (omega (arith, positives-insert c zero m (ground (arith, other, h))))
]
positives-insert c (suc d) ((id, suc e) ∷ m) h = elim (Bool-cases (id == c)) [
  | inl same ↦ rw same (omega arith)
  | inr other ↦ rw other (omega (arith, positives-insert c (suc d) m (ground (arith, other, h))))
]

-- a child that becomes ready had one parent left
length-release :
    (cs : List DeltaId) (m : DegreeTable)
    → length (release cs m).1 + positives (release cs m).0 ≤ positives m
unfolding release
length-release [] m = omega arith
length-release (c ∷ cs) m = elim (Option-cases (lookup c m)) [
  | inl e ↦ rw e (length-release cs m)
  | inr (zero, e) ↦ rw e (length-release cs m)
  | inr (suc zero, e) ↦
      rw e (omega (arith, length-release cs (insert c 0 m), positives-insert c 0 m e))
  | inr (suc (suc d), e) ↦
      rw e (omega (arith, length-release cs (insert c (suc d) m), positives-insert c (suc d) m e))
]

is_some-then_node :
    (node : DeltaId) (o : Option (List DeltaId)) → is_some (then_node node o) ≡ is_some o
is_some-then_node node none = refl
is_some-then_node node (some sorted) = refl

-- with a round for each node that is ready or still has a parent the search ends
pub is_some-kahn :
    (edges : List (DeltaId × DeltaId)) (arrange : List DeltaId → List DeltaId)
    → ((xs : List DeltaId) → length (arrange xs) ≡ length xs)
    → (fuel : ℕ) (m : DegreeTable) (queue : List DeltaId) → length queue + positives m ≤ fuel
    → is_some (kahn edges arrange fuel m queue) ≡ true
unfolding kahn
is_some-kahn edges arrange same fuel m [] h = refl
is_some-kahn edges arrange same zero m (node ∷ queue) h = absurd (omega arith)
is_some-kahn edges arrange same (suc fuel) m (node ∷ queue) h =
    let step = release (children_of edges node) m in
    let rest = is_some-kahn edges arrange same fuel step.0 (queue ++ arrange step.1) (
      omega (
        arith,
        length-append queue (arrange step.1),
        same step.1,
        length-release (children_of edges node) m,
      )) in
    is_some-then_node node (kahn edges arrange fuel step.0 (queue ++ arrange step.1)) ∙ rest
