-- ===== src/Crdt/Dag/Kahn/Degrees.antt =====
-- What a round of Kahn's algorithm does to the degrees.
use tir_base.Prelude.{
  ℕ, zero, suc, ◌+◌, ◌≤◌, ◌≡◌, refl, ap, ◌∙◌, inl, inr, true, false, some, List, [], ◌∷◌, arith,
  if◌then◌else◌, ◌==◌, nat_eq, eqb_iff, eq_refl, Bool-cases, Option-cases, contains, Distinct,
  is_some, lookup, insert, lookup-insert,
}
use tir_base.Crdt.Delta.{DeltaId}
use tir_base.Crdt.Dag.Kahn.{DegreeTable, degree, release}
use tir_base.Crdt.Dag.Kahn.Release.{degree_in, count}

-- What `release` does to the degrees.
pub record Released (cs : List DeltaId) (m after : DegreeTable) (new : List DeltaId) : Type 0 where
  pub slow : (x : DeltaId) → degree_in x m ≤ degree_in x after + count x cs
  pub stays : (x : DeltaId) → degree_in x m ≡ 0 → degree_in x after ≡ 0
  pub had : (x : DeltaId) → contains new x ≡ true → 1 ≤ degree_in x m
  pub gone : (x : DeltaId) → contains new x ≡ true → degree_in x after ≡ 0
  pub once : Distinct new
  pub exact : (x : DeltaId) → 1 ≤ degree_in x after → degree_in x after + count x cs ≤ degree_in x m
  pub caught : (x : DeltaId) → 1 ≤ degree_in x m → degree_in x after ≡ 0 → contains new x ≡ true
  pub nodes : (x : DeltaId) → is_some (lookup x after) ≡ is_some (lookup x m)

degree-insert :
    (c d : ℕ) (m : DegreeTable) (x : DeltaId)
    → degree_in x (insert c d m) ≡ (if c == x then d else degree_in x m)
degree-insert c d m x = elim (Bool-cases (c == x)) [
  | inl same ↦ rw (lookup-insert c x d m, same) refl
  | inr other ↦ rw (lookup-insert c x d m, other) refl
]

-- a child whose degree falls to `d`
module _ (c d : ℕ) (cs : List DeltaId) (m : DegreeTable) (e : lookup c m ≡ some (suc d)) where
  lowered_by : (x : DeltaId) → degree_in x m ≡ degree_in x (insert c d m) + count x (c ∷ [])
  lowered_by x = elim (Bool-cases (c == x)) [
    | inl same ↦ rw (degree-insert c d m x, same, ← (eqb_iff c x).0 same, e) (omega arith)
    | inr other ↦ rw (degree-insert c d m x, other) (omega arith)
  ]

  count-cons : (x : DeltaId) → count x (c ∷ cs) ≡ count x (c ∷ []) + count x cs
  count-cons x = ground arith

  nodes-insert : (x : DeltaId) → is_some (lookup x (insert c d m)) ≡ is_some (lookup x m)
  nodes-insert x = elim (Bool-cases (c == x)) [
    | inl same ↦ rw (lookup-insert c x d m, same, ← (eqb_iff c x).0 same, e) refl
    | inr other ↦ rw (lookup-insert c x d m, other) refl
  ]

  module _ {after : DegreeTable} {new : List DeltaId}
      (r : Released cs (insert c d m) after new) where
    slow_again : (x : DeltaId) → degree_in x m ≤ degree_in x after + count x (c ∷ cs)
    slow_again x = omega (arith, r.slow x, lowered_by x, count-cons x)

    stays_again : (x : DeltaId) → degree_in x m ≡ 0 → degree_in x after ≡ 0
    stays_again x h = r.stays x (omega (arith, h, lowered_by x))

    had_again : (x : DeltaId) → contains new x ≡ true → 1 ≤ degree_in x m
    had_again x h = omega (arith, r.had x h, lowered_by x)

    exact_again :
        (x : DeltaId) → 1 ≤ degree_in x after → degree_in x after + count x (c ∷ cs) ≤ degree_in x m
    exact_again x h = omega (arith, r.exact x h, lowered_by x, count-cons x)

    caught_other :
        (x : DeltaId)
        → (c == x) ≡ false
        → 1 ≤ degree_in x m
        → degree_in x after ≡ 0
        → contains new x ≡ true
    caught_other x other h gone = r.caught x (rw (degree-insert c d m x, other) h) gone

    nodes_again : (x : DeltaId) → is_some (lookup x after) ≡ is_some (lookup x m)
    nodes_again x = r.nodes x ∙ nodes-insert x

lowered-Released :
    (c d : ℕ) (cs : List DeltaId) (m after : DegreeTable) (new : List DeltaId)
    → lookup c m ≡ some (suc (suc d))
    → Released cs (insert c (suc d) m) after new
    → Released (c ∷ cs) m after new
lowered-Released c d cs m after new e r = record {
  slow = slow_again c (suc d) cs m e r;
  stays = stays_again c (suc d) cs m e r;
  had = had_again c (suc d) cs m e r;
  gone = r.gone;
  once = r.once;
  exact = exact_again c (suc d) cs m e r;
  caught = λ x h gone. elim (Bool-cases (c == x)) [
    | inl same ↦ r.caught x (rw (degree-insert c (suc d) m x, same) (omega arith)) gone
    | inr other ↦ caught_other c (suc d) cs m e r x other h gone
  ];
  nodes = nodes_again c (suc d) cs m e r;
}

ready-Released :
    (c : ℕ) (cs : List DeltaId) (m after : DegreeTable) (new : List DeltaId)
    → lookup c m ≡ some 1
    → Released cs (insert c 0 m) after new
    → Released (c ∷ cs) m after (c ∷ new)
ready-Released c cs m after new e r = record {
  slow = slow_again c 0 cs m e r;
  stays = stays_again c 0 cs m e r;
  had = λ x h. elim (Bool-cases (c == x)) [
    | inl same ↦ rw (← (eqb_iff c x).0 same) (omega (arith, ap degree e))
    | inr other ↦ had_again c 0 cs m e r x (ground (arith, h, other))
  ];
  gone = λ x h. elim (Bool-cases (c == x)) [
    | inl same ↦ rw (← (eqb_iff c x).0 same) (r.stays c low)
    | inr other ↦ r.gone x (ground (arith, h, other))
  ];
  once = (
    elim (Bool-cases (contains new c)) [
      | inl again ↦ absurd (omega (arith, r.had c again, low))
      | inr not_again ↦ not_again
    ],
    r.once,
  );
  exact = exact_again c 0 cs m e r;
  caught = λ x h gone. elim (Bool-cases (c == x)) [
    | inl same ↦ rw same refl
    | inr other ↦ rw other (caught_other c 0 cs m e r x other h gone)
  ];
  nodes = nodes_again c 0 cs m e r;
}
  where
    low : degree_in c (insert c 0 m) ≡ 0
    low = degree-insert c 0 m c ∙ rw (eq_refl c) refl

same-Released :
    (c : ℕ) (cs : List DeltaId) (m after : DegreeTable) (new : List DeltaId)
    → degree_in c m ≡ 0
    → Released cs m after new
    → Released (c ∷ cs) m after new
same-Released c cs m after new none_left r = record {
  slow = λ x. ground (arith, r.slow x);
  stays = r.stays;
  had = r.had;
  gone = r.gone;
  once = r.once;
  exact = λ x h. elim (Bool-cases (c == x)) [
    | inl same ↦ absurd (omega (arith, h, r.stays x (rw (← (eqb_iff c x).0 same) none_left)))
    | inr other ↦ rw other (r.exact x h)
  ];
  caught = r.caught;
  nodes = r.nodes;
}

pub release-Released :
    (cs : List DeltaId) (m : DegreeTable) → Released cs m (release cs m).0 (release cs m).1
unfolding release
release-Released [] m = record {
  slow = λ x. omega arith;
  stays = λ x h. h;
  had = λ x h. cc;
  gone = λ x h. cc;
  once = tt;
  exact = λ x h. omega arith;
  caught = λ x h gone. absurd (omega (arith, h, gone));
  nodes = λ x. refl;
}
release-Released (c ∷ cs) m = elim (Option-cases (lookup c m)) [
  | inl e ↦ rw e (same-Released c cs m _ _ (ap degree e) (release-Released cs m))
  | inr (zero, e) ↦ rw e (same-Released c cs m _ _ (ap degree e) (release-Released cs m))
  | inr (suc zero, e) ↦ rw e (ready-Released c cs m _ _ e (release-Released cs (insert c 0 m)))
  | inr (suc (suc d), e) ↦
      rw e (lowered-Released c d cs m _ _ e (release-Released cs (insert c (suc d) m)))
]
