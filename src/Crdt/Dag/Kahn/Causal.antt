-- ===== src/Crdt/Dag/Kahn/Causal.antt =====
-- The order in which Kahn's algorithm lists the nodes: each once, behind all its parents.
use tir_base.Prelude.{
  ℕ, zero, suc, ◌+◌, ◌≤◌, ◌≡◌, refl, sym, ap, ◌∙◌, inl, inr, true, false, ◌&&◌, ◌||◌, List, [], ◌∷◌,
  arith, if◌then◌else◌, ◌==◌, nat_eq, eqb_iff, eq_refl, Bool-cases, contains, Distinct, any,
  is_some, lookup, insert, lookup-insert,
}
use tir_base.Crdt.Delta.{DeltaId}
use tir_base.Crdt.Dag.{children_of, has_edge}
use tir_base.Crdt.Dag.Search.{contains-children}
use tir_base.Crdt.Dag.Kahn.{DegreeTable, degree, of_edges, sources}
use tir_base.Crdt.Dag.Kahn.Release.{degree_in, count}

-- behind the nodes `done`: none of the nodes again, and each when its parents are done
abbrev pub IsCausal : List (DeltaId × DeltaId) → List DeltaId → List DeltaId → Type 0
IsCausal edges done [] = Unit
IsCausal edges done (x ∷ rest) =
    (contains done x ≡ false)
    × ((p : DeltaId) → has_edge edges p x ≡ true → contains done p ≡ true)
    × IsCausal edges (x ∷ done) rest

-- the number of edges to a node, and of those that come from the nodes `done`
abbrev pub indegree : List (DeltaId × DeltaId) → DeltaId → ℕ
indegree [] x = 0
indegree ((p, c) ∷ es) x = let n = indegree es x in if c == x then suc n else n

abbrev pub served : List (DeltaId × DeltaId) → DeltaId → List DeltaId → ℕ
served edges x [] = 0
served edges x (n ∷ done) = count x (children_of edges n) + served edges x done

served-nil : (x : DeltaId) (done : List DeltaId) → served [] x done ≡ 0
served-nil x [] = refl
served-nil x (n ∷ done) = omega (arith, served-nil x done)

count-children :
    (p c : DeltaId) (es : List (DeltaId × DeltaId)) (x n : DeltaId)
    → count x (children_of ((p, c) ∷ es) n)
      ≡ (if p == n && c == x then 1 else 0) + count x (children_of es n)
count-children p c es x n = elim (Bool-cases (p == n)) [
  | inl same ↦ rw same (ground arith)
  | inr other ↦ rw other (omega arith)
]

served-cons :
    (p c : DeltaId) (es : List (DeltaId × DeltaId)) (x : DeltaId) (done : List DeltaId)
    → served ((p, c) ∷ es) x done ≡ (if c == x then count p done else 0) + served es x done
served-cons p c es x [] = ground arith
served-cons p c es x (n ∷ done) = elim (Bool-cases (c == x)) [
  | inl same ↦ ground (arith, same, count-children p c es x n, served-cons p c es x done)
  | inr other ↦ ground (arith, other, count-children p c es x n, served-cons p c es x done)
]

count_absent : (p : DeltaId) (done : List DeltaId) → contains done p ≡ false → count p done ≡ 0
count_absent p [] h = refl
count_absent p (n ∷ done) h = ground (arith, count_absent p done)

count_present : (p : DeltaId) (done : List DeltaId) → contains done p ≡ true → 1 ≤ count p done
count_present p [] h = cc
count_present p (n ∷ done) h = ground (arith, count_present p done)

count-le-one : (p : DeltaId) (done : List DeltaId) → Distinct done → count p done ≤ 1
count-le-one p [] d = omega arith
count-le-one p (n ∷ done) d = elim (Bool-cases (n == p)) [
  | inl same ↦
      let absent : contains done p ≡ false =
        ap (contains done) (sym ((eqb_iff n p).0 same)) ∙ d.0 in
      rw same (omega (arith, count_absent p done absent))
  | inr other ↦ rw other (count-le-one p done d.1)
]

-- nodes that are done once account for each edge at most once
pub served-le-indegree :
    (es : List (DeltaId × DeltaId)) (x : DeltaId) (done : List DeltaId)
    → Distinct done
    → served es x done ≤ indegree es x
served-le-indegree [] x done d = omega (arith, served-nil x done)
served-le-indegree ((p, c) ∷ es) x done d =
    ground (arith, served-cons p c es x done, count-le-one p done d, served-le-indegree es x done d)

-- when all parents are done, every edge is accounted for
pub indegree-le-served :
    (es : List (DeltaId × DeltaId)) (x : DeltaId) (done : List DeltaId)
    → ((p : DeltaId) → has_edge es p x ≡ true → contains done p ≡ true)
    → indegree es x ≤ served es x done
indegree-le-served [] x done h = omega arith
indegree-le-served ((p, c) ∷ es) x done h =
    let rest = indegree-le-served es x done (λ q e. h q (ground (arith, e))) in
    elim (Bool-cases (c == x)) [
      | inl same ↦
          let there = count_present p done (h p (ground (arith, same, eq_refl p))) in
          ground (arith, same, served-cons p c es x done, rest, there)
      | inr other ↦ ground (arith, other, served-cons p c es x done, rest)
    ]

-- when every edge is accounted for, all parents are done
pub parents_done :
    (es : List (DeltaId × DeltaId)) (x p : DeltaId) (done : List DeltaId)
    → Distinct done
    → indegree es x ≤ served es x done
    → has_edge es p x ≡ true
    → contains done p ≡ true
parents_done es x p done d h e = elim (Bool-cases (contains done p)) [
  | inl there ↦ there
  | inr absent ↦
      let one = count_present x (children_of es p) (contains-children es p x ∙ e) in
      absurd (omega (arith, one, h, served-le-indegree es x (p ∷ done) (absent, d)))
]

-- Tables with one entry for each node.
abbrev pub KeysOnce : DegreeTable → Type 0
KeysOnce [] = Unit
KeysOnce ((k, d) ∷ m) = (is_some (lookup k m) ≡ false) × KeysOnce m

pub KeysOnce-insert : (k d : ℕ) (m : DegreeTable) → KeysOnce m → KeysOnce (insert k d m)
KeysOnce-insert k d [] h = (refl, tt)
KeysOnce-insert k d ((j, e) ∷ m) h = elim (Bool-cases (j == k)) [
  | inl same ↦ rw same (ap (λ i. is_some (lookup i m)) (sym ((eqb_iff j k).0 same)) ∙ h.0, h.1)
  | inr other ↦ rw other (
    ground (arith, lookup-insert k j d m, other, h.0, eqb_iff k j, eqb_iff j k),
    KeysOnce-insert k d m h.1,
  )
]

pub contains-sources :
    (m : DegreeTable) (x : DeltaId)
    → KeysOnce m
    → contains (sources m) x ≡ (is_some (lookup x m) && degree_in x m == 0)
contains-sources [] x h = refl
contains-sources ((k, zero) ∷ m) x h = elim (Bool-cases (k == x)) [
  | inl same ↦ rw same (ground arith)
  | inr other ↦ rw other (contains-sources m x h.1)
]
contains-sources ((k, suc d) ∷ m) x h = elim (Bool-cases (k == x)) [
  | inl same ↦
      let gone : is_some (lookup x m) ≡ false =
        ap (λ i. is_some (lookup i m)) (sym ((eqb_iff k x).0 same)) ∙ h.0 in
      rw (same, contains-sources m x h.1, gone) (ground arith)
  | inr other ↦ rw other (contains-sources m x h.1)
]

pub Distinct-sources : (m : DegreeTable) → KeysOnce m → Distinct (sources m)
Distinct-sources [] h = tt
Distinct-sources ((k, zero) ∷ m) h =
    (contains-sources m k h.1 ∙ rw h.0 refl, Distinct-sources m h.1)
Distinct-sources ((k, suc d) ∷ m) h = Distinct-sources m h.1

pub KeysOnce-of_edges :
    (es : List (DeltaId × DeltaId)) (m : DegreeTable) → KeysOnce m → KeysOnce (of_edges es m)
unfolding of_edges
KeysOnce-of_edges [] m h = h
KeysOnce-of_edges ((p, c) ∷ es) m h =
    KeysOnce-of_edges es (insert c (suc (degree (lookup c m))) m)
      (KeysOnce-insert c (suc (degree (lookup c m))) m h)

pub degree-of_edges :
    (es : List (DeltaId × DeltaId)) (m : DegreeTable) (x : DeltaId)
    → degree_in x (of_edges es m) ≡ indegree es x + degree_in x m
unfolding of_edges
degree-of_edges [] m x = omega arith
degree-of_edges ((p, c) ∷ es) m x =
    degree-of_edges es (insert c (suc (degree (lookup c m))) m) x ∙ elim (Bool-cases (c == x)) [
      | inl same ↦
          rw (lookup-insert c x (suc (degree (lookup c m))) m, same, ← (eqb_iff c x).0 same)
            (omega arith)
      | inr other ↦ rw (lookup-insert c x (suc (degree (lookup c m))) m, other) refl
    ]

pub nodes-of_edges :
    (es : List (DeltaId × DeltaId)) (m : DegreeTable) (x : DeltaId)
    → is_some (lookup x (of_edges es m)) ≡ (is_some (lookup x m) || any (λ e. e.1 == x) es)
unfolding of_edges
nodes-of_edges [] m x = ground arith
nodes-of_edges ((p, c) ∷ es) m x =
    nodes-of_edges es (insert c (suc (degree (lookup c m))) m) x
    ∙ rw (lookup-insert c x (suc (degree (lookup c m))) m) (ground arith)
