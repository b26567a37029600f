-- ===== src/Crdt/Dag/Kahn/Steps.antt =====
-- The invariant of the loop of Kahn's algorithm, and what its end means.
use mathlib.Core.Path.{subst, ap₂}
use tir_base.Prelude.{
  ℕ, zero, suc, ◌+◌, ◌≤◌, ◌≡◌, ◌↔◌, refl, sym, ap, ◌∙◌, inl, inr, Bool, true, false, ◌||◌, Option,
  none, some, List, [], ◌∷◌, ◌++◌, arith, ◌==◌, nat_eq, eqb_iff, eq_refl, Bool-cases, contains,
  contains-append, append-nil, Distinct, is_some, lookup,
}
use tir_base.Crdt.Delta.{DeltaId}
use tir_base.Crdt.Dag.{children_of, has_edge}
use tir_base.Crdt.Dag.Kahn.{DegreeTable, degree, release, then_node, kahn}
use tir_base.Crdt.Dag.Kahn.Release.{degree_in}
use tir_base.Crdt.Dag.Kahn.Degrees.{Released, release-Released}
use tir_base.Crdt.Dag.Kahn.Causal.{IsCausal, indegree, served, indegree-le-served, parents_done}

-- what the arrangement of the children keeps
pub record Arranges (arrange : List DeltaId → List DeltaId) : Type 0 where
  pub same : (xs : List DeltaId) (x : DeltaId) → contains (arrange xs) x ≡ contains xs x
  pub once : (xs : List DeltaId) → Distinct xs → Distinct (arrange xs)

pub Distinct-append :
    (xs ys : List DeltaId)
    → Distinct xs
    → Distinct ys
    → ((y : DeltaId) → contains ys y ≡ true → contains xs y ≡ false)
    → Distinct (xs ++ ys)
Distinct-append [] ys dx dy h = dy
Distinct-append (x ∷ xs) ys dx dy h = (
  contains-append xs ys x ∙ elim (Bool-cases (contains ys x)) [
    | inl there ↦ absurd (ground (arith, h x there, eq_refl x))
    | inr absent ↦ rw (dx.0, absent) refl
  ],
  Distinct-append xs ys dx.1 dy (λ y e. ground (arith, h y e)),
)

-- the first of the queue moves to the front
Distinct-middle :
    (done queue : List DeltaId) (n : DeltaId)
    → Distinct (done ++ n ∷ queue)
    → Distinct (n ∷ (done ++ queue))
Distinct-middle [] queue n d = d
Distinct-middle (x ∷ done) queue n d =
    let rest = Distinct-middle done queue n d.1 in
    (
      ground (arith, rest.0, d.0, contains-append done (n ∷ queue) x, eqb_iff x n, eqb_iff n x),
      (
        ground (arith, d.0, contains-append done (n ∷ queue) x, contains-append done queue x),
        rest.1,
      ),
    )

zero_of : (d : ℕ) → (1 ≤ d → ⊥) → d ≡ 0
zero_of zero h = refl
zero_of (suc d) h = absurd (h (omega arith))

append_assoc_ids : (xs ys zs : List DeltaId) → (xs ++ ys) ++ zs ≡ xs ++ (ys ++ zs)
append_assoc_ids [] ys zs = refl
append_assoc_ids (x ∷ xs) ys zs = ap (◌∷◌ x) (append_assoc_ids xs ys zs)

module _ (edges : List (DeltaId × DeltaId)) where
  -- The nodes `done` have left the queue, the last of them first.
  pub record Search (done queue : List DeltaId) (m : DegreeTable) : Type 0 where
    pub free : (x : DeltaId) → contains (done ++ queue) x ≡ true → degree_in x m ≡ 0
    pub inside : (x : DeltaId) → contains (done ++ queue) x ≡ true → is_some (lookup x m) ≡ true
    pub once : Distinct (done ++ queue)
    pub lower : (x : DeltaId) → indegree edges x ≤ degree_in x m + served edges x done
    pub upper :
        (x : DeltaId) → 1 ≤ degree_in x m → degree_in x m + served edges x done ≤ indegree edges x
    pub all_free :
        (x : DeltaId)
        → is_some (lookup x m) ≡ true
        → degree_in x m ≡ 0
        → contains (done ++ queue) x ≡ true

  module _ (arrange : List DeltaId → List DeltaId) (a : Arranges arrange) where
    -- one round
    module _ (done queue : List DeltaId) (n : DeltaId) (m after : DegreeTable) (new : List DeltaId)
        (s : Search done (n ∷ queue) m) (r : Released (children_of edges n) m after new) where
      abbrev later : List DeltaId
      later = queue ++ arrange new

      members :
          (x : DeltaId)
          → contains ((n ∷ done) ++ later) x ≡ (contains (done ++ n ∷ queue) x || contains new x)
      members x = ground (
        arith,
        contains-append done later x,
        contains-append queue (arrange new) x,
        a.same new x,
        contains-append done (n ∷ queue) x,
      )

      old_or_new :
          (x : DeltaId)
          → contains ((n ∷ done) ++ later) x ≡ true
          → contains (done ++ n ∷ queue) x ≡ false
          → contains new x ≡ true
      old_or_new x h old = ground (arith, members x, h, old)

      fresh : (x : DeltaId) → contains new x ≡ true → contains (done ++ n ∷ queue) x ≡ false
      fresh x h = elim (Bool-cases (contains (done ++ n ∷ queue) x)) [
        | inl there ↦ absurd (omega (arith, s.free x there, r.had x h))
        | inr absent ↦ absent
      ]

      some_of_degree : (o : Option ℕ) → 1 ≤ degree o → is_some o ≡ true
      some_of_degree none h = absurd (omega arith)
      some_of_degree (some d) h = refl

      round_once : Distinct ((n ∷ done) ++ later)
      round_once =
          let front = Distinct-middle done queue n s.once in
          subst Distinct (append_assoc_ids (n ∷ done) queue (arrange new)) (
            Distinct-append (n ∷ (done ++ queue)) (arrange new) front (a.once new r.once) (λ y h.
              ground (
                arith,
                fresh y (sym (a.same new y) ∙ h),
                contains-append done (n ∷ queue) y,
                contains-append done queue y,
              )))

      round-Search : Search (n ∷ done) later after
      round-Search = record {
        free = λ x h. elim (Bool-cases (contains (done ++ n ∷ queue) x)) [
          | inl old ↦ r.stays x (s.free x old)
          | inr not_old ↦ r.gone x (old_or_new x h not_old)
        ];
        inside = λ x h. r.nodes x ∙ elim (Bool-cases (contains (done ++ n ∷ queue) x)) [
          | inl old ↦ s.inside x old
          | inr not_old ↦ some_of_degree (lookup x m) (r.had x (old_or_new x h not_old))
        ];
        once = round_once;
        lower = λ x. omega (arith, s.lower x, r.slow x);
        upper = λ x h. omega (arith, r.exact x h, s.upper x (omega (arith, h, r.exact x h)));
        all_free = λ x node h. members x ∙ elim (Bool-cases (contains (done ++ n ∷ queue) x)) [
          | inl old ↦ rw old refl
          | inr not_old ↦ rw not_old (r.caught x (positive x not_old (sym (r.nodes x) ∙ node)) h)
        ];
      }
        where
          positive :
              (x : DeltaId)
              → contains (done ++ n ∷ queue) x ≡ false
              → is_some (lookup x m) ≡ true
              → 1 ≤ degree_in x m
          positive x absent node = elim (Bool-cases (degree_in x m == 0)) [
            | inl none_left ↦ absurd (
                ground (arith, absent, s.all_free x node ((eqb_iff (degree_in x m) 0).0 none_left)))
            | inr more ↦ ground (arith, more)
          ]

      -- the node that leaves the queue is not done yet, and its parents are
      leaves :
          (contains done n ≡ false)
          × ((p : DeltaId) → has_edge edges p n ≡ true → contains done p ≡ true)
      leaves =
          let front = Distinct-middle done queue n s.once in
          let here : contains (done ++ n ∷ queue) n ≡ true =
            contains-append done (n ∷ queue) n ∙ rw (eq_refl n) (or_true (contains done n)) in
          (
            ground (arith, front.0, contains-append done queue n),
            λ p e.
                parents_done edges n p done (Distinct-front done (n ∷ queue) s.once)
                  (omega (arith, s.lower n, s.free n here)) e,
          )
        where
          or_true : (b : Bool) → (b || true) ≡ true
          or_true true = refl
          or_true false = refl

          Distinct-front : (xs ys : List DeltaId) → Distinct (xs ++ ys) → Distinct xs
          Distinct-front [] ys d = tt
          Distinct-front (x ∷ xs) ys d =
              (ground (arith, d.0, contains-append xs ys x), Distinct-front xs ys d.1)

    -- What the end of the loop means.
    pub record Ends (done sorted : List DeltaId) (m : DegreeTable) : Type 0 where
      pub causal : IsCausal edges done sorted
      pub last_done : List DeltaId
      pub last_degrees : DegreeTable
      pub all_done : (x : DeltaId) → contains last_done x ≡ (contains done x || contains sorted x)
      pub nodes : (x : DeltaId) → is_some (lookup x last_degrees) ≡ is_some (lookup x m)
      pub search : Search last_done [] last_degrees

    one_more :
        (done : List DeltaId) (n : DeltaId) (m after : DegreeTable) (sorted : List DeltaId)
        (o : Option (List DeltaId))
        → (contains done n ≡ false)
          × ((p : DeltaId) → has_edge edges p n ≡ true → contains done p ≡ true)
        → ((x : DeltaId) → is_some (lookup x after) ≡ is_some (lookup x m))
        → ((rest : List DeltaId) → o ≡ some rest → Ends (n ∷ done) rest after)
        → then_node n o ≡ some sorted
        → Ends done sorted m
    one_more done n m after sorted none leaves nodes ends e = cc
    one_more done n m after [] (some rest) leaves nodes ends e = cc
    one_more done n m after (x ∷ sorted) (some rest) leaves nodes ends e =
        let same_node : n ≡ x = cc e in
        let same_rest : rest ≡ sorted = cc e in
        let end = ends rest refl in
        subst (λ l. Ends done l m) (ap₂ (◌∷◌) same_node same_rest)
          (record {
            causal = (leaves.0, leaves.1, end.causal);
            last_done = end.last_done;
            last_degrees = end.last_degrees;
            all_done = λ y. ground (arith, end.all_done y);
            nodes = λ y. end.nodes y ∙ nodes y;
            search = end.search;
          })

    nothing_left :
        (m : DegreeTable) (done sorted : List DeltaId)
        → Search done [] m
        → some [] ≡ some sorted
        → Ends done sorted m
    nothing_left m done (x ∷ sorted) s e = cc
    nothing_left m done [] s e = record {
      causal = tt;
      last_done = done;
      last_degrees = m;
      all_done = λ x. ground arith;
      nodes = λ x. refl;
      search = s;
    }

    kahn-Ends :
        (fuel : ℕ) (m : DegreeTable) (done queue sorted : List DeltaId)
        → Search done queue m
        → kahn edges arrange fuel m queue ≡ some sorted
        → Ends done sorted m
    unfolding kahn
    kahn-Ends fuel m done [] sorted s e = nothing_left m done sorted s e
    kahn-Ends zero m done (n ∷ queue) sorted s e = cc
    kahn-Ends (suc fuel) m done (n ∷ queue) sorted s e =
        let r = release-Released (children_of edges n) m in
        let step = release (children_of edges n) m in
        let next = round-Search done queue n m step.0 step.1 s r in
        one_more done n m step.0 sorted (kahn edges arrange fuel step.0 (queue ++ arrange step.1))
          (leaves done queue n m step.0 step.1 s r) r.nodes
          (λ rest h. kahn-Ends fuel step.0 (n ∷ done) (queue ++ arrange step.1) rest next h) e

    -- the list of nodes, once the loop ends
    pub kahn-IsCausal :
        (fuel : ℕ) (m : DegreeTable) (queue sorted : List DeltaId)
        → Search [] queue m
        → kahn edges arrange fuel m queue ≡ some sorted
        → IsCausal edges [] sorted
          × ((x : DeltaId)
              → (contains sorted x ≡ true) ↔ (
                  (is_some (lookup x m) ≡ true)
                  × ((p : DeltaId) → has_edge edges p x ≡ true → contains sorted p ≡ true)))
    kahn-IsCausal fuel m queue sorted s e =
        let end = kahn-Ends fuel m [] queue sorted s e in
        let last = end.last_done in
        let z = end.search in
        let in_last : (x : DeltaId) → contains (last ++ []) x ≡ contains sorted x =
          λ x. ground (arith, contains-append last [] x, end.all_done x) in
        let once : Distinct last = subst Distinct (append-nil last) z.once in
        (
          end.causal,
          λ x. (
            λ h.
                let here = in_last x ∙ h in
                (
                  sym (end.nodes x) ∙ z.inside x here,
                  λ p edge.
                      sym (end.all_done p)
                      ∙ parents_done edges x p last once (omega (arith, z.lower x, z.free x here))
                          edge,
                ),
            λ h.
                let accounted =
                  indegree-le-served edges x last (λ p edge. end.all_done p ∙ h.1 p edge) in
                sym (in_last x)
                ∙ z.all_free x (end.nodes x ∙ h.0) (
                    zero_of (degree_in x end.last_degrees)
                      (λ more. omega (arith, accounted, z.upper x more))),
          ),
        )
