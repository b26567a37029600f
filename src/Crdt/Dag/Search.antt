-- ===== src/Crdt/Dag/Search.antt =====
-- `bfs_descendants` returns, and finds exactly the descendants.
use tir_base.Prelude.{
  ℕ, zero, suc, ◌+◌, ◌≤◌, ◌≡◌, refl, ap, ◌∙◌, inl, inr, Bool, true, false, not, ◌&&◌, ◌||◌, some,
  List, [], ◌∷◌, ◌++◌, arith, if◌then◌else◌, ◌==◌, nat_eq, contains, Distinct, keep, length,
  length-append, List-cases, Bool-cases, contains-append, Distinct-snoc, eqb_iff,
}
use tir_base.Crdt.Delta.{DeltaId}
use tir_base.Crdt.Dag.{ChangesetDag, has_edge, children_of, Walk, visit, bfs_loop, bfs_descendants}
use tir_base.Crdt.Dag.Reach.{Reach, here, step}

pub contains-children :
    (es : List (DeltaId × DeltaId)) (u v : DeltaId)
    → contains (children_of es u) v ≡ has_edge es u v
contains-children [] u v = refl
contains-children ((p, c) ∷ es) u v = ground (arith, contains-children es u v)

contains-keep :
    (p : DeltaId → Bool) (xs : List DeltaId) (v : DeltaId)
    → contains (keep p xs) v ≡ (contains xs v && p v)
contains-keep p [] v = refl
contains-keep p (x ∷ xs) v = elim (Bool-cases (x == v)) [
  | inl e ↦ rw ((eqb_iff x v).0 e) (ground (arith, contains-keep p xs v))
  | inr e ↦ ground (arith, contains-keep p xs v)
]

length-keep : (p : DeltaId → Bool) (xs : List DeltaId) → length (keep p xs) ≤ length xs
length-keep p [] = omega arith
length-keep p (x ∷ xs) = ground (arith, length-keep p xs)

-- the edges whose parent is not visited yet
abbrev unvisited : List DeltaId → List (DeltaId × DeltaId) → ℕ
unvisited seen [] = 0
unvisited seen ((p, c) ∷ es) =
    if contains seen p then unvisited seen es else suc (unvisited seen es)

unvisited-nil : (es : List (DeltaId × DeltaId)) → unvisited [] es ≡ length es
unvisited-nil [] = refl
unvisited-nil ((p, c) ∷ es) = ap suc (unvisited-nil es)

unvisited-cons :
    (u : DeltaId) (seen : List DeltaId) (es : List (DeltaId × DeltaId))
    → contains seen u ≡ false
    → unvisited (u ∷ seen) es + length (children_of es u) ≡ unvisited seen es
unvisited-cons u seen [] h = refl
unvisited-cons u seen ((p, c) ∷ es) h = elim (Bool-cases (p == u)) [
  | inl e ↦ rw ((eqb_iff p u).0 e) (ground (arith, unvisited-cons u seen es))
  | inr e ↦ ground (arith, unvisited-cons u seen es)
]

abbrev work : ChangesetDag → Walk → ℕ
work dag w = length w.queue + unvisited w.visited dag.edges

visit-work :
    (dag : ChangesetDag) (w : Walk) (u : DeltaId) (rest : List DeltaId)
    → w.queue ≡ u ∷ rest
    → suc (work dag (visit dag u rest w)) ≤ work dag w
unfolding visit
visit-work dag w u rest e = elim (Bool-cases (contains w.visited u)) [
  | inl old ↦ rw (e, old) (omega arith)
  | inr new ↦
      let fresh = λ (child : DeltaId). not (contains (u ∷ w.visited) child) in
      rw (e, new)
        (omega (
          arith,
          length-append rest (keep fresh (children_of dag.edges u)),
          length-keep fresh (children_of dag.edges u),
          unvisited-cons u w.visited dag.edges new,
        ))
]

-- an invariant that one round keeps holds at the end, where the queue is empty
bfs_rule {ℓ} :
    (dag : ChangesetDag) (P : Walk → Type ℓ)
    → ((w : Walk) (u : DeltaId) (rest : List DeltaId)
        → w.queue ≡ u ∷ rest
        → P w
        → P (visit dag u rest w))
    → (fuel : ℕ) (w : Walk) → work dag w ≤ fuel
    → P w
    → (t : Walk) × P t × (t.queue ≡ []) × (bfs_loop dag fuel w ≡ some t.result)
unfolding bfs_loop
bfs_rule dag P keeps zero w h p = (w, p, ground arith, ground arith)
bfs_rule dag P keeps (suc fuel) w h p = elim (List-cases w.queue) [
  | inl e ↦ (w, p, e, rw (e, bfs_loop) refl)
  | inr (u, rest, e) ↦
      let (t, q, done, r) =
        bfs_rule dag P keeps fuel (visit dag u rest w) (omega (arith, visit-work dag w u rest e))
          (keeps w u rest e p) in
      (t, q, done, ground (arith, e, r))
]

-- what a round keeps true of the walk from `root`
record Inv (dag : ChangesetDag) (root : DeltaId) (w : Walk) : Type 0 where
  same : (v : DeltaId) → contains w.result v ≡ contains w.visited v
  distinct : Distinct w.result
  source : (contains w.visited root || contains w.queue root) ≡ true
  sound : (v : DeltaId) → (contains w.visited v || contains w.queue v) ≡ true → Reach dag root v
  closed :
      (u v : DeltaId)
      → contains w.visited u ≡ true
      → has_edge dag.edges u v ≡ true
      → (contains w.visited v || contains w.queue v) ≡ true

module _ (vis rest : List DeltaId) (u v : DeltaId) where
  known_old :
      contains vis u ≡ true
      → (contains vis v || contains (u ∷ rest) v) ≡ (contains vis v || contains rest v)
  known_old old = elim (Bool-cases (u == v)) [
    | inl e ↦ rw (← (eqb_iff u v).0 e, old) refl
    | inr e ↦ ground arith
  ]

  known_new :
      (es : List (DeltaId × DeltaId))
      → (contains (u ∷ vis) v
          || contains (rest ++ keep (λ child. not (contains (u ∷ vis) child)) (children_of es u)) v)
        ≡ ((contains vis v || contains (u ∷ rest) v) || has_edge es u v)
  known_new es =
      let fresh = λ (child : DeltaId). not (contains (u ∷ vis) child) in
      ground (
        arith,
        contains-append rest (keep fresh (children_of es u)) v,
        contains-keep fresh (children_of es u) v,
        contains-children es u v,
      )

module _ (dag : ChangesetDag) (root : DeltaId) (w : Walk) (u : DeltaId) (rest : List DeltaId)
    (e : w.queue ≡ u ∷ rest) (h : Inv dag root w) where
  in_queue : (v : DeltaId) → contains w.queue v ≡ contains (u ∷ rest) v
  in_queue v = ap (λ (q : List DeltaId). contains q v) e

  u_reached : Reach dag root u
  u_reached = h.sound u (ground (arith, in_queue u))

  Inv-old : contains w.visited u ≡ true → Inv dag root (record w { queue = rest })
  Inv-old old = record {
    same = h.same;
    distinct = h.distinct;
    source = ground (arith, h.source, in_queue root, known_old w.visited rest u root old);
    sound = λ v m. h.sound v (ground (arith, in_queue v));
    closed =
        λ p v m edge. ground (arith, h.closed p v, in_queue v, known_old w.visited rest u v old);
  }

  Inv-new :
      contains w.visited u ≡ false
      → Inv dag root (record {
        visited = u ∷ w.visited;
        queue =
            rest ++ keep (λ child. not (contains (u ∷ w.visited) child)) (children_of dag.edges u);
        result = w.result ++ u ∷ [];
      })
  Inv-new new = record {
    same = λ v. ground (arith, contains-append w.result (u ∷ []) v, h.same v);
    distinct = Distinct-snoc w.result u h.distinct (ground (arith, h.same u));
    source = ground (arith, h.source, in_queue root, known_new w.visited rest u root dag.edges);
    sound = λ v m. elim (Bool-cases (has_edge dag.edges u v)) [
      | inl edge ↦ step u_reached edge
      | inr no_edge ↦ h.sound v (ground (arith, in_queue v, known_new w.visited rest u v dag.edges))
    ];
    closed = λ p v m edge. elim (Bool-cases (u == p)) [
      | inl same ↦
          known_new w.visited rest u v dag.edges ∙ rw ((eqb_iff u p).0 same, edge) (ground arith)
      | inr other ↦ ground (arith, h.closed p v, in_queue v, known_new w.visited rest u v dag.edges)
    ];
  }

Inv-visit :
    (dag : ChangesetDag) (root : DeltaId) (w : Walk) (u : DeltaId) (rest : List DeltaId)
    → w.queue ≡ u ∷ rest
    → Inv dag root w
    → Inv dag root (visit dag u rest w)
unfolding visit
Inv-visit dag root w u rest e h = elim (Bool-cases (contains w.visited u)) [
  | inl old ↦ simp old (Inv-old dag root w u rest e h old)
  | inr new ↦ simp new (Inv-new dag root w u rest e h new)
]

abbrev start : DeltaId → Walk
start root = record { visited = []; queue = root ∷ []; result = [] }

Inv-start : (dag : ChangesetDag) (root : DeltaId) → Inv dag root (start root)
Inv-start dag root = record {
  same = λ v. refl;
  distinct = tt;
  source = ground (arith, eqb_iff root root);
  sound = λ v m. rw (← (eqb_iff root v).0 (ground arith)) here;
  closed = λ u v m edge. cc;
}

-- with an empty queue the visited deltas are closed under edges
complete :
    (dag : ChangesetDag) (root : DeltaId) (t : Walk)
    → Inv dag root t
    → t.queue ≡ []
    → {v : DeltaId} → Reach dag root v
    → contains t.visited v ≡ true
complete dag root t h e here =
    ground (arith, h.source, ap (λ (q : List DeltaId). contains q root) e)
complete dag root t h e (step {u} {v} r edge) = ground (
  arith,
  h.closed u v (complete dag root t h e r) edge,
  ap (λ (q : List DeltaId). contains q v) e,
)

-- What it means that a list holds the descendants of `root`.
pub record AreDescendants (dag : ChangesetDag) (root : DeltaId) (found : List DeltaId)
    : Type 0 where
  pub distinct : Distinct found
  pub sound : (v : DeltaId) → contains found v ≡ true → Reach dag root v
  pub full : (v : DeltaId) → Reach dag root v → contains found v ≡ true

-- The walk ends on every DAG, cyclic or not, and from every root; what it returns lists each
-- delta that descends from the root exactly once, the root included, and no other.
pub bfs_descendants-AreDescendants :
    (dag : ChangesetDag) (root : DeltaId)
    → (found : List DeltaId) × (bfs_descendants dag root ≡ some found)
      × AreDescendants dag root found
unfolding bfs_descendants
bfs_descendants-AreDescendants dag root =
    let (t, h, done, r) =
      bfs_rule dag (Inv dag root) (Inv-visit dag root) (suc (length dag.edges)) (start root)
        (omega (arith, unvisited-nil dag.edges)) (Inv-start dag root) in
    (
      t.result,
      r,
      record {
        distinct = h.distinct;
        sound = λ v m. h.sound v (ground (arith, h.same v, m));
        full = λ v reach. h.same v ∙ complete dag root t h done reach;
      },
    )
