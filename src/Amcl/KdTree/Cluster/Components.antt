-- ===== src/Amcl/KdTree/Cluster/Components.antt =====
-- pf_kdtree_cluster as a whole.
use mathlib.Core.Option.{some-ne-none}
use mathlib.Core.Path.{subst}
use navigation_learning.Prelude.{
  ℕ, ◌+◌, ◌<◌, ◌≡◌, refl, sym, ap, ◌∙◌, inl, inr, true, false, Option, none, some, List, [], ◌∷◌,
  arith, Bool-cases, Option-cases,
}
use navigation_learning.Prelude.Int.{ℤ, pos}
use navigation_learning.Costmap.Grid.{◌>>=◌}
use package.navigation_learning.Amcl.KdTree.{Key, Leaf, Node, key_equal, find_node}
use package.navigation_learning.Amcl.KdTree.Pivot.{key_equal-eq}
use package.navigation_learning.Amcl.KdTree.Lookup.{bin}
use package.navigation_learning.Amcl.KdTree.Cluster.{
  labelled, set_cluster, leaves, cluster_node, label_queue, cluster_root,
}
use package.navigation_learning.Amcl.KdTree.Cluster.Labels.{
  label, place, unlabelled, index_of, cluster_of, unlabelled-le, unlabelled-set_cluster,
}
use package.navigation_learning.Amcl.KdTree.Cluster.Visit.{
  AllSame, Grown, AllSame-Grown, Grown-coloured, Others-coloured, label-coloured, label-one,
}
use package.navigation_learning.Amcl.KdTree.Cluster.Recursion.{cluster_node-Done}
use package.navigation_learning.Amcl.KdTree.Cluster.Places.{Located}
use package.navigation_learning.Amcl.KdTree.Cluster.Queue.{waits, AllPlaced, queue_leaves-Queues}

module _ {D : Type 0} where
  -- A leaf with a label has it in common with the leaves around it.
  abbrev pub Closed : Node D → Type 0
  Closed t = (q : Key) (l : ℤ) → label t q ≡ some l → labelled l ≡ true → AllSame t q l

  -- From t to t', leaves keep their labels.
  record Labelled (t : Node D) (queue : List Key) (o : Option (Node D)) : Type 0 where
    out : Node D
    returns : o ≡ some out
    closed : Closed out
    keeps : (q : Key) (l : ℤ) → label t q ≡ some l → labelled l ≡ true → label out q ≡ some l
    all : (q : Key) → waits q queue ≡ true → (l : ℤ) × (label out q ≡ some l) × (labelled l ≡ true)
    values : (q : Key) → bin out q ≡ bin t q
    places : (q : Key) → place out q ≡ place t q

  -- A round of the recursion leaves the labels closed.
  Closed-Grown :
      (t out : Node D) (c : ℤ) → labelled c ≡ true → Closed t → Grown c t out → Closed out
  Closed-Grown t out c is_label closed g q l e p = elim (Option-cases (label t q)) [
    | inl n ↦ absurd (some-ne-none l (sym e ∙ g.absent q n))
    | inr (old, s) ↦ elim (Bool-cases (labelled old)) [
      | inl b ↦
          let same = label-one (g.keeps q old s b) e in
          AllSame-Grown c is_label q l g p (closed q l (s ∙ ap some same) p)
      | inr b ↦ elim (g.colours q old s b) [
        | inl f ↦ absurd (ground (arith, label-one f e))
        | inr f ↦
            let same = label-one f e in subst (λ m. AllSame out q m) same (g.closes q old s b f)
      ]
    ]
  ]

  label_queue-step :
      (fuel : ℕ) (k : Key) (queue : List Key) (count : ℕ) (t after : Node D) (l : Leaf D)
      → find_node t k ≡ some l
      → labelled l.cluster ≡ false
      → cluster_node fuel k (set_cluster k (pos count) t) ≡ some after
      → label_queue fuel (k ∷ queue) count t ≡ label_queue fuel queue (count + 1) after
  unfolding label_queue
  label_queue-step fuel k queue count t after l e b r = rw (label_queue, e, ◌>>=◌, b, r)

  label_queue-Labelled :
      (fuel : ℕ) (start : Node D) (queue : List Key) (count : ℕ) (t : Node D)
      → (n : ℕ) (located : Located n start) → AllPlaced n start located queue
      → ((q : Key) → place t q ≡ place start q)
      → Closed t
      → unlabelled t < fuel
      → Labelled t queue (label_queue fuel queue count t)
  unfolding label_queue
  label_queue-Labelled fuel start [] count t n located placed places closed few = record {
    out = t;
    returns = refl;
    closed = closed;
    keeps = λ q l e p. e;
    all = λ q w. absurd (ground arith);
    values = λ q. refl;
    places = λ q. refl;
  }
  label_queue-Labelled fuel start (k ∷ queue) count t n located (home, placed) places closed few =
      elim (Option-cases (find_node t k)) [
        | inl e ↦ absurd (some-ne-none (home.0) (sym (places k ∙ home.1) ∙ ap index_of e))
        | inr (l, e) ↦ elim (Bool-cases (labelled l.cluster)) [
          | inl b ↦
              let rest =
                label_queue-Labelled fuel start queue count t n located placed places closed few in
              record {
                out = rest.out;
                returns = rw (label_queue, e, ◌>>=◌, b) rest.returns;
                closed = rest.closed;
                keeps = rest.keeps;
                all = λ q w. elim (Bool-cases (key_equal q k)) [
                  | inl d ↦
                      rw (key_equal-eq q k d)
                        (l.cluster, rest.keeps k l.cluster (ap cluster_of e) b, b)
                  | inr d ↦ rest.all q (rw d at w)
                ];
                values = rest.values;
                places = rest.places;
              }
          | inr b ↦
              let c = pos count in
              let is_label : labelled c ≡ true = ground arith in
              let seen = ap cluster_of e in
              let fresh = label-coloured c is_label t k l.cluster seen in
              let less = unlabelled-set_cluster t k c l.cluster seen b is_label in
              let r =
                cluster_node-Done c is_label fuel k (set_cluster k c t)
                  (Others-coloured c is_label t k l.cluster seen b (λ q m f p d. closed q m f p))
                  fresh (omega (arith, less)) in
              let grown = Grown-coloured c is_label t r.out k l.cluster seen b r.grown r.same in
              let rest =
                label_queue-Labelled fuel start queue (count + 1) r.out n located placed
                  (λ q. grown.places q ∙ places q) (Closed-Grown t r.out c is_label closed grown)
                  (omega (arith, grown.fewer)) in
              let own = rest.keeps k c (r.grown.keeps k c fresh is_label) is_label in
              record {
                out = rest.out;
                returns =
                    label_queue-step fuel k queue count t r.out l e b r.returns ∙ rest.returns;
                closed = rest.closed;
                keeps = λ q m f p. rest.keeps q m (grown.keeps q m f p) p;
                all = λ q w. elim (Bool-cases (key_equal q k)) [
                  | inl d ↦ rw (key_equal-eq q k d) (c, own, is_label)
                  | inr d ↦ rest.all q (rw d at w)
                ];
                values = λ q. rest.values q ∙ grown.values q;
                places = λ q. rest.places q ∙ grown.places q;
              }
        ]
      ]

  -- What the clustering of a tree gives: every leaf has a label, leaves whose keys are next to each
  -- other have the same, and the histogram is as before.
  pub record Clustered (t : Node D) (o : Option (Node D)) : Type 0 where
    pub out : Node D
    pub returns : o ≡ some out
    pub values : (q : Key) → bin out q ≡ bin t q
    pub all :
        (q : Key) (i : ℕ)
        → place t q ≡ some i
        → (l : ℤ) × (label out q ≡ some l) × (labelled l ≡ true)
    pub closed : Closed out
    pub places : (q : Key) → place out q ≡ place t q

  unplaced : (t : Node D) (q : Key) → place t q ≡ none → label t q ≡ none
  unplaced t q e = elim (Option-cases (find_node t q)) [
    | inl f ↦ ap cluster_of f
    | inr (l, f) ↦ absurd (some-ne-none l.index (sym (ap index_of f) ∙ e))
  ]

  pub cluster_root-Clustered : (n : ℕ) (t : Node D) → Located n t → Clustered t (cluster_root n t)
  unfolding cluster_root
  cluster_root-Clustered n t located =
      let q = queue_leaves-Queues n t located in
      let s = q.queued in
      let none_yet : Closed q.out = λ key l e p. elim (Option-cases (place t key)) [
        | inl m ↦ absurd (some-ne-none l (sym e ∙ unplaced q.out key (s.places key ∙ m)))
        | inr (j, m) ↦
            let reset = s.reset key j m (located.bound j key (located.at_place key j m)) in
            absurd (ground (arith, label-one reset e))
      ] in
      let r =
        label_queue-Labelled (leaves t + 1) t q.queue 0 q.out n located s.all_placed s.places
          none_yet (omega (arith, s.size, unlabelled-le q.out)) in
      record {
        out = r.out;
        returns = rw (q.returns, ◌>>=◌) r.returns;
        values = λ k. r.values k ∙ s.values k;
        all = λ k j e. r.all k (s.waiting k j e (located.bound j k (located.at_place k j e)));
        closed = r.closed;
        places = λ k. r.places k ∙ s.places k;
      }
