-- ===== src/Amcl/KdTree/Cluster/Recursion.antt =====
-- pf_kdtree_cluster_node: the loop over the keys around a leaf, and the recursion.
use mathlib.Core.Option.{some-ne-none}
use navigation_learning.Prelude.{
  ℕ, zero, suc, ◌+◌, ◌-◌, ◌≤◌, ◌<◌, ◌≡◌, refl, sym, ap, ◌∙◌, ◌≢◌, inl, inr, true, false, Option,
  some, arith, leb, leb→le, ==_iff, Bool-cases, Option-cases,
}
use navigation_learning.Prelude.Int.{ℤ, eq_of_parts}
use navigation_learning.Costmap.Grid.{◌>>=◌}
use package.navigation_learning.Amcl.KdTree.{Key, Leaf, Node, find_node, eqb_ℤ}
use package.navigation_learning.Amcl.KdTree.Cluster.{
  neighbour, labelled, set_cluster, visit, visit_all, cluster_node,
}
use package.navigation_learning.Amcl.KdTree.Cluster.Labels.{
  label, cluster_of, unlabelled, unlabelled-set_cluster, neighbour-back,
}
use package.navigation_learning.Amcl.KdTree.Cluster.Visit.{
  Others, Grown, Clusters, Grown-refl, Grown-trans, Others-Grown, Grown-coloured, Others-coloured,
  label-coloured, label-one,
}

eqb_ℤ-refl : (a : ℤ) → eqb_ℤ a a ≡ true
eqb_ℤ-refl a = ground arith

eqb_ℤ-ne : (a b : ℤ) → eqb_ℤ a b ≡ false → a ≢ b
eqb_ℤ-ne a b h e = ground (arith, eqb_ℤ-refl a)

module _ {D : Type 0} (c : ℤ) (is_label : labelled c ≡ true) where
  -- A turn that ends without a fault and leaves c at the key it visits.
  record Visited (key : Key) (t : Node D) (o : Option (Node D)) : Type 0 where
    out : Node D
    returns : o ≡ some out
    grown : Grown c t out
    same : (m : ℤ) → label out key ≡ some m → m ≡ c

  found :
      (t : Node D) (key : Key)
      → label t key ≡ some c
      → (l : Leaf D) × (find_node t key ≡ some l) × (l.cluster ≡ c)
  found t key e = elim (Option-cases (find_node t key)) [
    | inl n ↦ absurd (some-ne-none c (sym e ∙ ap cluster_of n))
    | inr (l, f) ↦ (l, f, label-one (ap cluster_of f) e)
  ]

  visit-Visited :
      (fuel : ℕ) (recurse : Key → Node D → Option (Node D)) (key : Key) (i : ℕ) (t : Node D)
      → i < 27
      → Clusters c is_label fuel recurse
      → Others t c
      → label t key ≡ some c
      → unlabelled t < fuel + 1
      → Visited (neighbour key i) t (visit recurse key (neighbour key i) t)
  unfolding visit
  visit-Visited fuel recurse key i t h call others own few =
      let n = neighbour key i in
      let (node, at_key, named) = found t key own in
      elim (Option-cases (find_node t n)) [
        | inl e ↦ record {
          out = t;
          returns = rw (visit, e);
          grown = Grown-refl c is_label t;
          same = λ m f. absurd (some-ne-none m (sym f ∙ ap cluster_of e));
        }
        | inr (l, e) ↦ elim (Bool-cases (labelled l.cluster)) [
          | inl b ↦ elim (Bool-cases (eqb_ℤ l.cluster node.cluster)) [
            | inl d ↦ record {
              out = t;
              returns = rw (visit, e, at_key, ◌>>=◌, b, d);
              grown = Grown-refl c is_label t;
              same =
                  λ m f. label-one f (ap cluster_of e) ∙ eq_of_parts _ _ ((==_iff _ _).0 d) ∙ named;
            }
            | inr d ↦
                let differs = eqb_ℤ-ne l.cluster node.cluster d in
                let around =
                  others n l.cluster (ap cluster_of e) b (λ s. differs (s ∙ sym named)) (26 - i)
                    (omega arith) c (ap (label t) (neighbour-back key i h) ∙ own) in
                absurd (differs (sym around ∙ sym named))
          ]
          | inr b ↦
              let seen = ap cluster_of e in
              let fresh = label-coloured c is_label t n l.cluster seen in
              let less = unlabelled-set_cluster t n c l.cluster seen b is_label in
              let r =
                call n (set_cluster n c t) (Others-coloured c is_label t n l.cluster seen b others)
                  fresh (omega (arith, less)) in
              let grown = Grown-coloured c is_label t r.out n l.cluster seen b r.grown r.same in
              record {
                out = r.out;
                returns = rw (visit, e, at_key, ◌>>=◌, b, named) r.returns;
                grown = grown;
                same = λ m f. label-one f (r.grown.keeps n c fresh is_label);
              }
        ]
      ]

  -- The turns that are left, from turn 27 - left on.
  record Rounds (key : Key) (left : ℕ) (t : Node D) (o : Option (Node D)) : Type 0 where
    out : Node D
    returns : o ≡ some out
    grown : Grown c t out
    same : (i : ℕ) → 27 ≤ i + left → i < 27 → (m : ℤ) → label out (neighbour key i) ≡ some m → m ≡ c

  -- A label c that a leaf has, or a leaf that is not there, stays so.
  same-Grown :
      {t t' : Node D} (q : Key)
      → Grown c t t'
      → ((m : ℤ) → label t q ≡ some m → m ≡ c)
      → (m : ℤ) → label t' q ≡ some m
      → m ≡ c
  same-Grown {t} {t'} q g same m e = elim (Option-cases (label t q)) [
    | inl n ↦ absurd (some-ne-none m (sym e ∙ g.absent q n))
    | inr (old, s) ↦ label-one e (g.keeps q c (s ∙ ap some (same old s)) is_label)
  ]

  visit_all-Rounds :
      (fuel : ℕ) (recurse : Key → Node D → Option (Node D)) (key : Key) (left : ℕ) (t : Node D)
      → left < 28
      → Clusters c is_label fuel recurse
      → Others t c
      → label t key ≡ some c
      → unlabelled t < fuel + 1
      → Rounds key left t (visit_all recurse key left t)
  unfolding visit_all
  visit_all-Rounds fuel recurse key zero t h call others own few = record {
    out = t;
    returns = refl;
    grown = Grown-refl c is_label t;
    same = λ i p q. absurd (omega arith);
  }
  visit_all-Rounds fuel recurse key (suc left) t h call others own few =
      let one = visit-Visited fuel recurse key (26 - left) t (omega arith) call others own few in
      let rest =
        visit_all-Rounds fuel recurse key left one.out (omega arith) call
          (Others-Grown c is_label one.grown others) (one.grown.keeps key c own is_label)
          (omega (arith, one.grown.fewer)) in
      record {
        out = rest.out;
        returns = rw (one.returns, ◌>>=◌) rest.returns;
        grown = Grown-trans c is_label one.grown rest.grown;
        same = λ i p q. elim (Bool-cases (leb 27 (i + left))) [
          | inl b ↦ rest.same i (leb→le 27 (i + left) b) q
          | inr b ↦
              let at_turn : i ≡ 26 - left = ground arith in
              rw at_turn (same-Grown (neighbour key (26 - left)) rest.grown one.same)
        ];
      }

  pub cluster_node-Done : (fuel : ℕ) → Clusters {D = D} c is_label fuel (cluster_node fuel)
  unfolding cluster_node
  cluster_node-Done zero key t others own few = absurd (omega arith)
  cluster_node-Done (suc fuel) key t others own few =
      let r =
        visit_all-Rounds fuel (cluster_node fuel) key 27 t (omega arith) (cluster_node-Done fuel)
          others own (omega arith) in
      record {
        out = r.out;
        returns = r.returns;
        grown = r.grown;
        same = λ i h. r.same i (omega arith) h;
      }
