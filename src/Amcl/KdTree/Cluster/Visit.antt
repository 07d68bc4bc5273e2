-- ===== src/Amcl/KdTree/Cluster/Visit.antt =====
-- pf_kdtree_cluster_node: what the recursion does to the labels of the leaves.
use mathlib.Core.Option.{some-ne-none, some_inj}
use mathlib.Core.Path.{subst}
use navigation_learning.Prelude.{
  ℕ, ◌≤◌, ◌<◌, ◌≡◌, refl, sym, ap, ◌∙◌, ◌≢◌, ◌⊎◌, inl, inr, true, false, Option, none, some, arith,
  Bool-cases, Option-cases,
}
use navigation_learning.Prelude.Int.{ℤ}
use package.navigation_learning.Amcl.KdTree.{Key, Node, key_equal}
use package.navigation_learning.Amcl.KdTree.Pivot.{key_equal_refl, key_equal-eq}
use package.navigation_learning.Amcl.KdTree.Lookup.{bin}
use package.navigation_learning.Amcl.KdTree.Cluster.{neighbour, labelled, set_cluster}
use package.navigation_learning.Amcl.KdTree.Cluster.Labels.{
  label, place, key_at, unlabelled, label-set_cluster, place-set_cluster, bin-set_cluster,
  key_at-set_cluster, unlabelled-set_cluster,
}

labels-differ : {a b : ℤ} → labelled a ≡ true → labelled b ≡ false → a ≢ b
labels-differ p q e = ground arith

pub label-one : {A : Type 0} {o : Option A} {a b : A} → o ≡ some a → o ≡ some b → a ≡ b
label-one e f = some_inj.0 (sym e ∙ f)

module _ {D : Type 0} where
  -- The leaves around a key all have the label c.
  abbrev pub AllSame : Node D → Key → ℤ → Type 0
  AllSame t key c = (i : ℕ) → i < 27 → (m : ℤ) → label t (neighbour key i) ≡ some m → m ≡ c

  -- A leaf with a label other than c has it in common with the leaves around it.
  abbrev pub Others : Node D → ℤ → Type 0
  Others t c =
      (key : Key) (l : ℤ) → label t key ≡ some l → labelled l ≡ true → l ≢ c → AllSame t key l

  -- From t to t', leaves without a label may get c, and then the leaves around them have it too.
  pub record Grown (c : ℤ) (t t' : Node D) : Type 0 where
    pub keeps : (q : Key) (l : ℤ) → label t q ≡ some l → labelled l ≡ true → label t' q ≡ some l
    pub colours :
        (q : Key) (l : ℤ)
        → label t q ≡ some l
        → labelled l ≡ false
        → (label t' q ≡ some l) ⊎ (label t' q ≡ some c)
    pub absent : (q : Key) → label t q ≡ none → label t' q ≡ none
    pub closes :
        (q : Key) (l : ℤ)
        → label t q ≡ some l
        → labelled l ≡ false
        → label t' q ≡ some c
        → AllSame t' q c
    pub places : (q : Key) → place t' q ≡ place t q
    pub keys : (i : ℕ) → key_at t' i ≡ key_at t i
    pub values : (q : Key) → bin t' q ≡ bin t q
    pub fewer : unlabelled t' ≤ unlabelled t

module _ {D : Type 0} (c : ℤ) (is_label : labelled c ≡ true) where
  pub Grown-refl : (t : Node D) → Grown c t t
  Grown-refl t = record {
    keeps = λ q l e p. e;
    colours = λ q l e p. inl e;
    absent = λ q e. e;
    closes = λ q l e p f. absurd (labels-differ is_label p (label-one f e));
    places = λ q. refl;
    keys = λ i. refl;
    values = λ q. refl;
    fewer = omega arith;
  }

  pub AllSame-Grown :
      {t t' : Node D} (key : Key) (l : ℤ)
      → Grown c t t'
      → labelled l ≡ true
      → AllSame t key l
      → AllSame t' key l
  AllSame-Grown {t} {t'} key l g p same i h m e = elim (Option-cases (label t (neighbour key i))) [
    | inl n ↦ absurd (some-ne-none m (sym e ∙ g.absent (neighbour key i) n))
    | inr (old, s) ↦
        let was = same i h old s in label-one e (g.keeps (neighbour key i) l (s ∙ ap some was) p)
  ]

  pub Grown-trans : {t t' t'' : Node D} → Grown c t t' → Grown c t' t'' → Grown c t t''
  Grown-trans {t} {t'} {t''} g h = record {
    keeps = λ q l e p. h.keeps q l (g.keeps q l e p) p;
    colours = λ q l e p. elim (g.colours q l e p) [
      | inl f ↦ h.colours q l f p
      | inr f ↦ inr (h.keeps q c f is_label)
    ];
    absent = λ q e. h.absent q (g.absent q e);
    closes = λ q l e p f. elim (g.colours q l e p) [
      | inl s ↦ h.closes q l s p f
      | inr s ↦ AllSame-Grown q c h is_label (g.closes q l e p s)
    ];
    places = λ q. h.places q ∙ g.places q;
    keys = λ i. h.keys i ∙ g.keys i;
    values = λ q. h.values q ∙ g.values q;
    fewer = omega (arith, g.fewer, h.fewer);
  }

  pub Others-Grown : {t t' : Node D} → Grown c t t' → Others t c → Others t' c
  Others-Grown {t} {t'} g others key l e p n = elim (Option-cases (label t key)) [
    | inl s ↦ absurd (some-ne-none l (sym e ∙ g.absent key s))
    | inr (old, s) ↦ elim (Bool-cases (labelled old)) [
      | inl b ↦
          let same = label-one (g.keeps key old s b) e in
          AllSame-Grown key l g p (others key l (s ∙ ap some same) p n)
      | inr b ↦ elim (g.colours key old s b) [
        | inl f ↦ absurd (labels-differ p b (label-one e f))
        | inr f ↦ absurd (n (label-one e f))
      ]
    ]
  ]

  -- The labels after a leaf without a label gets c.
  pub label-coloured :
      (t : Node D) (n : Key) (old : ℤ) → label t n ≡ some old → label (set_cluster n c t) n ≡ some c
  label-coloured t n old e = label-set_cluster t n n c ∙ rw (key_equal_refl n, e) refl

  label-other :
      (t : Node D) (n q : Key) → key_equal q n ≡ false → label (set_cluster n c t) q ≡ label t q
  label-other t n q e = label-set_cluster t n q c ∙ rw e refl

  pub record Done (key : Key) (t : Node D) (o : Option (Node D)) : Type 0 where
    pub out : Node D
    pub returns : o ≡ some out
    pub grown : Grown c t out
    pub same : AllSame out key c

  -- What the recursive call promises, for trees with fewer leaves without a label than `fuel`.
  abbrev pub Clusters : ℕ → (Key → Node D → Option (Node D)) → Type 0
  Clusters fuel recurse =
      (key : Key) (t : Node D)
      → Others t c
      → label t key ≡ some c
      → unlabelled t < fuel
      → Done key t (recurse key t)

  -- A leaf gets the label and the recursion goes on from it.
  pub Grown-coloured :
      (t out : Node D) (n : Key) (old : ℤ)
      → label t n ≡ some old
      → labelled old ≡ false
      → Grown c (set_cluster n c t) out
      → AllSame out n c
      → Grown c t out
  Grown-coloured t out n old e u g same =
      let other = label-other t n in
      let now = label-coloured t n old e in
      record {
        keeps = λ q l s p. elim (Bool-cases (key_equal q n)) [
          | inl b ↦ absurd (labels-differ p u (label-one s (ap (label t) (key_equal-eq q n b) ∙ e)))
          | inr b ↦ g.keeps q l (other q b ∙ s) p
        ];
        colours = λ q l s p. elim (Bool-cases (key_equal q n)) [
          | inl b ↦ inr (ap (label out) (key_equal-eq q n b) ∙ g.keeps n c now is_label)
          | inr b ↦ g.colours q l (other q b ∙ s) p
        ];
        absent = λ q s. elim (Bool-cases (key_equal q n)) [
          | inl b ↦ absurd (some-ne-none old (sym e ∙ ap (label t) (sym (key_equal-eq q n b)) ∙ s))
          | inr b ↦ g.absent q (other q b ∙ s)
        ];
        closes = λ q l s p f. elim (Bool-cases (key_equal q n)) [
          | inl b ↦ subst (λ k. AllSame out k c) (sym (key_equal-eq q n b)) same
          | inr b ↦ g.closes q l (other q b ∙ s) p f
        ];
        places = λ q. g.places q ∙ place-set_cluster t n q c;
        keys = λ i. g.keys i ∙ key_at-set_cluster t n i c;
        values = λ q. g.values q ∙ bin-set_cluster t n q c;
        fewer = omega (arith, g.fewer, unlabelled-set_cluster t n c old e u is_label);
      }

  -- The others stay closed, since no leaf around them is without a label.
  pub Others-coloured :
      (t : Node D) (n : Key) (old : ℤ)
      → label t n ≡ some old
      → labelled old ≡ false
      → Others t c
      → Others (set_cluster n c t) c
  Others-coloured t n old e u others q l s p differs i h m f =
      let other = label-other t n in
      let now = label-coloured t n old e in
      elim (Bool-cases (key_equal q n)) [
        | inl b ↦
            absurd
              (differs (label-one s (ap (label (set_cluster n c t)) (key_equal-eq q n b) ∙ now)))
        | inr b ↦
            let same = others q l (sym (other q b) ∙ s) p differs i h in
            elim (Bool-cases (key_equal (neighbour q i) n)) [
              | inl d ↦ absurd (
                  labels-differ p u
                    (sym (same old (ap (label t) (key_equal-eq (neighbour q i) n d) ∙ e))))
              | inr d ↦ same m (sym (other (neighbour q i) d) ∙ f)
            ]
      ]
