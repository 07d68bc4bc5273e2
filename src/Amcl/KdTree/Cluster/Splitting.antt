-- ===== src/Amcl/KdTree/Cluster/Splitting.antt =====
-- The split of a leaf in pf_kdtree_insert_node, and the places of the leaves in the array `nodes`.
use navigation_learning.Prelude.{
  ℕ, ◌+◌, ◌≤◌, ◌<◌, ◌≡◌, sym, ap, ◌∙◌, ◌≢◌, ◌⊎◌, inl, inr, true, false, not, Option, none, some,
  arith, ==_iff, Bool-cases, Option-cases,
}
use navigation_learning.Prelude.Int.{ℤ, ◌+ℤ◌}
use package.navigation_learning.Amcl.KdTree.{
  Key, Leaf, Node, leaf, branch, Counts, key_equal, below, component, split_leaf,
}
use package.navigation_learning.Amcl.KdTree.Pivot.{pivot_dim-Parted}
use package.navigation_learning.Amcl.KdTree.Lookup.{made, grown, forked, pair_of, split_leaf-pair}
use package.navigation_learning.Amcl.KdTree.Cluster.{leaf_at}
use package.navigation_learning.Amcl.KdTree.Cluster.Labels.{key_at}
use package.navigation_learning.Amcl.KdTree.Cluster.Places.{Tidy, key_at-cases, key_at-high}

module _ {D : Type 0} where
  pub record Placed (key : Key) (n : ℕ) (t : Node D) (o : Option (Node D × Counts)) : Type 0 where
    pub out : Node D
    pub after : Counts
    pub returns : o ≡ some (out, after)
    pub tidy : Tidy after.node_count out
    pub more : n ≤ after.node_count
    -- Its keys are the new one and those that were there, and its places are new or were there.
    pub keys :
        (i : ℕ) (k : Key) → key_at out i ≡ some k → (k ≡ key) ⊎ ((j : ℕ) × (key_at t j ≡ some k))
    pub old :
        (i : ℕ) (k : Key) → key_at out i ≡ some k → (n ≤ i) ⊎ ((a : Key) × (key_at t i ≡ some a))

  abbrev pub RootTidy : ℕ → Option (Node D) → Type 0
  RootTidy n none = Unit
  RootTidy n (some t) = Tidy n t

  -- A leaf of the higher half, when no leaf of the lower has its place.
  pub key_at-there :
      (i depth dim : ℕ) (pivot : ℤ) (low high : Node D) (j : ℕ) (k : Key)
      → ((a : Key) → key_at low j ≢ some a)
      → key_at high j ≡ some k
      → key_at (branch i depth dim pivot low high) j ≡ some k
  key_at-there i depth dim pivot low high j k free e = elim (Option-cases (key_at low j)) [
    | inl n ↦ key_at-high i depth dim pivot low high j n ∙ e
    | inr (a, f) ↦ absurd (free a f)
  ]

  pub Tidy-more : {n m : ℕ} (t : Node D) → n ≤ m → Tidy n t → Tidy m t
  Tidy-more (leaf l) h s = omega (arith, h, s)
  Tidy-more (branch index depth dim pivot low high) h (a, b, ol, oh, apart) =
      (Tidy-more low h a, Tidy-more high h b, ol, oh, apart)

  key_at-leaf :
      (l : Leaf D) (i : ℕ) (k : Key) → key_at (leaf l) i ≡ some k → (i ≡ l.index) × (k ≡ l.key)
  unfolding leaf_at
  key_at-leaf l i k e = ground (arith, ==_iff l.index i)

  key_at-own : (l : Leaf D) → key_at (leaf l) l.index ≡ some l.key
  unfolding leaf_at
  key_at-own l = ground arith

  -- Two new leaves under a branch that parts them.
  pair_of-Tidy :
      (l : Leaf D) (dim : ℕ) (pivot : ℤ) (a b : Key) (v w : D) (self : Counts)
      → below dim pivot a ≡ true
      → below dim pivot b ≡ false
      → Tidy (forked self).node_count (pair_of l dim pivot a v b w self)
  pair_of-Tidy l dim pivot a b v w self low high =
      let one = made (l.depth + 1) a v self in
      let two = made (l.depth + 1) b w (grown self) in
      (
        omega arith,
        omega arith,
        λ i k e. ap (below dim pivot) ((key_at-leaf one i k e).1) ∙ low,
        λ i k e. ap (below dim pivot) ((key_at-leaf two i k e).1) ∙ high,
        λ i x y e f. absurd (omega (arith, (key_at-leaf one i x e).0, (key_at-leaf two i y f).0)),
      )

  pair_of-keys :
      (l : Leaf D) (dim : ℕ) (pivot : ℤ) (a b : Key) (v w : D) (self : Counts) (i : ℕ) (k : Key)
      → key_at (pair_of l dim pivot a v b w self) i ≡ some k
      → (self.node_count ≤ i) × ((k ≡ a) ⊎ (k ≡ b))
  pair_of-keys l dim pivot a b v w self i k e =
      let one = made (l.depth + 1) a v self in
      let two = made (l.depth + 1) b w (grown self) in
      elim (key_at-cases l.index l.depth dim pivot (leaf one) (leaf two) i k e) [
        | inl s ↦ (omega (arith, (key_at-leaf one i k s).0), inl ((key_at-leaf one i k s).1))
        | inr s ↦ (omega (arith, (key_at-leaf two i k s).0), inr ((key_at-leaf two i k s).1))
      ]

  pub split_leaf-Placed :
      (l : Leaf D) (key : Key) (value : D) (self : Counts)
      → key_equal key l.key ≡ false
      → self.node_count + 1 < self.node_max_count
      → Placed key self.node_count (leaf l) (split_leaf l key value self)
  split_leaf-Placed l key value self differ room =
      let p = pivot_dim-Parted key l.key differ in
      let pivot = component p.dim key +ℤ component p.dim l.key in
      let returns = split_leaf-pair l key value self p.dim p.chosen room in
      elim (Bool-cases (below p.dim pivot key)) [
        | inl e ↦ record {
          out = pair_of l p.dim pivot key value l.key l.value self;
          after = forked self;
          returns = rw e at returns;
          tidy = pair_of-Tidy l p.dim pivot key l.key value l.value self e (p.apart ∙ ap not e);
          more = omega arith;
          keys = λ i k f. elim ((pair_of-keys l p.dim pivot key l.key value l.value self i k f).1) [
            | inl s ↦ inl s
            | inr s ↦ inr (l.index, key_at-own l ∙ ap some (sym s))
          ];
          old = λ i k f. inl ((pair_of-keys l p.dim pivot key l.key value l.value self i k f).0);
        }
        | inr e ↦ record {
          out = pair_of l p.dim pivot l.key l.value key value self;
          after = forked self;
          returns = rw e at returns;
          tidy = pair_of-Tidy l p.dim pivot l.key key l.value value self (p.apart ∙ ap not e) e;
          more = omega arith;
          keys = λ i k f. elim ((pair_of-keys l p.dim pivot l.key key l.value value self i k f).1) [
            | inl s ↦ inr (l.index, key_at-own l ∙ ap some (sym s))
            | inr s ↦ inl s
          ];
          old = λ i k f. inl ((pair_of-keys l p.dim pivot l.key key l.value value self i k f).0);
        }
      ]
