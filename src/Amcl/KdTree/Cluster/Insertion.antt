-- ===== src/Amcl/KdTree/Cluster/Insertion.antt =====
-- pf_kdtree_insert_node and the places of the leaves in the array `nodes`.
use mathlib.Core.Option.{some_inj}
use mathlib.Core.Path.{subst}
use navigation_learning.Prelude.{
  ℕ, ◌+◌, ◌<◌, ◌≡◌, sym, ap, ◌∙◌, inl, inr, true, false, Option, none, some, arith, Bool-cases,
}
use navigation_learning.Prelude.Int.{ℤ}
use navigation_learning.Costmap.Grid.{◌>>=◌}
use package.navigation_learning.Amcl.KdTree.{
  Scalars, Key, Leaf, Node, leaf, branch, Counts, key_equal, below, insert_node, insert_root,
}
use package.navigation_learning.Amcl.KdTree.Lookup.{new_leaf-made}
use package.navigation_learning.Amcl.KdTree.Cluster.{leaf_at}
use package.navigation_learning.Amcl.KdTree.Cluster.Places.{
  Tidy, Tidy-Located, key_at-cases, key_at-low,
}
use package.navigation_learning.Amcl.KdTree.Cluster.Splitting.{
  Placed, RootTidy, Tidy-more, key_at-there, split_leaf-Placed,
}

module _ {D : Type 0} (s : Scalars D) where
  low-Placed :
      (i depth dim : ℕ) (pivot : ℤ) (low high : Node D) (key : Key) (value : D) (self : Counts)
      → Tidy self.node_count (branch i depth dim pivot low high)
      → below dim pivot key ≡ true
      → Placed key self.node_count low (insert_node s low key value self)
      → let t = branch i depth dim pivot low high in
        Placed key self.node_count t (insert_node s t key value self)
  unfolding insert_node
  low-Placed i depth dim pivot low high key value self (tl, th, ol, oh, apart) e r =
      let far = Tidy-Located self.node_count high th in
      record {
        out = branch i depth dim pivot r.out high;
        after = r.after;
        returns = rw (insert_node, e, r.returns, ◌>>=◌);
        tidy = (
          r.tidy,
          Tidy-more high r.more th,
          λ j k f. elim (r.keys j k f) [
            | inl p ↦ ap (below dim pivot) p ∙ e
            | inr (m, p) ↦ ol m k p
          ],
          oh,
          λ j a b f g. elim (r.old j a f) [
            | inl p ↦ absurd (omega (arith, p, far.bound j b g))
            | inr (k, p) ↦ apart j k b p g
          ],
        );
        more = r.more;
        keys = λ j k f. elim (key_at-cases i depth dim pivot r.out high j k f) [
          | inl g ↦ elim (r.keys j k g) [
            | inl p ↦ inl p
            | inr (m, p) ↦ inr (m, key_at-low i depth dim pivot low high m k p)
          ]
          | inr g ↦ inr (j, key_at-there i depth dim pivot low high j k (λ a p. apart j a k p g) g)
        ];
        old = λ j k f. elim (key_at-cases i depth dim pivot r.out high j k f) [
          | inl g ↦ elim (r.old j k g) [
            | inl p ↦ inl p
            | inr (a, p) ↦ inr (a, key_at-low i depth dim pivot low high j a p)
          ]
          | inr g ↦ inr (k, key_at-there i depth dim pivot low high j k (λ a p. apart j a k p g) g)
        ];
      }

  high-Placed :
      (i depth dim : ℕ) (pivot : ℤ) (low high : Node D) (key : Key) (value : D) (self : Counts)
      → Tidy self.node_count (branch i depth dim pivot low high)
      → below dim pivot key ≡ false
      → Placed key self.node_count high (insert_node s high key value self)
      → let t = branch i depth dim pivot low high in
        Placed key self.node_count t (insert_node s t key value self)
  unfolding insert_node
  high-Placed i depth dim pivot low high key value self (tl, th, ol, oh, apart) e r =
      let near = Tidy-Located self.node_count low tl in
      record {
        out = branch i depth dim pivot low r.out;
        after = r.after;
        returns = rw (insert_node, e, r.returns, ◌>>=◌);
        tidy = (
          Tidy-more low r.more tl,
          r.tidy,
          ol,
          λ j k f. elim (r.keys j k f) [
            | inl p ↦ ap (below dim pivot) p ∙ e
            | inr (m, p) ↦ oh m k p
          ],
          λ j a b f g. elim (r.old j b g) [
            | inl p ↦ absurd (omega (arith, p, near.bound j a f))
            | inr (k, p) ↦ apart j a k f p
          ],
        );
        more = r.more;
        keys = λ j k f. elim (key_at-cases i depth dim pivot low r.out j k f) [
          | inl g ↦ inr (j, key_at-low i depth dim pivot low high j k g)
          | inr g ↦ elim (r.keys j k g) [
            | inl p ↦ inl p
            | inr (m, p) ↦
                inr (m, key_at-there i depth dim pivot low high m k (λ a q. apart m a k q p) p)
          ]
        ];
        old = λ j k f. elim (key_at-cases i depth dim pivot low r.out j k f) [
          | inl g ↦ inr (k, key_at-low i depth dim pivot low high j k g)
          | inr g ↦ elim (r.old j k g) [
            | inl p ↦ inl p
            | inr (a, p) ↦
                inr (a, key_at-there i depth dim pivot low high j a (λ b q. apart j b a q p) p)
          ]
        ];
      }

  same-Placed :
      (l : Leaf D) (key : Key) (value : D) (self : Counts)
      → l.index < self.node_count
      → key_equal key l.key ≡ true
      → Placed key self.node_count (leaf l) (insert_node s (leaf l) key value self)
  unfolding insert_node leaf_at
  same-Placed l key value self h e = record {
    out = leaf (record l { value = s.add l.value value });
    after = self;
    returns = rw e;
    tidy = h;
    more = omega arith;
    keys = λ i k f. inr (i, ground arith);
    old = λ i k f. inr (k, ground arith);
  }

  insert_node-Placed :
      (t : Node D) (key : Key) (value : D) (self : Counts)
      → Tidy self.node_count t
      → self.node_count + 1 < self.node_max_count
      → Placed key self.node_count t (insert_node s t key value self)
  unfolding insert_node
  insert_node-Placed (leaf l) key value self tidy room = elim (Bool-cases (key_equal key l.key)) [
    | inl e ↦ same-Placed l key value self tidy e
    | inr e ↦ rw e (split_leaf-Placed l key value self e room)
  ]
  insert_node-Placed (branch i depth dim pivot low high) key value self tidy room =
      let under_low = insert_node-Placed low key value self (tidy.0) room in
      let under_high = insert_node-Placed high key value self (tidy.1) room in
      elim (Bool-cases (below dim pivot key)) [
        | inl e ↦ low-Placed i depth dim pivot low high key value self tidy e under_low
        | inr e ↦ high-Placed i depth dim pivot low high key value self tidy e under_high
      ]

  -- The tidiness of a tree that may be empty.
  pub insert_root-Tidy :
      (root : Option (Node D)) (key : Key) (value : D) (self : Counts)
      → RootTidy self.node_count root
      → self.node_count + 1 < self.node_max_count
      → (out : Node D) (after : Counts) → insert_root s root key value self ≡ some (out, after)
      → Tidy after.node_count out
  unfolding insert_root
  insert_root-Tidy none key value self tidy room out after e =
      let first = new_leaf-made 0 key value self (omega arith) in
      subst (λ (p : Node D × Counts). Tidy (p.1.node_count) (p.0)) (some_inj.0 (sym first ∙ e))
        (omega arith)
  insert_root-Tidy (some t) key value self tidy room out after e =
      let r = insert_node-Placed t key value self tidy room in
      subst (λ (p : Node D × Counts). Tidy (p.1.node_count) (p.0)) (some_inj.0 (sym r.returns ∙ e))
        r.tidy
