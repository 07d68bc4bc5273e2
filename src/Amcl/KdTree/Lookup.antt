-- ===== src/Amcl/KdTree/Lookup.antt =====
-- pf_kdtree_insert_node against pf_kdtree_find_node: what an insertion does to each bin.
use navigation_learning.Prelude.{
  ℕ, ◌+◌, ◌-◌, ◌*◌, ◌<◌, ◌≡◌, refl, ap, ◌∙◌, inl, inr, true, false, not, Option, none, some, arith,
  ltb, if◌then◌else◌, Bool-cases,
}
use navigation_learning.Prelude.Int.{ℤ, pos, ◌+ℤ◌}
use navigation_learning.Costmap.Grid.{◌>>=◌}
use navigation_learning.Amcl.KdTree.{
  Scalars, Key, Leaf, Node, leaf, branch, Counts, new_leaf, split_leaf, insert_node, find_node,
  key_equal, below, component, pivot_dim,
}
use navigation_learning.Amcl.KdTree.Pivot.{key_equal-eq, Parted, pivot_dim-Parted}

-- The counts after one new leaf, and after the split of a leaf.
abbrev pub grown : Counts → Counts
grown self = record self { node_count = self.node_count + 1; leaf_count = self.leaf_count + 1 }

abbrev pub forked : Counts → Counts
forked self = record (grown (grown self)) { leaf_count = (grown (grown self)).leaf_count - 1 }

module _ {D : Type 0} where
  -- The value that the histogram has for a key.
  abbrev pub value_of : Option (Leaf D) → Option D
  value_of none = none
  value_of (some l) = some l.value

  abbrev pub bin : Node D → Key → Option D
  bin t key = value_of (find_node t key)

  -- A bin after a value is put in it.
  abbrev pub raised : Scalars D → Option D → D → D
  raised s none value = value
  raised s (some old) value = s.add old value

  -- 1 for a bin that is not there yet.
  abbrev pub fresh : Option D → ℕ
  fresh none = 1
  fresh (some old) = 0

  -- The insertion succeeds, raises the bin of its key and no other, and counts the new leaves.
  pub record Inserted (s : Scalars D) (before : Key → Option D) (key : Key) (value : D)
      (self : Counts) (grows : ℕ) (o : Option (Node D × Counts)) : Type 0 where
    pub out : Node D
    pub after : Counts
    pub returns : o ≡ some (out, after)
    pub raises :
        (q : Key)
        → bin out q ≡ (if key_equal q key then some (raised s (before key) value) else before q)
    pub nodes : after.node_count ≡ self.node_count + grows
    pub leaves : after.leaf_count ≡ self.leaf_count + fresh (before key)
    pub same_limit : after.node_max_count ≡ self.node_max_count

  -- Two leaves under a branch whose pivot parts them.
  find_node-pair :
      (i depth dim : ℕ) (pivot : ℤ) (a b : Leaf D) (q : Key)
      → below dim pivot a.key ≡ true
      → below dim pivot b.key ≡ false
      → bin (branch i depth dim pivot (leaf a) (leaf b)) q ≡ (
          if key_equal q a.key
          then some a.value
          else if key_equal q b.key
          then some b.value
          else none)
  unfolding find_node
  find_node-pair i depth dim pivot a b q low high =
      ground (arith, key_equal-eq q a.key, key_equal-eq q b.key, ap (below dim pivot))

  -- The leaf that new_leaf makes.
  abbrev pub made : ℕ → Key → D → Counts → Leaf D
  made depth key value self = record {
    index = self.node_count;
    depth = depth;
    key = key;
    value = value;
    cluster = pos 0;
  }

  pub new_leaf-made :
      (depth : ℕ) (key : Key) (value : D) (self : Counts)
      → self.node_count < self.node_max_count
      → new_leaf depth key value self ≡ some (leaf (made depth key value self), grown self)
  unfolding new_leaf
  new_leaf-made depth key value self room =
      let first : ltb self.node_count self.node_max_count ≡ true = ground arith in rw first

  -- The branch of two new leaves.
  abbrev pub pair_of : Leaf D → ℕ → ℤ → Key → D → Key → D → Counts → Node D
  pair_of l dim pivot a v b w self =
      branch l.index l.depth dim pivot (leaf (made (l.depth + 1) a v self))
        (leaf (made (l.depth + 1) b w (grown self)))

  pub split_leaf-pair :
      (l : Leaf D) (key : Key) (value : D) (self : Counts) (dim : ℕ)
      → pivot_dim key l.key ≡ some dim
      → self.node_count + 1 < self.node_max_count
      → let pivot = component dim key +ℤ component dim l.key in
        split_leaf l key value self
        ≡ some (
          (if below dim pivot key
              then pair_of l dim pivot key value l.key l.value self
              else pair_of l dim pivot l.key l.value key value self),
          forked self,
        )
  unfolding split_leaf
  split_leaf-pair l key value self dim chosen room =
      let first = new_leaf-made (l.depth + 1) key value self (omega arith) in
      let second = new_leaf-made (l.depth + 1) l.key l.value (grown self) (omega arith) in
      let third = new_leaf-made (l.depth + 1) l.key l.value self (omega arith) in
      let fourth = new_leaf-made (l.depth + 1) key value (grown self) (omega arith) in
      elim (Bool-cases (below dim (component dim key +ℤ component dim l.key) key)) [
        | inl e ↦ rw (chosen, ◌>>=◌, e, first, second)
        | inr e ↦ rw (chosen, ◌>>=◌, e, third, fourth)
      ]

module _ {D : Type 0} (s : Scalars D) where
  -- The split keeps the old bin and adds the new one.
  split-bins :
      (l : Leaf D) (key : Key) (value : D) (self : Counts)
      → key_equal key l.key ≡ false
      → (p : Parted key l.key)
      → let pivot = component p.dim key +ℤ component p.dim l.key in
        (q : Key)
        → bin
            (if below p.dim pivot key
              then pair_of l p.dim pivot key value l.key l.value self
              else pair_of l p.dim pivot l.key l.value key value self)
            q
          ≡ (if key_equal q key then some (raised s (bin (leaf l) key) value) else bin (leaf l) q)
  unfolding find_node
  split-bins l key value self differ p q =
      let pivot = component p.dim key +ℤ component p.dim l.key in
      elim (Bool-cases (below p.dim pivot key)) [
        | inl e ↦
            rw
              (
                e,
                find_node-pair l.index l.depth p.dim pivot (made (l.depth + 1) key value self)
                    (made (l.depth + 1) l.key l.value (grown self)) q e (p.apart ∙ ap not e),
              )
              (ground (arith, key_equal-eq q key))
        | inr e ↦
            rw
              (
                e,
                find_node-pair l.index l.depth p.dim pivot (made (l.depth + 1) l.key l.value self)
                    (made (l.depth + 1) key value (grown self)) q (p.apart ∙ ap not e) e,
              )
              (ground (arith, key_equal-eq q key, key_equal-eq q l.key))
      ]

  split_leaf-Inserted :
      (l : Leaf D) (key : Key) (value : D) (self : Counts)
      → key_equal key l.key ≡ false
      → self.node_count + 1 < self.node_max_count
      → Inserted s (bin (leaf l)) key value self 2 (split_leaf l key value self)
  unfolding find_node
  split_leaf-Inserted l key value self differ room =
      let p = pivot_dim-Parted key l.key differ in
      let pivot = component p.dim key +ℤ component p.dim l.key in
      record {
        out =
            if below p.dim pivot key
            then pair_of l p.dim pivot key value l.key l.value self
            else pair_of l p.dim pivot l.key l.value key value self;
        after = forked self;
        returns = split_leaf-pair l key value self p.dim p.chosen room;
        raises = split-bins l key value self differ p;
        nodes = omega arith;
        leaves = rw (differ, value_of, fresh) (omega arith);
        same_limit = refl;
      }

  -- A leaf that has the key takes the value.
  same-Inserted :
      (l : Leaf D) (key : Key) (value : D) (self : Counts)
      → key_equal key l.key ≡ true
      → Inserted s
          (bin (leaf l))
          key
          value
          self
          (2 * fresh (bin (leaf l) key))
          (insert_node s (leaf l) key value self)
  unfolding insert_node find_node
  same-Inserted l key value self e = record {
    out = leaf (record l { value = s.add l.value value });
    after = self;
    returns = rw e;
    raises = λ q. ground (arith, key_equal-eq key l.key, key_equal-eq q key, key_equal-eq q l.key);
    nodes = rw (fresh, e) (omega arith);
    leaves = rw (fresh, e) (omega arith);
    same_limit = refl;
  }

  -- The insertion under one child of a branch.
  low-Inserted :
      (i depth dim : ℕ) (pivot : ℤ) (low high : Node D) (key : Key) (value : D) (self : Counts)
      → below dim pivot key ≡ true
      → Inserted s
          (bin low)
          key
          value
          self
          (2 * fresh (bin low key))
          (insert_node s low key value self)
      → let t = branch i depth dim pivot low high in
        Inserted s (bin t) key value self (2 * fresh (bin t key)) (insert_node s t key value self)
  unfolding insert_node find_node
  low-Inserted i depth dim pivot low high key value self e r = record {
    out = branch i depth dim pivot r.out high;
    after = r.after;
    returns = rw (insert_node, e, r.returns, ◌>>=◌);
    raises =
        λ q. ground (arith, r.raises q, key_equal-eq q key, ap (below dim pivot) {x = q} {y = key});
    nodes = rw (fresh, e) r.nodes;
    leaves = rw (fresh, e) r.leaves;
    same_limit = r.same_limit;
  }

  high-Inserted :
      (i depth dim : ℕ) (pivot : ℤ) (low high : Node D) (key : Key) (value : D) (self : Counts)
      → below dim pivot key ≡ false
      → Inserted s
          (bin high)
          key
          value
          self
          (2 * fresh (bin high key))
          (insert_node s high key value self)
      → let t = branch i depth dim pivot low high in
        Inserted s (bin t) key value self (2 * fresh (bin t key)) (insert_node s t key value self)
  unfolding insert_node find_node
  high-Inserted i depth dim pivot low high key value self e r = record {
    out = branch i depth dim pivot low r.out;
    after = r.after;
    returns = rw (insert_node, e, r.returns, ◌>>=◌);
    raises =
        λ q. ground (arith, r.raises q, key_equal-eq q key, ap (below dim pivot) {x = q} {y = key});
    nodes = rw (fresh, e) r.nodes;
    leaves = rw (fresh, e) r.leaves;
    same_limit = r.same_limit;
  }

  pub insert_node-Inserted :
      (t : Node D) (key : Key) (value : D) (self : Counts)
      → self.node_count + 1 < self.node_max_count
      → Inserted s (bin t) key value self (2 * fresh (bin t key)) (insert_node s t key value self)
  unfolding insert_node find_node
  insert_node-Inserted (leaf l) key value self room = elim (Bool-cases (key_equal key l.key)) [
    | inl e ↦ same-Inserted l key value self e
    | inr e ↦ rw e (split_leaf-Inserted l key value self e room)
  ]
  insert_node-Inserted (branch i depth dim pivot low high) key value self room =
      let under_low = insert_node-Inserted low key value self room in
      let under_high = insert_node-Inserted high key value self room in
      elim (Bool-cases (below dim pivot key)) [
        | inl e ↦ low-Inserted i depth dim pivot low high key value self e under_low
        | inr e ↦ high-Inserted i depth dim pivot low high key value self e under_high
      ]
