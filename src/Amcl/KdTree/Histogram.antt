-- ===== src/Amcl/KdTree/Histogram.antt =====
-- The tree of pf_kdtree.c as a histogram of the samples that pf.c inserts into it.
use navigation_learning.Prelude.{
  ℕ, ◌+◌, ◌*◌, ◌≤◌, ◌<◌, ◌≡◌, refl, sym, ap, ◌∙◌, Option, none, some, List, [], ◌∷◌, arith,
  if◌then◌else◌, length,
}
use navigation_learning.Costmap.Grid.{◌>>=◌}
use package.navigation_learning.Amcl.KdTree.{
  Scalars, Key, Pose, Leaf, Node, leaf, Counts, KdTree, alloc, clear, counts, key_of, insert_root,
  insert_key, insert, find_node, find_key, get_prob, key_equal,
}
use package.navigation_learning.Amcl.KdTree.Pivot.{key_equal-eq}
use package.navigation_learning.Amcl.KdTree.Lookup.{
  value_of, bin, raised, fresh, Inserted, insert_node-Inserted, made, grown, new_leaf-made,
}

module _ {D : Type 0} where
  abbrev pub root_bin : Option (Node D) → Key → Option D
  root_bin none key = none
  root_bin (some t) key = bin t key

  abbrev root_grows : Option (Node D) → Key → ℕ
  root_grows none key = 1
  root_grows (some t) key = 2 * fresh (bin t key)

  -- The loop of the samples in pf_init_model, after the tree is cleared.
  unfoldable pub insert_all : Scalars D → KdTree D → List (Pose D × D) → Option (KdTree D)
  insert_all s self [] = some self
  insert_all s self (p ∷ samples) =
      insert s self (p.0) (p.1) >>= λ after. insert_all s after samples

  -- The weights of the samples that fall in the bin q, added up in order.
  abbrev pub sum_from : Scalars D → (Pose D → Key) → Key → Option D → List (Pose D × D) → Option D
  sum_from s key q acc [] = acc
  sum_from s key q acc (p ∷ samples) =
      sum_from s key q (if key_equal q (key (p.0)) then some (raised s acc (p.1)) else acc) samples

  -- A tree with leaves has one node less than twice its leaves.
  abbrev Sized : Option (Node D) → ℕ → ℕ → Type 0
  Sized none nodes leaves = (nodes ≡ 0) × (leaves ≡ 0)
  Sized (some t) nodes leaves = nodes + 1 ≡ 2 * leaves

  abbrev pub Counted : KdTree D → Type 0
  Counted self = Sized self.root self.node_count self.leaf_count

  -- The tree after an insertion, against the tree before it.
  pub record Added (s : Scalars D) (self : KdTree D) (key : Key) (value : D) (o : Option (KdTree D))
      : Type 0 where
    pub out : KdTree D
    pub returns : o ≡ some out
    pub raises :
        (q : Key)
        → root_bin out.root q ≡ (
            if key_equal q key
            then some (raised s (root_bin self.root key) value)
            else root_bin self.root q)
    pub counted : Counted out
    pub some_leaf : 0 < out.leaf_count
    pub leaves : out.leaf_count ≡ self.leaf_count + fresh (root_bin self.root key)
    pub same_limit : out.node_max_count ≡ self.node_max_count
    pub size : out.size ≡ self.size

module _ {D : Type 0} (s : Scalars D) where
  pub insert_root-Inserted :
      (root : Option (Node D)) (key : Key) (value : D) (self : Counts)
      → self.node_count + 1 < self.node_max_count
      → Inserted s
          (root_bin root)
          key
          value
          self
          (root_grows root key)
          (insert_root s root key value self)
  unfolding insert_root find_node
  insert_root-Inserted none key value self room = record {
    out = leaf (made 0 key value self);
    after = grown self;
    returns = new_leaf-made 0 key value self (omega arith);
    raises = λ q. ground arith;
    nodes = refl;
    leaves = refl;
    same_limit = refl;
  }
  insert_root-Inserted (some t) key value self room = insert_node-Inserted s t key value self room

  pub insert_key-Added :
      (self : KdTree D) (key : Key) (value : D)
      → Counted self
      → self.node_count + 1 < self.node_max_count
      → Added s self key value (insert_key s self key value)
  unfolding insert_key
  insert_key-Added self key value c room =
      let r = insert_root-Inserted self.root key value (counts self) room in
      record {
        out = record self {
          root = some r.out;
          node_count = r.after.node_count;
          leaf_count = r.after.leaf_count;
        };
        returns = rw (r.returns, ◌>>=◌);
        raises = r.raises;
        counted = sized self.root self.node_count self.leaf_count c r.nodes r.leaves;
        some_leaf =
            omega (arith, sized self.root self.node_count self.leaf_count c r.nodes r.leaves);
        leaves = r.leaves;
        same_limit = refl;
        size = refl;
      }
    where
      sized :
          (root : Option (Node D)) (nodes leaves : ℕ)
          → Sized root nodes leaves
          → {n l : ℕ} → n ≡ nodes + root_grows root key
          → l ≡ leaves + fresh (root_bin root key)
          → n + 1 ≡ 2 * l
      sized none nodes leaves h p q = omega (arith, h)
      sized (some t) nodes leaves h p q = omega (arith, h)

  -- The samples' tree, after all of them.
  pub record Filled (self : KdTree D) (samples : List (Pose D × D)) (o : Option (KdTree D))
      : Type 0 where
    pub out : KdTree D
    pub returns : o ≡ some out
    pub bins :
        (q : Key)
        → root_bin out.root q ≡ sum_from s (key_of s self) q (root_bin self.root q) samples
    pub counted : Counted out
    pub some_leaf : 0 < self.leaf_count + length samples → 0 < out.leaf_count
    pub few_leaves : out.leaf_count ≤ self.leaf_count + length samples
    pub same_limit : out.node_max_count ≡ self.node_max_count
    pub size : out.size ≡ self.size

  pub fresh-le : (o : Option D) → fresh o ≤ 1
  fresh-le none = omega arith
  fresh-le (some a) = omega arith

  pub few_nodes :
      (root : Option (Node D)) (nodes leaves : ℕ) → Sized root nodes leaves → nodes ≤ 2 * leaves
  few_nodes none nodes leaves h = omega (arith, h)
  few_nodes (some t) nodes leaves h = omega (arith, h)

  -- The weights in a bin, after one sample more at the front.
  sum_from-step :
      (key : Pose D → Key) (pose : Pose D) (w : D) (q : Key) (before : Key → Option D)
      (samples : List (Pose D × D))
      → sum_from s key q
          (if key_equal q (key pose) then some (raised s (before (key pose)) w) else before q)
          samples
        ≡ sum_from s key q (before q) ((pose, w) ∷ samples)
  sum_from-step key pose w q before samples =
      let same : (if key_equal q (key pose)
            then some (raised s (before (key pose)) w)
            else before q)
          ≡ (if key_equal q (key pose) then some (raised s (before q) w) else before q) =
        ground (arith, key_equal-eq q (key pose)) in
      ap (λ acc. sum_from s key q acc samples) same

  -- The key depends on the tree's cell size only.
  pub key_of-size : (a b : KdTree D) → a.size ≡ b.size → key_of s a ≡ key_of s b
  unfolding key_of
  key_of-size a b e = rw e

  pub insert_all-Filled :
      (self : KdTree D) (samples : List (Pose D × D))
      → Counted self
      → 2 * (self.leaf_count + length samples) ≤ self.node_max_count
      → Filled self samples (insert_all s self samples)
  unfolding insert_all insert
  insert_all-Filled self [] c room = record {
    out = self;
    returns = refl;
    bins = λ q. refl;
    counted = c;
    some_leaf = λ h. omega (arith, h);
    few_leaves = omega arith;
    same_limit = refl;
    size = refl;
  }
  insert_all-Filled self ((pose, w) ∷ samples) c room =
      let few = few_nodes self.root self.node_count self.leaf_count c in
      let one = insert_key-Added self (key_of s self pose) w c (omega arith) in
      let new = fresh-le (root_bin self.root (key_of s self pose)) in
      let rest =
        insert_all-Filled one.out samples one.counted
          (omega (arith, one.leaves, one.same_limit, new)) in
      record {
        out = rest.out;
        returns = rw (one.returns, ◌>>=◌) rest.returns;
        bins = λ q.
            rest.bins q
            ∙ ap (λ acc. sum_from s (key_of s one.out) q acc samples) (one.raises q)
            ∙ ap
                (λ key.
                  sum_from s key q
                    (if key_equal q (key_of s self pose)
                      then some (raised s (root_bin self.root (key_of s self pose)) w)
                      else root_bin self.root q)
                    samples)
                (key_of-size one.out self one.size)
            ∙ sum_from-step (key_of s self) pose w q (root_bin self.root) samples;
        counted = rest.counted;
        some_leaf = λ h. rest.some_leaf (omega (arith, one.some_leaf));
        few_leaves = omega (arith, rest.few_leaves, one.leaves, new);
        same_limit = rest.same_limit ∙ one.same_limit;
        size = rest.size ∙ one.size;
      }

  -- The value that get_prob gives for a bin.
  abbrev pub read : Option D → D
  read none = s.zero
  read (some total) = total

  at_root :
      (root : Option (Node D)) (nodes leaves : ℕ)
      → Sized root nodes leaves
      → 0 < leaves
      → (q : Key) (sum : Option D) → root_bin root q ≡ sum
      → (do
        node ← (do t ← root; some (find_node t q))
        some (elim node [ none ↦ s.zero | some l ↦ l.value ]))
        ≡ some (read sum)
  at_root none nodes leaves h some_leaf q sum e = absurd (omega (arith, h))
  at_root (some t) nodes leaves h some_leaf q sum e = rw (← e) (found (find_node t q))
    where
      found :
          (o : Option (Leaf D))
          → ◌≡◌ {A = Option D}
              (some (elim o [ none ↦ s.zero | some l ↦ l.value ]))
              (some (read (value_of o)))
      found none = refl
      found (some l) = refl

  -- The samples' tree: each pose reads the sum of the weights of the samples in its bin, in their
  -- order, or 0.0 where no sample is.
  pub record Histogram (max_samples : ℕ) (samples : List (Pose D × D)) : Type 0 where
    pub out : KdTree D
    pub returns : insert_all s (clear (alloc s (3 * max_samples))) samples ≡ some out
    pub few_leaves : out.leaf_count ≤ length samples
    pub probability :
        (pose : Pose D)
        → get_prob s out pose
          ≡ some (read (sum_from s (key_of s out) (key_of s out pose) none samples))

  -- For at most `max_samples` samples, of which one at least, a tree of the size that pf_alloc gives
  -- takes them all without a failed assertion. It then gives each pose the sum of the weights of
  -- the samples in its bin, in their order, or 0.0 where no sample is, and it has at most one leaf
  -- for each sample.
  pub insert_all-Histogram :
      (max_samples : ℕ) (samples : List (Pose D × D))
      → 0 < length samples
      → length samples ≤ max_samples
      → Histogram max_samples samples
  unfolding clear alloc get_prob find_key
  insert_all-Histogram max_samples samples some_sample few =
      let start = clear (alloc s (3 * max_samples)) in
      let r = insert_all-Filled start samples (refl, refl) (omega arith) in
      record {
        out = r.out;
        returns = r.returns;
        few_leaves = omega (arith, r.few_leaves);
        probability = λ pose.
            let q = key_of s r.out pose in
            at_root r.out.root r.out.node_count r.out.leaf_count r.counted
              (r.some_leaf (omega (arith, some_sample))) q
              (sum_from s (key_of s start) q none samples) (r.bins q)
            ∙ ap (λ key. some (read (sum_from s key q none samples)))
                (key_of-size start r.out (sym r.size));
      }
