-- ===== src/Amcl/KdTree/Cluster/Samples.antt =====
-- pf_kdtree_cluster on the tree of the samples, as pf.c calls it.
use mathlib.Core.Option.{some-ne-none, some_inj}
use mathlib.Core.Path.{subst}
use navigation_learning.Prelude.{
  ℕ, zero, suc, ◌+◌, ◌*◌, ◌≤◌, ◌<◌, ◌≡◌, refl, sym, ap, ◌∙◌, inl, inr, true, Option, none, some,
  List, [], ◌∷◌, arith, Bool-cases, Option-cases, length, get_elem?, get_elem?-lt,
}
use navigation_learning.Prelude.Int.{ℤ, pos, negsuc}
use navigation_learning.Costmap.Grid.{◌>>=◌}
use package.navigation_learning.Amcl.KdTree.Pivot.{key_equal_refl}
use package.navigation_learning.Amcl.KdTree.{
  key_equal, Scalars, Key, Pose, Node, KdTree, alloc, clear, counts, key_of, insert_key, insert,
  find_node, find_key, get_cluster,
}
use package.navigation_learning.Amcl.KdTree.Lookup.{bin, raised}
use package.navigation_learning.Amcl.KdTree.Histogram.{
  insert_all, root_bin, Counted, insert_root-Inserted, insert_key-Added, insert_all-Filled,
  few_nodes, fresh-le, key_of-size, sum_from,
}
use package.navigation_learning.Amcl.KdTree.Cluster.{neighbour, labelled, cluster}
use package.navigation_learning.Amcl.KdTree.Cluster.Labels.{label, place, cluster_of, index_of}
use package.navigation_learning.Amcl.KdTree.Cluster.Places.{Tidy-Located}
use package.navigation_learning.Amcl.KdTree.Cluster.Splitting.{RootTidy}
use package.navigation_learning.Amcl.KdTree.Cluster.Insertion.{insert_root-Tidy}
use package.navigation_learning.Amcl.KdTree.Cluster.Components.{cluster_root-Clustered}

module _ {D : Type 0} (s : Scalars D) where
  insert_key-Tidy :
      (self out : KdTree D) (key : Key) (value : D)
      → RootTidy self.node_count self.root
      → self.node_count + 1 < self.node_max_count
      → insert_key s self key value ≡ some out
      → RootTidy out.node_count out.root
  unfolding insert_key
  insert_key-Tidy self out key value tidy room e =
      let r = insert_root-Inserted s self.root key value (counts self) room in
      let result : KdTree D = record self {
        root = some r.out;
        node_count = r.after.node_count;
        leaf_count = r.after.leaf_count;
      } in
      let returns : insert_key s self key value ≡ some result = rw (insert_key, r.returns, ◌>>=◌) in
      subst (λ (o : KdTree D). RootTidy o.node_count o.root) (some_inj.0 (sym returns ∙ e))
        (insert_root-Tidy s self.root key value (counts self) tidy room r.out r.after r.returns)

  pub insert_all-Tidy :
      (self out : KdTree D) (samples : List (Pose D × D))
      → Counted self
      → RootTidy self.node_count self.root
      → 2 * (self.leaf_count + length samples) ≤ self.node_max_count
      → insert_all s self samples ≡ some out
      → RootTidy out.node_count out.root
  unfolding insert_all insert
  insert_all-Tidy self out [] c tidy room e =
      subst (λ (o : KdTree D). RootTidy o.node_count o.root) (some_inj.0 e) tidy
  insert_all-Tidy self out ((pose, w) ∷ samples) c tidy room e =
      let key = key_of s self pose in
      let few = few_nodes s self.root self.node_count self.leaf_count c in
      let one = insert_key-Added s self key w c (omega arith) in
      let new = fresh-le s (root_bin self.root key) in
      insert_all-Tidy one.out out samples one.counted
        (insert_key-Tidy self one.out key w tidy (omega arith) one.returns)
        (omega (arith, one.leaves, one.same_limit, new))
        (rw (insert_all, insert, one.returns, ◌>>=◌) at e)

  -- The labels, as get_cluster reads them.
  cluster-label :
      (self : KdTree D) (t : Node D) (pose : Pose D) (l : ℕ)
      → self.root ≡ some t
      → get_cluster s self pose ≡ some (pos l)
      → label t (key_of s self pose) ≡ some (pos l)
  unfolding get_cluster find_key find_node key_of
  cluster-label self t pose l e h = elim (Option-cases (find_node t (key_of s self pose))) [
    | inl f ↦ absurd (ground (arith, some_inj.0 (rw (get_cluster, find_key, e, ◌>>=◌, f) at h)))
    | inr (node, f) ↦ ap cluster_of f ∙ rw (get_cluster, find_key, e, ◌>>=◌, f) at h
  ]

  label-cluster :
      (self : KdTree D) (t : Node D) (pose : Pose D) (c : ℤ)
      → self.root ≡ some t
      → label t (key_of s self pose) ≡ some c
      → get_cluster s self pose ≡ some c
  unfolding get_cluster find_key find_node key_of
  label-cluster self t pose c e h = elim (Option-cases (find_node t (key_of s self pose))) [
    | inl f ↦ absurd (some-ne-none c (sym h ∙ ap cluster_of f))
    | inr (node, f) ↦ rw (get_cluster, find_key, e, ◌>>=◌, f) (sym (ap cluster_of f) ∙ h)
  ]

  bin-place : (t : Node D) (q : Key) (w : D) → bin t q ≡ some w → (i : ℕ) × (place t q ≡ some i)
  bin-place t q w e = elim (Option-cases (find_node t q)) [
    | inl f ↦ absurd (ground (arith, f))
    | inr (l, f) ↦ (l.index, ap index_of f)
  ]

  -- The clusters of a tree that has a root.
  pub record Partition (self : KdTree D) (o : Option (KdTree D)) : Type 0 where
    pub out : KdTree D
    pub returns : o ≡ some out
    pub has_label :
        (pose : Pose D) (w : D)
        → root_bin self.root (key_of s self pose) ≡ some w
        → (l : ℕ) × (get_cluster s out pose ≡ some (pos l))
    pub joins :
        (a b : Pose D) (i l m : ℕ)
        → i < 27
        → key_of s self b ≡ neighbour (key_of s self a) i
        → get_cluster s out a ≡ some (pos l)
        → get_cluster s out b ≡ some (pos m)
        → l ≡ m
    pub values : (q : Key) → root_bin out.root q ≡ root_bin self.root q
    pub same_limit : out.node_max_count ≡ self.node_max_count
    pub same_leaves : out.leaf_count ≡ self.leaf_count

  pub cluster-Partition :
      (self : KdTree D) (t : Node D)
      → self.root ≡ some t
      → RootTidy self.node_count self.root
      → Partition self (cluster self)
  unfolding cluster key_of
  cluster-Partition self t e tidy =
      let r =
        cluster_root-Clustered self.node_count t (Tidy-Located self.node_count t (rw e at tidy)) in
      let out : KdTree D = record self { root = some r.out } in
      record {
        out = out;
        returns = rw (cluster, e, r.returns, ◌>>=◌);
        has_label = λ pose w h.
            let key = key_of s self pose in
            let home = bin-place t key w (rw e at h) in
            let found = r.all key (home.0) (home.1) in
            let known = label-cluster out r.out pose (found.0) refl (found.1) in
            natural (found.0) (found.2) known;
        joins = λ a b i l m h near x y.
            let la = cluster-label out r.out a l refl x in
            let lb = cluster-label out r.out b m refl y in
            let same =
              r.closed (key_of s self a) (pos l) la (ground arith) i h (pos m)
                (ap (label r.out) (sym near) ∙ lb) in
            ground arith;
        values = λ q. rw e (r.values q);
        same_limit = refl;
        same_leaves = refl;
      }
    where
      natural :
          {o : Option ℤ} (c : ℤ) → labelled c ≡ true → o ≡ some c → (l : ℕ) × (o ≡ some (pos l))
      natural (pos l) p h = (l, h)
      natural (negsuc l) p h = absurd (ground arith)

  rooted :
      (self : KdTree D) → Counted self → 0 < self.leaf_count → (t : Node D) × (self.root ≡ some t)
  rooted self c h = elim (Option-cases self.root) [
    | inl e ↦ let r = rw e at c in absurd (omega (arith, r.1))
    | inr (t, e) ↦ (t, e)
  ]

  -- A sample's bin has a sum.
  sum_from-some :
      (key : Pose D → Key) (q : Key) (samples : List (Pose D × D)) (acc : D)
      → (w : D) × (sum_from s key q (some acc) samples ≡ some w)
  sum_from-some key q [] acc = (acc, refl)
  sum_from-some key q ((pose, w) ∷ samples) acc = elim (Bool-cases (key_equal q (key pose))) [
    | inl e ↦ rw e (sum_from-some key q samples (s.add acc w))
    | inr e ↦ rw e (sum_from-some key q samples acc)
  ]

  sum_from-sample :
      (key : Pose D → Key) (samples : List (Pose D × D)) (i : ℕ) (a : Pose D × D) (acc : Option D)
      → get_elem? samples i ≡ some a
      → (w : D) × (sum_from s key (key (a.0)) acc samples ≡ some w)
  sum_from-sample key [] i a acc e = absurd (some-ne-none a (sym e))
  sum_from-sample key (p ∷ samples) zero a acc e =
      rw (some_inj.0 e, key_equal_refl (key (a.0)))
        (sum_from-some key (key (a.0)) samples (raised s acc (a.1)))
  sum_from-sample key (p ∷ samples) (suc i) a acc e = sum_from-sample key samples i a _ e

  -- The tree of samples that are put in an empty one, and its clusters.
  pub record Clusters (self : KdTree D) (samples : List (Pose D × D)) : Type 0 where
    pub filled : KdTree D
    pub inserts : insert_all s (clear self) samples ≡ some filled
    pub parts : Partition filled (cluster filled)
    pub size : filled.size ≡ self.size
    pub same_limit : filled.node_max_count ≡ self.node_max_count
    pub labels :
        (i : ℕ) (a : Pose D × D)
        → get_elem? samples i ≡ some a
        → (l : ℕ) × (get_cluster s parts.out (a.0) ≡ some (pos l))

  pub insert_all-Clusters :
      (self : KdTree D) (samples : List (Pose D × D))
      → 0 < length samples
      → 2 * length samples ≤ self.node_max_count
      → Clusters self samples
  unfolding clear
  insert_all-Clusters self samples some_sample room =
      let r = insert_all-Filled s (clear self) samples (refl, refl) (omega arith) in
      let tidy =
        insert_all-Tidy (clear self) r.out samples (refl, refl) tt (omega arith) r.returns in
      let root = rooted r.out r.counted (r.some_leaf (omega (arith, some_sample))) in
      let p = cluster-Partition r.out (root.0) (root.1) tidy in
      let size = key_of-size s r.out (clear self) r.size in
      record {
        filled = r.out;
        inserts = r.returns;
        parts = p;
        size = r.size;
        same_limit = r.same_limit;
        labels = λ i a e.
            let sum = sum_from-sample (key_of s (clear self)) samples i a none e in
            p.has_label (a.0) (sum.0) (
              r.bins (key_of s r.out (a.0))
              ∙ ap (λ key. sum_from s (key_of s (clear self)) (key (a.0)) none samples) size
              ∙ sum.1);
      }

  -- The tree that pf_alloc makes and pf_init_model clears.
  abbrev pub start : ℕ → KdTree D
  start max_samples = clear (alloc s (3 * max_samples))

  -- Inserting the samples and clustering ends without a fault, leaves every bin its weight, and
  -- gives the two poses the same cluster, which is not the -1 of no cluster.
  pub record Together (max_samples : ℕ) (samples : List (Pose D × D)) (a b : Pose D) : Type 0 where
    pub filled : KdTree D
    pub out : KdTree D
    pub l : ℕ
    pub inserts : insert_all s (start max_samples) samples ≡ some filled
    pub clusters : cluster filled ≡ some out
    pub values : (q : Key) → root_bin out.root q ≡ root_bin filled.root q
    pub one : get_cluster s out a ≡ some (pos l)
    pub other : get_cluster s out b ≡ some (pos l)

  -- For at most `max_samples` samples in a tree of the size that pf_alloc gives, and two of the
  -- samples whose bins touch, if only at a corner, or are the same: inserting the samples and
  -- clustering the tree fails no assertion and ends with the same cluster number for the two poses,
  -- and with the weights of all bins as they were.
  pub cluster-neighbours :
      (max_samples : ℕ) (samples : List (Pose D × D)) (i j turn : ℕ) (a b : Pose D × D)
      → length samples ≤ max_samples
      → get_elem? samples i ≡ some a
      → get_elem? samples j ≡ some b
      → turn < 27
      → key_of s (start max_samples) (b.0) ≡ neighbour (key_of s (start max_samples) (a.0)) turn
      → Together max_samples samples (a.0) (b.0)
  unfolding clear alloc
  cluster-neighbours max_samples samples i j turn a b few at_i at_j h near =
      let self = alloc s (3 * max_samples) in
      let r =
        insert_all-Clusters self samples (omega (arith, get_elem?-lt samples i a at_i))
          (omega arith) in
      let p = r.parts in
      let size = key_of-size s r.filled (start max_samples) r.size in
      let la = r.labels i a at_i in
      let lb = r.labels j b at_j in
      let near_filled =
        ap (λ key. key (b.0)) size ∙ near ∙ ap (λ key. neighbour (key (a.0)) turn) (sym size) in
      let same = p.joins (a.0) (b.0) turn (la.0) (lb.0) h near_filled (la.1) (lb.1) in
      record {
        filled = r.filled;
        out = p.out;
        l = la.0;
        inserts = r.inserts;
        clusters = p.returns;
        values = p.values;
        one = la.1;
        other = lb.1 ∙ ap (λ n. some (pos n)) (sym same);
      }
