-- ===== src/Amcl/KdTree/Cluster/Queue.antt =====
-- The first loop of pf_kdtree_cluster: the queue of the leaves.
use mathlib.Core.Option.{some-ne-none}
use navigation_learning.Prelude.{
  ℕ, zero, suc, ◌+◌, ◌-◌, ◌≤◌, ◌<◌, ◌≡◌, refl, sym, ap, ◌∙◌, inl, inr, Bool, true, false, ◌||◌,
  Option, none, some, List, [], ◌∷◌, arith, ltb, ◌==◌, ltb→lt, lt→ltb, ==_iff, Bool-cases,
  Option-cases, length,
}
use navigation_learning.Prelude.Int.{ℤ, negsuc}
use navigation_learning.Costmap.Grid.{◌>>=◌}
use package.navigation_learning.Amcl.KdTree.{Key, Node, key_equal, find_node}
use package.navigation_learning.Amcl.KdTree.Pivot.{key_equal_refl}
use package.navigation_learning.Amcl.KdTree.Lookup.{bin}
use package.navigation_learning.Amcl.KdTree.Cluster.{
  set_cluster, leaf_at, leaves, queue_leaf, queue_leaves,
}
use package.navigation_learning.Amcl.KdTree.Cluster.Labels.{
  label, place, key_at, index_of, key_of, cluster_of, label-set_cluster, place-set_cluster,
  key_at-set_cluster, bin-set_cluster, leaves-set_cluster,
}
use package.navigation_learning.Amcl.KdTree.Cluster.Visit.{label-one}
use package.navigation_learning.Amcl.KdTree.Cluster.Places.{Located}

abbrev pub waits : Key → List Key → Bool
waits key [] = false
waits key (k ∷ queue) = key_equal key k || waits key queue

module _ {D : Type 0} (n : ℕ) (start : Node D) (located : Located n start) where
  abbrev pub AllPlaced : List Key → Type 0
  AllPlaced [] = Unit
  AllPlaced (k ∷ queue) = ((i : ℕ) × (place start k ≡ some i)) × AllPlaced queue

  -- The first i nodes are done: their leaves have lost their labels and wait in the queue.
  pub record Queued (i : ℕ) (t : Node D) (queue : List Key) : Type 0 where
    pub places : (q : Key) → place t q ≡ place start q
    pub keys : (j : ℕ) → key_at t j ≡ key_at start j
    pub values : (q : Key) → bin t q ≡ bin start q
    pub size : leaves t ≡ leaves start
    pub short : length queue ≤ i
    pub all_placed : AllPlaced queue
    pub reset : (q : Key) (j : ℕ) → place start q ≡ some j → j < i → label t q ≡ some (negsuc 0)
    pub waiting : (q : Key) (j : ℕ) → place start q ≡ some j → j < i → waits q queue ≡ true

  pub record Queues (i : ℕ) (o : Option (Node D × List Key)) : Type 0 where
    pub out : Node D
    pub queue : List Key
    pub returns : o ≡ some (out, queue)
    pub queued : Queued i out queue

  place-label : (t : Node D) (q : Key) (i : ℕ) → place t q ≡ some i → (c : ℤ) × (label t q ≡ some c)
  place-label t q i e = elim (Option-cases (find_node t q)) [
    | inl f ↦ absurd (some-ne-none i (sym e ∙ ap index_of f))
    | inr (l, f) ↦ (l.cluster, ap cluster_of f)
  ]

  -- No leaf is at place i.
  skipped :
      (i : ℕ) (t : Node D) (queue : List Key)
      → key_at t i ≡ none
      → Queued i t queue
      → Queued (i + 1) t queue
  skipped i t queue e s =
      let earlier : (q : Key) (j : ℕ) → place start q ≡ some j → j < i + 1 → j < i = λ q j p h.
        elim (Bool-cases (ltb j i)) [
          | inl b ↦ ltb→lt j i b
          | inr b ↦
              let here : j ≡ i = ground arith in
              absurd (
                some-ne-none q
                  (sym (located.at_place q j p) ∙ sym (s.keys j) ∙ ap (key_at t) here ∙ e))
        ] in
      record {
        places = s.places;
        keys = s.keys;
        values = s.values;
        size = s.size;
        short = omega (arith, s.short);
        all_placed = s.all_placed;
        reset = λ q j p h. s.reset q j p (earlier q j p h);
        waiting = λ q j p h. s.waiting q j p (earlier q j p h);
      }

  -- The leaf with key k is.
  taken :
      (i : ℕ) (t : Node D) (queue : List Key) (k : Key)
      → key_at t i ≡ some k
      → Queued i t queue
      → Queued (i + 1) (set_cluster k (negsuc 0) t) (k ∷ queue)
  taken i t queue k e s =
      let home = located.at_key i k (sym (s.keys i) ∙ e) in
      let own = place-label t k i (s.places k ∙ home) in
      let earlier : (q : Key) (j : ℕ)
          → place start q ≡ some j
          → j < i + 1
          → key_equal q k ≡ false
          → j < i =
        λ q j p h d. elim (Bool-cases (ltb j i)) [
          | inl b ↦ ltb→lt j i b
          | inr b ↦
              let here : j ≡ i = ground arith in
              let same =
                label-one (located.at_place q j p) (ap (key_at start) here ∙ sym (s.keys i) ∙ e) in
              absurd (ground (arith, key_equal_refl k))
        ] in
      record {
        places = λ q. place-set_cluster t k q (negsuc 0) ∙ s.places q;
        keys = λ j. key_at-set_cluster t k j (negsuc 0) ∙ s.keys j;
        values = λ q. bin-set_cluster t k q (negsuc 0) ∙ s.values q;
        size = leaves-set_cluster t k (negsuc 0) ∙ s.size;
        short = omega (arith, s.short);
        all_placed = ((i, home), s.all_placed);
        reset = λ q j p h. label-set_cluster t k q (negsuc 0) ∙ elim (Bool-cases (key_equal q k)) [
          | inl d ↦ rw (d, own.1)
          | inr d ↦ rw d (s.reset q j p (earlier q j p h d))
        ];
        waiting = λ q j p h. elim (Bool-cases (key_equal q k)) [
          | inl d ↦ rw d
          | inr d ↦ rw d (s.waiting q j p (earlier q j p h d))
        ];
      }

  -- One turn.
  queue_leaf-Queues :
      (i : ℕ) (t : Node D) (queue : List Key)
      → i < n
      → Queued i t queue
      → Queues (i + 1) (queue_leaf n i t queue)
  unfolding queue_leaf
  queue_leaf-Queues i t queue h s = elim (Option-cases (leaf_at i t)) [
    | inl e ↦ record {
      out = t;
      queue = queue;
      returns = rw (queue_leaf, e);
      queued = skipped i t queue (ap key_of e) s;
    }
    | inr (l, e) ↦
        let k = l.key in
        let after = set_cluster k (negsuc 0) t in
        let next = taken i t queue k (ap key_of e) s in
        let room : ltb (length queue) n ≡ true = lt→ltb _ _ (omega (arith, s.short)) in
        let home = next.places k ∙ located.at_key i k (sym (s.keys i) ∙ ap key_of e) in
        elim (Option-cases (find_node after k)) [
          | inl f ↦ absurd (some-ne-none i (sym home ∙ ap index_of f))
          | inr (node, f) ↦
              let here : (node.index == i) ≡ true =
                (==_iff _ _).1 (label-one (ap index_of f) home) in
              record {
                out = after;
                queue = k ∷ queue;
                returns = rw (queue_leaf, e, room, f, ◌>>=◌, here);
                queued = next;
              }
        ]
  ]

  queue_leaves-from :
      (left : ℕ) (t : Node D) (queue : List Key)
      → left ≤ n
      → Queued (n - left) t queue
      → Queues n (queue_leaves n left t queue)
  unfolding queue_leaves
  queue_leaves-from zero t queue h s =
      let turn : n - 0 ≡ n = omega arith in
      record { out = t; queue = queue; returns = refl; queued = rw turn at s }
  queue_leaves-from (suc left) t queue h s =
      let one = queue_leaf-Queues (n - suc left) t queue (omega arith) s in
      let turn : n - suc left + 1 ≡ n - left = omega arith in
      let rest = queue_leaves-from left one.out one.queue (omega arith) (rw turn at one.queued) in
      record {
        out = rest.out;
        queue = rest.queue;
        returns = rw (one.returns, ◌>>=◌) rest.returns;
        queued = rest.queued;
      }

  pub queue_leaves-Queues : Queues n (queue_leaves n n start [])
  queue_leaves-Queues = queue_leaves-from n start [] (omega arith) (record {
    places = λ q. refl;
    keys = λ j. refl;
    values = λ q. refl;
    size = refl;
    short = omega arith;
    all_placed = tt;
    reset = λ q j p h. absurd (omega arith);
    waiting = λ q j p h. absurd (omega arith);
  })
