-- ===== src/Amcl/Filter/Ready.antt =====
-- The filter of pf.c between its calls: its sample sets, and their trees and cluster tables.
use mathlib.Core.Option.{some-ne-none, some_inj}
use navigation_learning.Prelude.{
  ℕ, zero, suc, ◌*◌, ◌≤◌, ◌<◌, ◌≡◌, refl, sym, ap, ◌∙◌, inl, inr, not, Option, some, List, [], ◌∷◌,
  map, arith, Bool-cases, length, get_elem?, set, length-replicate, length-map,
}
use navigation_learning.Costmap.Grid.{◌>>=◌}
use navigation_learning.Amcl.KdTree.{KdTree, clear, get_cluster}
use navigation_learning.Amcl.KdTree.Cluster.{cluster}
use navigation_learning.Amcl.KdTree.Cluster.Samples.{insert_all-Clusters}
use navigation_learning.Amcl.KdTree.Histogram.{insert_all}
use navigation_learning.Amcl.Filter.{
  Math, Sample, SampleSet, Filter, current, other, set_current, set_other,
}
use navigation_learning.Amcl.Filter.Stats.{no_cluster, no_moments, cluster_stats, cleared, finish}
use navigation_learning.Amcl.Filter.Tally.{Settled, count_samples-Tallied}
use navigation_learning.Amcl.Filter.Draws.{entry}

pub get_elem?-map :
    {A B : Type 0} (h : A → B) (xs : List A) (i : ℕ) (b : B)
    → get_elem? (map h xs) i ≡ some b
    → (a : A) × (get_elem? xs i ≡ some a) × (b ≡ h a)
get_elem?-map h [] i b e = absurd (some-ne-none b (sym e))
get_elem?-map h (x ∷ xs) zero b e = (x, refl, sym (some_inj.0 e))
get_elem?-map h (x ∷ xs) (suc i) b e = get_elem?-map h xs i b e

map-get_elem? :
    {A B : Type 0} (h : A → B) (xs : List A) (i : ℕ) (a : A)
    → get_elem? xs i ≡ some a
    → get_elem? (map h xs) i ≡ some (h a)
map-get_elem? h [] i a e = absurd (some-ne-none a (sym e))
map-get_elem? h (x ∷ xs) zero a e = ap some (ap h (some_inj.0 e))
map-get_elem? h (x ∷ xs) (suc i) a e = map-get_elem? h xs i a e

module _ {D : Type 0} (f : Math D) where
  -- A sample set with the tables that pf_alloc made.
  abbrev pub SetReady : ℕ → SampleSet D → Type 0
  SetReady max_samples set =
      (set.kdtree.node_max_count ≡ 3 * max_samples) × (set.cluster_max_count ≡ max_samples)

  pub record Ready (pf : Filter D) : Type 0 where
    pub positive : 0 < pf.max_samples
    pub ordered : pf.min_samples ≤ pf.max_samples
    pub one : SetReady pf.max_samples (pf.sets.0)
    pub two : SetReady pf.max_samples (pf.sets.1)

  -- Samples that are in the tree of a set, with any weights.
  pub record InTree (self : KdTree D) (set : SampleSet D) (samples : List (Sample D)) : Type 0 where
    pub inserts : insert_all f.scalars (clear self) (map entry samples) ≡ some set.kdtree
    pub poses :
        (i : ℕ) (a : Sample D)
        → get_elem? set.samples i ≡ some a
        → (b : Sample D) × (get_elem? samples i ≡ some b) × (a.pose ≡ b.pose)

  pub record HasStats (self : KdTree D) (set : SampleSet D) (o : Option (SampleSet D))
      : Type 0 where
    pub out : SampleSet D
    pub returns : o ≡ some out
    pub keeps : out.samples ≡ set.samples
    pub tables : out.cluster_max_count ≡ set.cluster_max_count
    pub same_limit : out.kdtree.node_max_count ≡ self.node_max_count
    pub leaves : out.kdtree.leaf_count ≡ set.kdtree.leaf_count
    pub few : out.cluster_count ≤ out.cluster_max_count

  pub cluster_stats-HasStats :
      (self : KdTree D) (set : SampleSet D) (samples : List (Sample D))
      → InTree self set samples
      → 0 < length samples
      → 2 * length samples ≤ self.node_max_count
      → HasStats self set (cluster_stats f set)
  unfolding cluster_stats finish
  cluster_stats-HasStats self set samples held some_sample room =
      let same = length-map samples entry in
      let c =
        insert_all-Clusters f.scalars self (map entry samples) (omega (arith, same))
          (omega (arith, same)) in
      let filled : c.filled ≡ set.kdtree = some_inj.0 (sym c.inserts ∙ held.inserts) in
      let clustered : cluster set.kdtree ≡ some c.parts.out =
        ap cluster (sym filled) ∙ c.parts.returns in
      let fresh = cleared f set c.parts.out in
      let settled : Settled f c.parts.out set.samples = λ i a e.
        let b = held.poses i a e in
        let l = c.labels i (entry (b.0)) (map-get_elem? entry samples i (b.0) (b.1)) in
        (l.0, ap (λ p. get_cluster f.scalars c.parts.out p) (b.2) ∙ l.1) in
      let t =
        count_samples-Tallied f c.parts.out fresh
          (record { weight = f.scalars.zero; work = no_moments f }) set.samples
          (record {
            rows = length-replicate set.cluster_max_count (no_cluster f);
            few = omega arith;
            reads = refl;
          })
          settled in
      record {
        out = finish f t.out t.totals;
        returns = rw (cluster_stats, clustered, ◌>>=◌, t.returns);
        keeps = t.keeps;
        tables = t.same_limit;
        same_limit =
            ap (λ (k : KdTree D). k.node_max_count) t.sound.reads
            ∙ c.parts.same_limit
            ∙ c.same_limit;
        leaves =
            ap (λ (k : KdTree D). k.leaf_count) t.sound.reads
            ∙ c.parts.same_leaves
            ∙ ap (λ (k : KdTree D). k.leaf_count) filled;
        few = t.sound.few;
      }

  pub current-SetReady : (pf : Filter D) → Ready pf → SetReady pf.max_samples (current pf)
  unfolding current
  current-SetReady pf r = elim (Bool-cases pf.second) [ inl e ↦ rw e r.two | inr e ↦ rw e r.one ]

  pub other-SetReady : (pf : Filter D) → Ready pf → SetReady pf.max_samples (other pf)
  unfolding other
  other-SetReady pf r = elim (Bool-cases pf.second) [ inl e ↦ rw e r.one | inr e ↦ rw e r.two ]

  -- Another set in either place.
  pub set_current-Ready :
      (pf : Filter D) (set : SampleSet D)
      → Ready pf
      → SetReady pf.max_samples set
      → Ready (set_current set pf)
  unfolding set_current
  set_current-Ready pf set r s = record {
    positive = r.positive;
    ordered = r.ordered;
    one = elim (Bool-cases pf.second) [ inl e ↦ rw e r.one | inr e ↦ rw e s ];
    two = elim (Bool-cases pf.second) [ inl e ↦ rw e s | inr e ↦ rw e r.two ];
  }

  pub set_other-Ready :
      (pf : Filter D) (set : SampleSet D)
      → Ready pf
      → SetReady pf.max_samples set
      → Ready (set_other set pf)
  unfolding set_other
  set_other-Ready pf set r s = record {
    positive = r.positive;
    ordered = r.ordered;
    one = elim (Bool-cases pf.second) [ inl e ↦ rw e s | inr e ↦ rw e r.one ];
    two = elim (Bool-cases pf.second) [ inl e ↦ rw e r.two | inr e ↦ rw e s ];
  }

  pub current-set_current : (pf : Filter D) (set : SampleSet D) → current (set_current set pf) ≡ set
  unfolding current set_current
  current-set_current pf set = elim (Bool-cases pf.second) [ inl e ↦ rw e refl | inr e ↦ rw e refl ]

  -- The other set, once it has become the current one.
  pub current-set_other :
      (pf : Filter D) (set : SampleSet D)
      → current (record (set_other set pf) { second = not pf.second }) ≡ set
  unfolding current set_other
  current-set_other pf set = elim (Bool-cases pf.second) [ inl e ↦ rw e refl | inr e ↦ rw e refl ]
