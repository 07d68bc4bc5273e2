-- ===== src/Amcl/Filter/Tally.antt =====
-- The loop over the samples in pf_cluster_stats of pf.c.
use navigation_learning.Prelude.{
  ℕ, suc, ◌+◌, ◌-◌, ◌≤◌, max, ◌≡◌, refl, ap, ◌∙◌, inl, inr, Bool, Option, some, List, [], ◌∷◌, map,
  arith, ltb, leb, if◌then◌else◌, Bool-cases, length, get_elem?, set, length-set, get_elem?-in,
}
use navigation_learning.Prelude.Int.{pos}
use navigation_learning.Costmap.Grid.{◌>>=◌}
use navigation_learning.Amcl.KdTree.{KdTree, get_cluster}
use navigation_learning.Amcl.Filter.{Math, Sample, SampleSet}
use navigation_learning.Amcl.Filter.Stats.{add_sample, Totals, count_sample, count_samples}

module _ {D : Type 0} (f : Math D) (tree : KdTree D) where
  -- Every one of the samples has a cluster.
  abbrev pub Settled : List (Sample D) → Type 0
  Settled samples =
      (i : ℕ) (a : Sample D)
      → get_elem? samples i ≡ some a
      → (l : ℕ) × (get_cluster f.scalars tree a.pose ≡ some (pos l))

  pub record Sound (set : SampleSet D) : Type 0 where
    pub rows : length set.clusters ≡ set.cluster_max_count
    pub few : set.cluster_count ≤ set.cluster_max_count
    pub reads : set.kdtree ≡ tree

  pub record Tallied (set : SampleSet D) (o : Option (SampleSet D × Totals f)) : Type 0 where
    pub out : SampleSet D
    pub totals : Totals f
    pub returns : o ≡ some (out, totals)
    pub sound : Sound out
    pub keeps : out.samples ≡ set.samples
    pub same_limit : out.cluster_max_count ≡ set.cluster_max_count

  count_sample-Tallied :
      (set : SampleSet D) (totals : Totals f) (a : Sample D) (l : ℕ)
      → Sound set
      → get_cluster f.scalars tree a.pose ≡ some (pos l)
      → Tallied set (count_sample f set totals a)
  unfolding count_sample
  count_sample-Tallied set totals a l s e =
      let found : get_cluster f.scalars set.kdtree a.pose ≡ some (pos l) =
        ap (λ t. get_cluster f.scalars t a.pose) s.reads ∙ e in
      elim (Bool-cases (leb set.cluster_max_count l)) [
        | inl b ↦ record {
          out = set;
          totals = totals;
          returns = rw (count_sample, found, ◌>>=◌, b);
          sound = s;
          keeps = refl;
          same_limit = refl;
        }
        | inr b ↦
            let row = get_elem?-in set.clusters l (ground (arith, s.rows)) in
            record {
              out = record set {
                cluster_count = if ltb set.cluster_count (l + 1) then l + 1 else set.cluster_count;
                clusters = package.navigation_learning.Prelude.set set.clusters l (record (row.0) {
                  count = row.0.count + 1;
                  weight = f.scalars.add row.0.weight a.weight;
                  work = add_sample f a row.0.work;
                });
              };
              totals = record {
                weight = f.scalars.add totals.weight a.weight;
                work = add_sample f a totals.work;
              };
              returns = rw (count_sample, found, ◌>>=◌, b, row.1);
              sound = record {
                rows = length-set set.clusters l _ ∙ s.rows;
                few = ground (arith, s.few);
                reads = s.reads;
              };
              keeps = refl;
              same_limit = refl;
            }
      ]

  pub count_samples-Tallied :
      (set : SampleSet D) (totals : Totals f) (samples : List (Sample D))
      → Sound set
      → Settled samples
      → Tallied set (count_samples f set totals samples)
  unfolding count_samples
  count_samples-Tallied set totals [] s settled = record {
    out = set;
    totals = totals;
    returns = refl;
    sound = s;
    keeps = refl;
    same_limit = refl;
  }
  count_samples-Tallied set totals (a ∷ samples) s settled =
      let label = settled 0 a refl in
      let one = count_sample-Tallied set totals a (label.0) s (label.1) in
      let rest =
        count_samples-Tallied one.out one.totals samples one.sound (λ i b e. settled (suc i) b e) in
      record {
        out = rest.out;
        totals = rest.totals;
        returns = rw (one.returns, ◌>>=◌) rest.returns;
        sound = rest.sound;
        keeps = rest.keeps ∙ one.keeps;
        same_limit = rest.same_limit ∙ one.same_limit;
      }
