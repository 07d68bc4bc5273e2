-- ===== src/Amcl/Filter/Stats.antt =====
-- pf_cluster_stats of navigation2/nav2_amcl/src/pf/pf.c.
use navigation_learning.Prelude.{
  ℕ, zero, suc, ◌+◌, ◌-◌, ◌/◌, min, max, ap, Option, none, some, List, [], ◌∷◌, map, ltb, leb,
  if◌then◌else◌, get_elem?, set, replicate,
}
use navigation_learning.Prelude.Int.{pos, negsuc}
use navigation_learning.Costmap.Grid.{◌>>=◌}
use navigation_learning.Amcl.KdTree.{Pose, KdTree, get_cluster}
use navigation_learning.Amcl.KdTree.Cluster.{cluster}
use navigation_learning.Amcl.Filter.{Math, Sample, Cov, Moments, Cluster, SampleSet}

module _ {D : Type 0} (f : Math D) where
  abbrev pub no_pose : Pose D
  no_pose = record { x = f.scalars.zero; y = f.scalars.zero; theta = f.scalars.zero }

  abbrev pub no_cov : Cov D
  no_cov = record {
    xx = f.scalars.zero;
    xy = f.scalars.zero;
    yx = f.scalars.zero;
    yy = f.scalars.zero;
    tt = f.scalars.zero;
  }

  abbrev pub no_moments : Moments D
  no_moments = record {
    m0 = f.scalars.zero;
    m1 = f.scalars.zero;
    m2 = f.scalars.zero;
    m3 = f.scalars.zero;
    c00 = f.scalars.zero;
    c01 = f.scalars.zero;
    c10 = f.scalars.zero;
    c11 = f.scalars.zero;
  }

  abbrev pub no_cluster : Cluster D
  no_cluster = record {
    count = 0;
    weight = f.scalars.zero;
    mean = no_pose;
    cov = no_cov;
    work = no_moments;
  }

  -- A sample's part of the sums.
  unfoldable pub add_sample : Sample D → Moments D → Moments D
  add_sample sample m =
      let add = f.scalars.add in
      let w = sample.weight in
      let p = sample.pose in
      record {
        m0 = add m.m0 (f.mul w p.x);
        m1 = add m.m1 (f.mul w p.y);
        m2 = add m.m2 (f.mul w (f.cos p.theta));
        m3 = add m.m3 (f.mul w (f.sin p.theta));
        c00 = add m.c00 (f.mul (f.mul w p.x) p.x);
        c01 = add m.c01 (f.mul (f.mul w p.x) p.y);
        c10 = add m.c10 (f.mul (f.mul w p.y) p.x);
        c11 = add m.c11 (f.mul (f.mul w p.y) p.y);
      }

  -- The mean and the covariance of sums.
  unfoldable pub normal_mean : Moments D → D → Pose D
  normal_mean m weight = record {
    x = f.scalars.div m.m0 weight;
    y = f.scalars.div m.m1 weight;
    theta = f.atan2 m.m3 m.m2;
  }

  unfoldable pub normal_cov : Moments D → D → Pose D → Cov D
  normal_cov m weight mean =
      let entry : D → D → D → D = λ c a b. f.sub (f.scalars.div c weight) (f.mul a b) in
      record {
        xx = entry m.c00 mean.x mean.x;
        xy = entry m.c01 mean.x mean.y;
        yx = entry m.c10 mean.y mean.x;
        yy = entry m.c11 mean.y mean.y;
        tt = f.mul f.minus_two (f.log (f.sqrt (f.scalars.add (f.mul m.m2 m.m2) (f.mul m.m3 m.m3))));
      }

  pub record Totals : Type 0 where
    pub weight : D
    pub work : Moments D

  -- One turn of the loop over the samples.
  unfoldable pub count_sample : SampleSet D → Totals → Sample D → Option (SampleSet D × Totals)
  count_sample set totals sample = get_cluster f.scalars set.kdtree sample.pose >>= λ cidx.
      elim cidx [
        | negsuc n ↦ none
        | pos i ↦
            if leb set.cluster_max_count i
            then some (set, totals)
            else (get_elem? set.clusters i >>= λ cluster. some (
              record set {
                cluster_count = if ltb set.cluster_count (i + 1) then i + 1 else set.cluster_count;
                clusters = package.navigation_learning.Prelude.set set.clusters i (record cluster {
                  count = cluster.count + 1;
                  weight = f.scalars.add cluster.weight sample.weight;
                  work = add_sample sample cluster.work;
                });
              },
              record {
                weight = f.scalars.add totals.weight sample.weight;
                work = add_sample sample totals.work;
              },
            ))
      ]

  unfoldable pub count_samples :
      SampleSet D → Totals → List (Sample D) → Option (SampleSet D × Totals)
  count_samples set totals [] = some (set, totals)
  count_samples set totals (sample ∷ samples) =
      count_sample set totals sample >>= λ r. count_samples (r.0) (r.1) samples

  -- The first n clusters are normalised.
  unfoldable pub normalize : ℕ → List (Cluster D) → List (Cluster D)
  normalize zero clusters = clusters
  normalize (suc n) [] = []
  normalize (suc n) (cluster ∷ clusters) =
      let mean = normal_mean cluster.work cluster.weight in
      record cluster { mean = mean; cov = normal_cov cluster.work cluster.weight mean }
      ∷ normalize n clusters

  -- The clusters' statistics and the overall ones.
  unfoldable pub finish : SampleSet D → Totals → SampleSet D
  finish set total =
      let mean = normal_mean total.work total.weight in
      record set {
        clusters = normalize set.cluster_count set.clusters;
        mean = mean;
        cov = normal_cov total.work total.weight mean;
      }

  -- The set before the loop over its samples.
  abbrev pub cleared : SampleSet D → KdTree D → SampleSet D
  cleared set kdtree = record set {
    kdtree = kdtree;
    cluster_count = 0;
    clusters = replicate set.cluster_max_count no_cluster;
  }

  unfoldable pub cluster_stats : SampleSet D → Option (SampleSet D)
  cluster_stats set = cluster set.kdtree >>= λ kdtree.
      count_samples (cleared set kdtree) (record { weight = f.scalars.zero; work = no_moments })
        set.samples
      >>= λ r. some (finish (r.0) (r.1))
