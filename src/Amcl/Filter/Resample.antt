-- ===== src/Amcl/Filter/Resample.antt =====
-- pf_init_model and pf_update_resample of navigation2/nav2_amcl/src/pf/pf.c, with pf_alloc.
use navigation_learning.Prelude.{
  ℕ, zero, suc, ◌+◌, ◌*◌, true, false, not, ◌&&◌, Option, none, some, List, [], ◌∷◌, map,
  if◌then◌else◌, replicate,
}
use navigation_learning.Prelude.Int.{pos, ltb_ℤ}
use navigation_learning.Costmap.Grid.{◌>>=◌}
use navigation_learning.Amcl.KdTree.{Pose, KdTree, alloc, clear, insert}
use navigation_learning.Amcl.Filter.{
  Math, Random, Sample, SampleSet, Filter, current, other, set_current, set_other, init_converged,
  resample_limit, update_converged,
}
use navigation_learning.Amcl.Filter.Stats.{no_cluster, no_pose, no_cov, cluster_stats}

module _ {D : Type 0} (f : Math D) where
  abbrev pub new_set : ℕ → SampleSet D
  new_set max_samples = record {
    samples =
        replicate max_samples
          (record { pose = no_pose f; weight = f.scalars.div (f.of_ℕ 1) (f.of_ℕ max_samples) });
    kdtree = alloc f.scalars (3 * max_samples);
    cluster_count = 0;
    cluster_max_count = max_samples;
    clusters = replicate max_samples (no_cluster f);
    mean = no_pose f;
    cov = no_cov f;
    converged = false;
  }

  -- pop_err, pop_z and dist_threshold are 0.01, 3 and 0.5.
  unfoldable pub alloc_filter : ℕ → ℕ → D → D → D → Filter D
  alloc_filter min_samples max_samples alpha_slow alpha_fast pop_err = init_converged (record {
    min_samples = min_samples;
    max_samples = max_samples;
    pop_err = pop_err;
    pop_z = f.of_ℕ 3;
    second = false;
    sets = (new_set max_samples, new_set max_samples);
    w_slow = f.scalars.zero;
    w_fast = f.scalars.zero;
    alpha_slow = alpha_slow;
    alpha_fast = alpha_fast;
    dist_threshold = f.scalars.half;
    converged = false;
  })

  module _ {S : Type 0} (g : Random S D) where
    -- The loop of pf_init_model, with the turns that are left.
    unfoldable pub draw_samples : ℕ → D → KdTree D → S → Option (List (Sample D) × KdTree D × S)
    draw_samples zero weight tree seed = some ([], tree, seed)
    draw_samples (suc left) weight tree seed =
        let (pose, next) = g.random_pose seed in
        insert f.scalars tree pose weight >>= λ grown. draw_samples left weight grown next >>= λ r.
        some (record { pose = pose; weight = weight } ∷ r.0, r.1, r.2)

    -- With random_pose for the model's init_fn.
    unfoldable pub init_model : Filter D → S → Option (Filter D × S)
    init_model pf seed =
        let set = current pf in
        let weight = f.scalars.div (f.of_ℕ 1) (f.of_ℕ pf.max_samples) in
        draw_samples pf.max_samples weight (clear set.kdtree) seed >>= λ r.
        cluster_stats f (record set { samples = r.0; kdtree = r.1 }) >>= λ stats. some (
          init_converged
              (set_current stats (record pf { w_slow = f.scalars.zero; w_fast = f.scalars.zero })),
          r.2,
        )

    -- The table c, from c[i] on.
    unfoldable pub cumulative : D → List (Sample D) → List D
    cumulative c [] = c ∷ []
    cumulative c (sample ∷ samples) = c ∷ cumulative (f.scalars.add c sample.weight) samples

    -- The first sample i with c[i] <= r < c[i + 1]; there must be one.
    unfoldable pub pick : D → List (Sample D) → List D → Option (Sample D)
    pick r (sample ∷ samples) (c ∷ d ∷ table) =
        if f.le c r && f.lt r d then some sample else pick r samples (d ∷ table)
    pick r (sample ∷ samples) (c ∷ []) = none
    pick r (sample ∷ samples) [] = none
    pick r [] table = none

    -- The pose of a new sample.
    unfoldable pub draw_pose : D → List (Sample D) → S → Option (Pose D × S)
    draw_pose w_diff samples seed =
        let (r, next) = g.uniform seed in
        if f.lt r w_diff
        then some (g.random_pose next)
        else let (q, last) = g.uniform next in
          (pick q samples (cumulative f.scalars.zero samples) >>= λ sample.
          if f.lt f.scalars.zero sample.weight then some (sample.pose, last) else none)

    pub record Drawn : Type 0 where
      pub samples : List (Sample D)
      pub tree : KdTree D
      pub total : D
      pub seed : S

    -- The loop of pf_update_resample: `left` turns at most, after `count` samples.
    unfoldable pub resample_loop : Filter D → D → ℕ → ℕ → KdTree D → D → S → Option Drawn
    resample_loop pf w_diff zero count tree total seed =
        some (record { samples = []; tree = tree; total = total; seed = seed })
    resample_loop pf w_diff (suc left) count tree total seed =
        draw_pose w_diff (current pf).samples seed >>= λ p.
        insert f.scalars tree (p.0) (f.of_ℕ 1) >>= λ grown.
        let sum = f.scalars.add total (f.of_ℕ 1) in
        let sample : Sample D = record { pose = p.0; weight = f.of_ℕ 1 } in
        elim (ltb_ℤ (resample_limit f pf grown.leaf_count) (pos (count + 1))) [
          | true ↦ some (record { samples = sample ∷ []; tree = grown; total = sum; seed = p.1 })
          | false ↦ resample_loop pf w_diff left (count + 1) grown sum (p.1) >>= λ rest.
              some (record rest { samples = sample ∷ rest.samples })
        ]

    -- 1.0 - w_fast / w_slow, and 0.0 for a negative one.
    unfoldable pub random_part : Filter D → D
    random_part pf =
        let w_diff = f.sub (f.of_ℕ 1) (f.scalars.div pf.w_fast pf.w_slow) in
        if f.lt w_diff f.scalars.zero then f.scalars.zero else w_diff

    -- The averages start again when samples were drawn at random.
    abbrev pub reset_averages : D → Filter D → Filter D
    reset_averages w_diff pf =
        let reset = f.lt f.scalars.zero w_diff in
        record pf {
          w_slow = if reset then f.scalars.zero else pf.w_slow;
          w_fast = if reset then f.scalars.zero else pf.w_fast;
        }

    abbrev pub scaled : D → Sample D → Sample D
    scaled total sample = record sample { weight = f.scalars.div sample.weight total }

    unfoldable pub update_resample : Filter D → S → Option (Filter D × S)
    update_resample pf seed =
        let set_b = other pf in
        let w_diff = random_part pf in
        resample_loop pf w_diff pf.max_samples 0 (clear set_b.kdtree) f.scalars.zero seed >>= λ r.
        cluster_stats f (record set_b { samples = map (scaled r.total) r.samples; kdtree = r.tree })
        >>= λ stats. some (
          update_converged f
              (record (set_other stats (reset_averages w_diff pf)) { second = not pf.second }),
          r.seed,
        )
