-- ===== src/Amcl/Filter/Sizes.antt =====
-- pf_alloc, pf_init_model and pf_update_resample of pf.c: the numbers of samples.
use navigation_learning.Prelude.{
  ℕ, ◌+◌, ◌≤◌, ◌<◌, ◌≡◌, refl, ap, ◌∙◌, ◌⊎◌, inl, inr, Bool, true, false, not, Option, some, List,
  map, arith, ltb→lt, length, set, length-map,
}
use navigation_learning.Prelude.Int.{pos, ltb_ℤ}
use navigation_learning.Costmap.Grid.{◌>>=◌}
use navigation_learning.Amcl.KdTree.{clear, alloc}
use navigation_learning.Amcl.Filter.{
  Math, Random, Sample, SampleSet, Filter, current, other, set_current, set_other, init_converged,
  resample_limit, update_converged,
}
use navigation_learning.Amcl.Filter.Draws.{draw_samples-Started, Picks, resample_loop-Looped}
use navigation_learning.Amcl.Filter.Limit.{resample_limit-bounds}
use navigation_learning.Amcl.Filter.Resample.{
  alloc_filter, init_model, random_part, reset_averages, scaled, update_resample,
}
use navigation_learning.Amcl.Filter.Ready.{
  get_elem?-map, SetReady, Ready, InTree, cluster_stats-HasStats, current-SetReady, other-SetReady,
  set_current-Ready, set_other-Ready, current-set_current, current-set_other,
}

module _ {D : Type 0} (f : Math D) where
  pub alloc_filter-Ready :
      (min_samples max_samples : ℕ) (alpha_slow alpha_fast pop_err : D)
      → 0 < max_samples
      → min_samples ≤ max_samples
      → Ready f (alloc_filter f min_samples max_samples alpha_slow alpha_fast pop_err)
  unfolding alloc_filter init_converged set_current current alloc
  alloc_filter-Ready min_samples max_samples alpha_slow alpha_fast pop_err p h = record {
    positive = p;
    ordered = h;
    one = (refl, refl);
    two = (refl, refl);
  }

  -- The flags of a filter and of its current set play no part.
  flags-Ready :
      (pf : Filter D) (b : Bool)
      → Ready f pf
      → Ready f (set_current (record (current pf) { converged = b }) (record pf { converged = b }))
  flags-Ready pf b r =
      set_current-Ready f (record pf { converged = b }) (record (current pf) { converged = b })
        (record { positive = r.positive; ordered = r.ordered; one = r.one; two = r.two })
        (current-SetReady f pf r)

  flags-samples :
      (pf : Filter D) (b : Bool)
      → (current (
          set_current
            (record (current pf) { converged = b })
            (record pf { converged = b }))).samples
        ≡ (current pf).samples
  flags-samples pf b =
      ap (λ (a : SampleSet D). a.samples)
        (current-set_current f (record pf { converged = b })
          (record (current pf) { converged = b }))

  converged-flags :
      (pf : Filter D)
      → (b : Bool) × (update_converged f pf
          ≡ set_current (record (current pf) { converged = b }) (record pf { converged = b }))
  unfolding update_converged
  converged-flags pf = (_, refl)

  set_current-max :
      (pf : Filter D) (set : SampleSet D) → (set_current set pf).max_samples ≡ pf.max_samples
  unfolding set_current
  set_current-max pf set = refl

  set_current-min :
      (pf : Filter D) (set : SampleSet D) → (set_current set pf).min_samples ≡ pf.min_samples
  unfolding set_current
  set_current-min pf set = refl

  set_other-max :
      (pf : Filter D) (set : SampleSet D) → (set_other set pf).max_samples ≡ pf.max_samples
  unfolding set_other
  set_other-max pf set = refl

  set_other-min :
      (pf : Filter D) (set : SampleSet D) → (set_other set pf).min_samples ≡ pf.min_samples
  unfolding set_other
  set_other-min pf set = refl

  second-set_current : (pf : Filter D) (set : SampleSet D) → (set_current set pf).second ≡ pf.second
  unfolding set_current
  second-set_current pf set = refl

  -- More samples than the limit are more than min_samples.
  at_least :
      (pf : Filter D) (samples : List (Sample D)) (k : ℕ)
      → pf.min_samples ≤ pf.max_samples
      → (length samples ≡ pf.max_samples)
        ⊎ (ltb_ℤ (resample_limit f pf k) (pos (0 + length samples)) ≡ true)
      → pf.min_samples ≤ length samples
  at_least pf samples k h (inl e) = omega (arith, e, h)
  at_least pf samples k h (inr e) =
      let bounds = resample_limit-bounds f pf k h in
      let over = ltb→lt _ _ e in omega (arith, bounds, over)

  stops :
      (pf : Filter D) (k n : ℕ) {j m : ℕ}
      → j ≡ k
      → m ≡ n
      → (n ≡ pf.max_samples) ⊎ (ltb_ℤ (resample_limit f pf k) (pos (0 + n)) ≡ true)
      → (m ≡ pf.max_samples) ⊎ (ltb_ℤ (resample_limit f pf j) (pos m) ≡ true)
  stops pf k n p q (inl e) = inl (q ∙ e)
  stops pf k n p q (inr e) =
      let none_more : 0 + n ≡ n = omega arith in inr (rw (p, q) (rw none_more at e))

  module _ {S : Type 0} (g : Random S D) where
    pub record Initialised (pf : Filter D) (o : Option (Filter D × S)) : Type 0 where
      pub out : Filter D
      pub seed : S
      pub returns : o ≡ some (out, seed)
      pub ready : Ready f out
      pub count : length (current out).samples ≡ pf.max_samples
      pub same_max : out.max_samples ≡ pf.max_samples

    -- A filter whose tables have the sizes that pf_alloc gives can be initialised: no assertion
    -- fails, among them the one that each sample has a cluster, and it has max_samples samples and
    -- tables of these sizes again.
    pub init_model-Initialised :
        (pf : Filter D) (seed : S) → Ready f pf → Initialised pf (init_model f g pf seed)
    unfolding init_model init_converged clear
    init_model-Initialised pf seed r =
        let set = current pf in
        let sized = current-SetReady f pf r in
        let weight = f.scalars.div (f.of_ℕ 1) (f.of_ℕ pf.max_samples) in
        let d =
          draw_samples-Started f g pf.max_samples weight (clear set.kdtree) seed (refl, refl)
            (omega (arith, sized.0)) in
        let filled : SampleSet D = record set { samples = d.samples; kdtree = d.out } in
        let held : InTree f set.kdtree filled d.samples = record {
          inserts = d.inserts;
          poses = λ i a e. (a, e, refl);
        } in
        let stats =
          cluster_stats-HasStats f set.kdtree filled d.samples held
            (omega (arith, d.count, r.positive)) (omega (arith, d.count, sized.0)) in
        let running : Filter D = record pf { w_slow = f.scalars.zero; w_fast = f.scalars.zero } in
        let ready : Ready f (set_current stats.out running) =
          set_current-Ready f running stats.out
            (record { positive = r.positive; ordered = r.ordered; one = r.one; two = r.two })
            (stats.same_limit ∙ sized.0, stats.tables ∙ sized.1) in
        record {
          out = init_converged (set_current stats.out running);
          seed = d.seed;
          returns = rw (init_model, d.returns, ◌>>=◌, stats.returns);
          ready = flags-Ready (set_current stats.out running) false ready;
          same_max = set_current-max _ _ ∙ set_current-max running stats.out;
          count =
              ap length (
                flags-samples (set_current stats.out running) false
                ∙ ap (λ (a : SampleSet D). a.samples) (current-set_current f running stats.out)
                ∙ stats.keeps)
              ∙ d.count;
        }

    pub record Resized (pf : Filter D) (o : Option (Filter D × S)) : Type 0 where
      pub out : Filter D
      pub seed : S
      pub returns : o ≡ some (out, seed)
      pub ready : Ready f out
      pub swaps : out.second ≡ not pf.second
      pub same_max : out.max_samples ≡ pf.max_samples
      pub same_min : out.min_samples ≡ pf.min_samples
      pub some_sample : 0 < length (current out).samples
      pub least : pf.min_samples ≤ length (current out).samples
      pub most : length (current out).samples ≤ pf.max_samples
      pub enough :
          (length (current out).samples ≡ pf.max_samples)
          ⊎ (ltb_ℤ
                (resample_limit f pf (current out).kdtree.leaf_count)
                (pos (length (current out).samples))
              ≡ true)

    -- Resampling a filter whose tables have the sizes that pf_alloc gives, when each number of the
    -- generator falls in the interval of a sample of positive weight: no assertion fails, the other
    -- set becomes the current one with at least one sample, at least min_samples and at most
    -- max_samples, and with fewer than max_samples only if there are more than pf_resample_limit
    -- asks for the bins that the samples hit. The tables keep their sizes.
    pub update_resample-Resized :
        (pf : Filter D) (seed : S)
        → Ready f pf
        → Picks f g (current pf).samples
        → Resized pf (update_resample f g pf seed)
    unfolding update_resample update_converged clear
    update_resample-Resized pf seed r picks =
        let set_b = other pf in
        let sized = other-SetReady f pf r in
        let w_diff = random_part f g pf in
        let d =
          resample_loop-Looped f g pf w_diff pf.max_samples 0 (clear set_b.kdtree) f.scalars.zero
            seed picks (refl, refl) (omega (arith, sized.0)) in
        let drawn = d.out.samples in
        let filled : SampleSet D = record set_b {
          samples = map (scaled f g d.out.total) drawn;
          kdtree = d.out.tree;
        } in
        let held : InTree f set_b.kdtree filled drawn = record {
          inserts = d.inserts;
          poses = λ i a e.
              let b = get_elem?-map (scaled f g d.out.total) drawn i a e in
              (b.0, b.1, ap (λ (x : Sample D). x.pose) (b.2));
        } in
        let one = d.some_sample r.positive in
        let stats =
          cluster_stats-HasStats f set_b.kdtree filled drawn held one
            (omega (arith, d.most, sized.0)) in
        let reset = reset_averages f g w_diff pf in
        let swapped : Filter D = record (set_other stats.out reset) { second = not pf.second } in
        let ready_set : SetReady f pf.max_samples stats.out =
          (stats.same_limit ∙ sized.0, stats.tables ∙ sized.1) in
        let stored =
          set_other-Ready f reset stats.out
            (record { positive = r.positive; ordered = r.ordered; one = r.one; two = r.two })
            ready_set in
        let count : length stats.out.samples ≡ length drawn =
          ap length stats.keeps ∙ length-map drawn (scaled f g d.out.total) in
        let c = converged-flags swapped in
        let out =
          set_current (record (current swapped) { converged = c.0 })
            (record swapped { converged = c.0 }) in
        let whole =
          current-set_current f (record swapped { converged = c.0 })
            (record (current swapped) { converged = c.0 })
          ∙ ap (λ (a : SampleSet D). record a { converged = c.0 })
              (current-set_other f reset stats.out) in
        let size : length (current out).samples ≡ length drawn =
          ap (λ (a : SampleSet D). length a.samples) whole ∙ count in
        let bins : (current out).kdtree.leaf_count ≡ d.out.tree.leaf_count =
          ap (λ (a : SampleSet D). a.kdtree.leaf_count) whole ∙ stats.leaves in
        record {
          out = out;
          seed = d.out.seed;
          returns =
              rw (update_resample, d.returns, ◌>>=◌, stats.returns)
                (ap (λ (o : Filter D). some (o, d.out.seed)) (c.1));
          ready = flags-Ready swapped (c.0) (record {
            positive = stored.positive;
            ordered = stored.ordered;
            one = stored.one;
            two = stored.two;
          });
          same_max = set_current-max _ _ ∙ set_other-max reset stats.out;
          same_min = set_current-min _ _ ∙ set_other-min reset stats.out;
          swaps =
              second-set_current (record swapped { converged = c.0 })
                (record (current swapped) { converged = c.0 });
          some_sample = omega (arith, size, one);
          least = omega (arith, size, at_least pf drawn d.out.tree.leaf_count r.ordered d.enough);
          most = omega (arith, size, d.most);
          enough = stops pf d.out.tree.leaf_count (length drawn) bins size d.enough;
        }
