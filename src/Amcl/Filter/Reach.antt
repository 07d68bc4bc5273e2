-- ===== src/Amcl/Filter/Reach.antt =====
-- The filter of navigation2/nav2_amcl/src/pf/pf.c over any sequence of calls.
use mathlib.Core.Option.{some_inj}
use mathlib.Core.Path.{subst}
use navigation_learning.Prelude.{
  ℕ, ◌≤◌, ◌<◌, ◌≡◌, refl, sym, ap, ◌∙◌, inl, inr, some, arith, Bool-cases, length, length-replicate,
}
use navigation_learning.Amcl.Filter.{
  Math, Random, SampleSet, Filter, current, set_current, init_converged,
}
use navigation_learning.Amcl.Filter.Resample.{alloc_filter, init_model, update_resample}
use navigation_learning.Amcl.Filter.Sensor.{update_sensor, OnlyWeighs, update_sensor-Ready}
use navigation_learning.Amcl.Filter.Draws.{Picks}
use navigation_learning.Amcl.Filter.Ready.{Ready}
use navigation_learning.Amcl.Filter.Sizes.{
  alloc_filter-Ready, init_model-Initialised, update_resample-Resized,
}

module _ {D S : Type 0} (f : Math D) (g : Random S D) where
  -- The filters that the calls lead to.
  pub data Reach : Filter D → Type 0 where
    allocated :
        (min_samples max_samples : ℕ) (alpha_slow alpha_fast pop_err : D)
        → 0 < max_samples
        → min_samples ≤ max_samples
        → Reach (alloc_filter f min_samples max_samples alpha_slow alpha_fast pop_err)
    initialised :
        (pf out : Filter D) (seed next : S)
        → Reach pf
        → init_model f g pf seed ≡ some (out, next)
        → Reach out
    weighed :
        (pf : Filter D) (sensor_fn : SampleSet D → D × SampleSet D)
        → Reach pf
        → OnlyWeighs f sensor_fn
        → Reach (update_sensor f sensor_fn pf)
    resampled :
        (pf out : Filter D) (seed next : S)
        → Reach pf
        → Picks f g (current pf).samples
        → update_resample f g pf seed ≡ some (out, next)
        → Reach out

  -- The sizes of a filter and of its current samples.
  pub record Sized (pf : Filter D) : Type 0 where
    pub ready : Ready f pf
    pub some_sample : 0 < length (current pf).samples
    pub least : pf.min_samples ≤ length (current pf).samples
    pub most : length (current pf).samples ≤ pf.max_samples

  alloc_filter-samples :
      (min_samples max_samples : ℕ) (alpha_slow alpha_fast pop_err : D)
      → let pf = alloc_filter f min_samples max_samples alpha_slow alpha_fast pop_err in
        (length (current pf).samples ≡ max_samples)
        × (pf.max_samples ≡ max_samples)
        × (pf.min_samples ≡ min_samples)
  unfolding alloc_filter init_converged set_current current
  alloc_filter-samples min_samples max_samples alpha_slow alpha_fast pop_err =
      (length-replicate max_samples _, refl, refl)

  update_sensor-sizes :
      (sensor_fn : SampleSet D → D × SampleSet D) (pf : Filter D)
      → let out = update_sensor f sensor_fn pf in
        (out.max_samples ≡ pf.max_samples) × (out.min_samples ≡ pf.min_samples)
  unfolding update_sensor set_current
  update_sensor-sizes sensor_fn pf =
      elim (Bool-cases (f.lt f.scalars.zero ((sensor_fn (current pf)).0))) [
        | inl e ↦ rw e (refl, refl)
        | inr e ↦ rw e (refl, refl)
      ]

  -- Whatever the calls of initialisation, weighing and resampling that lead to a filter from its
  -- allocation with 0 < max_samples and min_samples ≤ max_samples, with sensor models that only
  -- weigh and with draws that each fall in the interval of a sample of positive weight: its tables
  -- have the sizes that the next call needs, and the number of its current samples is positive and
  -- lies between min_samples and max_samples.
  pub Reach-Sized : (pf : Filter D) → Reach pf → Sized pf
  Reach-Sized _ (allocated min_samples max_samples alpha_slow alpha_fast pop_err p h) =
      let e = alloc_filter-samples min_samples max_samples alpha_slow alpha_fast pop_err in
      record {
        ready = alloc_filter-Ready f min_samples max_samples alpha_slow alpha_fast pop_err p h;
        some_sample = omega (arith, e);
        least = omega (arith, e);
        most = omega (arith, e);
      }
  Reach-Sized _ (initialised pf out seed next r e) =
      let s = Reach-Sized pf r in
      let i = init_model-Initialised f g pf seed s.ready in
      let same = some_inj.0 (sym i.returns ∙ e) in
      subst Sized (ap (λ (p : Filter D × S). p.0) same) (record {
        ready = i.ready;
        some_sample = omega (arith, i.count, s.ready.positive);
        least = omega (arith, i.count, i.same_max, i.ready.ordered);
        most = omega (arith, i.count, i.same_max);
      })
  Reach-Sized _ (weighed pf sensor_fn r only) =
      let s = Reach-Sized pf r in
      let w = update_sensor-Ready f sensor_fn pf only s.ready in
      let e = update_sensor-sizes sensor_fn pf in
      record {
        ready = w.0;
        some_sample = omega (arith, w.1, s.some_sample);
        least = omega (arith, w.1, e, s.least);
        most = omega (arith, w.1, e, s.most);
      }
  Reach-Sized _ (resampled pf out seed next r picks e) =
      let s = Reach-Sized pf r in
      let u = update_resample-Resized f g pf seed s.ready picks in
      let same = some_inj.0 (sym u.returns ∙ e) in
      subst Sized (ap (λ (p : Filter D × S). p.0) same) (record {
        ready = u.ready;
        some_sample = u.some_sample;
        least = omega (arith, u.least, u.same_min);
        most = omega (arith, u.most, u.same_max);
      })
