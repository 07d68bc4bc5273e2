-- ===== src/Amcl/Filter/Sensor.antt =====
-- pf_update_sensor of navigation2/nav2_amcl/src/pf/pf.c. The sensor model weighs the samples of a set
-- and returns the sum of their weights.
use navigation_learning.Prelude.{
  ℕ, ◌≡◌, ap, ◌∙◌, inl, inr, map, if◌then◌else◌, Bool-cases, length, set, length-map,
}
use navigation_learning.Amcl.Filter.{Math, Sample, SampleSet, Filter, current, set_current, sum_by}
use navigation_learning.Amcl.Filter.Ready.{
  SetReady, Ready, current-SetReady, set_current-Ready, current-set_current,
}

module _ {D : Type 0} (f : Math D) where
  -- A running_average average moves towards the average weight, from which it starts.
  abbrev pub running_average : D → D → D → D
  running_average w alpha w_avg =
      if f.eq w f.scalars.zero then w_avg else f.scalars.add w (f.mul alpha (f.sub w_avg w))

  unfoldable pub update_sensor : (SampleSet D → D × SampleSet D) → Filter D → Filter D
  update_sensor sensor_fn pf =
      let (total, set) = sensor_fn (current pf) in
      let count = f.of_ℕ (length set.samples) in
      if f.lt f.scalars.zero total
      then (let w_avg = f.scalars.div (sum_by f (λ a. a.weight) f.scalars.zero set.samples) count in
          set_current
            (record set {
              samples =
                  map (λ (a : Sample D). record a { weight = f.scalars.div a.weight total })
                    set.samples;
            })
            (record pf {
              w_slow = running_average pf.w_slow pf.alpha_slow w_avg;
              w_fast = running_average pf.w_fast pf.alpha_fast w_avg;
            }))
      else set_current
          (record set {
            samples =
                map (λ (a : Sample D). record a { weight = f.scalars.div (f.of_ℕ 1) count })
                  set.samples;
          })
          pf

  -- A sensor model that leaves the samples' number and the tables' sizes alone.
  pub record OnlyWeighs (sensor_fn : SampleSet D → D × SampleSet D) : Type 0 where
    pub count : (set : SampleSet D) → length (sensor_fn set).1.samples ≡ length set.samples
    pub tables : (n : ℕ) (set : SampleSet D) → SetReady f n set → SetReady f n ((sensor_fn set).1)

  -- With such a sensor model, weighing keeps the sizes of the tables and the number of samples.
  pub update_sensor-Ready :
      (sensor_fn : SampleSet D → D × SampleSet D) (pf : Filter D)
      → OnlyWeighs sensor_fn
      → Ready f pf
      → Ready f (update_sensor sensor_fn pf)
        × (length (current (update_sensor sensor_fn pf)).samples ≡ length (current pf).samples)
  unfolding update_sensor
  update_sensor-Ready sensor_fn pf only r =
      let set = (sensor_fn (current pf)).1 in
      let kept = only.tables pf.max_samples (current pf) (current-SetReady f pf r) in
      elim (Bool-cases (f.lt f.scalars.zero ((sensor_fn (current pf)).0))) [
        | inl e ↦ rw e (
          set_current-Ready f _ _
              (record { positive = r.positive; ordered = r.ordered; one = r.one; two = r.two })
              kept,
          ap (λ (a : SampleSet D). length a.samples) (current-set_current f _ _)
              ∙ length-map set.samples _
              ∙ only.count (current pf),
        )
        | inr e ↦ rw e (
          set_current-Ready f pf _ r kept,
          ap (λ (a : SampleSet D). length a.samples) (current-set_current f _ _)
              ∙ length-map set.samples _
              ∙ only.count (current pf),
        )
      ]
