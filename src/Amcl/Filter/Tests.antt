-- ===== src/Amcl/Filter/Tests.antt =====
-- Runs of the filter of pf.c.
use navigation_learning.Prelude.{ℕ, ◌+◌, ◌-◌, ◌*◌, ◌/◌, refl, arith, ltb, leb, ◌==◌, set}
use navigation_learning.Prelude.Int.{pos}
use navigation_learning.Amcl.KdTree.{alloc}
use navigation_learning.Amcl.Filter.{
  SampleSet, Math, Random, Filter, current, set_current, init_converged,
}
use navigation_learning.Amcl.Filter.Resample.{
  alloc_filter, init_model, update_resample, cumulative, pick,
}
use navigation_learning.Amcl.Filter.Ready.{Ready}
use navigation_learning.Amcl.Filter.Sensor.{update_sensor}
use navigation_learning.Amcl.Filter.Reach.{
  Reach, allocated, initialised, weighed, Sized, Reach-Sized,
}
use navigation_learning.Amcl.Filter.Sizes.{
  alloc_filter-Ready, Initialised, init_model-Initialised, Resized, update_resample-Resized,
}

-- Thousandths, and bins that are half a unit wide.
abbrev thousandths : Math ℕ
thousandths = record {
  scalars = record {
    add = λ a b. a + b;
    div = λ a b. a * 1000 / b;
    floor = λ a. a / 1000 * 1000;
    to_int = λ a. pos (a / 1000);
    zero = 0;
    half = 500;
    ten_degrees = 175;
  };
  sub = λ a b. a - b;
  mul = λ a b. a * b / 1000;
  lt = ltb;
  le = leb;
  eq = λ a b. a == b;
  fabs = λ a. a;
  sqrt = λ a. a;
  cos = λ a. 1000;
  sin = λ a. a;
  log = λ a. a;
  ceil = λ a. (a + 999) / 1000 * 1000;
  atan2 = λ a b. a;
  of_ℕ = λ n. n * 1000;
  minus_two = 0;
}

abbrev generator : Random ℕ ℕ
generator = record {
  uniform = λ seed. (500, seed + 1);
  random_pose = λ seed. (record { x = seed * 1000; y = 0; theta = 0 }, seed + 1);
}

-- Two to four samples; the averages ask for no random pose.
abbrev filter : Filter ℕ
filter = record (alloc_filter thousandths 2 4 1 100 10) { w_slow = 1000; w_fast = 1000 }

filter-Ready : Ready thousandths filter
unfolding alloc_filter init_converged set_current current alloc
filter-Ready = record {
  positive = omega arith;
  ordered = omega arith;
  one = (refl, refl);
  two = (refl, refl);
}

update_resample-Resized_example :
    Resized thousandths generator filter (update_resample thousandths generator filter 7)
unfolding alloc_filter init_converged set_current current cumulative pick
update_resample-Resized_example =
    update_resample-Resized thousandths generator filter 7 filter-Ready
      (λ seed. (record { pose = record { x = 0; y = 0; theta = 0 }; weight = 250 }, refl, refl))

-- A sensor model that finds a total of 1 and changes nothing.
abbrev sensor : SampleSet ℕ → ℕ × SampleSet ℕ
sensor set = (1000, set)

abbrev allocation : Filter ℕ
allocation = alloc_filter thousandths 2 4 1 100 10

allocation-Reach : Reach thousandths generator allocation
allocation-Reach = allocated 2 4 1 100 10 (omega arith) (omega arith)

allocation-Initialised :
    Initialised thousandths generator allocation (init_model thousandths generator allocation 7)
allocation-Initialised =
    init_model-Initialised thousandths generator allocation 7
      (alloc_filter-Ready thousandths 2 4 1 100 10 (omega arith) (omega arith))

-- The allocation, its initialisation and one use of the sensor.
Reach-Sized_example :
    Sized thousandths generator (update_sensor thousandths sensor allocation-Initialised.out)
Reach-Sized_example =
    Reach-Sized thousandths generator (update_sensor thousandths sensor allocation-Initialised.out)
      (weighed allocation-Initialised.out sensor
        (initialised allocation allocation-Initialised.out 7 allocation-Initialised.seed
          allocation-Reach allocation-Initialised.returns)
        (record { count = λ set. refl; tables = λ n set h. h }))
