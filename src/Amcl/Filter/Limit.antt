-- ===== src/Amcl/Filter/Limit.antt =====
-- pf_resample_limit of pf.c.
use navigation_learning.Prelude.{ℕ, ◌≤◌, arith}
use navigation_learning.Prelude.Int.{pos, ◌≤ℤ◌}
use navigation_learning.Amcl.Filter.{Math, Filter, resample_limit}

module _ {D : Type 0} (f : Math D) where
  -- Whatever the arithmetic gives, the limit is neither below min_samples nor above max_samples.
  pub resample_limit-bounds :
      (pf : Filter D) (k : ℕ)
      → pf.min_samples ≤ pf.max_samples
      → (pos pf.min_samples ≤ℤ resample_limit f pf k)
        × (resample_limit f pf k ≤ℤ pos pf.max_samples)
  unfolding resample_limit
  resample_limit-bounds pf k h = ground arith
