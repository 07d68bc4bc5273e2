-- ===== src/Amcl/KdTree/Pivot.antt =====
-- The keys of pf_kdtree.c and the pivot that parts two of them.
use navigation_learning.Prelude.{
  ℕ, ◌≤◌, ◌<◌, ◌≡◌, refl, true, false, not, Option, none, some, arith, ==_iff,
}
use navigation_learning.Prelude.Int.{ℤ, abs_ℤ, ltb_ℤ, ◌+ℤ◌, -ℤ_parts, +ℤ_parts, eq_of_parts, ◌-ℤ◌}
use navigation_learning.Amcl.KdTree.{
  Key, widest_step, key_equal, eqb_ℤ, component, pivot_dim, below,
}

pub key_equal_refl : (k : Key) → key_equal k k ≡ true
unfolding key_equal
key_equal_refl k = ground arith

eqb_ℤ-eq : (a b : ℤ) → eqb_ℤ a b ≡ true → a ≡ b
eqb_ℤ-eq a b h = eq_of_parts a b ((==_iff _ _).0 h)

pub key_equal-eq : (a b : Key) → key_equal a b ≡ true → a ≡ b
unfolding key_equal
key_equal-eq a b h = ground (arith, eqb_ℤ-eq a.x b.x, eqb_ℤ-eq a.y b.y, eqb_ℤ-eq a.theta b.theta)

-- Two keys that differ are on the two sides of the pivot.
pub record Parted (a b : Key) : Type 0 where
  pub dim : ℕ
  pub chosen : pivot_dim a b ≡ some dim
  pub apart :
      below dim (component dim a +ℤ component dim b) b
      ≡ not (below dim (component dim a +ℤ component dim b) a)

parts-below :
    (a b : ℤ)
    → (leaf_differs : eqb_ℤ a b ≡ false) → ltb_ℤ (b +ℤ b) (a +ℤ b) ≡ not (ltb_ℤ (a +ℤ a) (a +ℤ b))
parts-below a b h = ground (arith, +ℤ_parts a b, +ℤ_parts a a, +ℤ_parts b b)

-- With the dimension, whatever it is, in which the keys differ.
chosen-Parted :
    (a b : Key) (dim : ℕ)
    → pivot_dim a b ≡ some dim
    → eqb_ℤ (component dim a) (component dim b) ≡ false
    → Parted a b
unfolding below
chosen-Parted a b dim c h = record {
  dim = dim;
  chosen = c;
  apart = parts-below (component dim a) (component dim b) h;
}

abbrev difference : Key → Key → ℕ → ℕ
difference a b i = abs_ℤ (component i a -ℤ component i b)

-- The dimension that is chosen, if one is, has a difference; if none is, the largest is 0.
abbrev Seen : Key → Key → ℕ × Option ℕ → Type 0
Seen a b (m, none) = m ≡ 0
Seen a b (m, some d) = 0 < difference a b d

Seen-widest_step :
    (a b : Key) (i : ℕ) (best : ℕ × Option ℕ)
    → Seen a b best
    → let next = widest_step a b i best in
      Seen a b next × (difference a b i ≤ next.0) × (best.0 ≤ next.0)
Seen-widest_step a b i (m, none) s = ground arith
Seen-widest_step a b i (m, some d) s = ground arith

-- Differences of 0 are an equal component, and the other way round.
difference-differs : (a b : ℤ) → 0 < abs_ℤ (a -ℤ b) → eqb_ℤ a b ≡ false
difference-differs a b h = ground (arith, -ℤ_parts a b)

difference-same : (a b : ℤ) → abs_ℤ (a -ℤ b) ≤ 0 → eqb_ℤ a b ≡ true
difference-same a b h = ground (arith, -ℤ_parts a b)

all_same :
    (a b : Key)
    → difference a b 0 ≤ 0
    → difference a b 1 ≤ 0
    → difference a b 2 ≤ 0
    → key_equal a b ≡ true
unfolding key_equal
all_same a b p q r =
    rw (difference-same a.x b.x p, difference-same a.y b.y q, difference-same a.theta b.theta r)

-- Two keys that are not equal have a dimension in which they differ, and it is chosen.
pivot_dim-differs :
    (a b : Key)
    → key_equal a b ≡ false
    → (dim : ℕ) × (pivot_dim a b ≡ some dim) × (eqb_ℤ (component dim a) (component dim b) ≡ false)
unfolding pivot_dim
pivot_dim-differs a b h =
    let start : ℕ × Option ℕ = (0, none) in
    let one = Seen-widest_step a b 0 start refl in
    let two = Seen-widest_step a b 1 (widest_step a b 0 start) (one.0) in
    let three = Seen-widest_step a b 2 (widest_step a b 1 (widest_step a b 0 start)) (two.0) in
    chosen a b h (widest_step a b 2 (widest_step a b 1 (widest_step a b 0 start))) (three.0)
      (omega (arith, one, two, three)) (omega (arith, one, two, three))
      (omega (arith, one, two, three))
  where
    chosen :
        (a b : Key)
        → key_equal a b ≡ false
        → (best : ℕ × Option ℕ) → Seen a b best
        → difference a b 0 ≤ best.0
        → difference a b 1 ≤ best.0
        → difference a b 2 ≤ best.0
        → (dim : ℕ) × (best.1 ≡ some dim) × (eqb_ℤ (component dim a) (component dim b) ≡ false)
    chosen a b h (m, none) s p q r = absurd (ground (arith, all_same a b))
    chosen a b h (m, some d) s p q r =
        (d, refl, difference-differs (component d a) (component d b) s)

pub pivot_dim-Parted : (a b : Key) → key_equal a b ≡ false → Parted a b
pivot_dim-Parted a b h = let r = pivot_dim-differs a b h in chosen-Parted a b (r.0) (r.1) (r.2)
