-- ===== src/Queue/Order.antt =====
-- The comparisons of priorities, which are doubles, as a parameter. The laws hold of the distances that
-- are used as priorities: none of them is NaN, and 0.0 and -0.0 are one value.
use navigation_learning.Prelude.{◌≡◌, Bool, true, false, arith}

pub record Order (D : Type 0) : Type 0 where
  pub lt : D → D → Bool
  pub eq : D → D → Bool

pub record OrderLaws {D : Type 0} (o : Order D) : Type 0 where
  pub lt_irrefl : (a : D) → o.lt a a ≡ false
  pub lt_trans : (a b c : D) → o.lt a b ≡ true → o.lt b c ≡ true → o.lt a c ≡ true
  pub eq_refl : (a : D) → o.eq a a ≡ true
  pub eq_sound : (a b : D) → o.eq a b ≡ true → a ≡ b
  pub total : (a b : D) → o.eq a b ≡ false → o.lt a b ≡ false → o.lt b a ≡ true

module _ {D : Type 0} (o : Order D) (laws : OrderLaws o) where
  pub lt_asym : (a b : D) → o.lt a b ≡ true → o.lt b a ≡ false
  lt_asym a b h = ground (arith, laws.lt_trans a b a, laws.lt_irrefl a)

  pub lt_ne : (a b : D) → o.lt a b ≡ true → o.eq a b ≡ false
  lt_ne a b h = ground (arith, laws.eq_sound a b, laws.lt_irrefl a)
