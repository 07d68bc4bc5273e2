-- ===== src/Costmap/Extent/Cover.antt =====
-- The box after the extra bounds are used covers what each side covered.
use navigation_learning.Prelude.{◌≡◌, refl, ◌⊎◌, inl, inr, true, false, arith}
use navigation_learning.Costmap.Doubles.{Doubles, min_D, max_D}
use navigation_learning.Costmap.Extent.{Box, ExtraBounds, join, add_extra_bounds, use_extra_bounds}

-- What is relied on of `<`: it is transitive, in the form that a minimum needs. NaN is excluded.
pub record OrderLaws {D : Type 0} (d : Doubles D) : Type 0 where
  pub asym : (a b : D) → d.lt a b ≡ true → d.lt b a ≡ false
  pub cotrans : (a b c : D) → d.lt a c ≡ true → d.lt a b ≡ false → d.lt b c ≡ true

-- A point is not outside the box.
pub record Covers {D : Type 0} (d : Doubles D) (b : Box D) (x y : D) : Type 0 where
  pub left : d.lt x b.min_x ≡ false
  pub low : d.lt y b.min_y ≡ false
  pub right : d.lt b.max_x x ≡ false
  pub high : d.lt b.max_y y ≡ false

module _ {D : Type 0} (d : Doubles D) (laws : OrderLaws d) (far near : D) where
  min-first : (a b x : D) → d.lt x a ≡ false → d.lt x (min_D d a b) ≡ false
  min-first a b x h = ground (arith, laws.cotrans x a b, laws.asym b a)

  min-second : (a b x : D) → d.lt x b ≡ false → d.lt x (min_D d a b) ≡ false
  min-second a b x h = ground (arith, laws.cotrans x b a)

  max-first : (a b x : D) → d.lt a x ≡ false → d.lt (max_D d a b) x ≡ false
  max-first a b x h = ground (arith, laws.cotrans b a x, laws.asym a b)

  max-second : (a b x : D) → d.lt b x ≡ false → d.lt (max_D d a b) x ≡ false
  max-second a b x h = ground (arith, laws.cotrans a b x)

  join-first : (a b : Box D) (x y : D) → Covers d a x y → Covers d (join d far near a b) x y
  join-first a b x y c = record {
    left = min-first a.min_x b.min_x x c.left;
    low = min-first a.min_y b.min_y y c.low;
    right = max-first a.max_x b.max_x x c.right;
    high = max-first a.max_y b.max_y y c.high;
  }

  join-second : (a b : Box D) (x y : D) → Covers d b x y → Covers d (join d far near a b) x y
  join-second a b x y c = record {
    left = min-second a.min_x b.min_x x c.left;
    low = min-second a.min_y b.min_y y c.low;
    right = max-second a.max_x b.max_x x c.right;
    high = max-second a.max_y b.max_y y c.high;
  }

  -- The box of an update, after extra bounds were added to those that wait and all are used, covers
  -- every point that the box, the waiting bounds or the added bounds covered. They are used up: a
  -- second use leaves any box as it is.
  pub extra_bounds-Covers :
      (b added other : Box D) (e : ExtraBounds D) (x y : D)
      → Covers d b x y ⊎ Covers d e.box x y ⊎ Covers d added x y
      → let e' = add_extra_bounds d far near added.min_x added.min_y added.max_x added.max_y e in
        Covers d ((use_extra_bounds d far near b e').0) x y
        × (use_extra_bounds d far near other ((use_extra_bounds d far near b e').1)
            ≡ (other, (use_extra_bounds d far near b e').1))
  unfolding add_extra_bounds use_extra_bounds
  extra_bounds-Covers b added other e x y c = (covers c, refl)
    where
      all : Box D
      all = join d far near added e.box

      covers :
          Covers d b x y ⊎ Covers d e.box x y ⊎ Covers d added x y
          → Covers d (join d far near all b) x y
      covers (inl h) = join-second all b x y h
      covers (inr (inl h)) = join-first all b x y (join-second added e.box x y h)
      covers (inr (inr h)) = join-first all b x y (join-first added e.box x y h)
