-- ===== src/Critics/LineIterator/Range.antt =====
-- The iterator's members stay in the range of `int`.
use navigation_learning.Prelude.{
  ℕ, zero, suc, ◌+◌, ◌≤◌, ◌<◌, max, ◌≡◌, refl, true, Option, some, arith, lt→ltb,
}
use navigation_learning.Prelude.Int.{ℤ, ◌+ℤ◌, ◌-ℤ◌, abs_ℤ, pos_part, neg_part}
use navigation_learning.Critics.LineIterator.{LineIterator, is_int, line_of, new, advance, advances}
use navigation_learning.Critics.LineIterator.Path.{toward, steps, OnLine, steps-OnLine}

-- The ends of a line have coordinates in the range of `int`, and so has the sum of their distances
-- along the two axes.
pub record Fits (x0 y0 x1 y1 : ℤ) : Type 0 where
  pub x0_fits : abs_ℤ x0 < 2147483648
  pub y0_fits : abs_ℤ y0 < 2147483648
  pub x1_fits : abs_ℤ x1 < 2147483648
  pub y1_fits : abs_ℤ y1 < 2147483648
  pub distances : abs_ℤ (x1 -ℤ x0) + abs_ℤ (y1 -ℤ y0) < 2147483648

toward_parts :
    (a b : ℤ) (n : ℕ)
    → n ≤ abs_ℤ (b -ℤ a)
    → abs_ℤ a < 2147483648
    → abs_ℤ b < 2147483648
    → (pos_part (toward a b n) ≤ 2147483647) × (neg_part (toward a b n) ≤ 2147483647)
unfolding toward ◌+ℤ◌ ◌-ℤ◌
toward_parts a b n h p q = ground arith

is_int_lem :
    (z a b : ℤ) (n : ℕ)
    → z ≡ toward a b n
    → n ≤ abs_ℤ (b -ℤ a)
    → abs_ℤ a < 2147483648
    → abs_ℤ b < 2147483648
    → is_int z ≡ true
is_int_lem z a b n e h p q = let parts = toward_parts a b n h p q in rw e (ground (arith, parts))

module _ (x0 y0 x1 y1 : ℤ) (fits : Fits x0 y0 x1 y1) where
  abbrev longest : ℕ
  longest = max (abs_ℤ (x1 -ℤ x0)) (abs_ℤ (y1 -ℤ y0))

  pub new_fits : new x0 y0 x1 y1 ≡ some (line_of x0 y0 x1 y1)
  unfolding new
  new_fits =
      rw
        (
          lt→ltb (abs_ℤ (x1 -ℤ x0)) 2147483648 (omega (arith, fits.distances)),
          lt→ltb (abs_ℤ (y1 -ℤ y0)) 2147483648 (omega (arith, fits.distances)),
        )
        refl

  pub advance_fits :
      (k : ℕ)
      → suc k ≤ longest
      → advance (steps k (line_of x0 y0 x1 y1)) ≡ some (steps (suc k) (line_of x0 y0 x1 y1))
  unfolding advance
  advance_fits k h =
      let now = steps-OnLine x0 y0 x1 y1 k (omega (arith, h)) in
      let next = steps-OnLine x0 y0 x1 y1 (suc k) h in
      let it = steps k (line_of x0 y0 x1 y1) in
      let after = steps (suc k) (line_of x0 y0 x1 y1) in
      rw
        (
          lt→ltb (it.num + it.numadd) 2147483648 (omega (arith, now.counter, fits.distances)),
          is_int_lem after.x x0 x1 next.sx next.x_at next.x_within fits.x0_fits fits.x1_fits,
          is_int_lem after.y y0 y1 next.sy next.y_at next.y_within fits.y0_fits fits.y1_fits,
          lt→ltb after.curpixel 2147483648 (omega (arith, next.pixel, h, fits.distances)),
        )
        refl

  pub advances_fits :
      (k : ℕ) → k ≤ longest → advances k (new x0 y0 x1 y1) ≡ some (steps k (line_of x0 y0 x1 y1))
  unfolding advances
  advances_fits zero h = new_fits
  advances_fits (suc k) h = rw (advances_fits k (omega (arith, h))) (advance_fits k h)

-- The iterator that calls of `advance` give, on the line.
pub record Reached (x0 y0 x1 y1 : ℤ) (k : ℕ) (o : Option LineIterator) : Type 0 where
  pub it : LineIterator
  pub returns : o ≡ some it
  pub on_line : OnLine x0 y0 x1 y1 k it

-- Take a line whose ends have coordinates of absolute value below 2^31, with the sum of the distances
-- of its ends along the two axes below 2^31 as well. For `k` up to the greater of the distances, no
-- `int` overflows in the constructor and `k` calls of `advance`, and the iterator is still valid after
-- them. It stands `sx` columns and `sy` rows from the first end in the direction of the second and no
-- further than it, where the greater of `sx` and `sy` is `k`, and it is within half a cell of the exact
-- line. With the last of these `k` it stands on the second end.
pub advances-OnLine :
    (x0 y0 x1 y1 : ℤ) (k : ℕ)
    → Fits x0 y0 x1 y1
    → k ≤ max (abs_ℤ (x1 -ℤ x0)) (abs_ℤ (y1 -ℤ y0))
    → Reached x0 y0 x1 y1 k (advances k (new x0 y0 x1 y1))
advances-OnLine x0 y0 x1 y1 k fits h = record {
  it = steps k (line_of x0 y0 x1 y1);
  returns = advances_fits x0 y0 x1 y1 fits k h;
  on_line = steps-OnLine x0 y0 x1 y1 k h;
}
