-- ===== src/Critics/LineIterator.antt =====
-- `LineIterator` of
-- navigation2/nav2_dwb_controller/dwb_critics/include/dwb_critics/line_iterator.hpp. Coordinates are
-- integers; the differences, the numerator and the counters are never negative, so they are natural
-- numbers. Every member is an `int`: `none` is a computation that leaves its range, which the language
-- leaves undefined.
pub mod Rounding
pub mod Path
pub mod Range
mod Tests
use package.navigation_learning.Prelude.{
  ℕ, zero, suc, ◌+◌, ◌-◌, ◌/◌, Bool, not, ◌&&◌, Option, none, some, ltb, leb, if◌then◌else◌,
}
use package.navigation_learning.Prelude.Int.{
  ℤ, pos, negsuc, pos_part, neg_part, ◌+ℤ◌, ◌-ℤ◌, abs_ℤ, leb_ℤ,
}

pub record LineIterator : Type 0 where
  pub x0 : ℤ
  pub y0 : ℤ
  pub x1 : ℤ
  pub y1 : ℤ
  pub x : ℤ
  pub y : ℤ
  pub deltax : ℕ
  pub deltay : ℕ
  pub curpixel : ℕ
  pub xinc1 : ℤ
  pub xinc2 : ℤ
  pub yinc1 : ℤ
  pub yinc2 : ℤ
  pub den : ℕ
  pub num : ℕ
  pub numadd : ℕ
  pub numpixels : ℕ

-- 1 towards greater values, -1 towards smaller ones.
abbrev pub direction : ℤ → ℤ → ℤ
direction from to = if leb_ℤ from to then pos 1 else negsuc 0

-- The constructor, for a line with more rows than columns and for any other.
abbrev pub new_along : Bool → ℤ → ℤ → ℤ → ℤ → LineIterator
new_along steep x0 y0 x1 y1 =
    let deltax = abs_ℤ (x1 -ℤ x0) in
    let deltay = abs_ℤ (y1 -ℤ y0) in
    record {
      x0 = x0;
      y0 = y0;
      x1 = x1;
      y1 = y1;
      x = x0;
      y = y0;
      deltax = deltax;
      deltay = deltay;
      curpixel = 0;
      xinc1 = if steep then direction x0 x1 else pos 0;
      xinc2 = if steep then pos 0 else direction x0 x1;
      yinc1 = if steep then pos 0 else direction y0 y1;
      yinc2 = if steep then direction y0 y1 else pos 0;
      den = if steep then deltay else deltax;
      num = (if steep then deltay else deltax) / 2;
      numadd = if steep then deltax else deltay;
      numpixels = if steep then deltay else deltax;
    }

-- Whether a value is an `int`.
abbrev pub is_int : ℤ → Bool
is_int a = leb (pos_part a) 2147483647 && leb (neg_part a) 2147483648

abbrev pub line_of : ℤ → ℤ → ℤ → ℤ → LineIterator
line_of x0 y0 x1 y1 = new_along (not (leb (abs_ℤ (y1 -ℤ y0)) (abs_ℤ (x1 -ℤ x0)))) x0 y0 x1 y1

-- The constructor; `abs` of a difference has to be an `int` as well.
unfoldable pub new : ℤ → ℤ → ℤ → ℤ → Option LineIterator
new x0 y0 x1 y1 =
    if ltb (abs_ℤ (x1 -ℤ x0)) 2147483648 && ltb (abs_ℤ (y1 -ℤ y0)) 2147483648
    then some (line_of x0 y0 x1 y1)
    else none

abbrev pub is_valid : LineIterator → Bool
is_valid it = leb it.curpixel it.numpixels

-- The assignments of `advance`, in the source's two parts: the numerator with the step it may cause,
-- and the step that every call makes.
abbrev pub carry : LineIterator → LineIterator
carry it =
    if leb it.den it.num
    then record it { num = it.num - it.den; x = it.x +ℤ it.xinc1; y = it.y +ℤ it.yinc1 }
    else it

abbrev pub step : LineIterator → LineIterator
step it =
    let c = carry (record it { num = it.num + it.numadd }) in
    record c { x = c.x +ℤ c.xinc2; y = c.y +ℤ c.yinc2; curpixel = suc c.curpixel }

-- `advance`. One of the two increments of a coordinate is 0, so that the last value of each tells
-- whether a sum left the range.
unfoldable pub advance : LineIterator → Option LineIterator
advance it =
    let next = step it in
    if ltb (it.num + it.numadd) 2147483648
      && is_int next.x
      && is_int next.y
      && ltb next.curpixel 2147483648
    then some next
    else none

-- The iterator after a number of calls of `advance`.
unfoldable pub advances : ℕ → Option LineIterator → Option LineIterator
advances zero o = o
advances (suc n) o = elim (advances n o) [ none ↦ none | some it ↦ advance it ]
