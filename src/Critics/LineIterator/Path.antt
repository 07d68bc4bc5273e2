-- ===== src/Critics/LineIterator/Path.antt =====
-- Where the iterator stands after each step, with the members taken as unlimited.
use navigation_learning.Prelude.{
  ℕ, zero, suc, ◌+◌, ◌-◌, ◌*◌, ◌/◌, ◌≤◌, ◌<◌, max, ◌≡◌, refl, sym, ap, ◌∙◌, inl, inr, Bool, true,
  false, arith, leb, if◌then◌else◌, leb→le, Bool-cases,
}
use navigation_learning.Prelude.Int.{ℤ, pos, ◌+ℤ◌, ◌-ℤ◌, abs_ℤ, leb_ℤ, int_laws}
use mathlib.Core.Path.{subst}
use navigation_learning.Critics.LineIterator.Rounding.{
  Rounded, carried, kept, rounded_le, rounded_end, rounded_near,
}
use navigation_learning.Critics.LineIterator.{
  LineIterator, direction, new_along, line_of, is_valid, step,
}

abbrev pub steps : ℕ → LineIterator → LineIterator
steps zero it = it
steps (suc n) it = step (steps n it)

-- `n` cells from one coordinate in the direction of another.
unfoldable pub toward : ℤ → ℤ → ℕ → ℤ
toward from to n = if leb_ℤ from to then from +ℤ pos n else from -ℤ pos n

pub toward_next : (a b : ℤ) (n : ℕ) → toward a b n +ℤ direction a b ≡ toward a b (suc n)
unfolding toward
toward_next a b n = grind int_laws

toward_stay : (a b : ℤ) (n : ℕ) → toward a b n +ℤ pos 0 ≡ toward a b n
toward_stay a b n = grind int_laws

pub toward_start : (a b : ℤ) → toward a b 0 ≡ a
unfolding toward
toward_start a b = grind int_laws

pub toward_end : (a b : ℤ) → toward a b (abs_ℤ (b -ℤ a)) ≡ b
unfolding toward
toward_end a b = grind int_laws

reaches : (a b : ℤ) (n : ℕ) → n ≡ abs_ℤ (b -ℤ a) → toward a b n ≡ b
reaches a b n e = ap (toward a b) e ∙ toward_end a b

module _ (x0 y0 x1 y1 : ℤ) where
  -- The iterator after `k` calls with `s` steps along the other axis; the line may be steep.
  abbrev pub placed : Bool → ℕ → ℕ → ℕ → LineIterator
  placed steep k s n = record (new_along steep x0 y0 x1 y1) {
    x = toward x0 x1 (if steep then s else k);
    y = toward y0 y1 (if steep then k else s);
    num = n;
    curpixel = k;
  }

  abbrev pub whole : Bool → ℕ
  whole steep = (new_along steep x0 y0 x1 y1).den

  abbrev pub part : Bool → ℕ
  part steep = (new_along steep x0 y0 x1 y1).numadd

  pub placed_carries :
      (steep : Bool) (k s n : ℕ)
      → leb (whole steep) (n + part steep) ≡ true
      → step (placed steep k s n) ≡ placed steep (suc k) (suc s) (n + part steep - whole steep)
  placed_carries true k s n up =
      rw
        (
          up,
          toward_next x0 x1 s,
          toward_stay x0 x1 (suc s),
          toward_stay y0 y1 k,
          toward_next y0 y1 k,
        )
        refl
  placed_carries false k s n up =
      rw
        (
          up,
          toward_stay x0 x1 k,
          toward_next x0 x1 k,
          toward_next y0 y1 s,
          toward_stay y0 y1 (suc s),
        )
        refl

  pub placed_stays :
      (steep : Bool) (k s n : ℕ)
      → leb (whole steep) (n + part steep) ≡ false
      → step (placed steep k s n) ≡ placed steep (suc k) s (n + part steep)
  placed_stays true k s n stay = rw (stay, toward_stay x0 x1 s, toward_next y0 y1 k) refl
  placed_stays false k s n stay = rw (stay, toward_next x0 x1 k, toward_stay y0 y1 s) refl

  -- The iterator after `k` calls, and the rounding that places it.
  record Trail (steep : Bool) (k : ℕ) : Type 0 where
    side : ℕ
    left : ℕ
    rounded : Rounded (whole steep) (part steep) k side left
    place : steps k (new_along steep x0 y0 x1 y1) ≡ placed steep k side left

  pub trail_start :
      (steep : Bool) → new_along steep x0 y0 x1 y1 ≡ placed steep 0 0 (whole steep / 2)
  trail_start true = rw (toward_start x0 x1, toward_start y0 y1) refl
  trail_start false = rw (toward_start x0 x1, toward_start y0 y1) refl

  trail : (steep : Bool) (k : ℕ) → part steep ≤ whole steep → k ≤ whole steep → Trail steep k
  trail steep zero le within = record {
    side = 0;
    left = whole steep / 2;
    rounded = record { split = omega arith; small = omega arith; slow = omega arith };
    place = trail_start steep;
  }
  trail steep (suc k) le within =
      let t = trail steep k le (omega arith) in
      elim (Bool-cases (leb (whole steep) (t.left + part steep))) [
        | inl up ↦ record {
          side = suc t.side;
          left = t.left + part steep - whole steep;
          rounded = carried (whole steep) (part steep) k t.side t.left le within up t.rounded;
          place = ap step t.place ∙ placed_carries steep k t.side t.left up;
        }
        | inr stay ↦ record {
          side = t.side;
          left = t.left + part steep;
          rounded = kept (whole steep) (part steep) k t.side t.left stay t.rounded;
          place = ap step t.place ∙ placed_stays steep k t.side t.left stay;
        }
      ]

-- The iterator is `sx` columns and `sy` rows away from the first end, no further than the second end
-- is, and within half a cell of the line through the ends.
pub record OnLine (x0 y0 x1 y1 : ℤ) (k : ℕ) (it : LineIterator) : Type 0 where
  pub sx : ℕ
  pub sy : ℕ
  pub x_at : it.x ≡ toward x0 x1 sx
  pub y_at : it.y ≡ toward y0 y1 sy
  pub x_within : sx ≤ abs_ℤ (x1 -ℤ x0)
  pub y_within : sy ≤ abs_ℤ (y1 -ℤ y0)
  pub longer : max sx sy ≡ k
  pub above :
      2 * (abs_ℤ (x1 -ℤ x0) * sy)
      ≤ 2 * (abs_ℤ (y1 -ℤ y0) * sx) + max (abs_ℤ (x1 -ℤ x0)) (abs_ℤ (y1 -ℤ y0))
  pub below :
      2 * (abs_ℤ (y1 -ℤ y0) * sx)
      ≤ 2 * (abs_ℤ (x1 -ℤ x0) * sy) + max (abs_ℤ (x1 -ℤ x0)) (abs_ℤ (y1 -ℤ y0))
  pub end : k ≡ max (abs_ℤ (x1 -ℤ x0)) (abs_ℤ (y1 -ℤ y0)) → (it.x ≡ x1) × (it.y ≡ y1)
  pub valid : is_valid it ≡ true
  pub pixel : it.curpixel ≡ k
  pub counter : it.num + it.numadd ≤ abs_ℤ (x1 -ℤ x0) + abs_ℤ (y1 -ℤ y0)

steps_steep-OnLine :
    (x0 y0 x1 y1 : ℤ) (k : ℕ)
    → abs_ℤ (x1 -ℤ x0) < abs_ℤ (y1 -ℤ y0)
    → k ≤ abs_ℤ (y1 -ℤ y0)
    → OnLine x0 y0 x1 y1 k (steps k (new_along true x0 y0 x1 y1))
steps_steep-OnLine x0 y0 x1 y1 k e h =
    let t = trail x0 y0 x1 y1 true k (omega (arith, e)) h in
    let near = rounded_near _ _ k t.side t.left h t.rounded in
    subst (OnLine x0 y0 x1 y1 k) (sym t.place) record {
      sx = t.side;
      sy = k;
      x_at = refl;
      y_at = refl;
      x_within = rounded_le _ _ k t.side t.left h t.rounded;
      y_within = h;
      longer = omega (arith, t.rounded.slow);
      above = omega (arith, near, e);
      below = omega (arith, near, e);
      end = λ q. (
        reaches x0 x1 t.side
            (rounded_end _ _ k t.side t.left (omega (arith, q, e)) (omega (arith, e)) t.rounded),
        reaches y0 y1 k (omega (arith, q, e)),
      );
      valid = ground (arith, h);
      pixel = refl;
      counter = omega (arith, e, t.rounded.small);
    }

steps_flat-OnLine :
    (x0 y0 x1 y1 : ℤ) (k : ℕ)
    → abs_ℤ (y1 -ℤ y0) ≤ abs_ℤ (x1 -ℤ x0)
    → k ≤ abs_ℤ (x1 -ℤ x0)
    → OnLine x0 y0 x1 y1 k (steps k (new_along false x0 y0 x1 y1))
steps_flat-OnLine x0 y0 x1 y1 k e h =
    let t = trail x0 y0 x1 y1 false k e h in
    let near = rounded_near _ _ k t.side t.left h t.rounded in
    subst (OnLine x0 y0 x1 y1 k) (sym t.place) record {
      sx = k;
      sy = t.side;
      x_at = refl;
      y_at = refl;
      x_within = h;
      y_within = rounded_le _ _ k t.side t.left h t.rounded;
      longer = omega (arith, t.rounded.slow);
      above = omega (arith, near, e);
      below = omega (arith, near, e);
      end = λ q. (
        reaches x0 x1 k (omega (arith, q, e)),
        reaches y0 y1 t.side (rounded_end _ _ k t.side t.left (omega (arith, q, e)) e t.rounded),
      );
      valid = ground (arith, h);
      pixel = refl;
      counter = omega (arith, e, t.rounded.small);
    }

pub steps-OnLine :
    (x0 y0 x1 y1 : ℤ) (k : ℕ)
    → k ≤ max (abs_ℤ (x1 -ℤ x0)) (abs_ℤ (y1 -ℤ y0))
    → OnLine x0 y0 x1 y1 k (steps k (line_of x0 y0 x1 y1))
steps-OnLine x0 y0 x1 y1 k h = elim (Bool-cases (leb (abs_ℤ (y1 -ℤ y0)) (abs_ℤ (x1 -ℤ x0)))) [
  | inl flat ↦
      rw flat (steps_flat-OnLine x0 y0 x1 y1 k (leb→le _ _ flat) (omega (arith, leb→le _ _ flat)))
  | inr steep ↦
      let lt = not_leb _ _ steep in
      rw steep (steps_steep-OnLine x0 y0 x1 y1 k lt (omega (arith, lt)))
]
  where
    not_leb : (a b : ℕ) → leb a b ≡ false → b < a
    not_leb a b e = ground arith
