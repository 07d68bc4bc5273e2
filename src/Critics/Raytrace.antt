-- ===== src/Critics/Raytrace.antt =====
-- The two walks along a line: `raytraceLine` of the costmap
-- (navigation2/nav2_costmap_2d/include/nav2_costmap_2d/costmap_2d.hpp), on array offsets, and
-- `LineIterator` of the critics, on coordinates.
pub mod Offsets
mod Tests
use mathlib.Core.Option.{map as map_option}
use navigation_learning.Prelude.{
  ℕ, zero, suc, ◌+◌, ◌-◌, ◌*◌, ◌/◌, ◌≤◌, ◌<◌, min, max, ◌≡◌, refl, sym, ap, ◌∙◌, ◌⊎◌, inl, inr,
  Bool, true, false, not, List, Option, none, some, [], ◌∷◌, map, arith, u32, leb, ◌==◌, leb→le,
  Bool-cases, length, set,
}
use navigation_learning.Prelude.Int.{
  ℤ, pos, negsuc, pos_part, neg_part, ◌+ℤ◌, ◌-ℤ◌, abs_ℤ, leb_ℤ, sub_ℕ,
}
use navigation_learning.Costmap.Doubles.{Doubles, to_u32, to_i32}
use navigation_learning.Costmap.Grid.{index_in}
use navigation_learning.Costmap.Raytrace.{sign, bresenham, limit, raytrace_line}
use navigation_learning.Critics.LineIterator.{
  LineIterator, direction, new_along, line_of, new, advance,
}
use navigation_learning.Critics.LineIterator.Path.{
  steps, toward, toward_next, placed, whole, part, placed_carries, placed_stays, trail_start,
  toward_start,
}
use navigation_learning.Critics.LineIterator.Range
use navigation_learning.Critics.LineIterator.Range.{new_fits, advance_fits}
use package.navigation_learning.Critics.Raytrace.Offsets.{
  cells, index_of, along, cell, Fits, walk_lem,
}

-- A difference of two cells that fit an `int`, and its sign.
difference_lem :
    (a b : ℕ) → a < 2147483648 → b < 2147483648 → to_i32 (u32 (b + 4294967296 - a)) ≡ pos b -ℤ pos a
unfolding ◌-ℤ◌
difference_lem a b p q = ground arith

sign_lem :
    (a b : ℕ) → (sign (pos b -ℤ pos a) ≡ direction (pos a) (pos b)) ⊎ (abs_ℤ (pos b -ℤ pos a) ≡ 0)
unfolding ◌-ℤ◌
sign_lem a b = elim (Bool-cases (a == b)) [
  | inl e ↦ inr (ground arith)
  | inr e ↦ inl (ground arith)
]

module _ (w x0 y0 x1 y1 : ℕ) where
  abbrev dx : ℤ
  dx = pos x1 -ℤ pos x0

  abbrev dy : ℤ
  dy = pos y1 -ℤ pos y0

  abbrev walk : Bool → LineIterator
  walk steep = new_along steep (pos x0) (pos y0) (pos x1) (pos y1)

  abbrev offset_of : Bool → ℕ
  offset_of true = u32 (to_u32 (sign dy) * w)
  offset_of false = to_u32 (sign dx)

  agree :
      (steep : Bool)
      → (offset_of steep ≡ along w (pos x0) (pos y0) (pos x1) (pos y1) steep)
        ⊎ ((walk steep).den ≡ 0)
  agree true = elim (sign_lem y0 y1) [
    | inl e ↦ inl (ap (λ t. u32 (to_u32 t * w)) e)
    | inr e ↦ inr e
  ]
  agree false = elim (sign_lem x0 x1) [ inl e ↦ inl (ap to_u32 e) | inr e ↦ inr e ]

  agree_minor :
      (steep : Bool)
      → (offset_of (not steep) ≡ along w (pos x0) (pos y0) (pos x1) (pos y1) (not steep))
        ⊎ ((walk steep).numadd ≡ 0)
  agree_minor true = agree false
  agree_minor false = agree true

  module _ (px : x0 < 4294967296) (py : y0 < 4294967296) where
    same_index : index_in w x0 y0 ≡ index_of w (pos x0, pos y0)
    same_index =
        ap (λ t. index_in w t y0) (omega arith) ∙ ap (λ t. index_in w (u32 x0) t) (omega arith)

    start_lem :
        (steep : Bool) → index_in w x0 y0 ≡ cell w (pos x0) (pos y0) (pos x1) (pos y1) steep 0 0
    start_lem true = rw (toward_start (pos x0) (pos x1), toward_start (pos y0) (pos y1)) same_index
    start_lem false = rw (toward_start (pos x0) (pos x1), toward_start (pos y0) (pos y1)) same_index

    line_lem :
        (steep : Bool) (n : ℕ)
        → n ≤ (walk steep).den
        → bresenham n
            (walk steep).den
            (walk steep).numadd
            ((walk steep).den / 2)
            (offset_of steep)
            (offset_of (not steep))
            (index_in w x0 y0)
          ≡ map (index_of w) (cells (suc n) (walk steep))
    line_lem steep zero h = unfold bresenham in ap (λ t. t ∷ []) same_index
    line_lem steep (suc n) h =
        let da = (walk steep).den in
        let db = (walk steep).numadd in
        elim (agree steep) [
          | inl e ↦
              ap
                (λ t. bresenham (suc n) da db (da / 2) t (offset_of (not steep)) (index_in w x0 y0))
                e
              ∙ ap
                  (bresenham (suc n) da db (da / 2)
                    (along w (pos x0) (pos y0) (pos x1) (pos y1) steep) (offset_of (not steep)))
                  (start_lem steep)
              ∙ walk_lem w (pos x0) (pos y0) (pos x1) (pos y1) (suc n) steep 0 0 (da / 2)
                  (offset_of (not steep)) (minor_fits h (agree_minor steep))
              ∙ ap (λ it. map (index_of w) (cells (suc (suc n)) it))
                  (sym (trail_start (pos x0) (pos y0) (pos x1) (pos y1) steep))
          | inr e ↦ absurd (omega (arith, e, h))
        ]
      where
        minor_fits :
            suc n ≤ (walk steep).den
            → (offset_of (not steep) ≡ along w (pos x0) (pos y0) (pos x1) (pos y1) (not steep))
              ⊎ ((walk steep).numadd ≡ 0)
            → Fits w
                (pos x0)
                (pos y0)
                (pos x1)
                (pos y1)
                steep
                ((walk steep).den / 2)
                (offset_of (not steep))
        minor_fits h (inl e) = inl e
        minor_fits h (inr e) = inr (e, omega (arith, h))

-- The first cells of an iterator, with a call of `advance` between each two.
abbrev pub line_cells : ℕ → Option LineIterator → Option (List (ℤ × ℤ))
line_cells zero o = some []
line_cells (suc n) none = none
line_cells (suc n) (some it) = map_option (λ rest. (it.x, it.y) ∷ rest) (line_cells n (advance it))

module _ (x0 y0 x1 y1 : ℤ) (fits : Range.Fits x0 y0 x1 y1) where
  line_cells_lem :
      (n k : ℕ)
      → n + k ≤ max (abs_ℤ (x1 -ℤ x0)) (abs_ℤ (y1 -ℤ y0))
      → line_cells (suc n) (some (steps k (line_of x0 y0 x1 y1)))
        ≡ some (cells (suc n) (steps k (line_of x0 y0 x1 y1)))
  line_cells_lem zero k h = refl
  line_cells_lem (suc n) k h =
      let it = steps k (line_of x0 y0 x1 y1) in
      ap (λ o. map_option (λ rest. (it.x, it.y) ∷ rest) (line_cells (suc n) o))
        (advance_fits x0 y0 x1 y1 fits k (omega (arith, h)))
      ∙ ap (map_option (λ rest. (it.x, it.y) ∷ rest)) (line_cells_lem n (suc k) (omega (arith, h)))

  line_cells_fit :
      (n : ℕ)
      → n ≤ max (abs_ℤ (x1 -ℤ x0)) (abs_ℤ (y1 -ℤ y0))
      → line_cells (suc n) (new x0 y0 x1 y1) ≡ some (cells (suc n) (line_of x0 y0 x1 y1))
  line_cells_fit n h =
      ap (line_cells (suc n)) (new_fits x0 y0 x1 y1 fits) ∙ line_cells_lem n 0 (omega (arith, h))

raytrace_line-cells :
    {D : Type 0} (d : Doubles D) (w x0 y0 x1 y1 max_length : ℕ)
    → (x0 < 2147483648) × (y0 < 2147483648) × (x1 < 2147483648) × (y1 < 2147483648)
    → raytrace_line d w x0 y0 x1 y1 max_length
      ≡ map (index_of w) (
          cells
            (suc (
              min
                (limit d
                  (pos x1 -ℤ pos x0)
                  (pos y1 -ℤ pos y0)
                  max_length
                  (max (abs_ℤ (pos x1 -ℤ pos x0)) (abs_ℤ (pos y1 -ℤ pos y0))))
                (max (abs_ℤ (pos x1 -ℤ pos x0)) (abs_ℤ (pos y1 -ℤ pos y0)))))
            (line_of (pos x0) (pos y0) (pos x1) (pos y1)))
unfolding raytrace_line
raytrace_line-cells d w x0 y0 x1 y1 m h =
    let x_difference = difference_lem x0 x1 h.0 h.2 in
    let y_difference = difference_lem y0 y1 h.1 h.3 in
    let lx = abs_ℤ (pos x1 -ℤ pos x0) in
    let ly = abs_ℤ (pos y1 -ℤ pos y0) in
    elim (Bool-cases (leb ly lx)) [
      | inl flat ↦
          let longest : max lx ly ≡ lx = omega (arith, leb→le ly lx flat) in
          rw (x_difference, y_difference, flat, longest)
            (line_lem w x0 y0 x1 y1 (omega (arith, h)) (omega (arith, h)) false _ (omega arith))
      | inr steep ↦
          let longest : max lx ly ≡ ly = omega (arith, not_leb ly lx steep) in
          rw (x_difference, y_difference, steep, longest)
            (line_lem w x0 y0 x1 y1 (omega (arith, h)) (omega (arith, h)) true _ (omega arith))
    ]
  where
    not_leb : (a b : ℕ) → leb a b ≡ false → b < a
    not_leb a b e = ground arith

-- For coordinates below 2^31 whose distances along the two axes have a sum below 2^31 as well,
-- `raytraceLine` applies its action to the same cells, in the same order, as the line iterator visits
-- from one end to the other, without an overflow on the way: to all of them, or to as many of the first
-- as the length limit allows.
pub raytrace_line-line_cells :
    {D : Type 0} (d : Doubles D) (w x0 y0 x1 y1 max_length : ℕ)
    → Range.Fits (pos x0) (pos y0) (pos x1) (pos y1)
    → some (raytrace_line d w x0 y0 x1 y1 max_length)
      ≡ map_option (map (index_of w)) (
          line_cells
            (suc (
              min
                (limit d
                  (pos x1 -ℤ pos x0)
                  (pos y1 -ℤ pos y0)
                  max_length
                  (max (abs_ℤ (pos x1 -ℤ pos x0)) (abs_ℤ (pos y1 -ℤ pos y0))))
                (max (abs_ℤ (pos x1 -ℤ pos x0)) (abs_ℤ (pos y1 -ℤ pos y0)))))
            (new (pos x0) (pos y0) (pos x1) (pos y1)))
raytrace_line-line_cells d w x0 y0 x1 y1 m fits =
    let longest = max (abs_ℤ (pos x1 -ℤ pos x0)) (abs_ℤ (pos y1 -ℤ pos y0)) in
    let n = min (limit d (pos x1 -ℤ pos x0) (pos y1 -ℤ pos y0) m longest) longest in
    ap some (
      raytrace_line-cells d w x0 y0 x1 y1 m (
        omega (arith, fits.x0_fits),
        omega (arith, fits.y0_fits),
        omega (arith, fits.x1_fits),
        omega (arith, fits.y1_fits),
      ))
    ∙ ap (map_option (map (index_of w)))
        (sym (line_cells_fit (pos x0) (pos y0) (pos x1) (pos y1) fits n (omega arith)))
