-- ===== src/Costmap/Raytrace.antt =====
-- The walk along a line of navigation2/nav2_costmap_2d/include/nav2_costmap_2d/costmap_2d.hpp:
-- `raytraceLine`, `bresenham2D` and the functors that it is called with. The error term, an `int` that
-- is never negative, is a natural number.
use navigation_learning.Prelude.{
  ℕ, zero, suc, ◌+◌, ◌-◌, ◌*◌, ◌/◌, min, Bool, not, ◌&&◌, Option, none, some, List, [], ◌∷◌, map,
  u32, u8, ltb, leb, if◌then◌else◌, length, set,
}
use navigation_learning.Prelude.Int.{ℤ, pos, negsuc, ltb_ℤ, abs_ℤ}
use navigation_learning.Costmap.Doubles.{Doubles, min_D, to_u32, to_i32}
use navigation_learning.Costmap.Grid.{Costmap, index_in, index_to_cells}

abbrev pub sign : ℤ → ℤ
sign x = if ltb_ℤ (pos 0) x then pos 1 else negsuc 0

-- The offsets to which the action is applied, in order, with the rounds of the loop that are left.
unfoldable pub bresenham : ℕ → ℕ → ℕ → ℕ → ℕ → ℕ → ℕ → List ℕ
bresenham zero abs_da abs_db error_b offset_a offset_b offset = offset ∷ []
bresenham (suc n) abs_da abs_db error_b offset_a offset_b offset =
    let carries = leb abs_da (error_b + abs_db) in
    offset
    ∷ bresenham n abs_da abs_db (if carries then error_b + abs_db - abs_da else error_b + abs_db)
        offset_a offset_b
        (if carries then u32 (u32 (offset + offset_a) + offset_b) else u32 (offset + offset_a))

module _ {D : Type 0} (d : Doubles D) where
  abbrev pub is_zero : D → Bool
  is_zero x = not (d.lt x (d.of_ℕ 0)) && not (d.lt (d.of_ℕ 0) x)

  -- `scale * abs`, the longest that a line may get along its dominant axis.
  unfoldable pub limit : ℤ → ℤ → ℕ → ℕ → ℕ
  limit dx dy max_length abs =
      let dist = d.hypot (d.of_ℤ dx) (d.of_ℤ dy) in
      let scale =
        if is_zero dist then d.of_ℕ 1 else min_D d (d.of_ℕ 1) (d.div (d.of_ℕ max_length) dist) in
      d.to_unsigned (d.mul scale (d.of_ℕ abs))

  -- The offsets along a line on a map of width `size_x`.
  unfoldable pub raytrace_line : ℕ → ℕ → ℕ → ℕ → ℕ → ℕ → List ℕ
  raytrace_line size_x x0 y0 x1 y1 max_length =
      let dx = to_i32 (u32 (x1 + 4294967296 - x0)) in
      let dy = to_i32 (u32 (y1 + 4294967296 - y0)) in
      let abs_dx = abs_ℤ dx in
      let abs_dy = abs_ℤ dy in
      let offset_dx = to_u32 (sign dx) in
      let offset_dy = u32 (to_u32 (sign dy) * size_x) in
      let offset = index_in size_x x0 y0 in
      if leb abs_dy abs_dx
      then bresenham (min (limit dx dy max_length abs_dx) abs_dx) abs_dx abs_dy (abs_dx / 2)
          offset_dx offset_dy offset
      else bresenham (min (limit dx dy max_length abs_dy) abs_dy) abs_dy abs_dx (abs_dy / 2)
          offset_dy offset_dx offset

module _ {D : Type 0} where
  -- `MarkCell` at each offset; an offset outside the array is a fault.
  unfoldable pub mark_cells : ℕ → List ℕ → Costmap D → Option (Costmap D)
  mark_cells value [] c = some c
  mark_cells value (offset ∷ offsets) c =
      if ltb offset (length c.cells)
      then mark_cells value offsets (record c { cells = set c.cells offset (u8 value) })
      else none

  -- `PolygonOutlineCells` at each offset.
  unfoldable pub gather_cells : Costmap D → List ℕ → List (ℕ × ℕ)
  gather_cells c offsets = map (index_to_cells c) offsets
