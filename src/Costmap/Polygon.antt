-- ===== src/Costmap/Polygon.antt =====
-- The polygons of `Costmap2D` (navigation2/nav2_costmap_2d/src/costmap_2d.cpp): the outline, the cells
-- inside a convex polygon, and `setConvexPolygonCost`.
pub mod Sort
mod Tests
use package.navigation_learning.Prelude.{
  ℕ, zero, suc, ◌+◌, ◌-◌, ◌*◌, ◌/◌, ◌<◌, min, max, ap, Bool, true, false, ◌&&◌, Option, none, some,
  List, [], ◌∷◌, ◌++◌, map, reverse, u8, ltb, leb, ◌==◌, if◌then◌else◌, length, get_elem?, set,
}
use mathlib.Core.List.{reverse_aux}
use package.navigation_learning.Costmap.Doubles.{Doubles}
use package.navigation_learning.Costmap.Grid.{Costmap, index_in, world_to_map, ◌>>=◌}
use package.navigation_learning.Costmap.Raytrace.{raytrace_line, gather_cells}

-- A vector of cells and the index that the sort stands at: the cells before the index, the last one
-- first, and the cells from the index on.
pub record Cursor : Type 0 where
  pub before : List (ℕ × ℕ)
  pub after : List (ℕ × ℕ)

-- `if (i > 0) { --i; }`.
abbrev pub back : List (ℕ × ℕ) → List (ℕ × ℕ) → Cursor
back [] after = record { before = []; after = after }
back (p ∷ before) after = record { before = before; after = p ∷ after }

-- A round of the loop of the sort, none when the index is at the last cell. The caller has at least
-- three points and so a cell; for an empty vector `size() - 1` would wrap.
unfoldable pub sort_round : List (ℕ × ℕ) → List (ℕ × ℕ) → Option Cursor
sort_round before [] = none
sort_round before (a ∷ []) = none
sort_round before (a ∷ b ∷ after) = some (
    if ltb b.0 a.0
    then back before (b ∷ a ∷ after)
    else record { before = a ∷ before; after = b ∷ after })

-- The loop on fuel; none when the fuel runs out.
unfoldable pub sort_loop : ℕ → List (ℕ × ℕ) → List (ℕ × ℕ) → Option (List (ℕ × ℕ))
sort_loop zero before after = none
sort_loop (suc n) before after = elim (sort_round before after) [
  | none ↦ some (reverse_aux before after)
  | some c ↦ sort_loop n c.before c.after
]

-- The fuel is the square of the number of cells and one round more.
unfoldable pub sort_cells : List (ℕ × ℕ) → Option (List (ℕ × ℕ))
sort_cells cells = sort_loop (suc (length cells * length cells)) [] cells

-- `while (i < size && cells[i].x == x)`, which widens the range of the column.
unfoldable pub scan_column : ℕ → ℕ → List (ℕ × ℕ) → ℕ → ℕ × ℕ → ℕ × ℕ → ℕ × (ℕ × ℕ) × (ℕ × ℕ)
scan_column zero x cells i min_pt max_pt = (i, min_pt, max_pt)
scan_column (suc n) x cells i min_pt max_pt = elim (get_elem? cells i) [
  | none ↦ (i, min_pt, max_pt)
  | some p ↦
      let rest =
        scan_column n x cells (i + 1) (if ltb p.1 min_pt.1 then p else min_pt)
          (if ltb p.1 min_pt.1 then max_pt else if ltb max_pt.1 p.1 then p else max_pt) in
      if p.0 == x then rest else (i, min_pt, max_pt)
]

-- `for (y = min_pt.y; y < max_pt.y; ++y)`, with the rounds left.
abbrev pub column_cells : ℕ → ℕ → ℕ → List (ℕ × ℕ)
column_cells zero x y = []
column_cells (suc n) x y = (x, y) ∷ column_cells n x (y + 1)

-- The walk through the columns, with the rounds left; a read outside the vector is a fault.
unfoldable pub fill_columns : ℕ → ℕ → ℕ → List (ℕ × ℕ) → Option (List (ℕ × ℕ))
fill_columns zero x i cells = some cells
fill_columns (suc n) x i cells = elim (leb (length cells - 1) i) [
  | true ↦ some cells
  | false ↦ get_elem? cells i >>= λ p. get_elem? cells (i + 1) >>= λ q.
      let (i', min_pt, max_pt) =
        scan_column (length cells) x cells (i + 2) (if ltb p.1 q.1 then p else q)
          (if ltb p.1 q.1 then q else p) in
      fill_columns n (x + 1) i' (cells ++ column_cells (max_pt.1 - min_pt.1) x min_pt.1)
]

module _ {D : Type 0} (d : Doubles D) where
  abbrev pub edge : Costmap D → ℕ × ℕ → ℕ × ℕ → List (ℕ × ℕ)
  edge c a b = gather_cells c (raytrace_line d c.size_x a.0 a.1 b.0 b.1 4294967295)

  -- The lines from each point to the next, and from the last one to the first.
  abbrev pub edges : Costmap D → ℕ × ℕ → ℕ × ℕ → List (ℕ × ℕ) → List (ℕ × ℕ)
  edges c first a [] = edge c a first
  edges c first a (b ∷ polygon) = edge c a b ++ edges c first b polygon

  -- An empty polygon is a fault: `size() - 1` wraps.
  unfoldable pub polygon_outline_cells : Costmap D → List (ℕ × ℕ) → Option (List (ℕ × ℕ))
  polygon_outline_cells c [] = none
  polygon_outline_cells c (a ∷ polygon) = some (edges c a a polygon)

  abbrev pub last_x : ℕ × ℕ → List (ℕ × ℕ) → ℕ
  last_x a [] = a.0
  last_x a (b ∷ cells) = last_x b cells

  abbrev pub fill_sorted : List (ℕ × ℕ) → Option (List (ℕ × ℕ))
  fill_sorted [] = none
  fill_sorted (a ∷ cells) = fill_columns (suc (last_x a cells) - a.0) a.0 0 (a ∷ cells)

  unfoldable pub convex_fill_cells : Costmap D → List (ℕ × ℕ) → Option (List (ℕ × ℕ))
  convex_fill_cells c polygon =
      if ltb (length polygon) 3
      then some []
      else (polygon_outline_cells c polygon >>= λ outline.
          sort_cells outline >>= λ sorted. fill_sorted sorted)

  abbrev pub map_polygon : Costmap D → List (D × D) → Option (List (ℕ × ℕ))
  map_polygon c [] = some []
  map_polygon c ((x, y) ∷ polygon) =
      world_to_map d c x y >>= λ loc. map_polygon c polygon >>= λ rest. some (loc ∷ rest)

  abbrev pub set_cells : ℕ → List (ℕ × ℕ) → Costmap D → Option (Costmap D)
  set_cells cost [] c = some c
  set_cells cost ((x, y) ∷ cells) c =
      let index = index_in c.size_x x y in
      let rest = set_cells cost cells (record c { cells = set c.cells index (u8 cost) }) in
      if ltb index (length c.cells) then rest else none

  -- The result false leaves the map as it is; none is a fault.
  unfoldable pub set_convex_polygon_cost : List (D × D) → ℕ → Costmap D → Option (Costmap D × Bool)
  set_convex_polygon_cost polygon cost c = elim (map_polygon c polygon) [
    | none ↦ some (c, false)
    | some points ↦
        convex_fill_cells c points >>= λ cells. set_cells cost cells c >>= λ c'. some (c', true)
  ]
