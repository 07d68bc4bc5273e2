-- ===== src/Costmap/Grid/Origin.antt =====
-- `updateOrigin` moves the window of a map and keeps the costs of the cells that stay in it.
use navigation_learning.Prelude.{
  ℕ, zero, suc, ◌+◌, ◌-◌, ◌*◌, ◌≤◌, ◌<◌, ◌≡◌, refl, ap, ◌∙◌, ◌⊎◌, inl, inr, Bool, true, false, ◌&&◌,
  Option, some, List, arith, u32, ltb, leb, if◌then◌else◌, length, replicate, length-replicate,
}
use navigation_learning.Prelude.Int.{ℤ, pos, pos_part, ◌+ℤ◌}
use mathlib.Core.Path.{ap₂}
use native.Mathlib.Nat.{zero-add}
use navigation_learning.Costmap.Buffer.{memset, within, Filled, memset-Filled, memcpy}
use navigation_learning.Costmap.Doubles.{Doubles, to_u32}
use navigation_learning.Costmap.Grid.{
  Costmap, copy_rows, copy_map_region, reset_maps, cell_of, ◌>>=◌,
}
use navigation_learning.Costmap.Grid.Index.{IsValid, cost_at, index-lt}
use navigation_learning.Costmap.Grid.Region.{in_rect, Pasted, copy_map_region-Pasted}
use navigation_learning.Costmap.Grid.Overlap.{
  lower, cell_size, start, on_map, InRange, Overlaps, overlaps,
}

module _ {D : Type 0} where
  -- The part of `updateOrigin` after the new origin was projected to the cell (zx, zy). `junk` fills
  -- the fresh local map, and `origin_x`, `origin_y` are the world coordinates of the new origin.
  unfoldable pub move_window : ℕ → ℤ → ℤ → D → D → Costmap D → Option (Costmap D)
  unfolding reset_maps
  move_window junk zx zy origin_x origin_y c =
      let sx = cell_size zx c.size_x in
      let sy = cell_size zy c.size_y in
      copy_map_region c.cells (to_u32 (lower zx c.size_x)) (to_u32 (lower zy c.size_y)) c.size_x
        (replicate (u32 (sx * sy)) junk) 0 0 sx sx sy
      >>= λ local_map. reset_maps c >>= λ t.
          copy_map_region local_map 0 0 sx t.cells (to_u32 (start zx c.size_x))
            (to_u32 (start zy c.size_y)) c.size_x sx sy
          >>= λ cells. some (record t { origin_x = origin_x; origin_y = origin_y; cells = cells })

  module _ (d : Doubles D) where
    unfoldable pub update_origin : ℕ → D → D → Costmap D → Option (Costmap D)
    unfolding move_window
    update_origin junk new_origin_x new_origin_y c =
        let cell_ox = cell_of d new_origin_x c.origin_x c.resolution in
        let cell_oy = cell_of d new_origin_y c.origin_y c.resolution in
        move_window junk cell_ox cell_oy (d.add c.origin_x (d.mul (d.of_ℤ cell_ox) c.resolution))
          (d.add c.origin_y (d.mul (d.of_ℤ cell_oy) c.resolution)) c

-- The cost that a cell has after a move.
abbrev pub moved_cost : {D : Type 0} → Costmap D → ℤ → ℤ → ℕ → ℕ → ℕ
moved_cost c zx zy x y =
    if on_map (pos x +ℤ zx) c.size_x && on_map (pos y +ℤ zy) c.size_y
    then cost_at c.size_x c.cells (pos_part (pos x +ℤ zx)) (pos_part (pos y +ℤ zy))
    else c.default_value

-- A region without cells is copied without any access.
no_cells :
    (src : List ℕ) (sm sw : ℕ) (dest : List ℕ) (dm dw rw rows : ℕ)
    → (rw ≡ 0) ⊎ (rows ≡ 0)
    → copy_rows src sm sw dest dm dw rw rows ≡ some dest
unfolding copy_rows memcpy
no_cells src sm sw dest dm dw rw zero e = refl
no_cells src sm sw dest dm dw zero (suc rows) e =
    no_cells src (sm + sw) sw dest (dm + dw) dw 0 rows (inl refl)
no_cells src sm sw dest dm dw (suc n) (suc rows) e = absurd (ground arith)

smaller_area : (a b w h : ℕ) → a ≤ w → b ≤ h → a * b + a ≤ w * h + w
smaller_area a b w h p q = grind arith

empty_rect : (x0 y0 w h x y : ℕ) → (w ≡ 0) ⊎ (h ≡ 0) → in_rect x0 y0 w h x y ≡ false
empty_rect x0 y0 w h x y e = ground arith

rect_split :
    (x0 y0 w h x y : ℕ)
    → in_rect x0 y0 w h x y ≡ ((leb x0 x && ltb x (x0 + w)) && (leb y0 y && ltb y (y0 + h)))
rect_split x0 y0 w h x y = ground arith

in_interval : (a n x : ℕ) → (leb a x && ltb x (a + n)) ≡ true → (a ≤ x) × (x < a + n)
in_interval a n x e = ground arith

inside_rect : (w h x y : ℕ) → x < w → y < h → in_rect 0 0 w h x y ≡ true
inside_rect w h x y p q = ground arith

choose :
    (m n : Bool) (a b k f : ℕ)
    → (m ≡ true → n ≡ true → a ≡ k)
    → b ≡ f
    → (if m && n then a else b) ≡ (if m && n then k else f)
choose true true a b k f p e = p refl refl
choose true false a b k f p e = e
choose false n a b k f p e = e

module _ {D : Type 0} (c : Costmap D) (valid : IsValid c) (zx zy : ℤ) (rx : InRange zx c.size_x)
    (ry : InRange zy c.size_y) (junk : ℕ) where
  open c use {size_x as w, size_y as h, default_value as free}

  abbrev sx : ℕ
  sx = cell_size zx w

  abbrev sy : ℕ
  sy = cell_size zy h

  ox : Overlaps zx w
  ox = overlaps zx w rx

  oy : Overlaps zy h
  oy = overlaps zy h ry

  area : sx * sy + sx < 4294967296
  area = omega (
    arith,
    smaller_area (cell_size zx w) (cell_size zy h) w h (omega (arith, ox.fits_source))
        (omega (arith, oy.fits_source)),
    valid.bounded,
  )

  -- The window that is kept, as it is copied to the local map.
  kept :
      Pasted c.cells w
        (to_u32 (lower zx w))
        (to_u32 (lower zy h))
        (replicate (u32 (sx * sy)) junk)
        sx
        sy
        0
        0
        sx
        sy
        (copy_map_region c.cells
          (to_u32 (lower zx w))
          (to_u32 (lower zy h))
          w
          (replicate (u32 (sx * sy)) junk)
          0
          0
          sx
          sx
          sy)
  kept =
      copy_map_region-Pasted c.cells w h _ _ (replicate (u32 (sx * sy)) junk) sx sy 0 0 sx sy
        (valid.size, valid.bounded, ox.fits_source, oy.fits_source)
        (omega (arith, length-replicate (u32 (sx * sy)) junk, area), area, omega arith, omega arith)

  cleared : Filled c.cells 0 free (w * h) (memset c.cells 0 free (w * h))
  cleared = memset-Filled c.cells 0 free (w * h) (omega (arith, valid.size))

  cleared_cost : (x y : ℕ) → x < w → y < h → cost_at w cleared.out x y ≡ free
  cleared_cost x y p q =
      unfold within in ground (arith, cleared.cells (y * w + x), index-lt w h x y p q)

  abbrev Placed : List ℕ → Type 0
  Placed dest =
      Pasted kept.out sx 0 0 dest w h (to_u32 (start zx w)) (to_u32 (start zy h)) sx sy
        (copy_map_region kept.out 0 0 sx dest (to_u32 (start zx w)) (to_u32 (start zy h)) w sx sy)

  nothing_placed : (dest : List ℕ) → (sx ≡ 0) ⊎ (sy ≡ 0) → Placed dest
  nothing_placed dest e = record {
    out = dest;
    returns = unfold copy_map_region in no_cells kept.out _ sx dest _ w sx sy e;
    size = refl;
    cells = λ x y p q. rw (empty_rect (to_u32 (start zx w)) (to_u32 (start zy h)) sx sy x y e) refl;
  }

  placed : (dest : List ℕ) → length dest ≡ w * h → Placed dest
  placed dest size = elim (ox.fits_dest) [
    | inl e ↦ nothing_placed dest (inl e)
    | inr fx ↦ elim (oy.fits_dest) [
      | inl e ↦ nothing_placed dest (inr e)
      | inr fy ↦
          copy_map_region-Pasted kept.out sx sy 0 0 dest w h _ _ sx sy
            (
              omega (arith, kept.size, length-replicate (u32 (sx * sy)) junk, area),
              area,
              omega arith,
              omega arith,
            )
            (size, valid.bounded, fx, fy)
    ]
  ]

  final : Placed cleared.out
  final = placed cleared.out (cleared.size ∙ valid.size)

  covered :
      (x y : ℕ)
      → x < w
      → y < h
      → in_rect (to_u32 (start zx w)) (to_u32 (start zy h)) sx sy x y
        ≡ (on_map (pos x +ℤ zx) w && on_map (pos y +ℤ zy) h)
  covered x y p q =
      rect_split (to_u32 (start zx w)) (to_u32 (start zy h)) sx sy x y
      ∙ ap₂ ◌&&◌ (ox.covers x p) (oy.covers y q)

  -- What the local map holds of a cell that stays on the map.
  kept_cost :
      (x y : ℕ)
      → x < w
      → y < h
      → on_map (pos x +ℤ zx) w ≡ true
      → on_map (pos y +ℤ zy) h ≡ true
      → cost_at sx kept.out (0 + (x - to_u32 (start zx w))) (0 + (y - to_u32 (start zy h)))
        ≡ cost_at w c.cells (pos_part (pos x +ℤ zx)) (pos_part (pos y +ℤ zy))
  kept_cost x y p q mx my =
      let x' = x - to_u32 (start zx w) in
      let y' = y - to_u32 (start zy h) in
      let (x_low, x_high) = in_interval _ _ x (ox.covers x p ∙ mx) in
      let (y_low, y_high) = in_interval _ _ y (oy.covers y q ∙ my) in
      let x_in : x' < sx = omega arith in
      let y_in : y' < sy = omega arith in
      ap₂ (cost_at sx kept.out) (zero-add x') (zero-add y')
      ∙ kept.cells x' y' x_in y_in
      ∙ ap
          (λ b.
            if b
            then cost_at w c.cells (to_u32 (lower zx w) + (x' - 0)) (to_u32 (lower zy h) + (y' - 0))
            else cost_at sx (replicate (u32 (sx * sy)) junk) x' y')
          (inside_rect sx sy x' y' x_in y_in)
      ∙ ap₂ (cost_at w c.cells) (omega (arith, ox.source x p mx)) (omega (arith, oy.source y q my))

  final_cost : (x y : ℕ) → x < w → y < h → cost_at w final.out x y ≡ moved_cost c zx zy x y
  final_cost x y p q =
      final.cells x y p q
      ∙ ap
          (λ b.
            if b
            then cost_at sx kept.out (0 + (x - to_u32 (start zx w))) (0 + (y - to_u32 (start zy h)))
            else cost_at w cleared.out x y)
          (covered x y p q)
      ∙ choose _ _ _ _ _ _ (kept_cost x y p q) (cleared_cost x y p q)

  total : u32 (w * h) ≡ w * h
  total = omega (arith, valid.bounded)

  -- On a valid map of fewer than 2^31 columns and rows, for a move by (zx, zy) cells that stays in
  -- the range of int, `updateOrigin` does not fault and the map stays valid with the same size and
  -- default value. A cell whose moved position was on the map has the cost that was there, and
  -- every other cell has the default value.
  pub move_window-moved_cost :
      (origin_x origin_y : D)
      → (out : List ℕ) × (move_window junk zx zy origin_x origin_y c
          ≡ some (record c { origin_x = origin_x; origin_y = origin_y; cells = out }))
        × IsValid (record c { cells = out })
        × ((x y : ℕ) → x < w → y < h → cost_at w out x y ≡ moved_cost c zx zy x y)
  unfolding move_window reset_maps
  move_window-moved_cost origin_x origin_y = (
    final.out,
    rw kept.returns (rw total (rw cleared.returns (rw final.returns refl))),
    record { size = final.size ∙ cleared.size ∙ valid.size; bounded = valid.bounded },
    final_cost,
  )
