-- ===== src/Costmap/Grid/Region.antt =====
-- Rectangles of a map: `copyMapRegion` and `resetMapToValue` by cells.
use navigation_learning.Prelude.{
  ℕ, zero, suc, ◌+◌, ◌-◌, ◌*◌, ◌≤◌, ◌<◌, ◌≡◌, refl, ap, ◌∙◌, ◌⊎◌, inl, inr, Bool, true, false, ◌&&◌,
  Option, some, List, arith, u32, ltb, leb, if◌then◌else◌, ltb→lt, lt→ltb, Bool-cases, length,
}
use navigation_learning.Costmap.Buffer.{at, within, memset-Filled, memcpy-Copied}
use navigation_learning.Costmap.Grid.{
  Costmap, index_in, copy_rows, copy_map_region, reset_rows, reset_map_to_value,
}
use navigation_learning.Costmap.Grid.Index.{IsValid, cost_at}

-- The cell (x, y) lies in the rectangle of the given corner and size.
abbrev pub in_rect : ℕ → ℕ → ℕ → ℕ → ℕ → ℕ → Bool
in_rect x0 y0 w h x y = leb x0 x && ltb x (x0 + w) && leb y0 y && ltb y (y0 + h)

row-lt : (w y y' : ℕ) → y < y' → y * w + w ≤ y' * w
row-lt w y y' h = grind arith

-- The bytes of one row of a rectangle, seen from a cell.
pub row-within :
    (w x0 y0 n x y : ℕ)
    → x < w
    → x0 + n ≤ w
    → within (y0 * w + x0) n (y * w + x) ≡ in_rect x0 y0 n 1 x y
unfolding within
row-within w x0 y0 n x y p q = ground (arith, row-lt w y y0, row-lt w y0 y)

pub row_fits : (w h x n y : ℕ) → x + n ≤ w → y < h → y * w + x + n ≤ w * h
row_fits w h x n y p q = grind arith

-- A region of `src`, of width `sw`, was copied to `dest`, of width `dw` and height `dh`.
pub record Pasted (src : List ℕ) (sw sx sy : ℕ) (dest : List ℕ) (dw dh dx dy rw rh : ℕ)
    (o : Option (List ℕ)) : Type 0 where
  pub out : List ℕ
  pub returns : o ≡ some out
  pub size : length out ≡ length dest
  pub cells :
      (x y : ℕ)
      → x < dw
      → y < dh
      → cost_at dw out x y ≡ (
          if in_rect dx dy rw rh x y
          then cost_at sw src (sx + (x - dx)) (sy + (y - dy))
          else cost_at dw dest x y)

module _ (src : List ℕ) (sw sh sx : ℕ) (dw dh dx n : ℕ) (src_size : length src ≡ sw * sh)
    (src_fits : sx + n ≤ sw) (dest_fits : dx + n ≤ dw) where
  same_row :
      (sm dm sy dy x y : ℕ)
      → sm ≡ sy * sw + sx
      → dm ≡ dy * dw + dx
      → y ≡ dy
      → dx ≤ x
      → sm + (y * dw + x - dm) ≡ (sy + (y - dy)) * sw + (sx + (x - dx))
  same_row sm dm sy dy x y es ed e l =
      let z : y - dy ≡ 0 = omega arith in
      let m : y * dw ≡ dy * dw = ap (λ (t : ℕ). t * dw) e in rw z (omega (arith, m))

  later_row : (sy dy y : ℕ) → dy + 1 ≤ y → sy + 1 + (y - (dy + 1)) ≡ sy + (y - dy)
  later_row sy dy y l = omega arith

  pub copy_rows-Pasted :
      (rows sm dm sy dy : ℕ) (dest : List ℕ)
      → length dest ≡ dw * dh
      → sm ≡ sy * sw + sx
      → dm ≡ dy * dw + dx
      → sy + rows ≤ sh
      → dy + rows ≤ dh
      → Pasted src sw sx sy dest dw dh dx dy n rows (copy_rows src sm sw dest dm dw n rows)
  unfolding copy_rows
  copy_rows-Pasted zero sm dm sy dy dest size es ed fs fd = record {
    out = dest;
    returns = refl;
    size = refl;
    cells = λ x y p q. ground arith;
  }
  copy_rows-Pasted (suc rows) sm dm sy dy dest size es ed fs fd =
      let row =
        memcpy-Copied dest dm src sm n
          (omega (arith, row_fits sw sh sx n sy src_fits (omega arith)))
          (omega (arith, row_fits dw dh dx n dy dest_fits (omega arith))) in
      let rest =
        copy_rows-Pasted rows (sm + sw) (dm + dw) (sy + 1) (dy + 1) row.out (row.size ∙ size)
          (grind arith) (grind arith) (omega arith) (omega arith) in
      record {
        out = rest.out;
        returns = rw row.returns rest.returns;
        size = rest.size ∙ row.size;
        cells = λ x y p q. ground (
          arith,
          rest.cells x y p q,
          row.cells (y * dw + x),
          row-within dw dx dy n x y p dest_fits,
          ap (λ t. within t n (y * dw + x)) ed,
          ap (at src) (same_row sm dm sy dy x y es ed _ _),
          ap (λ t. cost_at sw src (sx + (x - dx)) t) (later_row sy dy y _),
        );
      }

pub index_in_le :
    (w h x y : ℕ) → w * h + w < 4294967296 → x ≤ w → y ≤ h → index_in w x y ≡ y * w + x
index_in_le w h x y b p q = let le : y * w ≤ w * h = grind arith in omega (arith, le)

-- For two maps that are small enough for unsigned indices, a region that lies in both is copied
-- without a fault, cell by cell, and the rest of the destination is kept.
pub copy_map_region-Pasted :
    (src : List ℕ) (sw sh sx sy : ℕ) (dest : List ℕ) (dw dh dx dy rw rh : ℕ)
    → (length src ≡ sw * sh) × (sw * sh + sw < 4294967296) × (sx + rw ≤ sw) × (sy + rh ≤ sh)
    → (length dest ≡ dw * dh) × (dw * dh + dw < 4294967296) × (dx + rw ≤ dw) × (dy + rh ≤ dh)
    → Pasted src sw sx sy dest dw dh dx dy rw rh (copy_map_region src sx sy sw dest dx dy dw rw rh)
unfolding copy_map_region
copy_map_region-Pasted src sw sh sx sy dest dw dh dx dy rw rh (ls, bs, fx, fy) (ld, bd, gx, gy) =
    copy_rows-Pasted src sw sh sx dw dh dx rw ls fx gx rh _ _ sy dy dest ld
      (index_in_le sw sh sx sy bs (omega arith) (omega arith))
      (index_in_le dw dh dx dy bd (omega arith) (omega arith)) fy gy

-- A rectangle of a map of width `w` and height `h` was set to `v`.
pub record Painted (w h : ℕ) (cells : List ℕ) (x0 y0 n rows v : ℕ) (o : Option (List ℕ))
    : Type 0 where
  pub out : List ℕ
  pub returns : o ≡ some out
  pub size : length out ≡ length cells
  pub painted :
      (x y : ℕ)
      → x < w
      → y < h
      → cost_at w out x y ≡ (if in_rect x0 y0 n rows x y then v else cost_at w cells x y)

module _ (w h x0 n v yn : ℕ) (bounded : w * h + w < 4294967296) (fits : x0 + n ≤ w) (ends : yn ≤ h)
    (wide : 0 < w) where
  ahead : (dy : ℕ) → dy < yn → 0 < w → dy * w + x0 < yn * w + x0
  ahead dy h z = grind arith

  row_below : (dy : ℕ) → dy ≤ h → dy * w ≤ w * h
  row_below dy l = grind arith

  next_row : (dy y : ℕ) → dy < h → y ≡ dy * w + x0 → u32 (y + w) ≡ (dy + 1) * w + x0
  next_row dy y l e = omega (arith, row_below dy (omega arith), row_fits w h x0 n dy fits l)

  at_end : (dy y : ℕ) → dy + 0 ≡ yn → y ≡ dy * w + x0 → ltb y (yn * w + x0) ≡ false
  at_end dy y e ey =
      let m : dy ≡ yn = omega arith in
      let t : dy * w ≡ yn * w = ap (λ (t : ℕ). t * w) m in ground arith

  reset_rows-Painted :
      (rows fuel dy y : ℕ) (cells : List ℕ)
      → rows < fuel
      → dy + rows ≡ yn
      → y ≡ dy * w + x0
      → length cells ≡ w * h
      → Painted w h cells x0 dy n rows v (reset_rows fuel cells y (yn * w + x0) w n v)
  unfolding reset_rows
  reset_rows-Painted rows zero dy y cells f e ey size = absurd (omega arith)
  reset_rows-Painted zero (suc fuel) dy y cells f e ey size = record {
    out = cells;
    returns = rw (at_end dy y e ey) refl;
    size = refl;
    painted = λ a b p q. ground arith;
  }
  reset_rows-Painted (suc rows) (suc fuel) dy y cells f e ey size =
      let row =
        memset-Filled cells y v n
          (omega (arith, row_fits w h x0 n dy fits (omega (arith, ends, e)))) in
      let rest =
        reset_rows-Painted rows fuel (dy + 1) (u32 (y + w)) row.out (omega arith) (omega arith)
          (next_row dy y (omega (arith, ends, e)) ey) (row.size ∙ size) in
      let more : ltb y (yn * w + x0) ≡ true = lt→ltb _ _ (rw ey (ahead dy (omega arith) wide)) in
      record {
        out = rest.out;
        returns = rw more (rw row.returns rest.returns);
        size = rest.size ∙ row.size;
        painted = λ a b p q. ground (
          arith,
          rest.painted a b p q,
          row.cells (b * w + a),
          row-within w x0 dy n a b p fits,
          ap (λ t. within t n (b * w + a)) ey,
        );
      }

no_columns :
    (w h : ℕ) (cells : List ℕ) (x0 y0 n rows v yn : ℕ)
    → w ≡ 0
    → Painted w h cells x0 y0 n rows v (reset_rows (suc yn) cells (y0 * w + x0) (yn * w + x0) w n v)
unfolding reset_rows
no_columns w h cells x0 y0 n rows v yn z =
    let e : ltb (y0 * w + x0) (yn * w + x0) ≡ false = rw z (ground arith) in
    record {
      out = cells;
      returns = rw e refl;
      size = refl;
      painted = λ x y p q. absurd (omega arith);
    }

-- On a valid map, for a rectangle on the map, `resetMapToValue` ends, does not fault, sets each
-- cell of the rectangle to the value and keeps every other cell, the sizes and the default value.
pub reset_map_to_value-Painted :
    {D : Type 0} (c : Costmap D) (x0 y0 xn yn v : ℕ)
    → IsValid c
    → (x0 ≤ xn) × (xn ≤ c.size_x)
    → (y0 ≤ yn) × (yn ≤ c.size_y)
    → (out : List ℕ) × (reset_map_to_value x0 y0 xn yn v c ≡ some (record c { cells = out }))
      × IsValid (record c { cells = out })
      × ((x y : ℕ)
          → x < c.size_x
          → y < c.size_y
          → cost_at c.size_x out x y
            ≡ (if in_rect x0 y0 (xn - x0) (yn - y0) x y then v else cost_at c.size_x c.cells x y))
unfolding reset_map_to_value
reset_map_to_value-Painted c x0 y0 xn yn v valid hx hy =
    let p = loop (Bool-cases (ltb 0 c.size_x)) in
    (
      p.out,
      rw (first, last, len) (rw p.returns refl),
      record { size = p.size ∙ valid.size; bounded = valid.bounded },
      p.painted,
    )
  where
    first : u32 (y0 * c.size_x + x0) ≡ y0 * c.size_x + x0
    first = index_in_le c.size_x c.size_y x0 y0 valid.bounded (omega arith) (omega arith)

    last : u32 (yn * c.size_x + x0) ≡ yn * c.size_x + x0
    last = index_in_le c.size_x c.size_y x0 yn valid.bounded (omega arith) (omega arith)

    len : u32 (xn + 4294967296 - x0) ≡ xn - x0
    len = omega (arith, valid.bounded)

    loop :
        (ltb 0 c.size_x ≡ true) ⊎ (ltb 0 c.size_x ≡ false)
        → Painted c.size_x c.size_y c.cells x0 y0 (xn - x0) (yn - y0) v (
            reset_rows
              (suc yn)
              c.cells
              (y0 * c.size_x + x0)
              (yn * c.size_x + x0)
              c.size_x
              (xn - x0)
              v)
    loop (inl e) =
        reset_rows-Painted c.size_x c.size_y x0 (xn - x0) v yn valid.bounded (omega arith) hy.1
          (ltb→lt _ _ e) (yn - y0) (suc yn) y0 _ c.cells (omega arith) (omega arith) refl valid.size
    loop (inr e) =
        let z : c.size_x ≡ 0 = ground arith in
        no_columns c.size_x c.size_y c.cells x0 y0 (xn - x0) (yn - y0) v yn z
