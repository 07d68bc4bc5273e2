-- ===== src/Costmap/Static/Process.antt =====
-- `processMap` of `StaticLayer`: the resizing, and the cells of the message.
use navigation_learning.Prelude.{
  ℕ, ◌+◌, ◌-◌, ◌*◌, ◌<◌, ◌≡◌, refl, ◌∙◌, inl, inr, Bool, true, false, not, ◌&&◌, ◌||◌, Option, some,
  List, arith, u32, Bool-cases, length, replicate, length-replicate, length-map,
}
use navigation_learning.Costmap.Buffer.{memset-Filled}
use navigation_learning.Costmap.Doubles.{Doubles}
use navigation_learning.Costmap.Extent.{match_size}
use navigation_learning.Costmap.Grid.{Costmap, init_maps, reset_maps, resize_map}
use navigation_learning.Costmap.Grid.Index.{IsValid, cost_at}
use navigation_learning.Costmap.Grid.Region.{in_rect, copy_rows-Pasted}
use navigation_learning.Costmap.Messages.{OccupancyGrid}
use navigation_learning.Costmap.Static.{
  StaticLayer, interpret_value, differs, with_grid, match_static, fit, fill, process_map, write_map,
}
use navigation_learning.Costmap.Static.Fill.{interpreted, write_map-copy_rows}

module _ {D : Type 0} where
  -- A map of the given sizes with every cell at the default value.
  record Resized (c : Costmap D) (w h : ℕ) (resolution origin_x origin_y : D)
      (o : Option (Costmap D)) : Type 0 where
    pub out : List ℕ
    pub returns :
        o
        ≡ some (record c {
          size_x = w;
          size_y = h;
          resolution = resolution;
          origin_x = origin_x;
          origin_y = origin_y;
          cells = out;
        })
    pub size : length out ≡ w * h

  resize_map-Resized :
      (junk w h : ℕ) (r ox oy : D) (c : Costmap D)
      → w * h + w < 4294967296
      → Resized c w h r ox oy (resize_map junk w h r ox oy c)
  unfolding resize_map init_maps reset_maps
  resize_map-Resized junk w h r ox oy c b =
      let p =
        memset-Filled (replicate (w * h) junk) 0 c.default_value (w * h)
          (omega (arith, length-replicate (w * h) junk)) in
      let area : u32 (w * h) ≡ w * h = omega arith in
      record {
        out = p.out;
        returns = rw (area, p.returns) refl;
        size = p.size ∙ length-replicate (w * h) junk;
      }

module _ {D : Type 0} (d : Doubles D) where
  -- The layer got a valid grid of the map's width and height, and is the same otherwise.
  record Fitted (m : OccupancyGrid D) (s : StaticLayer D)
      (o : Option (Costmap D × Bool × StaticLayer D)) : Type 0 where
    pub master : Costmap D
    pub locked : Bool
    pub grid : Costmap D
    pub returns : o ≡ some (master, locked, with_grid d s grid)
    pub width : grid.size_x ≡ m.width
    pub height : grid.size_y ≡ m.height
    pub size : length (grid.cells) ≡ m.width * m.height

  same_size :
      (c : Costmap D) (m : OccupancyGrid D)
      → differs d c m ≡ false
      → (c.size_x ≡ m.width) × (c.size_y ≡ m.height)
  same_size c m e = ground arith

  fit-Fitted :
      (junk : ℕ) (m : OccupancyGrid D) (master : Costmap D) (locked : Bool) (s : StaticLayer D)
      → IsValid (s.layer.grid)
      → m.width * m.height + m.width < 4294967296
      → Fitted m s (fit d junk m master locked s)
  unfolding fit match_static match_size
  fit-Fitted junk m master locked s valid b =
      elim (Bool-cases (not (s.is_rolling) && (differs d master m || not locked))) [
        | inl e ↦ all e
        | inr e ↦ elim (Bool-cases (differs d (s.layer.grid) m)) [
          | inl e' ↦ own e e'
          | inr e' ↦
              let same = same_size (s.layer.grid) m e' in
              record {
                master = master;
                locked = locked;
                grid = s.layer.grid;
                returns = rw (e, e') refl;
                width = same.0;
                height = same.1;
                size = rw (same.0, same.1) at valid.size;
              }
        ]
      ]
    where
      own :
          (not (s.is_rolling) && (differs d master m || not locked)) ≡ false
          → differs d (s.layer.grid) m ≡ true
          → Fitted m s (fit d junk m master locked s)
      own e e' =
          let r =
            resize_map-Resized junk m.width m.height m.resolution m.origin_x m.origin_y
              (s.layer.grid) b in
          record {
            master = master;
            locked = locked;
            grid = record (s.layer.grid) {
              size_x = m.width;
              size_y = m.height;
              resolution = m.resolution;
              origin_x = m.origin_x;
              origin_y = m.origin_y;
              cells = r.out;
            };
            returns = rw (e, e', r.returns) refl;
            width = refl;
            height = refl;
            size = r.size;
          }

      all :
          (not (s.is_rolling) && (differs d master m || not locked)) ≡ true
          → Fitted m s (fit d junk m master locked s)
      all e =
          let off : s.is_rolling ≡ false = ground arith in
          let r =
            resize_map-Resized junk m.width m.height m.resolution m.origin_x m.origin_y master b in
          let r' =
            resize_map-Resized junk m.width m.height m.resolution m.origin_x m.origin_y
              (s.layer.grid) b in
          record {
            master = record master {
              size_x = m.width;
              size_y = m.height;
              resolution = m.resolution;
              origin_x = m.origin_x;
              origin_y = m.origin_y;
              cells = r.out;
            };
            locked = true;
            grid = record (s.layer.grid) {
              size_x = m.width;
              size_y = m.height;
              resolution = m.resolution;
              origin_x = m.origin_x;
              origin_y = m.origin_y;
              cells = r'.out;
            };
            returns = rw (e, r.returns, off, r'.returns) refl;
            width = refl;
            height = refl;
            size = r'.size;
          }

  -- The layer's grid has the map's size, each cell has the cost that the map's value is interpreted
  -- as, and the window of the layer is the whole map.
  pub record Processed (m : OccupancyGrid D) (s : StaticLayer D)
      (o : Option (Costmap D × Bool × StaticLayer D)) : Type 0 where
    pub master : Costmap D
    pub locked : Bool
    pub grid : Costmap D
    pub returns :
        o
        ≡ some (
          master,
          locked,
          record (with_grid d s grid) {
            x = 0;
            y = 0;
            width = m.width;
            height = m.height;
            has_updated_data = true;
            current = true;
          },
        )
    pub width : grid.size_x ≡ m.width
    pub height : grid.size_y ≡ m.height
    pub valid : IsValid grid
    pub cells :
        (x y : ℕ)
        → x < m.width
        → y < m.height
        → cost_at m.width grid.cells x y
          ≡ cost_at m.width (interpreted (interpret_value d s) m.values) x y

  -- For a valid layer and a map with a value for each cell, small enough for unsigned indices,
  -- `processMap` ends without a fault, whether the master, the layer alone or neither is resized. The
  -- layer then has the map's width and height, each cell has the cost that the map's value is
  -- interpreted as, and the window of the layer is the whole map.
  pub process_map-Processed :
      (junk : ℕ) (m : OccupancyGrid D) (master : Costmap D) (locked : Bool) (s : StaticLayer D)
      → IsValid (s.layer.grid)
      → m.width * m.height + m.width < 4294967296
      → length (m.values) ≡ m.width * m.height
      → Processed m s (process_map d junk m master locked s)
  unfolding process_map fill interpret_value
  process_map-Processed junk m master locked s valid b full =
      let f = fit-Fitted junk m master locked s valid b in
      let p = copied (interpret_value d s) (f.grid.cells) f.size in
      record {
        master = f.master;
        locked = f.locked;
        grid = record (f.grid) { cells = p.0 };
        returns = rw (f.returns, p.1, f.width, f.height) refl;
        width = f.width;
        height = f.height;
        valid = record { size = rw (f.width, f.height) p.2; bounded = rw (f.width, f.height) b };
        cells = p.3;
      }
    where
      inside : (x y : ℕ) → x < m.width → y < m.height → in_rect 0 0 m.width m.height x y ≡ true
      inside x y hx hy = ground arith

      nought : (n : ℕ) → 0 + (n - 0) ≡ n
      nought n = omega arith

      copied :
          (i : ℕ → ℕ) (cells : List ℕ)
          → length cells ≡ m.width * m.height
          → (out : List ℕ) × (write_map i m.values m.width m.height 0 cells ≡ some out)
            × (length out ≡ m.width * m.height)
            × ((x y : ℕ)
                → x < m.width
                → y < m.height
                → cost_at m.width out x y ≡ cost_at m.width (interpreted i m.values) x y)
      copied i cells size =
          let p =
            copy_rows-Pasted (interpreted i (m.values)) (m.width) (m.height) 0 (m.width) (m.height)
              0 (m.width) (length-map (m.values) _ ∙ full) (omega arith) (omega arith) (m.height) 0
              0 0 0 cells size (omega arith) (omega arith) (omega arith) (omega arith) in
          (
            p.out,
            write_map-copy_rows i (m.values) (omega arith) (m.width) (m.height) 0 cells
                  (grind arith) (grind arith) (omega arith)
                ∙ p.returns,
            p.size ∙ size,
            λ x y hx hy. rw (inside x y hx hy, nought x, nought y) at (p.cells x y hx hy),
          )
