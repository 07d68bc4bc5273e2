-- ===== src/Costmap/Static/Updates.antt =====
-- What `processMap` and `incomingUpdate` of `StaticLayer` leave in the layer's grid.
use navigation_learning.Prelude.{
  ℕ, ◌+◌, ◌-◌, ◌*◌, ◌≤◌, ◌<◌, ◌≡◌, refl, sym, ap, ◌∙◌, Bool, true, false, not, ◌&&◌, Option, none,
  some, List, arith, leb, if◌then◌else◌, length, length-map,
}
use mathlib.Core.Option.{some-ne-none, some_inj}
use native.Mathlib.Nat.{zero-add}
use navigation_learning.Prelude.Int.{pos}
use navigation_learning.Costmap.Doubles.{Doubles, to_u32}
use navigation_learning.Costmap.Grid.{Costmap, ◌>>=◌}
use navigation_learning.Costmap.Grid.Index.{IsValid, cost_at}
use navigation_learning.Costmap.Grid.Region.{in_rect, copy_rows-Pasted}
use navigation_learning.Costmap.Messages.{OccupancyGridUpdate}
use navigation_learning.Costmap.Static.{
  StaticLayer, interpret_value, with_grid, exceeds, incoming_update, write_update,
}
use navigation_learning.Costmap.Static.Fill.{interpreted, write_update-copy_rows}

-- The layer took the update at (ux, uy): the cells of its rectangle have the costs that the values
-- are interpreted as, and the rectangle is the layer's window.
pub record Taken {D : Type 0} (d : Doubles D) (update : OccupancyGridUpdate) (s : StaticLayer D)
    (ux uy : ℕ) (o : Option (StaticLayer D)) : Type 0 where
  pub out : List ℕ
  pub returns :
      o
      ≡ some (record (with_grid d s (record (s.layer.grid) { cells = out })) {
        x = ux;
        y = uy;
        width = update.width;
        height = update.height;
        has_updated_data = true;
      })
  pub valid : IsValid (record (s.layer.grid) { cells = out })
  pub taken :
      (x y : ℕ)
      → x < s.layer.grid.size_x
      → y < s.layer.grid.size_y
      → cost_at s.layer.grid.size_x out x y ≡ (
          if in_rect ux uy update.width update.height x y
          then cost_at update.width
              (interpreted (interpret_value d s) update.values)
              (x - ux)
              (y - uy)
          else cost_at s.layer.grid.size_x s.layer.grid.cells x y)

module _ {D : Type 0} (d : Doubles D) (update : OccupancyGridUpdate) (s : StaticLayer D) (ux uy : ℕ)
    (valid : IsValid (s.layer.grid)) where
  -- An update at (ux, uy) of a valid layer, which lies on the layer's map and has a value for each
  -- cell. If it exceeds the layer's window, nothing changes. Otherwise there is no fault, the layer
  -- stays valid, each cell of the update's rectangle has the cost that its value is interpreted as,
  -- every other cell is kept, and the update's rectangle becomes the layer's window.
  pub incoming_update-Taken :
      s.layer.grid.size_y < 4294967296
      → (update.x ≡ pos ux) × (update.y ≡ pos uy)
      → (ux + update.width ≤ s.layer.grid.size_x) × (uy + update.height ≤ s.layer.grid.size_y)
      → (length (update.values) ≡ update.width * update.height)
        × (update.width * update.height < 4294967296)
      → (exceeds d update s ≡ true → incoming_update d update s ≡ some s)
        × (exceeds d update s ≡ false → Taken d update s ux uy (incoming_update d update s))
  unfolding incoming_update
  incoming_update-Taken tall (ex, ey) (fx, fy) (full, small) = (λ e. rw e refl, accepted)
    where
      c : Costmap D
      c = s.layer.grid

      values : List ℕ
      values = interpreted (interpret_value d s) (update.values)

      accepted : exceeds d update s ≡ false → Taken d update s ux uy (incoming_update d update s)
      accepted e =
          let size : length values ≡ update.width * update.height =
            length-map (update.values) _ ∙ full in
          let at_x : to_u32 (update.x) ≡ ux = rw ex (omega (arith, valid.bounded)) in
          let at_y : to_u32 (update.y) ≡ uy = rw ey (omega arith) in
          let loop =
            write_update-copy_rows (interpret_value d s) update (c.size_x) (c.size_y) ux uy
              (update.height) 0 0 (c.cells) (at_x, at_y) (valid.size, valid.bounded, tall)
              (omega arith) (grind arith) (fx, omega arith) in
          let p =
            copy_rows-Pasted values (update.width) (update.height) 0 (c.size_x) (c.size_y) ux
              (update.width) size (omega arith) fx (update.height) 0 ((uy + 0) * c.size_x + ux) 0 uy
              (c.cells) (valid.size) (omega arith) (grind arith) (omega arith) fy in
          record {
            out = p.out;
            returns = rw (e, loop, p.returns, at_x, at_y) refl;
            valid = record { size = p.size ∙ valid.size; bounded = valid.bounded };
            taken = λ x y hx hy. rw (zero-add (x - ux), zero-add (y - uy)) at (p.cells x y hx hy);
          }

-- The rectangle of an update lies in the layer's window.
abbrev pub in_layer : {D : Type 0} → StaticLayer D → ℕ → ℕ → ℕ → ℕ → Bool
in_layer s x y width height =
    leb s.x x && leb (x + width) (s.x + s.width) && leb s.y y && leb (y + height) (s.y + s.height)

exceeds_lem :
    {D : Type 0} (d : Doubles D) (update : OccupancyGridUpdate) (s : StaticLayer D) (x y : ℕ)
    → (update.x ≡ pos x) × (update.y ≡ pos y)
    → (s.x + s.width < 2147483648) × (s.y + s.height < 2147483648)
    → (x + update.width < 2147483648) × (y + update.height < 2147483648)
    → exceeds d update s ≡ not (in_layer s x y update.width update.height)
unfolding exceeds
exceeds_lem d update s x y (ex, ey) small small' = rw (ex, ey) (ground arith)

accepted_window :
    {D : Type 0} (d : Doubles D) (update : OccupancyGridUpdate) (s s' : StaticLayer D)
    → exceeds d update s ≡ false
    → incoming_update d update s ≡ some s'
    → (s'.x ≡ to_u32 update.x)
      × (s'.y ≡ to_u32 update.y)
      × (s'.width ≡ update.width)
      × (s'.height ≡ update.height)
unfolding incoming_update
accepted_window d update s s' h e =
    window
      (write_update (interpret_value d s) update s.layer.grid.size_x update.height 0 0
        s.layer.grid.cells)
      (rw h at e)
  where
    window :
        (o : Option (List ℕ))
        → (o >>= λ cells. some (record (with_grid d s (record (s.layer.grid) { cells = cells })) {
          x = to_u32 update.x;
          y = to_u32 update.y;
          width = update.width;
          height = update.height;
          has_updated_data = true;
        }))
          ≡ some s'
        → (s'.x ≡ to_u32 update.x)
          × (s'.y ≡ to_u32 update.y)
          × (s'.width ≡ update.width)
          × (s'.height ≡ update.height)
    window none q = absurd (some-ne-none _ (sym q))
    window (some cells) q =
        let r = some_inj.0 (sym q) in
        (ap (λ t. t.x) r, ap (λ t. t.y) r, ap (λ t. t.width) r, ap (λ t. t.height) r)

-- After the layer took one update, another whose rectangle does not lie in the first one's is ignored,
-- wherever it lies on the map. The coordinates of both are small enough for `int`.
pub incoming_update_narrows :
    {D : Type 0} (d : Doubles D) (first second : OccupancyGridUpdate) (s s' : StaticLayer D)
    (x y x' y' : ℕ)
    → (first.x ≡ pos x) × (first.y ≡ pos y)
    → (second.x ≡ pos x') × (second.y ≡ pos y')
    → (x + first.width < 2147483648) × (y + first.height < 2147483648)
    → (x' + second.width < 2147483648) × (y' + second.height < 2147483648)
    → exceeds d first s ≡ false
    → incoming_update d first s ≡ some s'
    → (leb x x'
        && leb (x' + second.width) (x + first.width)
        && leb y y'
        && leb (y' + second.height) (y + first.height))
      ≡ false
    → incoming_update d second s' ≡ some s'
unfolding incoming_update
incoming_update_narrows d first second s s' x y x' y' (ex, ey) at small small' h e out =
    rw rejected refl
  where
    w :
        (s'.x ≡ to_u32 first.x)
        × (s'.y ≡ to_u32 first.y)
        × (s'.width ≡ first.width)
        × (s'.height ≡ first.height)
    w = accepted_window d first s s' h e

    sx : s'.x ≡ x
    sx = rw ex at w.0 ∙ omega arith

    sy : s'.y ≡ y
    sy = rw ey at w.1 ∙ omega arith

    rejected : exceeds d second s' ≡ true
    rejected =
        exceeds_lem d second s' x' y' at
          (omega (arith, sx, sy, w.2, w.3), omega (arith, sx, sy, w.2, w.3)) small'
        ∙ rw (sx, sy, w.2, w.3, out) refl
