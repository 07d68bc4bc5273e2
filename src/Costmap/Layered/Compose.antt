-- ===== src/Costmap/Layered/Compose.antt =====
-- What `LayeredCostmap::updateMap` leaves in each cell of the master grid, for layers that each write
-- a cell of the window from the cost that stands there.
use navigation_learning.Prelude.{
  ℕ, ◌-◌, ◌<◌, ◌≡◌, refl, Bool, true, false, Option, none, some, List, [], ◌∷◌, arith,
  if◌then◌else◌,
}
use navigation_learning.Costmap.Doubles.{Doubles}
use navigation_learning.Costmap.Grid.{Costmap, reset_map}
use navigation_learning.Costmap.Grid.Index.{IsValid, cost_at}
use navigation_learning.Costmap.Grid.Region.{in_rect, reset_map_to_value-Painted}
use navigation_learning.Costmap.Extent.{Box}
use navigation_learning.Costmap.Layered.{
  Layer, LayeredCostmap, roll, window, asked_bounds, costs_pass, update_window, update_map,
}
use navigation_learning.Costmap.Layered.Window.{InSize, window-InSize}

-- The result keeps the master's sizes, and each cell of the window has the merged cost.
pub record Composes {D X : Type 0} (merge : ℕ → ℕ → ℕ → ℕ) (c : Costmap D) (x0 y0 xn yn : ℕ)
    (o : Option (X × Costmap D)) : Type 0 where
  pub state : X
  pub out : List ℕ
  pub returns : o ≡ some (state, record c { cells = out })
  pub valid : IsValid (record c { cells = out })
  pub merged :
      (x y : ℕ)
      → x < c.size_x
      → y < c.size_y
      → cost_at c.size_x out x y ≡ (
          if in_rect x0 y0 (xn - x0) (yn - y0) x y
          then merge x y (cost_at c.size_x c.cells x y)
          else cost_at c.size_x c.cells x y)

-- A layer in a state that suits the map's sizes writes what `merge` says.
pub record LayerLaw {D S : Type 0} (L : Layer D S) (merge : S → ℕ → ℕ → ℕ → ℕ)
    (Suits : S → ℕ → ℕ → Type 0) : Type 0 where
  pub composes :
      (s : S) (c : Costmap D) (x0 y0 xn yn : ℕ)
      → IsValid c
      → Suits s c.size_x c.size_y
      → InSize (x0, xn) c.size_x
      → InSize (y0, yn) c.size_y
      → Composes (merge s) c x0 y0 xn yn (L.update_costs s c x0 y0 xn yn)

abbrev pub merge_all : {S : Type 0} → (S → ℕ → ℕ → ℕ → ℕ) → List S → ℕ → ℕ → ℕ → ℕ
merge_all merge [] x y old = old
merge_all merge (s ∷ plugins) x y old = merge_all merge plugins x y (merge s x y old)

abbrev pub AllSuit : {S : Type 0} → (S → ℕ → ℕ → Type 0) → List S → ℕ → ℕ → Type 0
AllSuit Suits [] w h = Unit
AllSuit Suits (s ∷ plugins) w h = Suits s w h × AllSuit Suits plugins w h

-- The cells of the window that `updateMap` computed.
abbrev pub in_window : Option ((ℕ × ℕ) × (ℕ × ℕ)) → ℕ → ℕ → Bool
in_window none x y = false
in_window (some ((x0, xn), (y0, yn))) x y = in_rect x0 y0 (xn - x0) (yn - y0) x y

abbrev OnMap : {D : Type 0} → Costmap D → Option ((ℕ × ℕ) × (ℕ × ℕ)) → Type 0
OnMap c none = Unit
OnMap c (some (xs, ys)) = InSize xs c.size_x × InSize ys c.size_y

module _ {D S : Type 0} (L : Layer D S) (merge : S → ℕ → ℕ → ℕ → ℕ) (Suits : S → ℕ → ℕ → Type 0)
    (law : LayerLaw L merge Suits) where
  costs_pass-Composes :
      (plugins : List S) (c : Costmap D) (x0 y0 xn yn : ℕ)
      → IsValid c
      → AllSuit Suits plugins c.size_x c.size_y
      → InSize (x0, xn) c.size_x
      → InSize (y0, yn) c.size_y
      → Composes (merge_all merge plugins) c x0 y0 xn yn (costs_pass L x0 y0 xn yn plugins c)
  costs_pass-Composes [] c x0 y0 xn yn valid suit fx fy = record {
    state = [];
    out = c.cells;
    returns = refl;
    valid = valid;
    merged = λ x y p q. ground arith;
  }
  costs_pass-Composes (s ∷ plugins) c x0 y0 xn yn valid suit fx fy =
      let first = law.composes s c x0 y0 xn yn valid suit.0 fx fy in
      let rest =
        costs_pass-Composes plugins (record c { cells = first.out }) x0 y0 xn yn first.valid suit.1
          fx fy in
      record {
        state = first.state ∷ rest.state;
        out = rest.out;
        returns = rw (first.returns, rest.returns) refl;
        valid = rest.valid;
        merged = λ x y p q. ground (arith, first.merged x y p q, rest.merged x y p q);
      }

  -- The master after the part of `updateMap` that follows the window.
  record Written (win : Option ((ℕ × ℕ) × (ℕ × ℕ))) (l : LayeredCostmap D S)
      (o : Option (LayeredCostmap D S)) : Type 0 where
    pub result : LayeredCostmap D S
    pub returns : o ≡ some result
    pub valid : IsValid (result.costmap)
    pub cells :
        (x y : ℕ)
        → x < l.costmap.size_x
        → y < l.costmap.size_y
        → cost_at l.costmap.size_x result.costmap.cells x y ≡ (
            if in_window win x y
            then merge_all merge l.plugins x y l.costmap.default_value
            else cost_at l.costmap.size_x l.costmap.cells x y)

  update_window-Written :
      (win : Option ((ℕ × ℕ) × (ℕ × ℕ))) (l : LayeredCostmap D S)
      → IsValid (l.costmap)
      → AllSuit Suits (l.plugins) (l.costmap.size_x) (l.costmap.size_y)
      → OnMap (l.costmap) win
      → Written win l (update_window L win l)
  unfolding update_window reset_map
  update_window-Written none l valid suit fits = record {
    result = l;
    returns = refl;
    valid = valid;
    cells = λ x y p q. refl;
  }
  update_window-Written (some ((x0, xn), (y0, yn))) l valid suit fits =
      let reset =
        reset_map_to_value-Painted l.costmap x0 y0 xn yn l.costmap.default_value valid fits.0
          fits.1 in
      let rest =
        costs_pass-Composes l.plugins (record (l.costmap) { cells = reset.0 }) x0 y0 xn yn reset.2
          suit fits.0 fits.1 in
      record {
        result = record l {
          costmap = record (l.costmap) { cells = rest.out };
          plugins = rest.state;
          bx0 = x0;
          bxn = xn;
          by0 = y0;
          byn = yn;
          initialized = true;
        };
        returns = rw (reset.1, rest.returns) refl;
        valid = rest.valid;
        cells = λ x y p q. ground (arith, reset.3 x y p q, rest.merged x y p q);
      }

  window-OnMap :
      (d : Doubles D) (c : Costmap D) (b : Box D)
      → c.size_x < 4294967296
      → c.size_y < 4294967296
      → OnMap c (window d c b)
  window-OnMap d c b hx hy = found (window d c b) (λ xs ys. window-InSize d c b xs ys hx hy)
    where
      found :
          (win : Option ((ℕ × ℕ) × (ℕ × ℕ)))
          → ((xs ys : ℕ × ℕ) → win ≡ some (xs, ys) → InSize xs c.size_x × InSize ys c.size_y)
          → OnMap c win
      found none f = tt
      found (some (xs, ys)) f = f xs ys refl

  -- The master that `updateMap` works on is `c`, the costmap with its origin moved to the robot if the
  -- window is rolling. For a valid `c` of unsigned height and layers that follow their rule and suit
  -- its size after their bounds were asked for, `updateMap` with at least one layer ends without a
  -- fault and leaves a valid master. Each cell of the window that the layers' bounds give has what the
  -- layers, in their order, make of the default value; every other cell has the cost it has in `c`.
  pub update_map-Written :
      (d : Doubles D) (far near : D) (junk : ℕ) (robot_x robot_y robot_yaw : D) (s : S)
      (plugins : List S) (l : LayeredCostmap D S) (c : Costmap D)
      → l.plugins ≡ s ∷ plugins
      → roll d junk robot_x robot_y l ≡ some c
      → IsValid c
      → c.size_y < 4294967296
      → AllSuit Suits
          (asked_bounds L far near robot_x robot_y robot_yaw (s ∷ plugins)).0
          c.size_x
          c.size_y
      → (result : LayeredCostmap D S) × (update_map L d far near junk robot_x robot_y robot_yaw l
          ≡ some result)
        × IsValid (result.costmap)
        × ((x y : ℕ)
            → x < c.size_x
            → y < c.size_y
            → (let b = asked_bounds L far near robot_x robot_y robot_yaw (s ∷ plugins) in
                cost_at c.size_x result.costmap.cells x y ≡ (
                  if in_window (window d c b.1) x y
                  then merge_all merge b.0 x y c.default_value
                  else cost_at c.size_x c.cells x y)))
  unfolding update_map
  update_map-Written d far near junk robot_x robot_y robot_yaw s plugins l c e r valid small suit =
      let b = asked_bounds L far near robot_x robot_y robot_yaw (s ∷ plugins) in
      let w =
        update_window-Written (window d c b.1)
          (record l { costmap = c; plugins = b.0; bounds = b.1 }) valid suit
          (window-OnMap d c b.1 (omega (arith, valid.bounded)) small) in
      (w.result, rw (r, e) w.returns, w.valid, w.cells)
