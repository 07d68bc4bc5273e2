-- ===== src/Costmap/Static/Composes.antt =====
-- Static layers as layers of a `LayeredCostmap`.
use navigation_learning.Prelude.{
  ℕ, ◌*◌, ◌≡◌, refl, inl, inr, true, false, Option, some, arith, if◌then◌else◌, Bool-cases, length,
}
use navigation_learning.Costmap.Doubles.{Doubles}
use navigation_learning.Costmap.Grid.{Costmap, ◌>>=◌}
use navigation_learning.Costmap.Grid.Index.{cost_at}
use navigation_learning.Costmap.Layer.{update_with_max, update_with_true_overwrite}
use navigation_learning.Costmap.Layer.Merge.{merge_max, updates-Updated}
use navigation_learning.Costmap.Layered.{Layer}
use navigation_learning.Costmap.Layered.Compose.{LayerLaw}
use navigation_learning.Costmap.Static.{StaticLayer, match_static, update_bounds, update_costs}

module _ {D : Type 0} where
  unfoldable pub static_layer :
      Doubles D → D → D → ℕ → Option (D × D → D × D) → Layer D (StaticLayer D)
  static_layer d far near junk transform = record {
    update_bounds = λ s robot_x robot_y robot_yaw b. update_bounds d far near s b;
    update_costs =
        λ s c x0 y0 xn yn. update_costs d transform s c x0 y0 xn yn >>= λ c'. some (s, c');
    match_size = λ s master. match_static d junk master s;
    is_current = λ s. s.current;
  }

  -- What a layer makes of the cost of a cell.
  abbrev pub merge_static : StaticLayer D → ℕ → ℕ → ℕ → ℕ
  merge_static s x y old =
      let cost = cost_at s.layer.grid.size_x s.layer.grid.cells x y in
      if s.layer.enabled then if s.use_maximum then merge_max cost old else cost else old

  -- A layer of a costmap that does not roll, whose grid has the master's width and cells for its size.
  abbrev pub SuitsStatic : StaticLayer D → ℕ → ℕ → Type 0
  SuitsStatic s w h =
      (s.is_rolling ≡ false) × (s.layer.grid.size_x ≡ w) × (length s.layer.grid.cells ≡ w * h)

  -- The branches of `updateCosts` for a costmap that does not roll.
  update_costs_branches :
      (d : Doubles D) (t : Option (D × D → D × D)) (s : StaticLayer D) (c : Costmap D)
      (x0 y0 xn yn : ℕ)
      → s.is_rolling ≡ false
      → (s.layer.enabled ≡ false → update_costs d t s c x0 y0 xn yn ≡ some c)
        × (s.layer.enabled ≡ true
            → s.use_maximum ≡ true
            → update_costs d t s c x0 y0 xn yn ≡ update_with_max s.layer c x0 y0 xn yn)
        × (s.layer.enabled ≡ true
            → s.use_maximum ≡ false
            → update_costs d t s c x0 y0 xn yn ≡ update_with_true_overwrite s.layer c x0 y0 xn yn)
  unfolding update_costs
  update_costs_branches d t s c x0 y0 xn yn off =
      (λ a. ground arith, λ a b. ground arith, λ a b. ground arith)

  pub static_layer-LayerLaw :
      (d : Doubles D) (far near : D) (junk : ℕ) (transform : Option (D × D → D × D))
      → LayerLaw (static_layer d far near junk transform) merge_static SuitsStatic
  unfolding static_layer
  static_layer-LayerLaw d far near junk transform = record {
    composes = λ s c x0 y0 xn yn valid (off, wide, full) fx fy.
        let u = updates-Updated s.layer c x0 y0 xn yn valid full fx fy in
        let branches = update_costs_branches d transform s c x0 y0 xn yn off in
        elim (Bool-cases (s.layer.enabled)) [
          | inr e ↦ record {
            state = s;
            out = c.cells;
            returns = rw (branches.0 e) refl;
            valid = valid;
            merged = λ x y p q. ground arith;
          }
          | inl e ↦ elim (Bool-cases (s.use_maximum)) [
            | inl m ↦ record {
              state = s;
              out = u.0.out;
              returns = rw (branches.1 e m, u.0.returns) refl;
              valid = u.0.valid;
              merged = λ x y p q. rw wide (ground (arith, u.0.merged x y p q));
            }
            | inr m ↦ record {
              state = s;
              out = u.1.out;
              returns = rw (branches.2 e m, u.1.returns) refl;
              valid = u.1.valid;
              merged = λ x y p q. rw wide (ground (arith, u.1.merged x y p q));
            }
          ]
        ];
  }
