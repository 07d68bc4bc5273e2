-- ===== src/Costmap/Layer/Merge.antt =====
-- Each update is a rule for one cell, applied to the cells of the window and to no other.
use navigation_learning.Prelude.{
  ℕ, zero, suc, ◌+◌, ◌-◌, ◌*◌, ◌≤◌, ◌<◌, min, max, ◌≡◌, refl, ap, ◌∙◌, inl, inr, true, ◌&&◌, Option,
  some, List, [], ◌∷◌, arith, u32, ◌==◌, if◌then◌else◌, Bool-cases, length, set, length-set,
}
use navigation_learning.Costmap.Buffer.{at, at-set, within}
use navigation_learning.Costmap.Grid.{Costmap}
use navigation_learning.Costmap.Grid.Index.{IsValid, cost_at, get_elem?-at}
use navigation_learning.Costmap.Grid.Region.{in_rect, row-within, row_fits, index_in_le}
use navigation_learning.Costmap.Layer.{
  CostmapLayer, no_information, inscribed_inflated_obstacle, max_step, true_overwrite_step,
  overwrite_step, addition_step, update_row, update_rows, update_with, update_with_max,
  update_with_true_overwrite, update_with_overwrite, update_with_addition,
}

-- The rules: a layer's cost and the master's cost give the new cost.
unfoldable pub merge_max : ℕ → ℕ → ℕ
merge_max cost old =
    if cost == no_information then old else if old == no_information then cost else max old cost

unfoldable pub merge_overwrite : ℕ → ℕ → ℕ
merge_overwrite cost old = if cost == no_information then old else cost

unfoldable pub merge_addition : ℕ → ℕ → ℕ
merge_addition cost old =
    if cost == no_information
    then old
    else if old == no_information
    then cost
    else min (old + cost) (inscribed_inflated_obstacle - 1)

set_same : (m : List ℕ) (i : ℕ) → set m i (at m i) ≡ m
set_same [] i = refl
set_same (x ∷ m) zero = refl
set_same (x ∷ m) (suc i) = ap (λ l. x ∷ l) (set_same m i)

-- A loop body that writes the merged cost.
abbrev pub Merges : (ℕ → List ℕ → ℕ → Option (List ℕ)) → (ℕ → ℕ → ℕ) → Type 0
Merges step merge =
    (cost : ℕ) (m : List ℕ) (it : ℕ)
    → it < length m
    → step cost m it ≡ some (set m it (merge cost (at m it)))

max_step-Merges : Merges max_step merge_max
unfolding max_step merge_max
max_step-Merges cost m it h = ground (arith, get_elem?-at m it h, set_same m it)

true_overwrite_step-Merges : Merges true_overwrite_step (λ cost old. cost)
unfolding true_overwrite_step
true_overwrite_step-Merges cost m it h = ground arith

overwrite_step-Merges : Merges overwrite_step merge_overwrite
unfolding overwrite_step merge_overwrite
overwrite_step-Merges cost m it h = ground (arith, set_same m it)

addition_step-Merges : Merges addition_step merge_addition
unfolding addition_step merge_addition
addition_step-Merges cost m it h = ground (arith, get_elem?-at m it h, set_same m it)

-- The window of the master was merged, cell by cell.
pub record Merged (merge : ℕ → ℕ → ℕ) (layer : List ℕ) (w h : ℕ) (m : List ℕ) (x0 y0 n rows : ℕ)
    (o : Option (List ℕ)) : Type 0 where
  pub out : List ℕ
  pub returns : o ≡ some out
  pub size : length out ≡ length m
  pub merged :
      (x y : ℕ)
      → x < w
      → y < h
      → cost_at w out x y ≡ (
          if in_rect x0 y0 n rows x y
          then merge (cost_at w layer x y) (cost_at w m x y)
          else cost_at w m x y)

record RowMerged (merge : ℕ → ℕ → ℕ) (layer m : List ℕ) (it n : ℕ) (o : Option (List ℕ))
    : Type 0 where
  out : List ℕ
  returns : o ≡ some out
  size : length out ≡ length m
  merged : (k : ℕ) → at out k ≡ (if within it n k then merge (at layer k) (at m k) else at m k)

module _ (step : ℕ → List ℕ → ℕ → Option (List ℕ)) (merge : ℕ → ℕ → ℕ) (rule : Merges step merge)
    (layer : List ℕ) (w h : ℕ) (bounded : w * h + w < 4294967296)
    (layer_size : length layer ≡ w * h) where
  update_row-RowMerged :
      (n it : ℕ) (m : List ℕ)
      → length m ≡ w * h
      → it + n ≤ w * h
      → RowMerged merge layer m it n (update_row step layer n it m)
  unfolding update_row within
  update_row-RowMerged zero it m size f = record {
    out = m;
    returns = refl;
    size = refl;
    merged = λ k. ground arith;
  }
  update_row-RowMerged (suc n) it m size f =
      let m' = set m it (merge (at layer it) (at m it)) in
      let rest =
        update_row-RowMerged n (u32 (it + 1)) m' (length-set m it _ ∙ size) (omega arith) in
      let next : u32 (it + 1) ≡ it + 1 = omega arith in
      record {
        out = rest.out;
        returns =
            rw (get_elem?-at layer it (omega arith), rule (at layer it) m it (omega arith))
              rest.returns;
        size = rest.size ∙ length-set m it _;
        merged = λ k.
            ground
              (arith, rest.merged k, at-set m it k (merge (at layer it) (at m it)) (omega arith));
      }

  update_rows-Merged :
      (x0 n rows y : ℕ) (m : List ℕ)
      → length m ≡ w * h
      → x0 + n ≤ w
      → y + rows ≤ h
      → Merged merge layer w h m x0 y n rows (update_rows step layer rows y w x0 n m)
  unfolding update_rows
  update_rows-Merged x0 n zero y m size fx fy = record {
    out = m;
    returns = refl;
    size = refl;
    merged = λ a b p q. ground arith;
  }
  update_rows-Merged x0 n (suc rows) y m size fx fy =
      let it = index_in_le w h x0 y bounded (omega arith) (omega arith) in
      let row =
        update_row-RowMerged n (u32 (y * w + x0)) m size
          (omega (arith, it, row_fits w h x0 n y fx (omega arith))) in
      let rest = update_rows-Merged x0 n rows (y + 1) row.out (row.size ∙ size) fx (omega arith) in
      record {
        out = rest.out;
        returns = rw row.returns rest.returns;
        size = rest.size ∙ row.size;
        merged = λ a b p q. ground (
          arith,
          rest.merged a b p q,
          row.merged (b * w + a),
          row-within w x0 y n a b p fx,
          ap (λ t. within t n (b * w + a)) it,
        );
      }

-- A method ended without a fault; it kept the master valid, merged the cells of the window if the
-- layer is enabled, and kept every other cell.
pub record Updated {D : Type 0} (merge : ℕ → ℕ → ℕ) (l : CostmapLayer D) (master : Costmap D)
    (x0 y0 xn yn : ℕ) (o : Option (Costmap D)) : Type 0 where
  pub out : List ℕ
  pub returns : o ≡ some (record master { cells = out })
  pub valid : IsValid (record master { cells = out })
  pub merged :
      (x y : ℕ)
      → x < master.size_x
      → y < master.size_y
      → cost_at master.size_x out x y ≡ (
          if l.enabled && in_rect x0 y0 (xn - x0) (yn - y0) x y
          then merge
              (cost_at master.size_x l.grid.cells x y)
              (cost_at master.size_x master.cells x y)
          else cost_at master.size_x master.cells x y)

module _ {D : Type 0} (l : CostmapLayer D) (master : Costmap D) (x0 y0 xn yn : ℕ) where
  update_with-Updated :
      (step : ℕ → List ℕ → ℕ → Option (List ℕ)) (merge : ℕ → ℕ → ℕ)
      → Merges step merge
      → IsValid master
      → length l.grid.cells ≡ master.size_x * master.size_y
      → (x0 ≤ xn) × (xn ≤ master.size_x)
      → (y0 ≤ yn) × (yn ≤ master.size_y)
      → Updated merge l master x0 y0 xn yn (update_with step l master x0 y0 xn yn)
  unfolding update_with
  update_with-Updated step merge rule valid same hx hy = elim (Bool-cases (l.enabled)) [
    | inl on ↦
        let p =
          update_rows-Merged step merge rule l.grid.cells master.size_x master.size_y valid.bounded
            same x0 (xn - x0) (yn - y0) y0 master.cells valid.size (omega arith) (omega arith) in
        record {
          out = p.out;
          returns = enabled_lem on p.returns;
          valid = record { size = p.size ∙ valid.size; bounded = valid.bounded };
          merged = λ x y p' q'. ground (arith, p.merged x y p' q');
        }
    | inr off ↦ record {
      out = master.cells;
      returns = ground arith;
      valid = valid;
      merged = λ x y p q. ground arith;
    }
  ]
    where
      enabled_lem :
          {out : List ℕ}
          → l.enabled ≡ true
          → update_rows step l.grid.cells (yn - y0) y0 master.size_x x0 (xn - x0) master.cells
            ≡ some out
          → update_with step l master x0 y0 xn yn ≡ some (record master { cells = out })
      enabled_lem on e = ground arith

  -- For a valid master, a layer of the same size and a window on the map, the four update methods
  -- end without a fault and keep the master valid. A disabled layer changes nothing. An enabled one
  -- changes exactly the cells of the window: `updateWithMax` to the greater cost, where an unknown
  -- cost of either side yields to the other; `updateWithTrueOverwrite` to the layer's cost;
  -- `updateWithOverwrite` to the layer's cost if it is known; `updateWithAddition` to the sum, at
  -- most 252, with unknown costs as in `updateWithMax`. A sum of exactly 253 is cut to 252 as well,
  -- where the comment in costmap_layer.hpp speaks of larger sums only.
  pub updates-Updated :
      IsValid master
      → length l.grid.cells ≡ master.size_x * master.size_y
      → (x0 ≤ xn) × (xn ≤ master.size_x)
      → (y0 ≤ yn) × (yn ≤ master.size_y)
      → Updated merge_max l master x0 y0 xn yn (update_with_max l master x0 y0 xn yn)
        × Updated
            (λ cost old. cost)
            l
            master
            x0
            y0
            xn
            yn
            (update_with_true_overwrite l master x0 y0 xn yn)
        × Updated merge_overwrite l master x0 y0 xn yn (update_with_overwrite l master x0 y0 xn yn)
        × Updated merge_addition l master x0 y0 xn yn (update_with_addition l master x0 y0 xn yn)
  unfolding update_with_max update_with_true_overwrite update_with_overwrite update_with_addition
  updates-Updated valid same hx hy = (
    update_with-Updated max_step merge_max max_step-Merges valid same hx hy,
    update_with-Updated true_overwrite_step _ true_overwrite_step-Merges valid same hx hy,
    update_with-Updated overwrite_step merge_overwrite overwrite_step-Merges valid same hx hy,
    update_with-Updated addition_step merge_addition addition_step-Merges valid same hx hy,
  )
