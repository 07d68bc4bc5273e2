-- ===== src/Costmap/Inflation/Spread.antt =====
-- `InflationLayer::updateCosts`: the loops over the bins, and the whole call.
use navigation_learning.Prelude.{
  ℕ, zero, suc, ◌+◌, ◌-◌, ◌*◌, ◌≤◌, ◌<◌, ◌≡◌, refl, ap, inl, inr, Bool, false, not, ◌||◌, Option,
  some, List, [], ◌∷◌, ◌++◌, arith, u32, ◌==◌, Bool-cases, length, replicate, length-replicate,
  get_elem?-in,
}
use navigation_learning.Prelude.Int.{ℤ, pos, pos_part}
use navigation_learning.Costmap.Doubles.{Doubles, to_i32}
use navigation_learning.Costmap.Grid.{Costmap, ◌>>=◌, index_in}
use package.navigation_learning.Costmap.Inflation.{
  InflationCell, InflationLayer, Wave, visit_bins, obstacles_in_row, obstacles, widened_lower,
  widened_upper, wave_fuel, update_inflation_costs,
}
use package.navigation_learning.Costmap.Inflation.Push.{
  AllLie, weight, Tabled, HypotBounds, Runs, AllLie-append,
}
use package.navigation_learning.Costmap.Inflation.Around.{in_grid}
use package.navigation_learning.Costmap.Inflation.Visit.{
  left_over, Rises-refl, NotLowered, visit_cell-Visited,
}

left_over-replicate : (n : ℕ) → left_over (replicate n false) ≡ n
left_over-replicate zero = refl
left_over-replicate (suc n) = ap suc (left_over-replicate n)

NotLowered-trans : (a b c : List ℕ) → NotLowered a b → NotLowered b c → NotLowered a c
NotLowered-trans a b c f g i old e =
    let (mid, at_mid, p) = f i old e in
    let (new, at_new, q) = g i mid at_mid in
    (
      new,
      at_new,
      elim p [
        | inl u ↦ inl u
        | inr u ↦ elim q [ inl v ↦ absurd (u.1 v) | inr v ↦ inr (omega (arith, u.0, v.0), v.1) ]
      ],
    )

module _ {D : Type 0} (d : Doubles D) (width height : ℕ)
    (bounded : width * height + width < 4294967296) (l : InflationLayer D) (tables : Tabled d l)
    (hypot : HypotBounds d) where
  record Ended (w : Wave D) (o : Option (Wave D)) : Type 0 where
    out : Wave D
    returns : o ≡ some out
    raises : NotLowered w.master out.master

  abbrev wave : List ℕ → List Bool → D → List InflationCell → List (D × List InflationCell) → Wave D
  wave master seen key pending later = record {
    master = master;
    seen = seen;
    key = key;
    pending = pending;
    later = later;
  }

  visit_bins-Ended :
      (fuel : ℕ) (master : List ℕ) (seen : List Bool) (key : D) (pending : List InflationCell)
      (later : List (D × List InflationCell))
      → let w = wave master seen key pending later in
        Runs width height l.cell_inflation_radius w
        → 9 * left_over seen + weight w < fuel
        → Ended w (visit_bins d fuel l width height w)
  unfolding visit_bins
  visit_bins-Ended zero master seen key pending later s h = absurd (omega arith)
  visit_bins-Ended (suc fuel) master seen key [] [] s h = record {
    out = wave master seen key [] [];
    returns = refl;
    raises = λ i a f. (a, f, Rises-refl a);
  }
  visit_bins-Ended (suc fuel) master seen key [] (bin ∷ bins) s h =
      let next : Runs width height l.cell_inflation_radius (wave master seen (bin.0) (bin.1) bins) =
        record { cells = s.cells; marks = s.marks; pending = s.later.0; later = s.later.1 } in
      let r = visit_bins-Ended fuel master seen (bin.0) (bin.1) bins next (omega arith) in
      record { out = r.out; returns = r.returns; raises = r.raises }
  visit_bins-Ended (suc fuel) master seen key (c ∷ cells) later s h =
      let next : Runs width height l.cell_inflation_radius (wave master seen key cells later) =
        record { cells = s.cells; marks = s.marks; pending = s.pending.1; later = s.later } in
      let v =
        visit_cell-Visited d width height bounded l tables hypot c
          (wave master seen key cells later) (s.pending.0) next in
      let o = v.out in
      let r =
        visit_bins-Ended fuel o.master o.seen o.key o.pending o.later v.runs
          (omega (arith, v.nearer)) in
      record {
        out = r.out;
        returns = rw (visit_bins, v.returns, ◌>>=◌) r.returns;
        raises = NotLowered-trans master o.master r.out.master v.raises r.raises;
      }

widened_upper-le : (radius size : ℕ) (a : ℤ) → widened_upper radius size a ≤ size
widened_upper-le radius size a = omega (arith, signed_le size)
  where
    signed_le : (n : ℕ) → pos_part (to_i32 n) ≤ n
    signed_le n = ground arith

-- The obstacles of a map lie on its grid, each at no distance from itself.
record Listed (w h r : ℕ) (o : Option (List InflationCell)) : Type 0 where
  out : List InflationCell
  returns : o ≡ some out
  lie : AllLie w h r out

module _ {D : Type 0} (master : Costmap D) (r : ℕ)
    (size : length master.cells ≡ master.size_x * master.size_y)
    (bounded : master.size_x * master.size_y + master.size_x < 2147483648) where
  signed_lem : (n : ℕ) → n < 2147483648 → to_i32 n ≡ pos n
  signed_lem n h = ground arith

  obstacles_in_row-Listed :
      (j columns i : ℕ)
      → j < master.size_y
      → (0 < columns → i + columns ≤ master.size_x)
      → Listed master.size_x master.size_y r (obstacles_in_row master j columns i)
  unfolding obstacles_in_row
  obstacles_in_row-Listed j zero i hj hi = record { out = []; returns = refl; lie = tt }
  obstacles_in_row-Listed j (suc columns) i hj hi =
      let fits = hi (omega arith) in
      let inside = in_grid i j master.size_x master.size_y (omega arith) hj in
      let index : index_in master.size_x i j ≡ j * master.size_x + i =
        omega (arith, inside, bounded) in
      let signed =
        signed_lem (index_in master.size_x i j) (omega (arith, index, inside, bounded)) in
      let (cost, known) =
        get_elem?-in master.cells (index_in master.size_x i j)
          (omega (arith, index, size, inside)) in
      let rest = obstacles_in_row-Listed j columns (suc i) hj (λ q. omega (arith, fits)) in
      let cell : InflationCell = record {
        index = index_in master.size_x i j;
        x = i;
        y = j;
        src_x = i;
        src_y = j;
      } in
      elim (Bool-cases (cost == 254)) [
        | inl e ↦ record {
          out = cell ∷ rest.out;
          returns = rw (obstacles_in_row, signed, known, ◌>>=◌, rest.returns, e);
          lie = (
            record {
              x_in = omega arith;
              y_in = hj;
              index_at = index;
              x_near = ground arith;
              y_near = ground arith;
            },
            rest.lie,
          );
        }
        | inr e ↦ record {
          out = rest.out;
          returns = rw (obstacles_in_row, signed, known, ◌>>=◌, rest.returns, e);
          lie = rest.lie;
        }
      ]

  obstacles-Listed :
      (i columns rows j : ℕ)
      → (0 < columns → i + columns ≤ master.size_x)
      → (0 < rows → j + rows ≤ master.size_y)
      → Listed master.size_x master.size_y r (obstacles master i columns rows j)
  unfolding obstacles
  obstacles-Listed i columns zero j hi hj = record { out = []; returns = refl; lie = tt }
  obstacles-Listed i columns (suc rows) j hi hj =
      let fits = hj (omega arith) in
      let row = obstacles_in_row-Listed j columns i (omega arith) hi in
      let rest = obstacles-Listed i columns rows (suc j) hi (λ q. omega (arith, fits)) in
      record {
        out = row.out ++ rest.out;
        returns = rw (obstacles, row.returns, ◌>>=◌, rest.returns);
        lie = AllLie-append master.size_x master.size_y r row.out rest.out row.lie rest.lie;
      }

module _ {D : Type 0} (d : Doubles D) where
  -- A call of updateCosts that returns, with the costs after it.
  pub record Inflated (l : InflationLayer D) (master : Costmap D)
      (o : Option (InflationLayer D × Costmap D)) : Type 0 where
    pub layer : InflationLayer D
    pub out : Costmap D
    pub returns : o ≡ some (layer, out)
    pub same_size : (out.size_x ≡ master.size_x) × (out.size_y ≡ master.size_y)
    pub raises : NotLowered master.cells out.cells

  -- For a grid with fewer than 2^31 cells, with one row more counted, and a layer whose tables reach a
  -- cell further than its radius, with no cost of 255 among them, where a hypotenuse within the radius
  -- has both its sides within it: inflating any window ends, reads no array outside its bounds, and
  -- leaves each cost as it was or higher, but for the costs of 255; no other cost becomes 255.
  pub update_inflation_costs-Inflated :
      (min_i min_j max_i max_j : ℤ) (l : InflationLayer D) (master : Costmap D)
      → length master.cells ≡ master.size_x * master.size_y
      → master.size_x * master.size_y + master.size_x < 2147483648
      → Tabled d l
      → HypotBounds d
      → Inflated l master (update_inflation_costs d min_i min_j max_i max_j l master)
  unfolding update_inflation_costs
  update_inflation_costs-Inflated min_i min_j max_i max_j l master size bounded tables hypot =
      elim (Bool-cases (not l.enabled || (l.cell_inflation_radius == 0))) [
        | inl e ↦ record {
          layer = l;
          out = master;
          returns = rw (update_inflation_costs, e);
          same_size = (refl, refl);
          raises = λ i a f. (a, f, Rises-refl a);
        }
        | inr e ↦
            let r = l.cell_inflation_radius in
            let x0 = widened_lower r min_i in
            let y0 = widened_lower r min_j in
            let xn = widened_upper r master.size_x max_i in
            let yn = widened_upper r master.size_y max_j in
            let o =
              obstacles-Listed master r size bounded x0 (xn - x0) (yn - y0) y0
                (λ q. omega (arith, q, widened_upper-le r master.size_x max_i))
                (λ q. omega (arith, q, widened_upper-le r master.size_y max_j)) in
            let marks = replicate (u32 (master.size_x * master.size_y)) false in
            let many = length-replicate (u32 (master.size_x * master.size_y)) false in
            let s : Runs master.size_x master.size_y r (
                wave d master.size_x master.size_y (omega (arith, bounded)) l tables hypot
                  master.cells marks (d.of_ℕ 0) o.out []) =
              record {
                cells = size;
                marks = omega (arith, many, bounded);
                pending = o.lie;
                later = tt;
              } in
            let w =
              visit_bins-Ended d master.size_x master.size_y (omega (arith, bounded)) l tables hypot
                (wave_fuel master.size_x master.size_y (length o.out)) master.cells marks (d.of_ℕ 0)
                o.out [] s
                (omega
                  (arith, left_over-replicate (u32 (master.size_x * master.size_y)), bounded)) in
            record {
              layer = record l { seen = w.out.seen };
              out = record master { cells = w.out.master };
              returns = rw (update_inflation_costs, e, o.returns, ◌>>=◌, w.returns);
              same_size = (refl, refl);
              raises = w.raises;
            }
      ]
