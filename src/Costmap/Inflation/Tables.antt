-- ===== src/Costmap/Inflation/Tables.antt =====
-- `InflationLayer::computeCaches`: the tables of distances and costs.
use mathlib.Core.Path.{subst}
use navigation_learning.Prelude.{
  ℕ, zero, suc, ◌+◌, ◌<◌, ◌≡◌, sym, ap, ◌∙◌, false, some, List, [], ◌∷◌, map, arith, ◌==◌,
  get_elem?,
}
use navigation_learning.Costmap.Doubles.{Doubles}
use navigation_learning.Costmap.Grid.{◌>>=◌}
use package.navigation_learning.Costmap.Inflation.{
  InflationLayer, gap, tabulate, compute_cost, distance_table, compute_caches,
}
use package.navigation_learning.Costmap.Inflation.Push.{Tabled}

get_elem?-tabulate :
    {A : Type 0} (n i k : ℕ) (f : ℕ → A) → k < n → get_elem? (tabulate n i f) k ≡ some (f (i + k))
get_elem?-tabulate zero i k f h = absurd (omega arith)
get_elem?-tabulate (suc n) i zero f h = ap (λ m. some (f m)) (omega arith)
get_elem?-tabulate (suc n) i (suc k) f h =
    get_elem?-tabulate n (suc i) k f (omega arith) ∙ ap (λ m. some (f m)) (omega arith)

get_elem?-mapped :
    {A B : Type 0} (h : A → B) (xs : List A) (i : ℕ) (a : A)
    → get_elem? xs i ≡ some a
    → get_elem? (map h xs) i ≡ some (h a)
get_elem?-mapped h [] i a e = ground arith
get_elem?-mapped h (x ∷ xs) zero a e = ground arith
get_elem?-mapped h (x ∷ xs) (suc i) a e = get_elem?-mapped h xs i a e

module _ {D : Type 0} (d : Doubles D) (exp : D → D) where
  abbrev entry_of : ℕ → ℕ → D
  entry_of i j = d.hypot (d.of_ℕ i) (d.of_ℕ j)

  abbrev row_of : ℕ → ℕ → List D
  row_of radius i = tabulate (radius + 2) 0 (entry_of i)

  distance_row :
      (radius i : ℕ)
      → i < radius + 2
      → get_elem? (distance_table d radius) i ≡ some (row_of radius i)
  distance_row radius i h =
      get_elem?-tabulate (radius + 2) 0 i (row_of radius) h
      ∙ ap (λ m. some (row_of radius m)) (omega arith)

  distance_entry :
      (radius i j : ℕ) → j < radius + 2 → get_elem? (row_of radius i) j ≡ some (entry_of i j)
  distance_entry radius i j h =
      get_elem?-tabulate (radius + 2) 0 j (entry_of i) h
      ∙ ap (λ m. some (entry_of i m)) (omega arith)

  -- For a layer whose radius is not 0 and has changed, and whose costs all stay below 255:
  -- computing the caches gives tables that reach a cell further than the radius and hold the
  -- hypotenuses and costs below 255.
  pub compute_caches-Tabled :
      (l : InflationLayer D)
      → (l.cell_inflation_radius == 0) ≡ false
      → (l.cell_inflation_radius == l.cached_cell_inflation_radius) ≡ false
      → ((distance : D) → compute_cost d exp l distance < 255)
      → Tabled d (compute_caches d exp l)
  unfolding compute_caches
  compute_caches-Tabled l some_radius changed small =
      let r = l.cell_inflation_radius in
      let tabled : InflationLayer D = record l {
        cached_cell_inflation_radius = r;
        cached_distances = distance_table d r;
        cached_costs = map (map (compute_cost d exp l)) (distance_table d r);
      } in
      let computed : compute_caches d exp l ≡ tabled = rw (compute_caches, some_radius, changed) in
      subst (Tabled d) (sym computed) (record {
        distances = λ c h k.
            rw (distance_row r (gap c.x c.src_x) (omega (arith, h)), ◌>>=◌)
              (distance_entry r (gap c.x c.src_x) (gap c.y c.src_y) (omega (arith, k)));
        costs = λ c h k.
            let i = gap c.x c.src_x in
            let j = gap c.y c.src_y in
            let row =
              get_elem?-mapped (map (compute_cost d exp l)) (distance_table d r) i (row_of r i)
                (distance_row r i (omega (arith, h))) in
            let entry =
              get_elem?-mapped (compute_cost d exp l) (row_of r i) j (entry_of i j)
                (distance_entry r i j (omega (arith, k))) in
            (compute_cost d exp l (entry_of i j), rw (row, ◌>>=◌) entry, small (entry_of i j));
      })
