-- ===== src/Costmap/Inflation/Visit.antt =====
-- `InflationLayer::updateCosts`: the visit of one cell.
use mathlib.Core.Option.{some-ne-none, some_inj}
use mathlib.Core.Path.{subst}
use navigation_learning.Prelude.{
  ℕ, zero, suc, ◌+◌, ◌*◌, ◌≤◌, ◌<◌, ◌≡◌, sym, ap, ◌∙◌, ◌≢◌, ◌⊎◌, inl, inr, Bool, true, false,
  Option, some, List, [], ◌∷◌, arith, ◌==◌, ==_iff, Bool-cases, get_elem?, set, length-set,
  get_elem?-set_self, get_elem?-set_ne, get_elem?-in, get_elem?-lt,
}
use navigation_learning.Costmap.Doubles.{Doubles}
use navigation_learning.Costmap.Grid.{◌>>=◌}
use package.navigation_learning.Costmap.Inflation.{
  InflationCell, InflationLayer, Wave, inflated, visit_cell,
}
use package.navigation_learning.Costmap.Inflation.Push.{Lies, weight, Tabled, HypotBounds, Runs}
use package.navigation_learning.Costmap.Inflation.Around.{in_grid, enqueue_around-Pushed}

-- The cells without a mark.
abbrev pub left_over : List Bool → ℕ
left_over [] = 0
left_over (true ∷ marks) = left_over marks
left_over (false ∷ marks) = suc (left_over marks)

left_over-set :
    (marks : List Bool) (i : ℕ)
    → get_elem? marks i ≡ some false
    → left_over (set marks i true) + 1 ≡ left_over marks
left_over-set [] i e = absurd (some-ne-none false (sym e))
left_over-set (true ∷ marks) zero e = ground arith
left_over-set (false ∷ marks) zero e = omega arith
left_over-set (true ∷ marks) (suc i) e = left_over-set marks i e
left_over-set (false ∷ marks) (suc i) e = omega (arith, left_over-set marks i e)

-- A cost is not lower than before, unless nothing was known of the cell; and a known one stays known.
abbrev pub Rises : ℕ → ℕ → Type 0
Rises old new = (old ≡ 255) ⊎ ((old ≤ new) × (new ≢ 255))

pub Rises-refl : (a : ℕ) → Rises a a
Rises-refl a = elim (Bool-cases (a == 255)) [
  | inl e ↦ inl ((==_iff a 255).0 e)
  | inr e ↦ inr (omega arith, λ q. ground arith)
]

abbrev pub NotLowered : List ℕ → List ℕ → Type 0
NotLowered before after =
    (i old : ℕ)
    → get_elem? before i ≡ some old
    → (new : ℕ) × (get_elem? after i ≡ some new) × Rises old new

inflated-Rises : (b : Bool) (old cost : ℕ) → cost < 255 → Rises old (inflated b old cost)
inflated-Rises b old cost h = elim (Bool-cases (old == 255)) [
  | inl e ↦ inl ((==_iff old 255).0 e)
  | inr e ↦ inr (rw e (omega arith), rw e (λ q. ground arith))
]

module _ {D : Type 0} (d : Doubles D) (width height : ℕ)
    (bounded : width * height + width < 4294967296) (l : InflationLayer D) (tables : Tabled d l)
    (hypot : HypotBounds d) where
  -- A visit leaves every step of the wave possible and takes it nearer to its end.
  pub record Visited (w : Wave D) (o : Option (Wave D)) : Type 0 where
    pub out : Wave D
    pub returns : o ≡ some out
    pub runs : Runs width height l.cell_inflation_radius out
    pub raises : NotLowered w.master out.master
    pub nearer : 9 * left_over out.seen + weight out ≤ 9 * left_over w.seen + weight w

  -- One write that lowers no known cost.
  NotLowered-set :
      (master : List ℕ) (i old new : ℕ)
      → get_elem? master i ≡ some old
      → Rises old new
      → NotLowered master (set master i new)
  NotLowered-set master i old new e h j other f = elim (Bool-cases (i == j)) [
    | inl b ↦
        let same : i ≡ j = (==_iff i j).0 b in
        let value : other ≡ old = some_inj.0 (sym f ∙ ap (get_elem? master) (sym same) ∙ e) in
        (
          new,
          ap (get_elem? (set master i new)) (sym same)
              ∙ get_elem?-set_self master i new (get_elem?-lt master i old e),
          rw value h,
        )
    | inr b ↦ (other, get_elem?-set_ne master new (ground arith) ∙ f, Rises-refl other)
  ]

  pub visit_cell-Visited :
      (c : InflationCell) (w : Wave D)
      → Lies width height l.cell_inflation_radius c
      → Runs width height l.cell_inflation_radius w
      → Visited w (visit_cell d l width height c w)
  unfolding visit_cell
  visit_cell-Visited c w p s =
      let inside = in_grid c.x c.y width height p.x_in p.y_in in
      let (mark, seen) = get_elem?-in w.seen c.index (omega (arith, s.marks, p.index_at, inside)) in
      let (old, known) =
        get_elem?-in w.master c.index (omega (arith, s.cells, p.index_at, inside)) in
      let (cost, found, small) =
        tables.costs c (omega (arith, p.x_near)) (omega (arith, p.y_near)) in
      elim (Bool-cases mark) [
        | inl e ↦ record {
          out = w;
          returns = rw (visit_cell, seen, ◌>>=◌, e);
          runs = s;
          raises = λ i a f. (a, f, Rises-refl a);
          nearer = omega arith;
        }
        | inr e ↦
            let new = inflated l.inflate_unknown old cost in
            let u : Wave D = record w {
              seen = set w.seen c.index true;
              master = set w.master c.index new;
            } in
            let s_u : Runs width height l.cell_inflation_radius u = record {
              cells = length-set w.master c.index new ∙ s.cells;
              marks = length-set w.seen c.index true ∙ s.marks;
              pending = s.pending;
              later = s.later;
            } in
            let a = enqueue_around-Pushed d width height bounded l tables hypot c u p s_u in
            let fewer = left_over-set w.seen c.index (seen ∙ ap some e) in
            record {
              out = a.out;
              returns = rw (visit_cell, seen, ◌>>=◌, e, found, known) a.returns;
              runs = a.runs;
              raises = subst (NotLowered w.master) (sym a.same_master) (
                  NotLowered-set w.master c.index old new known
                    (inflated-Rises l.inflate_unknown old cost small));
              nearer = omega (arith, ap left_over a.same_seen, fewer, a.little);
            }
      ]
