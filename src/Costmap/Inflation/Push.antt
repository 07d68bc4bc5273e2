-- ===== src/Costmap/Inflation/Push.antt =====
-- `InflationLayer::enqueue`: the cells that wait, and how many.
use navigation_learning.Prelude.{
  ℕ, ◌+◌, ◌*◌, ◌≤◌, ◌<◌, ◌≡◌, refl, inl, inr, false, Option, some, List, [], ◌∷◌, ◌++◌, arith,
  Bool-cases, length, length-append,
}
use navigation_learning.Costmap.Doubles.{Doubles}
use package.navigation_learning.Costmap.Inflation.{
  InflationCell, InflationLayer, Wave, gap, lookup, push_later, push,
}

-- A cell of the grid whose obstacle is at most `reach` away along each axis.
pub record Lies (w h reach : ℕ) (c : InflationCell) : Type 0 where
  pub x_in : c.x < w
  pub y_in : c.y < h
  pub index_at : c.index ≡ c.y * w + c.x
  pub x_near : gap c.x c.src_x ≤ reach
  pub y_near : gap c.y c.src_y ≤ reach

abbrev pub AllLie : ℕ → ℕ → ℕ → List InflationCell → Type 0
AllLie w h reach [] = Unit
AllLie w h reach (c ∷ cells) = Lies w h reach c × AllLie w h reach cells

abbrev pub BinsLie : {D : Type 0} → ℕ → ℕ → ℕ → List (D × List InflationCell) → Type 0
BinsLie w h reach [] = Unit
BinsLie w h reach (bin ∷ bins) = AllLie w h reach (bin.1) × BinsLie w h reach bins

-- The cells that wait in bins, and one for each bin.
abbrev pub weight_of : {D : Type 0} → List (D × List InflationCell) → ℕ
weight_of [] = 0
weight_of (bin ∷ bins) = length (bin.1) + 1 + weight_of bins

abbrev pub weight : {D : Type 0} → Wave D → ℕ
weight w = length w.pending + weight_of w.later

pub AllLie-append :
    (w h r : ℕ) (cells more : List InflationCell)
    → AllLie w h r cells
    → AllLie w h r more
    → AllLie w h r (cells ++ more)
AllLie-append w h r [] more a b = b
AllLie-append w h r (c ∷ cells) more (p, a) b = (p, AllLie-append w h r cells more a b)

-- The tables of a layer reach a cell further than its radius, and no cost is that of the unknown.
pub record Tabled {D : Type 0} (d : Doubles D) (l : InflationLayer D) : Type 0 where
  pub distances :
      (c : InflationCell)
      → gap c.x c.src_x ≤ l.cell_inflation_radius + 1
      → gap c.y c.src_y ≤ l.cell_inflation_radius + 1
      → lookup l.cached_distances c
        ≡ some (d.hypot (d.of_ℕ (gap c.x c.src_x)) (d.of_ℕ (gap c.y c.src_y)))
  pub costs :
      (c : InflationCell)
      → gap c.x c.src_x ≤ l.cell_inflation_radius + 1
      → gap c.y c.src_y ≤ l.cell_inflation_radius + 1
      → (cost : ℕ) × (lookup l.cached_costs c ≡ some cost) × (cost < 255)

-- A distance that is not above the radius has both its parts within it.
abbrev pub HypotBounds : {D : Type 0} → Doubles D → Type 0
HypotBounds d =
    (r i j : ℕ) → d.lt (d.of_ℕ r) (d.hypot (d.of_ℕ i) (d.of_ℕ j)) ≡ false → (i ≤ r) × (j ≤ r)

-- A wave over a grid: its tables have the grid's size and its cells lie on it.
pub record Runs {D : Type 0} (width height reach : ℕ) (w : Wave D) : Type 0 where
  pub cells : length w.master ≡ width * height
  pub marks : length w.seen ≡ width * height
  pub pending : AllLie width height reach w.pending
  pub later : BinsLie width height reach w.later

-- A step of a wave that writes nothing and adds little.
pub record Pushed {D : Type 0} (width height reach : ℕ) (w : Wave D) (more : ℕ)
    (o : Option (Wave D)) : Type 0 where
  pub out : Wave D
  pub returns : o ≡ some out
  pub runs : Runs width height reach out
  pub same_master : out.master ≡ w.master
  pub same_seen : out.seen ≡ w.seen
  pub little : weight out ≤ weight w + more

module _ {D : Type 0} (d : Doubles D) (width height : ℕ) where
  push_later-BinsLie :
      (r : ℕ) (distance : D) (c : InflationCell) (bins : List (D × List InflationCell))
      → Lies width height r c
      → BinsLie width height r bins
      → BinsLie width height r (push_later d distance c bins)
  unfolding push_later
  push_later-BinsLie r distance c [] p b = ((p, tt), tt)
  push_later-BinsLie r distance c (bin ∷ bins) p (a, b) =
      elim (Bool-cases (d.lt distance (bin.0))) [
        | inl e ↦ rw e ((p, tt), (a, b))
        | inr e ↦ elim (Bool-cases (d.lt (bin.0) distance)) [
          | inl f ↦ rw (e, f) (a, push_later-BinsLie r distance c bins p b)
          | inr f ↦ rw (e, f) (AllLie-append width height r (bin.1) (c ∷ []) a (p, tt), b)
        ]
      ]

  push_later-weight :
      (distance : D) (c : InflationCell) (bins : List (D × List InflationCell))
      → weight_of (push_later d distance c bins) ≤ weight_of bins + 2
  unfolding push_later
  push_later-weight distance c [] = omega arith
  push_later-weight distance c (bin ∷ bins) =
      ground (arith, push_later-weight distance c bins, length-append (bin.1) (c ∷ []))

  pub push-Pushed :
      (r : ℕ) (distance : D) (c : InflationCell) (w : Wave D)
      → Lies width height r c
      → Runs width height r w
      → Pushed width height r w 2 (some (push d distance c w))
  unfolding push
  push-Pushed r distance c w p s = elim (Bool-cases (d.lt distance w.key)) [
    | inl e ↦ record {
      out = w;
      returns = rw (push, e);
      runs = s;
      same_master = refl;
      same_seen = refl;
      little = omega arith;
    }
    | inr e ↦ elim (Bool-cases (d.lt w.key distance)) [
      | inl f ↦ record {
        out = record w { later = push_later d distance c w.later };
        returns = rw (push, e, f);
        runs = record {
          cells = s.cells;
          marks = s.marks;
          pending = s.pending;
          later = push_later-BinsLie r distance c w.later p s.later;
        };
        same_master = refl;
        same_seen = refl;
        little = omega (arith, push_later-weight distance c w.later);
      }
      | inr f ↦ record {
        out = record w { pending = w.pending ++ (c ∷ []) };
        returns = rw (push, e, f);
        runs = record {
          cells = s.cells;
          marks = s.marks;
          pending = AllLie-append width height r w.pending (c ∷ []) s.pending (p, tt);
          later = s.later;
        };
        same_master = refl;
        same_seen = refl;
        little = omega (arith, length-append w.pending (c ∷ []));
      }
    ]
  ]
