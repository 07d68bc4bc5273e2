-- ===== src/Costmap/Inflation/Around.antt =====
-- `InflationLayer::updateCosts`: the neighbours of one cell.
use navigation_learning.Prelude.{
  ℕ, zero, suc, ◌+◌, ◌-◌, ◌*◌, ◌<◌, ◌≡◌, refl, ◌∙◌, inl, inr, Bool, true, false, Option, some,
  arith, u32, ltb, ltb→lt, Bool-cases, get_elem?-in,
}
use navigation_learning.Costmap.Doubles.{Doubles}
use navigation_learning.Costmap.Grid.{◌>>=◌}
use package.navigation_learning.Costmap.Inflation.{
  InflationCell, InflationLayer, Wave, gap, enqueue_cell_at, enqueue_around, when,
}
use package.navigation_learning.Costmap.Inflation.Push.{
  Lies, Tabled, HypotBounds, Runs, Pushed, push-Pushed,
}

pub in_grid : (x y w h : ℕ) → x < w → y < h → y * w + x < w * h
in_grid x y w h p q = grind arith

row_before : (y w : ℕ) → 0 < y → (y - 1) * w + w ≡ y * w
row_before zero w h = absurd (omega (arith, h))
row_before (suc y) w h = grind arith

module _ {D : Type 0} (d : Doubles D) (width height : ℕ)
    (bounded : width * height + width < 4294967296) (l : InflationLayer D) (tables : Tabled d l)
    (hypot : HypotBounds d) where
  abbrev r : ℕ
  r = l.cell_inflation_radius

  nothing-Pushed : (w : Wave D) (n : ℕ) → Runs width height r w → Pushed width height r w n (some w)
  nothing-Pushed w n s = record {
    out = w;
    returns = refl;
    runs = s;
    same_master = refl;
    same_seen = refl;
    little = omega arith;
  }

  enqueue_cell_at-Pushed :
      (c : InflationCell) (w : Wave D)
      → Lies width height (r + 1) c
      → Runs width height r w
      → Pushed width height r w 2 (enqueue_cell_at d l c w)
  unfolding enqueue_cell_at
  enqueue_cell_at-Pushed c w p s =
      let inside = in_grid c.x c.y width height p.x_in p.y_in in
      let (mark, seen) = get_elem?-in w.seen c.index (omega (arith, s.marks, p.index_at, inside)) in
      let far = d.hypot (d.of_ℕ (gap c.x c.src_x)) (d.of_ℕ (gap c.y c.src_y)) in
      let found = tables.distances c p.x_near p.y_near in
      elim (Bool-cases mark) [
        | inl e ↦ rw (enqueue_cell_at, seen, ◌>>=◌, e) (nothing-Pushed w 2 s)
        | inr e ↦ elim (Bool-cases (d.lt (d.of_ℕ r) far)) [
          | inl f ↦ rw (enqueue_cell_at, seen, ◌>>=◌, e, found, f) (nothing-Pushed w 2 s)
          | inr f ↦
              let near = hypot r (gap c.x c.src_x) (gap c.y c.src_y) f in
              let lies : Lies width height r c = record {
                x_in = p.x_in;
                y_in = p.y_in;
                index_at = p.index_at;
                x_near = near.0;
                y_near = near.1;
              } in
              rw (enqueue_cell_at, seen, ◌>>=◌, e, found, f)
                (push-Pushed d width height r far c w lies s)
        ]
      ]

  then-Pushed :
      (w : Wave D) (m n : ℕ) (o : Option (Wave D)) (step : Wave D → Option (Wave D))
      → Pushed width height r w m o
      → ((u : Wave D) → Runs width height r u → Pushed width height r u n (step u))
      → Pushed width height r w (m + n) (o >>= step)
  then-Pushed w m n o step a next =
      let b = next a.out a.runs in
      record {
        out = b.out;
        returns = rw (a.returns, ◌>>=◌) b.returns;
        runs = b.runs;
        same_master = b.same_master ∙ a.same_master;
        same_seen = b.same_seen ∙ a.same_seen;
        little = omega (arith, a.little, b.little);
      }

  when-Pushed :
      (b : Bool) (c : InflationCell) (w : Wave D)
      → (b ≡ true → Lies width height (r + 1) c)
      → Runs width height r w
      → Pushed width height r w 2 (when d b (enqueue_cell_at d l c) w)
  when-Pushed true c w p s = enqueue_cell_at-Pushed c w (p refl) s
  when-Pushed false c w p s = nothing-Pushed w 2 s

  left-Lies :
      (c : InflationCell)
      → Lies width height r c
      → ltb 0 c.x ≡ true
      → Lies width height (r + 1) (record c { index = c.index - 1; x = c.x - 1 })
  left-Lies c p e =
      let before = ltb→lt 0 c.x e in
      record {
        x_in = omega (arith, p.x_in);
        y_in = p.y_in;
        index_at = omega (arith, p.index_at, before);
        x_near = ground (arith, p.x_near);
        y_near = omega (arith, p.y_near);
      }

  up-Lies :
      (c : InflationCell)
      → Lies width height r c
      → ltb 0 c.y ≡ true
      → Lies width height (r + 1) (record c { index = c.index - width; y = c.y - 1 })
  up-Lies c p e =
      let before = ltb→lt 0 c.y e in
      record {
        x_in = p.x_in;
        y_in = omega (arith, p.y_in);
        index_at = omega (arith, p.index_at, row_before c.y width before);
        x_near = omega (arith, p.x_near);
        y_near = ground (arith, p.y_near);
      }

  right-Lies :
      (c : InflationCell)
      → Lies width height r c
      → ltb c.x (width - 1) ≡ true
      → Lies width height (r + 1) (record c { index = u32 (c.index + 1); x = c.x + 1 })
  right-Lies c p e =
      let before = ltb→lt c.x (width - 1) e in
      let inside = in_grid c.x c.y width height p.x_in p.y_in in
      record {
        x_in = omega (arith, before);
        y_in = p.y_in;
        index_at = omega (arith, p.index_at, inside, bounded);
        x_near = ground (arith, p.x_near);
        y_near = omega (arith, p.y_near);
      }

  down-Lies :
      (c : InflationCell)
      → Lies width height r c
      → ltb c.y (height - 1) ≡ true
      → Lies width height (r + 1) (record c { index = u32 (c.index + width); y = c.y + 1 })
  down-Lies c p e =
      let before = ltb→lt c.y (height - 1) e in
      let inside = in_grid c.x c.y width height p.x_in p.y_in in
      let below : (c.y + 1) * width ≡ c.y * width + width = grind arith in
      record {
        x_in = p.x_in;
        y_in = omega (arith, before);
        index_at = omega (arith, p.index_at, inside, bounded, below);
        x_near = omega (arith, p.x_near);
        y_near = ground (arith, p.y_near);
      }

  pub enqueue_around-Pushed :
      (c : InflationCell) (w : Wave D)
      → Lies width height r c
      → Runs width height r w
      → Pushed width height r w 8 (enqueue_around d l width height c w)
  unfolding enqueue_around
  enqueue_around-Pushed c w p s =
      then-Pushed w 2 6 _ _ (when-Pushed (ltb 0 c.x) _ w (left-Lies c p) s) (λ w1 s1.
        then-Pushed w1 2 4 _ _ (when-Pushed (ltb 0 c.y) _ w1 (up-Lies c p) s1) (λ w2 s2.
          then-Pushed w2 2 2 _ _ (when-Pushed (ltb c.x (width - 1)) _ w2 (right-Lies c p) s2)
            (λ w3 s3. when-Pushed (ltb c.y (height - 1)) _ w3 (down-Lies c p) s3)))
