-- ===== src/Queue/Cells/Grid.antt =====
-- The cells that pass through the queue lie on the grid, and no step of it leaves a vector's bounds.
use mathlib.Core.Path.{subst}
use navigation_learning.Prelude.{
  ℕ, suc, ◌+◌, ◌-◌, ◌*◌, ◌≤◌, ◌<◌, ◌≡◌, refl, sym, ap, ◌∙◌, inl, inr, Bool, true, Option, some,
  List, ◌∷◌, arith, u32, ltb→lt, Bool-cases, length, drop,
}
use navigation_learning.Costmap.Grid.{◌>>=◌}
use navigation_learning.Queue.Order.{OrderLaws}
use navigation_learning.Queue.Bins.{front, pop, item}
use navigation_learning.Queue.Bins.Refinement.{items, first_item, pop-Refines, front-Refines}
use navigation_learning.Queue.Cells.Growth.{All, Grew, same, Grew-trans}
use navigation_learning.Queue.Cells.{
  CellData, CostmapQueue, Distances, enqueue_if, enqueue_neighbors, get_next_cell,
}
use navigation_learning.Queue.Cells.Enqueue.{
  Places, OnGrid, Valid, Grown, index_of, enqueue_from-Grown,
}

module _ {D : Type 0} (d : Distances D) (laws : OrderLaws d.order) (valid_cell : CellData D → Bool)
    (w h : ℕ) (bounded : w * h + w < 4294967296) where
  -- Behind a test that implies the cell is on the grid.
  enqueue_if-Grown :
      {done : ℕ} (test : Bool) (index x y src_x src_y : ℕ) (q : CostmapQueue D)
      (o : Option (CostmapQueue D))
      → Grown d w h done src_x src_y q o
      → (test ≡ true → Places w h index x y src_x src_y)
      → Grown d w h done src_x src_y q (o >>= enqueue_if d valid_cell test index x y src_x src_y)
  enqueue_if-Grown {done} test index x y sx sy q o k g =
      subst (λ o. Grown d w h done sx sy q (o >>= enqueue_if d valid_cell test index x y sx sy))
        (sym k.returns)
        (elim (Bool-cases test) [
          | inl e ↦
              let r =
                enqueue_from-Grown d laws valid_cell w h bounded index x y sx sy k.out k.valid
                  (g e) in
              rw e record {
                out = r.out;
                returns = r.returns;
                valid = r.valid;
                grew = Grew-trans d k.grew r.grew;
              }
          | inr e ↦ rw e record { out = k.out; returns = refl; valid = k.valid; grew = k.grew }
        ])

  row_after : (y : ℕ) → (y + 1) * w ≡ y * w + w
  row_after y = grind arith

  row_before : (y : ℕ) → 0 < y → y * w ≡ (y - 1) * w + w
  row_before y p = ap (λ t. t * w) (omega (arith, p)) ∙ row_after (y - 1)

  height-le : (x : ℕ) → x < w → h ≤ w * h
  height-le x p = grind arith

  left-Places :
      (c : CellData D)
      → OnGrid w h c
      → 0 < c.x
      → Places w h (u32 (c.index + 4294967295)) (c.x - 1) c.y c.src_x c.src_y
  left-Places c g p =
      let i = index_of d laws valid_cell w h bounded c.x c.y g.x_in g.y_in in
      record {
        x_in = omega (arith, g.x_in);
        y_in = g.y_in;
        src_x_in = g.src_x_in;
        src_y_in = g.src_y_in;
        index_at = omega (arith, g.index_at, i, p, bounded);
      }

  up-Places :
      (c : CellData D)
      → OnGrid w h c
      → 0 < c.y
      → Places w h (u32 (c.index + 4294967296 - w)) c.x (c.y - 1) c.src_x c.src_y
  up-Places c g p =
      let i = index_of d laws valid_cell w h bounded c.x c.y g.x_in g.y_in in
      record {
        x_in = g.x_in;
        y_in = omega (arith, g.y_in);
        src_x_in = g.src_x_in;
        src_y_in = g.src_y_in;
        index_at = omega (arith, g.index_at, i, row_before c.y p, bounded);
      }

  right-Places :
      (c : CellData D)
      → OnGrid w h c
      → c.x < u32 (w + 4294967295)
      → Places w h (u32 (c.index + 1)) (u32 (c.x + 1)) c.y c.src_x c.src_y
  right-Places c g p =
      let i = index_of d laws valid_cell w h bounded c.x c.y g.x_in g.y_in in
      record {
        x_in = omega (arith, g.x_in, p, bounded);
        y_in = g.y_in;
        src_x_in = g.src_x_in;
        src_y_in = g.src_y_in;
        index_at = omega (arith, g.index_at, g.x_in, i, p, bounded);
      }

  down-Places :
      (c : CellData D)
      → OnGrid w h c
      → c.y < u32 (h + 4294967295)
      → Places w h (u32 (c.index + w)) c.x (u32 (c.y + 1)) c.src_x c.src_y
  down-Places c g p =
      let i = index_of d laws valid_cell w h bounded c.x c.y g.x_in g.y_in in
      let tall = height-le c.x g.x_in in
      let next : u32 (c.y + 1) ≡ c.y + 1 = omega (arith, tall, g.y_in, bounded) in
      record {
        x_in = g.x_in;
        y_in = omega (arith, g.y_in, p, tall, bounded);
        src_x_in = g.src_x_in;
        src_y_in = g.src_y_in;
        index_at = omega (arith, g.index_at, i, row_after c.y, ap (λ t. t * w) next, bounded);
      }

  enqueue_neighbors-Grown :
      {done : ℕ} (c : CellData D) (q : CostmapQueue D)
      → Valid d w h done q
      → OnGrid w h c
      → Grown d w h done c.src_x c.src_y q (enqueue_neighbors d valid_cell w h c q)
  unfolding enqueue_neighbors
  enqueue_neighbors-Grown c q v g =
      enqueue_if-Grown _ _ _ _ _ _ q _
        (enqueue_if-Grown _ _ _ _ _ _ q _
          (enqueue_if-Grown _ _ _ _ _ _ q _
            (enqueue_if-Grown _ _ _ _ _ _ q (some q)
              (record { out = q; returns = refl; valid = v; grew = same })
              (λ t. left-Places c g (ltb→lt 0 c.x t)))
            (λ t. up-Places c g (ltb→lt 0 c.y t)))
          (λ t. right-Places c g (ltb→lt c.x _ t)))
        (λ t. down-Places c g (ltb→lt c.y _ t))

  popped :
      {done : ℕ} (k : D) (c : CellData D) (l : List (D × CellData D)) (q : CostmapQueue D)
      → Valid d w h done q
      → items d.order q.queue ≡ (k, c) ∷ l
      → OnGrid w h c
        × Valid d w h (suc done) (record q { queue = pop d.order q.queue })
        × (items d.order (pop d.order q.queue) ≡ l)
  popped k c l q v e =
      let r = pop-Refines d.order laws q.queue v.queue in
      let left = r.1 ∙ ap (drop 1) e in
      let all = subst (All (λ (p : D × CellData D). OnGrid w h (p.1))) e v.cells in
      (
        all.0,
        record {
          queue = r.0;
          cells = subst (All (λ (p : D × CellData D). OnGrid w h (p.1))) (sym left) (all.1);
          size = v.size;
          room = omega (arith, ap length left, ap length e, v.room);
          cached = v.cached;
        },
        left,
      )

  get_next_cell_lem :
      (c : CellData D) (q q' : CostmapQueue D)
      → front d.order q.queue ≡ item c
      → enqueue_neighbors d valid_cell w h c (record q { queue = pop d.order q.queue }) ≡ some q'
      → get_next_cell d valid_cell w h q ≡ some (c, q')
  unfolding get_next_cell
  get_next_cell_lem c q q' f e = ground (arith, f, e)

  -- The next cell, with what its neighbours add to the items after it.
  pub get_next_cell-Grew :
      {done : ℕ} (k : D) (c : CellData D) (l : List (D × CellData D)) (q : CostmapQueue D)
      → Valid d w h done q
      → items d.order q.queue ≡ (k, c) ∷ l
      → OnGrid w h c
        × (q' : CostmapQueue D) × (get_next_cell d valid_cell w h q ≡ some (c, q'))
        × Valid d w h (suc done) q'
        × Grew d c.src_x c.src_y l (items d.order q'.queue)
  get_next_cell-Grew k c l q v e =
      let p = popped k c l q v e in
      let n = enqueue_neighbors-Grown c (record q { queue = pop d.order q.queue }) (p.1) (p.0) in
      (
        p.0,
        n.out,
        get_next_cell_lem c q n.out
            (front-Refines d.order laws q.queue v.queue ∙ ap (first_item d.order) e) n.returns,
        n.valid,
        subst (λ t. Grew d c.src_x c.src_y t (items d.order n.out.queue)) (p.2) n.grew,
      )

  -- For a grid whose cells can be counted in 32 bits and a valid queue with an item left,
  -- `getNextCell` returns without a fault. The cell is the first item of the queue and lies on the
  -- grid with its source; the queue is valid afterwards, so that every later cell does, too.
  pub get_next_cell-Kept :
      {done : ℕ} (k : D) (c : CellData D) (l : List (D × CellData D)) (q : CostmapQueue D)
      → Valid d w h done q
      → items d.order q.queue ≡ (k, c) ∷ l
      → OnGrid w h c
        × (q' : CostmapQueue D) × (get_next_cell d valid_cell w h q ≡ some (c, q'))
        × Valid d w h (suc done) q'
  get_next_cell-Kept k c l q v e = let n = get_next_cell-Grew k c l q v e in (n.0, n.1, n.2, n.3)
