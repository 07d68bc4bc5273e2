-- ===== src/Queue/Cells/Enqueue.antt =====
-- A valid queue of cells, and that `enqueueCell` keeps it: the cells lie on the grid, and no read or
-- write leaves a vector's bounds.
use mathlib.Core.Path.{subst}
use navigation_learning.Prelude.{
  ℕ, zero, suc, ◌+◌, ◌*◌, ◌≤◌, ◌<◌, ◌≡◌, refl, sym, ap, ◌∙◌, inl, inr, Bool, true, false, Option,
  some, List, [], ◌∷◌, arith, Bool-cases, length, get_elem?, set, length-set,
}
use navigation_learning.Costmap.Grid.{◌>>=◌}
use navigation_learning.Queue.Order.{OrderLaws}
use navigation_learning.Queue.Bins.{enqueue}
use navigation_learning.Queue.Bins.Contents.{insert_item}
use navigation_learning.Queue.Bins.Refinement.{IsValid, items, length-insert_item, enqueue-Refines}
use navigation_learning.Queue.Cells.Growth.{All, Grew, same, inserted, All-insert_item}
use navigation_learning.Queue.Cells.{
  CellData, CostmapQueue, Distances, absolute_difference, distance_lookup, enqueue_from,
}

module _ {ℓ} {A : Type ℓ} where
  get_elem?-some : (l : List A) (i : ℕ) → i < length l → (a : A) × (get_elem? l i ≡ some a)
  get_elem?-some [] i h = absurd (omega arith)
  get_elem?-some (x ∷ l) zero h = (x, refl)
  get_elem?-some (x ∷ l) (suc i) h = get_elem?-some l i (omega arith)

abbrev pub count_true : List Bool → ℕ
count_true [] = 0
count_true (true ∷ l) = suc (count_true l)
count_true (false ∷ l) = count_true l

pub count_true-le : (l : List Bool) → count_true l ≤ length l
count_true-le [] = omega arith
count_true-le (true ∷ l) = omega (arith, count_true-le l)
count_true-le (false ∷ l) = omega (arith, count_true-le l)

count_true-set :
    (l : List Bool) (i : ℕ)
    → get_elem? l i ≡ some false
    → count_true (set l i true) ≡ suc (count_true l)
count_true-set [] i e = ground arith
count_true-set (true ∷ l) zero e = ground arith
count_true-set (false ∷ l) zero e = refl
count_true-set (true ∷ l) (suc i) e = ap suc (count_true-set l i e)
count_true-set (false ∷ l) (suc i) e = count_true-set l i e

pub record Places (w h index x y src_x src_y : ℕ) : Type 0 where
  pub x_in : x < w
  pub y_in : y < h
  pub src_x_in : src_x < w
  pub src_y_in : src_y < h
  pub index_at : index ≡ y * w + x

-- The cell and its source are on the grid, and the index is the cell's.
abbrev pub OnGrid : {D : Type 0} → ℕ → ℕ → CellData D → Type 0
OnGrid w h c = Places w h c.index c.x c.y c.src_x c.src_y

-- The queue holds cells of the grid, and its tables are large enough. For each cell that it holds and
-- each of the `done` cells that it gave out before, a cell of the grid is marked as seen.
pub record Valid {D : Type 0} (d : Distances D) (w h done : ℕ) (q : CostmapQueue D) : Type 0 where
  pub queue : IsValid d.order q.queue
  pub cells : All (λ (p : D × CellData D). OnGrid w h (p.1)) (items d.order q.queue)
  pub size : length q.seen ≡ w * h
  pub room : length (items d.order q.queue) + done ≤ count_true q.seen
  pub cached :
      (i j : ℕ)
      → i < w
      → j < h
      → (a : D) × ((get_elem? q.cached_distances i >>= λ row. get_elem? row j) ≡ some a)

-- A step that ends without a fault in a valid queue.
pub record Kept {D : Type 0} (d : Distances D) (w h done : ℕ) (o : Option (CostmapQueue D))
    : Type 0 where
  pub out : CostmapQueue D
  pub returns : o ≡ some out
  pub valid : Valid d w h done out

-- A step that also inserts nothing but cells with the given source.
pub record Grown {D : Type 0} (d : Distances D) (w h done src_x src_y : ℕ) (q : CostmapQueue D)
    (o : Option (CostmapQueue D)) : Type 0 where
  pub out : CostmapQueue D
  pub returns : o ≡ some out
  pub valid : Valid d w h done out
  pub grew : Grew d src_x src_y (items d.order q.queue) (items d.order out.queue)

module _ {D : Type 0} (d : Distances D) (laws : OrderLaws d.order) (valid_cell : CellData D → Bool)
    (w h : ℕ) (bounded : w * h + w < 4294967296) where
  -- The cell is marked and queued.
  queued :
      {done : ℕ} (cell : CellData D) (q : CostmapQueue D)
      → Valid d w h done q
      → OnGrid w h cell
      → get_elem? q.seen cell.index ≡ some false
      → Valid d w h done (record q {
        seen = set q.seen cell.index true;
        queue = enqueue d.order cell.distance cell q.queue;
      })
  queued cell q v g unseen =
      let marked = count_true-set q.seen cell.index unseen in
      let few = count_true-le (set q.seen cell.index true) in
      let same = length-set q.seen cell.index true in
      let r =
        enqueue-Refines d.order laws cell.distance cell q.queue v.queue
          (omega (arith, marked, few, same, v.size, v.room, bounded)) in
      record {
        queue = r.0;
        cells =
            subst (All (λ (p : D × CellData D). OnGrid w h (p.1))) (sym (r.1))
              (All-insert_item d _ cell.distance cell (items d.order q.queue) g v.cells);
        size = same ∙ v.size;
        room = omega (
          arith,
          ap length (r.1),
          length-insert_item d.order laws cell.distance cell (items d.order q.queue),
          marked,
          v.room,
        );
        cached = v.cached;
      }

  pub index_of : (x y : ℕ) → x < w → y < h → y * w + x < w * h
  index_of x y p q = grind arith

  difference-lt : (a b n : ℕ) → a < n → b < n → absolute_difference a b < n
  unfolding absolute_difference
  difference-lt a b n p q = ground arith

  -- The cell that `enqueue_from` builds.
  abbrev cell_of : D → ℕ → ℕ → ℕ → ℕ → ℕ → CellData D
  cell_of a index x y src_x src_y = record {
    distance = a;
    index = index;
    x = x;
    y = y;
    src_x = src_x;
    src_y = src_y;
  }

  enqueue_from-skips :
      (index x y src_x src_y : ℕ) (q : CostmapQueue D)
      → get_elem? q.seen index ≡ some true
      → enqueue_from d valid_cell index x y src_x src_y q ≡ some q
  unfolding enqueue_from
  enqueue_from-skips index x y sx sy q e = rw e refl

  enqueue_from-rejects :
      (index x y src_x src_y : ℕ) (q : CostmapQueue D) (a : D)
      → get_elem? q.seen index ≡ some false
      → distance_lookup d x y src_x src_y q ≡ some a
      → valid_cell (cell_of a index x y src_x src_y) ≡ false
      → enqueue_from d valid_cell index x y src_x src_y q ≡ some q
  unfolding enqueue_from
  enqueue_from-rejects index x y sx sy q a e f g = ground (arith, e, f, g)

  enqueue_from-adds :
      (index x y src_x src_y : ℕ) (q : CostmapQueue D) (a : D)
      → get_elem? q.seen index ≡ some false
      → distance_lookup d x y src_x src_y q ≡ some a
      → valid_cell (cell_of a index x y src_x src_y) ≡ true
      → enqueue_from d valid_cell index x y src_x src_y q
        ≡ some (record q {
          seen = set q.seen index true;
          queue = enqueue d.order a (cell_of a index x y src_x src_y) q.queue;
        })
  unfolding enqueue_from
  enqueue_from-adds index x y sx sy q a e f g = ground (arith, e, f, g)

  cached_lookup :
      (q : CostmapQueue D) (x y src_x src_y : ℕ) (a : D)
      → (get_elem? q.cached_distances (absolute_difference x src_x) >>= λ row.
          get_elem? row (absolute_difference y src_y))
        ≡ some a
      → distance_lookup d x y src_x src_y q ≡ some a
  unfolding distance_lookup
  cached_lookup q x y sx sy a e = e

  -- The cell that was queued comes in its place among the items.
  queued_items :
      {done : ℕ} (cell : CellData D) (q : CostmapQueue D)
      → Valid d w h done q
      → get_elem? q.seen cell.index ≡ some false
      → items d.order (enqueue d.order cell.distance cell q.queue)
        ≡ insert_item d.order cell.distance cell (items d.order q.queue)
  queued_items cell q v unseen =
      let r = enqueue-Refines d.order laws cell.distance cell q.queue v.queue (
        omega (
          arith,
          count_true-set q.seen cell.index unseen,
          count_true-le (set q.seen cell.index true),
          length-set q.seen cell.index true,
          v.size,
          v.room,
          bounded,
        )) in
      r.1

  pub enqueue_from-Grown :
      {done : ℕ} (index x y src_x src_y : ℕ) (q : CostmapQueue D)
      → Valid d w h done q
      → Places w h index x y src_x src_y
      → Grown d w h done src_x src_y q (enqueue_from d valid_cell index x y src_x src_y q)
  enqueue_from-Grown index x y sx sy q v g =
      let a =
        v.cached (absolute_difference x sx) (absolute_difference y sy)
          (difference-lt x sx w g.x_in g.src_x_in) (difference-lt y sy h g.y_in g.src_y_in) in
      let seen =
        get_elem?-some q.seen index
          (omega (arith, v.size, g.index_at, index_of x y g.x_in g.y_in)) in
      let fits = cached_lookup q x y sx sy (a.0) (a.1) in
      let cell = cell_of (a.0) index x y sx sy in
      elim (Bool-cases (seen.0)) [
        | inl e ↦ record {
          out = q;
          returns = enqueue_from-skips index x y sx sy q (seen.1 ∙ ap some e);
          valid = v;
          grew = same;
        }
        | inr e ↦ elim (Bool-cases (valid_cell cell)) [
          | inl ok ↦ record {
            out = _;
            returns = enqueue_from-adds index x y sx sy q (a.0) (seen.1 ∙ ap some e) fits ok;
            valid = queued cell q v g (seen.1 ∙ ap some e);
            grew =
                inserted (a.0) cell (items d.order q.queue) _ refl refl
                  (queued_items cell q v (seen.1 ∙ ap some e)) same;
          }
          | inr other ↦ record {
            out = q;
            returns = enqueue_from-rejects index x y sx sy q (a.0) (seen.1 ∙ ap some e) fits other;
            valid = v;
            grew = same;
          }
        ]
      ]

  pub enqueue_from-Kept :
      {done : ℕ} (index x y src_x src_y : ℕ) (q : CostmapQueue D)
      → Valid d w h done q
      → Places w h index x y src_x src_y
      → Kept d w h done (enqueue_from d valid_cell index x y src_x src_y q)
  enqueue_from-Kept index x y sx sy q v g =
      let r = enqueue_from-Grown index x y sx sy q v g in
      record { out = r.out; returns = r.returns; valid = r.valid }
