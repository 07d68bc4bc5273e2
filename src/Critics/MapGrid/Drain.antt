-- ===== src/Critics/MapGrid/Drain.antt =====
-- The loop of `propogateManhattanDistances` in
-- navigation2/nav2_dwb_controller/dwb_critics/src/map_grid.cpp, with the queue of cells that it drains.
use navigation_learning.Prelude.{
  ℕ, zero, suc, ◌+◌, ◌-◌, ◌*◌, ◌≤◌, ◌<◌, min, max, ◌≡◌, refl, sym, ap, ◌∙◌, ◌⊎◌, inl, inr, true,
  false, Option, some, List, [], ◌∷◌, arith, ◌==◌, lt→ltb, Bool-cases, length, get_elem?, set,
  length-set, get_elem?-set_self, get_elem?-set_ne,
}
use navigation_learning.Queue.Order.{OrderLaws}
use navigation_learning.Queue.Bins.{is_empty}
use navigation_learning.Queue.Bins.Refinement.{items}
use navigation_learning.Queue.Cells.{CellData, CostmapQueue, absolute_difference}
use navigation_learning.Queue.Cells.Enqueue.{Valid, OnGrid, count_true-le, index_of}
use navigation_learning.Queue.Cells.Grid.{get_next_cell-Grew}
use navigation_learning.Queue.Cells.Growth.{All, Grew-All, Grew-sources}
use mathlib.Core.Path.{subst}
use navigation_learning.Critics.MapGrid.{
  MapGridCritic, Scores, valid_cell_to_queue, manhattan_distance, drain,
  propogate_manhattan_distances,
}

-- The index `i` is that of a cell of the grid, whose score is its Manhattan distance, columns and rows,
-- from a cell that is a source.
pub record ScoredAt {D : Type 0} (s : Scores D) (w h : ℕ) (Source : ℕ → ℕ → Type 0)
    (values : List D) (i : ℕ) : Type 0 where
  pub x : ℕ
  pub y : ℕ
  pub x_in : x < w
  pub y_in : y < h
  pub index_at : i ≡ y * w + x
  pub src_x : ℕ
  pub src_y : ℕ
  pub source : Source src_x src_y
  pub value :
      get_elem? values i
      ≡ some (s.distances.of_ℕ (max x src_x - min x src_x + (max y src_y - min y src_y)))

module _ {D : Type 0} (s : Scores D) (laws : OrderLaws s.distances.order) (w h : ℕ)
    (bounded : w * h + w < 4294967296) (Source : ℕ → ℕ → Type 0) where
  open s use {distances as d}

  -- A score is the old one, or a distance.
  abbrev pub Scored : List D → List D → ℕ → Type 0
  Scored old values i = (get_elem? values i ≡ get_elem? old i) ⊎ ScoredAt s w h Source values i

  abbrev pub FromSource : D × CellData D → Type 0
  FromSource p = Source (p.1.src_x) (p.1.src_y)

  -- The queue was emptied, and the cells that it held have distances as scores.
  pub record Drained (q : CostmapQueue D) (values : List D) (o : Option (CostmapQueue D × List D))
      : Type 0 where
    pub queue : CostmapQueue D
    pub scores : List D
    pub returns : o ≡ some (queue, scores)
    pub empty : is_empty (queue.queue) ≡ true
    pub size : length scores ≡ length values
    pub scored : (i : ℕ) → Scored values scores i
    pub queued : All (λ p. ScoredAt s w h Source scores (p.1.index)) (items d.order q.queue)

  at_most : {done : ℕ} (q : CostmapQueue D) → Valid d w h done q → done ≤ w * h
  at_most q v = omega (arith, v.room, v.size, count_true-le q.seen)

  item_left :
      {done : ℕ} (q : CostmapQueue D)
      → Valid d w h done q
      → is_empty (q.queue) ≡ false
      → (k : D) × (c : CellData D) × (l : List (D × CellData D)) × (items d.order q.queue
          ≡ (k, c) ∷ l)
  item_left q v e = find (items d.order q.queue) refl
    where
      find :
          (l : List (D × CellData D))
          → items d.order q.queue ≡ l
          → (k : D) × (c : CellData D) × (l : List (D × CellData D)) × (items d.order q.queue
              ≡ (k, c) ∷ l)
      find [] f = absurd (ground (arith, v.queue.counted, ap length f))
      find ((k, c) ∷ l) f = (k, c, l, f)

  sum_fits :
      (x y sx sy : ℕ)
      → x < w
      → y < h
      → sx < w
      → sy < h
      → max x sx - min x sx + (max y sy - min y sy) < 4294967296
  sum_fits x y sx sy p q r t = omega (arith, height-le h x p, bounded)
    where
      height-le : (h x : ℕ) → x < w → h ≤ w * h
      height-le h x p = grind arith

  manhattan_distance_lem :
      (cell : CellData D)
      → OnGrid w h cell
      → manhattan_distance s cell
        ≡ d.of_ℕ (
            max cell.x cell.src_x
            - min cell.x cell.src_x
            + (max cell.y cell.src_y - min cell.y cell.src_y))
  unfolding absolute_difference
  manhattan_distance_lem cell g = ap d.of_ℕ (
      ground
        (arith, sum_fits cell.x cell.y cell.src_x cell.src_y g.x_in g.y_in g.src_x_in g.src_y_in))

  -- The score of a cell that was just written.
  score_written :
      (values scores : List D) (cell : CellData D)
      → OnGrid w h cell
      → Source cell.src_x cell.src_y
      → cell.index < length values
      → get_elem? scores cell.index
        ≡ get_elem? (set values cell.index (manhattan_distance s cell)) cell.index
      → ScoredAt s w h Source scores cell.index
  score_written values scores cell g from b e = record {
    x = cell.x;
    y = cell.y;
    x_in = g.x_in;
    y_in = g.y_in;
    index_at = g.index_at;
    src_x = cell.src_x;
    src_y = cell.src_y;
    source = from;
    value =
        e
        ∙ (get_elem?-set_self values cell.index (manhattan_distance s cell) b
            ∙ ap some (manhattan_distance_lem cell g));
  }

  written :
      (values scores : List D) (cell : CellData D) (i : ℕ)
      → OnGrid w h cell
      → Source cell.src_x cell.src_y
      → cell.index < length values
      → Scored (set values cell.index (manhattan_distance s cell)) scores i
      → Scored values scores i
  written values scores cell i g from b (inr p) = inr p
  written values scores cell i g from b (inl e) = elim (Bool-cases (cell.index == i)) [
    | inl f ↦
        let same : cell.index ≡ i = ground arith in
        inr (
          subst (ScoredAt s w h Source scores) same (
            score_written values scores cell g from b (
              subst
                (λ j.
                  get_elem? scores j
                  ≡ get_elem? (set values cell.index (manhattan_distance s cell)) j)
                (sym same) e)))
    | inr f ↦ inl (e ∙ get_elem?-set_ne values (manhattan_distance s cell) (λ q. ground (arith, q)))
  ]

  written_self :
      (values scores : List D) (cell : CellData D)
      → OnGrid w h cell
      → Source cell.src_x cell.src_y
      → cell.index < length values
      → Scored (set values cell.index (manhattan_distance s cell)) scores cell.index
      → ScoredAt s w h Source scores cell.index
  written_self values scores cell g from b (inr p) = p
  written_self values scores cell g from b (inl e) = score_written values scores cell g from b e

  nothing_queued :
      (P : D × CellData D → Type 0) {done : ℕ} (q : CostmapQueue D)
      → Valid d w h done q
      → is_empty (q.queue) ≡ true
      → All P (items d.order q.queue)
  nothing_queued P q v e =
      subst (All P)
        (sym (nothing (items d.order q.queue) (omega (arith, v.queue.counted, zero_of e)))) tt
    where
      nothing : (l : List (D × CellData D)) → length l ≡ 0 → l ≡ []
      nothing [] h = refl
      nothing (a ∷ l) h = absurd (omega (arith, h))

      zero_of : is_empty (q.queue) ≡ true → q.queue.item_count ≡ 0
      zero_of e = ground arith

  drain-Drained :
      (n : ℕ) {done : ℕ} (q : CostmapQueue D) (values : List D)
      → Valid d w h done q
      → All FromSource (items d.order q.queue)
      → length values ≡ w * h
      → w * h < n + done
      → Drained q values (drain s n w h q values)
  unfolding drain
  drain-Drained zero q values v from size f = absurd (omega (arith, at_most q v))
  drain-Drained (suc n) {done} q values v from size f = elim (Bool-cases (is_empty (q.queue))) [
    | inl e ↦ record {
      queue = q;
      scores = values;
      returns = rw (drain, e) refl;
      empty = e;
      size = refl;
      scored = λ i. inl refl;
      queued = nothing_queued _ q v e;
    }
    | inr e ↦
        let (k, c, l, left) = item_left q v e in
        let next = get_next_cell-Grew d laws valid_cell_to_queue w h bounded k c l q v left in
        let (source, sources) = subst (All FromSource) left from in
        let inside : c.index < length values = omega (
          arith,
          next.0.index_at,
          index_of d laws valid_cell_to_queue w h bounded c.x c.y next.0.x_in next.0.y_in,
        ) in
        let rest =
          drain-Drained n next.1 (set values c.index (manhattan_distance s c)) next.3
            (Grew-sources d Source next.4 source sources)
            (length-set values c.index (manhattan_distance s c) ∙ size) (omega arith) in
        record {
          queue = rest.queue;
          scores = rest.scores;
          returns = rw (drain, e, next.2, lt→ltb c.index (length values) inside) rest.returns;
          empty = rest.empty;
          size = rest.size ∙ length-set values c.index (manhattan_distance s c);
          scored = λ i. written values rest.scores c i next.0 source inside (rest.scored i);
          queued = subst (All (λ p. ScoredAt s w h Source rest.scores (p.1.index))) (sym left) (
            written_self values rest.scores c next.0 source inside (rest.scored c.index),
            Grew-All d _ next.4 rest.queued,
          );
        }
  ]

  -- A critic whose scores were propagated.
  pub record Propagated (c : MapGridCritic D) (o : Option (MapGridCritic D)) : Type 0 where
    pub out : MapGridCritic D
    pub returns : o ≡ some out
    pub empty : is_empty (out.queue.queue) ≡ true
    pub size : length (out.cell_values) ≡ length (c.cell_values)
    pub scored : (i : ℕ) → Scored c.cell_values out.cell_values i
    pub queued :
        All (λ p. ScoredAt s w h Source out.cell_values (p.1.index)) (items d.order c.queue.queue)

  -- Take a grid whose cells can be counted in 32 bits, a valid queue, a score for each cell of the
  -- grid, and a predicate that holds of the sources of all queued cells. `propogateManhattanDistances`
  -- ends without a fault and empties the queue. The score of every cell that the queue held is then the
  -- number of columns and rows between it and a cell with the predicate, without a wrap; every other
  -- score is such a distance for its cell as well, or the one from before.
  pub propogate_manhattan_distances-Propagated :
      {done : ℕ} (c : MapGridCritic D)
      → Valid d w h done c.queue
      → All FromSource (items d.order c.queue.queue)
      → length (c.cell_values) ≡ w * h
      → Propagated c (propogate_manhattan_distances s w h c)
  unfolding propogate_manhattan_distances
  propogate_manhattan_distances-Propagated c v from size =
      let p = drain-Drained (suc (w * h)) c.queue c.cell_values v from size (omega arith) in
      record {
        out = record c { queue = p.queue; cell_values = p.scores };
        returns = rw p.returns refl;
        empty = p.empty;
        size = p.size;
        scored = p.scored;
        queued = p.queued;
      }
