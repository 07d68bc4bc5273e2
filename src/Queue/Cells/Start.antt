-- ===== src/Queue/Cells/Start.antt =====
-- A new queue of cells, and the source cells that are put into it.
use mathlib.Core.Path.{subst}
use navigation_learning.Prelude.{
  ℕ, zero, suc, ◌+◌, ◌*◌, ◌<◌, max, ◌≡◌, refl, sym, ap, ◌∙◌, Bool, true, false, none, some, [],
  arith, u32, get_elem?, replicate, length-replicate,
}
use navigation_learning.Prelude.Int.{pos}
use navigation_learning.Costmap.Grid.{index_in, ◌>>=◌}
use navigation_learning.Costmap.Doubles.{to_i32}
use navigation_learning.Queue.Order.{OrderLaws}
use navigation_learning.Queue.Bins as Bins
use navigation_learning.Queue.Bins.Refinement.{items}
use navigation_learning.Queue.Cells.{
  CellData, CostmapQueue, Distances, table, distance_at, compute_cache, reset, new, enqueue_cell,
}
use navigation_learning.Queue.Cells.Enqueue.{Valid, Kept, index_of, enqueue_from-Kept}

get_elem?-table {ℓ} :
    {A : Type ℓ} (n i : ℕ) (f : ℕ → A) (j : ℕ)
    → j < n
    → get_elem? (table n i f) j ≡ some (f (i + j))
get_elem?-table zero i f j h = absurd (omega arith)
get_elem?-table (suc n) i f zero h = ap (λ t. some (f t)) (omega arith)
get_elem?-table (suc n) i f (suc j) h =
    get_elem?-table n (i + 1) f j (omega arith) ∙ ap (λ t. some (f t)) (omega arith)

module _ {D : Type 0} (d : Distances D) (w h : ℕ) where
  lookup_table :
      (n i j : ℕ) (manhattan : Bool)
      → i < n
      → j < n
      → (get_elem? (table n 0 (λ i. table n 0 (λ j. distance_at d manhattan i j))) i >>= λ row.
          get_elem? row j)
        ≡ some (distance_at d manhattan i j)
  lookup_table n i j manhattan p q =
      rw (get_elem?-table n 0 (λ i. table n 0 (λ j. distance_at d manhattan i j)) i p) (
        get_elem?-table n 0 (λ j. distance_at d manhattan (0 + i) j) j q
        ∙ ap (λ a. some (distance_at d manhattan a (0 + j))) (omega arith)
        ∙ ap (λ b. some (distance_at d manhattan i b)) (omega arith))

  -- The fields of a new queue.
  abbrev made : Bool → CostmapQueue D
  made manhattan = record {
    queue = record {
      reset_bins = true;
      item_bins = [];
      item_count = 0;
      iter = none;
      last_insert_iter = none;
    };
    seen = replicate (w * h) false;
    max_distance = pos (max w h);
    manhattan = manhattan;
    cached_distances =
        table (max w h + 2) 0 (λ i. table (max w h + 2) 0 (λ j. distance_at d manhattan i j));
    cached_max_distance = pos (max w h);
  }

  new_lem :
      (manhattan : Bool)
      → w * h < 4294967296
      → max w h < 2147483646
      → new d w h manhattan ≡ made manhattan
  unfolding new reset compute_cache Bins.new Bins.reset
  new_lem manhattan bounded small =
      let signed : to_i32 (max w h) ≡ pos (max w h) = ground arith in
      let cells : u32 (w * h) ≡ w * h = omega arith in
      let side : u32 (u32 (max w h) + 2) ≡ max w h + 2 = omega arith in
      rw (signed, cells, side) refl

  made-Valid : (manhattan : Bool) → Valid d w h 0 (made manhattan)
  made-Valid manhattan = record {
    queue = record {
      sorted = tt;
      counted = refl;
      bounded = omega arith;
      at_first = refl;
      last = λ k e. absurd (ground arith);
    };
    cells = tt;
    size = length-replicate (w * h) false;
    room = omega arith;
    cached = λ i j p q. (
      distance_at d manhattan i j,
      lookup_table (max w h + 2) i j manhattan (omega arith) (omega arith),
    );
  }

  -- A new queue for a grid whose cells can be counted in 32 bits, and whose longer side leaves room
  -- for the tables in an `int`, is valid and empty.
  pub new-Valid :
      (manhattan : Bool)
      → w * h + w < 4294967296
      → max w h < 2147483646
      → Valid d w h 0 (new d w h manhattan) × (items d.order (new d w h manhattan).queue ≡ [])
  new-Valid manhattan bounded small =
      subst (λ (q : CostmapQueue D). Valid d w h 0 q × (items d.order q.queue ≡ []))
        (sym (new_lem manhattan (omega (arith, bounded)) small)) (made-Valid manhattan, refl)

module _ {D : Type 0} (d : Distances D) (laws : OrderLaws d.order) (valid_cell : CellData D → Bool)
    (w h : ℕ) (bounded : w * h + w < 4294967296) where
  -- Putting a source cell of the grid into a valid queue ends without a fault and keeps it valid.
  pub enqueue_cell-Kept :
      {done : ℕ} (x y : ℕ) (q : CostmapQueue D)
      → x < w
      → y < h
      → Valid d w h done q
      → Kept d w h done (enqueue_cell d valid_cell w x y q)
  unfolding enqueue_cell
  enqueue_cell-Kept x y q p r v =
      enqueue_from-Kept d laws valid_cell w h bounded (index_in w x y) x y x y q v (record {
        x_in = p;
        y_in = r;
        src_x_in = p;
        src_y_in = r;
        index_at = omega (arith, index_of d laws valid_cell w h bounded x y p r, bounded);
      })
