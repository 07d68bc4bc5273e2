-- ===== src/Queue/Cells/Tests.antt =====
-- Examples of the queue of cells on a grid of two columns and one row, with the Manhattan distance.
use navigation_learning.Prelude.{ℕ, ◌≡◌, refl, Bool, true, false, none, some, [], ◌∷◌, arith}
use navigation_learning.Queue.Bins.Refinement.{items}
use navigation_learning.Queue.Bins.{enqueue, bins_for, front, pop}
use navigation_learning.Queue.Cells.{
  CellData, CostmapQueue, new, get_next_cell, enqueue_cell, enqueue_from, enqueue_neighbors,
  distance_lookup, absolute_difference,
}
use navigation_learning.Queue.Cells.Enqueue.{Valid, Kept, OnGrid}
use navigation_learning.Queue.Cells.Grid.{get_next_cell-Kept}
use navigation_learning.Queue.Cells.Example.{numbers, numbers-OrderLaws, right, one, one-Valid}
use navigation_learning.Queue.Cells.Start.{new-Valid, enqueue_cell-Kept}

abbrev every : CellData ℕ → Bool
every c = true

abbrev empty : CostmapQueue ℕ
empty = new numbers 2 1 true

new-Valid_example : Valid numbers 2 1 0 empty × (items numbers.order empty.queue ≡ [])
new-Valid_example = new-Valid numbers 2 1 true (omega arith) (omega arith)

enqueue_cell-Kept_example : Kept numbers 2 1 0 (enqueue_cell numbers every 2 1 0 empty)
enqueue_cell-Kept_example =
    enqueue_cell-Kept numbers numbers-OrderLaws every 2 1 (omega arith) 1 0 empty (omega arith)
      (omega arith) ((new-Valid numbers 2 1 true (omega arith) (omega arith)).0)

abbrev after : CostmapQueue ℕ
after = record one {
  queue = record {
    reset_bins = true;
    item_bins = (0, []) ∷ (1, record right { distance = 1; index = 0; x = 0 } ∷ []) ∷ [];
    item_count = 1;
    iter = some 1;
    last_insert_iter = some 1;
  };
  seen = true ∷ true ∷ [];
}

one-put :
    enqueue_cell numbers every 2 1 0 (record one {
      queue = record {
        reset_bins = true;
        item_bins = [];
        item_count = 0;
        iter = none;
        last_insert_iter = none;
      };
      seen = false ∷ false ∷ [];
    })
    ≡ some one
unfolding enqueue_cell enqueue_from distance_lookup absolute_difference enqueue bins_for
one-put = refl

next-test : get_next_cell numbers every 2 1 one ≡ some (right, after)
unfolding get_next_cell enqueue_neighbors enqueue_from distance_lookup absolute_difference enqueue
    bins_for front pop
next-test = refl

get_next_cell-Kept_example :
    OnGrid 2 1 right
    × (q' : CostmapQueue ℕ) × (get_next_cell numbers every 2 1 one ≡ some (right, q'))
    × Valid numbers 2 1 1 q'
get_next_cell-Kept_example =
    get_next_cell-Kept numbers numbers-OrderLaws every 2 1 (omega arith) 0 right [] one one-Valid
      refl
