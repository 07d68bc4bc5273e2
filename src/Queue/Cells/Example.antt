-- ===== src/Queue/Cells/Example.antt =====
-- A queue of cells on a grid of two columns and one row, for the tests.
use navigation_learning.Prelude.{
  ℕ, zero, suc, ◌+◌, ◌<◌, ◌≡◌, refl, true, false, some, [], ◌∷◌, arith, ltb, ◌==◌, get_elem?,
}
use navigation_learning.Queue.Order.{OrderLaws}
use navigation_learning.Prelude.Int.{pos}
use navigation_learning.Costmap.Grid.{◌>>=◌}
use navigation_learning.Queue.Bins.{find}
use navigation_learning.Queue.Cells.{CellData, CostmapQueue, Distances}
use navigation_learning.Queue.Cells.Enqueue.{Valid}

abbrev pub numbers : Distances ℕ
numbers = record {
  order = record { lt = ltb; eq = λ a b. a == b };
  of_ℕ = λ n. n;
  hypot = λ a b. a + b;
}

pub numbers-OrderLaws : OrderLaws numbers.order
numbers-OrderLaws = record {
  lt_irrefl = λ a. ground arith;
  lt_trans = λ a b c p q. ground arith;
  eq_refl = λ a. ground arith;
  eq_sound = λ a b e. ground arith;
  total = λ a b p q. ground arith;
}

abbrev pub right : CellData ℕ
right = record { distance = 0; index = 1; x = 1; y = 0; src_x = 1; src_y = 0 }

-- The right cell was put into the queue.
abbrev pub one : CostmapQueue ℕ
one = record {
  queue = record {
    reset_bins = true;
    item_bins = (0, right ∷ []) ∷ [];
    item_count = 1;
    iter = some 0;
    last_insert_iter = some 0;
  };
  seen = false ∷ true ∷ [];
  max_distance = pos 2;
  manhattan = true;
  cached_distances = (0 ∷ 1 ∷ []) ∷ (1 ∷ 2 ∷ []) ∷ [];
  cached_max_distance = pos 2;
}

pub one-Valid : Valid numbers 2 1 0 one
one-Valid = record {
  queue = record {
    sorted = (tt, tt);
    counted = refl;
    bounded = omega arith;
    at_first = refl;
    last = λ k e. (right ∷ [], at_zero k e);
  };
  cells = (
    record {
      x_in = omega arith;
      y_in = omega arith;
      src_x_in = omega arith;
      src_y_in = omega arith;
      index_at = refl;
    },
    tt,
  );
  size = refl;
  room = omega arith;
  cached = λ i j p q. (i + j, cached_sum i j p q);
}
  where
    at_zero :
        (k : ℕ) → some 0 ≡ some k → find numbers.order k one.queue.item_bins ≡ some (right ∷ [])
    at_zero k e = ground arith

    cached_sum :
        (i j : ℕ)
        → i < 2
        → j < 1
        → (get_elem? one.cached_distances i >>= λ row. get_elem? row j) ≡ some (i + j)
    cached_sum zero zero p q = refl
    cached_sum zero (suc j) p q = absurd (omega (arith, q))
    cached_sum (suc zero) zero p q = refl
    cached_sum (suc zero) (suc j) p q = absurd (omega (arith, q))
    cached_sum (suc (suc i)) j p q = absurd (omega (arith, p))
