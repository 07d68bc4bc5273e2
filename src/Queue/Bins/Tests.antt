-- ===== src/Queue/Bins/Tests.antt =====
-- Examples of the queue of bins, with numbers for priorities and for items.
use navigation_learning.Prelude.{ℕ, ◌≡◌, refl, true, some, [], ◌∷◌, arith, ltb, ◌==◌, drop}
use navigation_learning.Queue.Order.{Order, OrderLaws}
use navigation_learning.Queue.Bins.{MapBasedQueue, enqueue, pop, bins_for, find}
use navigation_learning.Queue.Bins.Contents.{insert_item}
use navigation_learning.Queue.Bins.Refinement.{IsValid, items, enqueue-Refines, pop-Refines}

abbrev numbers : Order ℕ
numbers = record { lt = ltb; eq = λ a b. a == b }

numbers-OrderLaws : OrderLaws numbers
numbers-OrderLaws = record {
  lt_irrefl = λ a. ground arith;
  lt_trans = λ a b c p q. ground arith;
  eq_refl = λ a. ground arith;
  eq_sound = λ a b e. ground arith;
  total = λ a b p q. ground arith;
}

-- 5 has two items, 2 has one, and the bin of 1 was emptied.
abbrev filled : MapBasedQueue ℕ ℕ
filled = record {
  reset_bins = true;
  item_bins = (1, []) ∷ (2, 20 ∷ []) ∷ (5, 51 ∷ 50 ∷ []) ∷ [];
  item_count = 3;
  iter = some 2;
  last_insert_iter = some 5;
}

filled-IsValid : IsValid numbers filled
filled-IsValid = record {
  sorted = ((refl, (refl, tt)), ((refl, tt), (tt, tt)));
  counted = refl;
  bounded = omega arith;
  at_first = refl;
  last = λ k e. (51 ∷ 50 ∷ [], at_five k e);
}
  where
    at_five : (k : ℕ) → some 5 ≡ some k → find numbers k filled.item_bins ≡ some (51 ∷ 50 ∷ [])
    at_five k e = ground arith

enqueue-Refines_example :
    IsValid numbers (enqueue numbers 2 21 filled)
    × (items numbers (enqueue numbers 2 21 filled)
        ≡ insert_item numbers 2 21 (items numbers filled))
enqueue-Refines_example =
    enqueue-Refines numbers numbers-OrderLaws 2 21 filled filled-IsValid (omega arith)

pop-Refines_example :
    IsValid numbers (pop numbers filled)
    × (items numbers (pop numbers filled) ≡ drop 1 (items numbers filled))
pop-Refines_example = pop-Refines numbers numbers-OrderLaws filled filled-IsValid

drained :
    items numbers (pop numbers (enqueue numbers 1 10 (pop numbers filled))) ≡ (5, 51) ∷ (5, 50) ∷ []
unfolding pop enqueue bins_for
drained = refl
