-- ===== src/Queue/Bins.antt =====
-- `MapBasedQueue` of
-- navigation2/nav2_dwb_controller/costmap_queue/include/costmap_queue/map_based_queue.hpp. The map
-- from priorities to vectors is the list of its entries in the order of the keys, and a vector is the
-- list of its elements from the back. An iterator is the key it stands at, none for `end()`: bins are
-- only erased by `reset`, which renews both iterators.
pub mod Contents
pub mod Insertion
pub mod Removal
pub mod Refinement
mod Tests
use package.navigation_learning.Prelude.{
  ℕ, ◌+◌, ◌-◌, ◌/◌, ap, Bool, false, not, ◌||◌, Option, none, some, List, [], ◌∷◌, map, u32, ltb,
  ◌==◌, if◌then◌else◌, set,
}
use package.navigation_learning.Queue.Order.{Order}

pub record MapBasedQueue (D A : Type 0) : Type 0 where
  pub reset_bins : Bool
  pub item_bins : List (D × List A)
  pub item_count : ℕ
  pub iter : Option D
  pub last_insert_iter : Option D

-- The item, the exception, or the back of an empty vector.
pub data Front (A : Type 0) : Type 0 where
  item : A → Front A
  out_of_range : Front A
  undefined : Front A

module _ {D A : Type 0} where
  unfoldable pub reset : MapBasedQueue D A → MapBasedQueue D A
  reset q =
      if q.reset_bins || ltb 0 q.item_count
      then record q { item_bins = []; item_count = 0; iter = none; last_insert_iter = none }
      else record q { iter = none; last_insert_iter = none }

  unfoldable pub new : Bool → MapBasedQueue D A
  unfolding reset
  new reset_bins = reset record {
    reset_bins = reset_bins;
    item_bins = [];
    item_count = 0;
    iter = none;
    last_insert_iter = none;
  }

  abbrev pub is_empty : MapBasedQueue D A → Bool
  is_empty q = q.item_count == 0

  -- `find_if(…, not_empty)` from the first entry of a list.
  abbrev pub first_filled : List (D × List A) → Option D
  first_filled [] = none
  first_filled ((k, []) ∷ bins) = first_filled bins
  first_filled ((k, a ∷ bin) ∷ bins) = some k

module _ {A : Type 0} where
  abbrev pub pop_back : List A → List A
  pop_back [] = []
  pop_back (a ∷ bin) = bin

module _ {D A : Type 0} (o : Order D) where
  -- `item_bins_.find(priority)`, as the bin found.
  abbrev pub find : D → List (D × List A) → Option (List A)
  find p [] = none
  find p ((k, bin) ∷ bins) = if o.eq p k then some bin else find p bins

  -- `item_bins_.insert` of an empty bin, at its place in the order.
  abbrev pub insert_bin : D → List (D × List A) → List (D × List A)
  insert_bin p [] = (p, []) ∷ []
  insert_bin p ((k, bin) ∷ bins) =
      let rest = insert_bin p bins in
      if o.lt p k then (p, []) ∷ (k, bin) ∷ bins else (k, bin) ∷ rest

  -- A change of the bin at a key.
  abbrev pub update_bin : (List A → List A) → D → List (D × List A) → List (D × List A)
  update_bin f p [] = []
  update_bin f p ((k, bin) ∷ bins) =
      let rest = update_bin f p bins in if o.eq p k then (k, f bin) ∷ bins else (k, bin) ∷ rest

  -- The entries from the one at a key on.
  abbrev pub from : D → List (D × List A) → List (D × List A)
  from p [] = []
  from p ((k, bin) ∷ bins) = let rest = from p bins in if o.eq p k then (k, bin) ∷ bins else rest

  -- The bins with one for the priority, searched for unless the last insertion was there.
  unfoldable pub bins_for : D → MapBasedQueue D A → List (D × List A)
  bins_for priority q =
      let cached : Bool = elim q.last_insert_iter [ none ↦ false | some k ↦ o.eq k priority ] in
      if cached then q.item_bins else elim (find priority q.item_bins) [
        | none ↦ insert_bin priority q.item_bins
        | some bin ↦ q.item_bins
      ]

  unfoldable pub enqueue : D → A → MapBasedQueue D A → MapBasedQueue D A
  enqueue priority a q = record q {
    item_bins = update_bin (λ bin. a ∷ bin) priority (bins_for priority q);
    item_count = u32 (q.item_count + 1);
    iter = elim q.iter [
      | none ↦ some priority
      | some k ↦ if o.lt priority k then some priority else some k
    ];
    last_insert_iter = some priority;
  }

  unfoldable pub front : MapBasedQueue D A → Front A
  front q = elim q.iter [
    | none ↦ out_of_range
    | some k ↦ elim (find k q.item_bins) [
      | none ↦ undefined
      | some [] ↦ undefined
      | some (a ∷ bin) ↦ item a
    ]
  ]

  -- The bins and the count without the back of the iterator's bin, if it has one.
  abbrev pub pop_at : D → MapBasedQueue D A → MapBasedQueue D A
  pop_at k q = elim (find k q.item_bins) [
    | none ↦ q
    | some [] ↦ q
    | some (a ∷ bin) ↦ record q {
      item_bins = update_bin pop_back k q.item_bins;
      item_count = u32 (q.item_count + 4294967295);
    }
  ]

  unfoldable pub pop : MapBasedQueue D A → MapBasedQueue D A
  pop q = elim q.iter [
    | none ↦ q
    | some k ↦ let q' = pop_at k q in record q' { iter = first_filled (from k q'.item_bins) }
  ]
