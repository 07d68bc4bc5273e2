-- ===== src/Queue/Bins/Refinement.antt =====
-- The queue against a sorted list of items.
use navigation_learning.Prelude.{
  suc, ◌+◌, ◌<◌, ◌≡◌, refl, sym, ap, ◌∙◌, inl, inr, false, ◌||◌, Option, none, some, List, [], ◌∷◌,
  arith, u32, ltb, if◌then◌else◌, Bool-cases, Option-cases, length, drop,
}
use mathlib.Core.Path.{subst}
use navigation_learning.Queue.Order.{Order, OrderLaws}
use navigation_learning.Queue.Bins.{
  MapBasedQueue, Front, item, out_of_range, reset, first_filled, find, insert_bin, update_bin,
  bins_for, enqueue, front, pop_back, pop,
}
use navigation_learning.Queue.Bins.Contents.{
  contents, head_key, first_filled-head_key, insert_item, Sorted,
}
use navigation_learning.Queue.Bins.Insertion.{
  update_bin-Sorted, insert_bin-Sorted, insert_bin-find, update_bin-find, contents-push,
  contents-push_new,
}
use navigation_learning.Queue.Bins.Removal.{Popped, first_filled-Popped}

module _ {D A : Type 0} (o : Order D) where
  -- The items of a queue, the next one first.
  abbrev pub items : MapBasedQueue D A → List (D × A)
  items q = contents q.item_bins

  abbrev pub first_item : List (D × A) → Front A
  first_item [] = out_of_range
  first_item ((k, a) ∷ l) = item a

  -- The bins are sorted, the count is right, the iterator stands at the first item, and the last
  -- insertion was at a bin.
  pub record IsValid (q : MapBasedQueue D A) : Type 0 where
    pub sorted : Sorted o q.item_bins
    pub counted : q.item_count ≡ length (items q)
    pub bounded : length (items q) < 4294967296
    pub at_first : q.iter ≡ head_key (items q)
    pub last :
        (k : D) → q.last_insert_iter ≡ some k → (bin : List A) × (find o k q.item_bins ≡ some bin)

module _ {D A : Type 0} (o : Order D) (laws : OrderLaws o) where
  -- The bins that an insertion pushes to.
  record Ready (p : D) (q : MapBasedQueue D A) (bins : List (D × List A)) : Type 0 where
    bin : List A
    found : find o p bins ≡ some bin
    sorted : Sorted o bins
    pushed : (a : A) → contents (update_bin o (λ b. a ∷ b) p bins) ≡ insert_item o p a (items o q)

  bins_for-some :
      (p : D) (q : MapBasedQueue D A) (bin : List A)
      → find o p q.item_bins ≡ some bin
      → bins_for o p q ≡ q.item_bins
  unfolding bins_for
  bins_for-some p q bin f = ground arith

  bins_for-none :
      (p : D) (q : MapBasedQueue D A)
      → IsValid o q
      → find o p q.item_bins ≡ none
      → bins_for o p q ≡ insert_bin o p q.item_bins
  unfolding bins_for
  bins_for-none p q v f = elim (Option-cases q.last_insert_iter) [
    | inl e ↦ ground arith
    | inr (k, e) ↦ elim (Bool-cases (o.eq k p)) [
      | inl same ↦ absurd (stale k (laws.eq_sound k p same) (v.last k e))
      | inr other ↦ ground arith
    ]
  ]
    where
      none_some : {bin : List A} → ◌≡◌ {A = Option (List A)} none (some bin) → ⊥
      none_some e = ground arith

      stale : (k : D) → k ≡ p → (bin : List A) × (find o k q.item_bins ≡ some bin) → ⊥
      stale k same (bin, g) = none_some (sym f ∙ ap (λ i. find o i q.item_bins) (sym same) ∙ g)

  bins_for-Ready : (p : D) (q : MapBasedQueue D A) → IsValid o q → Ready p q (bins_for o p q)
  bins_for-Ready p q v = elim (Option-cases (find o p q.item_bins)) [
    | inl n ↦ subst (Ready p q) (sym (bins_for-none p q v n)) record {
      bin = [];
      found = insert_bin-find o laws p q.item_bins n;
      sorted = insert_bin-Sorted o laws p q.item_bins n v.sorted;
      pushed = λ a. contents-push_new o laws p a q.item_bins v.sorted n;
    }
    | inr (bin, f) ↦ subst (Ready p q) (sym (bins_for-some p q bin f)) record {
      bin = bin;
      found = f;
      sorted = v.sorted;
      pushed = λ a. contents-push o laws p a q.item_bins bin v.sorted f;
    }
  ]

  pub length-insert_item :
      (p : D) (a : A) (l : List (D × A)) → length (insert_item o p a l) ≡ suc (length l)
  unfolding insert_item
  length-insert_item p a [] = refl
  length-insert_item p a ((k, b) ∷ l) = ground (arith, length-insert_item p a l)

  head_key-insert_item :
      (p : D) (a : A) (l : List (D × A))
      → head_key (insert_item o p a l)
        ≡ (elim (head_key l) [ none ↦ some p | some k ↦ if o.lt p k then some p else some k ])
  unfolding insert_item
  head_key-insert_item p a [] = refl
  head_key-insert_item p a ((k, b) ∷ l) =
      ground (arith, laws.total k p, laws.eq_sound k p, laws.lt_trans p k p, laws.lt_irrefl p)

  -- Inserting keeps a valid queue valid, while its items can be counted, and inserts before the first
  -- item whose priority is not less.
  pub enqueue-Refines :
      (p : D) (a : A) (q : MapBasedQueue D A)
      → IsValid o q
      → suc (length (items o q)) < 4294967296
      → IsValid o (enqueue o p a q) × (items o (enqueue o p a q) ≡ insert_item o p a (items o q))
  unfolding enqueue
  enqueue-Refines p a q v room =
      let r = bins_for-Ready p q v in
      let size = ap length (r.pushed a) ∙ length-insert_item p a (items o q) in
      (
        record {
          sorted = update_bin-Sorted o laws (λ b. a ∷ b) p (bins_for o p q) r.sorted;
          counted = omega (arith, size, v.counted, room);
          bounded = omega (arith, size, room);
          at_first = rw (r.pushed a, head_key-insert_item p a (items o q), v.at_first) refl;
          last = λ k e.
              subst HasBin (some_inj e)
                (a ∷ r.bin, update_bin-find o laws (λ b. a ∷ b) p (bins_for o p q) r.bin r.found);
        },
        r.pushed a,
      )
    where
      HasBin : D → Type 0
      HasBin k =
          (bin : List A) × (find o k (update_bin o (λ b. a ∷ b) p (bins_for o p q)) ≡ some bin)

      some_inj : {k : D} → some p ≡ some k → p ≡ k
      some_inj e = ground arith

  find_kept :
      (f : List A → List A) (p k : D) (bins : List (D × List A)) (bin : List A)
      → find o p bins ≡ some bin
      → (bin' : List A) × (find o p (update_bin o f k bins) ≡ some bin')
  find_kept f p k [] bin n = absurd (ground arith)
  find_kept f p k ((j, b) ∷ bins) bin n = elim (Bool-cases (o.eq k j)) [
    | inl e ↦ elim (Bool-cases (o.eq p j)) [
      | inl e' ↦ (f b, rw (e, e') refl)
      | inr e' ↦ (bin, rw (e, e') (later e' n))
    ]
    | inr e ↦ elim (Bool-cases (o.eq p j)) [
      | inl e' ↦ (b, rw (e, e') refl)
      | inr e' ↦ let r = find_kept f p k bins bin (later e' n) in (r.0, rw (e, e') (r.1))
    ]
  ]
    where
      later : o.eq p j ≡ false → find o p ((j, b) ∷ bins) ≡ some bin → find o p bins ≡ some bin
      later e n = ground arith

  pop-none : (q : MapBasedQueue D A) → q.iter ≡ none → pop o q ≡ q
  unfolding pop
  pop-none q e = ground arith

  -- `pop` where the iterator stands at an item.
  abbrev popped : D → MapBasedQueue D A → MapBasedQueue D A
  popped k q = record q {
    item_bins = update_bin o pop_back k q.item_bins;
    item_count = u32 (q.item_count + 4294967295);
    iter = first_filled (update_bin o pop_back k q.item_bins);
  }

  pop-some :
      (q : MapBasedQueue D A) (k : D)
      → q.iter ≡ some k
      → Popped o laws k q.item_bins
      → pop o q ≡ popped k q
  unfolding pop
  pop-some q k e p = ground (arith, p.found, p.next)

  empty_lem : (l : List (D × A)) → head_key l ≡ none → l ≡ drop 1 l
  empty_lem [] e = refl
  empty_lem (x ∷ l) e = ground arith

  popped-Refines :
      (k : D) (q : MapBasedQueue D A)
      → IsValid o q
      → Popped o laws k q.item_bins
      → IsValid o (popped k q) × (items o (popped k q) ≡ drop 1 (items o q))
  popped-Refines k q v p =
      let size = ap length p.first in
      (
        record {
          sorted = update_bin-Sorted o laws pop_back k q.item_bins v.sorted;
          counted = omega (arith, size, v.counted, v.bounded);
          bounded = omega (arith, size, v.bounded);
          at_first = first_filled-head_key (update_bin o pop_back k q.item_bins);
          last = λ j e. let f = v.last j e in find_kept pop_back j k q.item_bins (f.0) (f.1);
        },
        sym (ap (drop 1) p.first),
      )

  -- Removing keeps a valid queue valid and takes its first item, if it has one.
  pub pop-Refines :
      (q : MapBasedQueue D A)
      → IsValid o q
      → IsValid o (pop o q) × (items o (pop o q) ≡ drop 1 (items o q))
  pop-Refines q v = elim (Option-cases q.iter) [
    | inl e ↦
        let same = pop-none q e in
        subst Removed (sym same) (v, empty_lem (items o q) (sym v.at_first ∙ e))
    | inr (k, e) ↦
        let p =
          first_filled-Popped o laws k q.item_bins v.sorted
            (first_filled-head_key q.item_bins ∙ sym v.at_first ∙ e) in
        subst Removed (sym (pop-some q k e p)) (popped-Refines k q v p)
  ]
    where
      Removed : MapBasedQueue D A → Type 0
      Removed r = IsValid o r × (items o r ≡ drop 1 (items o q))

  front-some :
      (q : MapBasedQueue D A) (k : D) (a : A) (bin : List A)
      → q.iter ≡ some k
      → find o k q.item_bins ≡ some (a ∷ bin)
      → front o q ≡ item a
  unfolding front
  front-some q k a bin e f = ground arith

  front-none : (q : MapBasedQueue D A) → q.iter ≡ none → front o q ≡ out_of_range
  unfolding front
  front-none q e = ground arith

  nothing_lem : (l : List (D × A)) → head_key l ≡ none → out_of_range ≡ first_item o l
  nothing_lem [] e = refl
  nothing_lem (x ∷ l) e = ground arith

  -- The front of a valid queue is its first item, and the exception is thrown exactly when it is empty.
  pub front-Refines : (q : MapBasedQueue D A) → IsValid o q → front o q ≡ first_item o (items o q)
  unfolding front
  front-Refines q v = elim (Option-cases q.iter) [
    | inl e ↦ front-none q e ∙ nothing_lem (items o q) (sym v.at_first ∙ e)
    | inr (k, e) ↦
        let p =
          first_filled-Popped o laws k q.item_bins v.sorted
            (first_filled-head_key q.item_bins ∙ sym v.at_first ∙ e) in
        front-some q k p.back p.rest e p.found ∙ sym (ap (first_item o) p.first)
  ]

  -- `reset` of a valid queue gives a valid queue without items, whether or not the bins are kept.
  pub reset-Refines :
      (q : MapBasedQueue D A) → IsValid o q → IsValid o (reset q) × (items o (reset q) ≡ [])
  unfolding reset
  reset-Refines q v = elim (Bool-cases (q.reset_bins || ltb 0 q.item_count)) [
    | inl e ↦ rw e (
      record {
        sorted = tt;
        counted = refl;
        bounded = omega arith;
        at_first = refl;
        last = λ k e. absurd (ground arith);
      },
      refl,
    )
    | inr e ↦ rw e (
      record {
        sorted = v.sorted;
        counted = v.counted;
        bounded = v.bounded;
        at_first = sym (ap head_key (gone e));
        last = λ k e. absurd (ground arith);
      },
      gone e,
    )
  ]
    where
      no_items : (l : List (D × A)) → length l ≡ 0 → l ≡ []
      no_items [] h = refl
      no_items (x ∷ l) h = absurd (omega (arith, h))

      gone : q.reset_bins || ltb 0 q.item_count ≡ false → items o q ≡ []
      gone e = no_items (items o q) (ground (arith, v.counted))
