-- ===== src/Queue/Bins/Removal.antt =====
-- The bin that the iterator stands at is the first one with an item, and `pop` takes that item.
use navigation_learning.Prelude.{◌≡◌, refl, ap, true, false, some, List, [], ◌∷◌, arith}
use navigation_learning.Queue.Order.{Order, OrderLaws}
use navigation_learning.Queue.Bins.{first_filled, find, update_bin, from, pop_back}
use navigation_learning.Queue.Bins.Contents.{contents, Above, Sorted}

module _ {D A : Type 0} (o : Order D) (laws : OrderLaws o) where
  -- The item at the iterator, and what is left without it.
  pub record Popped (k : D) (bins : List (D × List A)) : Type 0 where
    pub back : A
    pub rest : List A
    pub found : find o k bins ≡ some (back ∷ rest)
    pub first : contents bins ≡ (k, back) ∷ contents (update_bin o pop_back k bins)
    pub next :
        first_filled (from o k (update_bin o pop_back k bins))
        ≡ first_filled (update_bin o pop_back k bins)

  first_filled-Above :
      (k' k : D) (bins : List (D × List A))
      → Above o k' bins
      → first_filled bins ≡ some k
      → o.eq k k' ≡ false
  first_filled-Above k' k [] s e = ground arith
  first_filled-Above k' k ((j, []) ∷ bins) (h, s) e = first_filled-Above k' k bins s e
  first_filled-Above k' k ((j, a ∷ bin) ∷ bins) (h, s) e =
      ground (arith, laws.eq_sound k k', laws.lt_irrefl k')

  pub first_filled-Popped :
      (k : D) (bins : List (D × List A))
      → Sorted o bins
      → first_filled bins ≡ some k
      → Popped k bins
  first_filled-Popped k [] s e = ground arith
  first_filled-Popped k ((j, []) ∷ bins) (h, s) e =
      let p = first_filled-Popped k bins s e in
      let ne = first_filled-Above j k bins h e in
      record {
        back = p.back;
        rest = p.rest;
        found = rw ne p.found;
        first = rw ne p.first;
        next = rw (ne, ne) p.next;
      }
  first_filled-Popped k ((j, a ∷ bin) ∷ bins) (h, s) e = here k j (some_inj e)
    where
      some_inj : some j ≡ some k → j ≡ k
      some_inj q = ground arith

      here : (k j : D) → j ≡ k → Popped k ((j, a ∷ bin) ∷ bins)
      here k j e =
          let same : o.eq k j ≡ true = rw e (laws.eq_refl k) in
          record {
            back = a;
            rest = bin;
            found = rw same refl;
            first = rw same (ap (λ i. (i, a) ∷ contents ((j, bin) ∷ bins)) e);
            next = rw (same, same) refl;
          }
