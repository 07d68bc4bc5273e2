-- ===== src/Queue/Bins/Insertion.antt =====
-- An insertion into the bins inserts into the list of items, and keeps the bins sorted.
use navigation_learning.Prelude.{
  ◌≡◌, refl, sym, ap, ◌∙◌, inl, inr, true, false, none, some, List, [], ◌∷◌, ◌++◌, map, arith,
  Bool-cases,
}
use navigation_learning.Queue.Order.{Order, OrderLaws}
use navigation_learning.Queue.Bins.{find, insert_bin, update_bin}
use navigation_learning.Queue.Bins.Contents.{
  contents, insert_item, Above, Sorted, Above-trans, insert_item-past, insert_item-here,
}

module _ {D A : Type 0} (o : Order D) (laws : OrderLaws o) where
  pub update_bin-Above :
      (f : List A → List A) (q p : D) (bins : List (D × List A))
      → Above o q bins
      → Above o q (update_bin o f p bins)
  update_bin-Above f q p [] s = tt
  update_bin-Above f q p ((k, bin) ∷ bins) (h, s) = elim (Bool-cases (o.eq p k)) [
    | inl e ↦ rw e (h, s)
    | inr e ↦ rw e (h, update_bin-Above f q p bins s)
  ]

  pub update_bin-Sorted :
      (f : List A → List A) (p : D) (bins : List (D × List A))
      → Sorted o bins
      → Sorted o (update_bin o f p bins)
  update_bin-Sorted f p [] s = tt
  update_bin-Sorted f p ((k, bin) ∷ bins) (h, s) = elim (Bool-cases (o.eq p k)) [
    | inl e ↦ rw e (h, s)
    | inr e ↦ rw e (update_bin-Above f k p bins h, update_bin-Sorted f p bins s)
  ]

  insert_bin-Above :
      (q p : D) (bins : List (D × List A))
      → o.lt q p ≡ true
      → Above o q bins
      → Above o q (insert_bin o p bins)
  insert_bin-Above q p [] h s = (h, tt)
  insert_bin-Above q p ((k, bin) ∷ bins) h (l, s) = elim (Bool-cases (o.lt p k)) [
    | inl e ↦ rw e (h, (l, s))
    | inr e ↦ rw e (l, insert_bin-Above q p bins h s)
  ]

  -- A new bin for a key that has none.
  pub insert_bin-Sorted :
      (p : D) (bins : List (D × List A))
      → find o p bins ≡ none
      → Sorted o bins
      → Sorted o (insert_bin o p bins)
  insert_bin-Sorted p [] n s = (tt, tt)
  insert_bin-Sorted p ((k, bin) ∷ bins) n (h, s) = elim (Bool-cases (o.lt p k)) [
    | inl e ↦ rw e ((e, Above-trans o laws p k bins e h), (h, s))
    | inr e ↦
        let ne = new_key p k bin bins n in
        rw e
          (insert_bin-Above k p bins (laws.total p k (ne.0) e) h, insert_bin-Sorted p bins (ne.1) s)
  ]
    where
      new_key :
          (p k : D) (bin : List A) (bins : List (D × List A))
          → find o p ((k, bin) ∷ bins) ≡ none
          → (o.eq p k ≡ false) × (find o p bins ≡ none)
      new_key p k bin bins n = ground arith

  -- The key is there afterwards.
  pub insert_bin-find :
      (p : D) (bins : List (D × List A))
      → find o p bins ≡ none
      → find o p (insert_bin o p bins) ≡ some []
  insert_bin-find p [] n = ground (arith, laws.eq_refl p)
  insert_bin-find p ((k, bin) ∷ bins) n = ground (arith, laws.eq_refl p, insert_bin-find p bins)

  pub update_bin-find :
      (f : List A → List A) (p : D) (bins : List (D × List A)) (bin : List A)
      → find o p bins ≡ some bin
      → find o p (update_bin o f p bins) ≡ some (f bin)
  update_bin-find f p [] bin n = ground arith
  update_bin-find f p ((k, b) ∷ bins) bin n = ground (arith, update_bin-find f p bins bin)

  insert_bin-contents :
      (p : D) (bins : List (D × List A)) → contents (insert_bin o p bins) ≡ contents bins
  insert_bin-contents p [] = refl
  insert_bin-contents p ((k, bin) ∷ bins) = elim (Bool-cases (o.lt p k)) [
    | inl e ↦ rw e refl
    | inr e ↦ rw e (ap (λ l. map (λ a. (k, a)) bin ++ l) (insert_bin-contents p bins))
  ]

  found_later :
      (p k : D) (b : List A) (bins : List (D × List A)) (bin : List A)
      → o.eq p k ≡ false
      → find o p ((k, b) ∷ bins) ≡ some bin
      → find o p bins ≡ some bin
  found_later p k b bins bin e n = ground arith

  find-Above :
      (k p : D) (bins : List (D × List A)) (bin : List A)
      → Above o k bins
      → find o p bins ≡ some bin
      → o.lt k p ≡ true
  find-Above k p [] bin s n = ground arith
  find-Above k p ((k', b) ∷ bins) bin (h, s) n = elim (Bool-cases (o.eq p k')) [
    | inl e ↦ rw (laws.eq_sound p k' e) h
    | inr e ↦ find-Above k p bins bin s (found_later p k' b bins bin e n)
  ]

  push_here :
      (p k : D) (a : A) (b : List A) (bins : List (D × List A))
      → p ≡ k
      → Above o k bins
      → contents ((k, a ∷ b) ∷ bins) ≡ insert_item o p a (contents ((k, b) ∷ bins))
  push_here p k a b bins e h = rw e (sym (insert_item-here o laws k a b bins h))

  -- An item pushed to the bin of a key takes its place among the items.
  pub contents-push :
      (p : D) (a : A) (bins : List (D × List A)) (bin : List A)
      → Sorted o bins
      → find o p bins ≡ some bin
      → contents (update_bin o (λ b. a ∷ b) p bins) ≡ insert_item o p a (contents bins)
  contents-push p a [] bin s n = ground arith
  contents-push p a ((k, b) ∷ bins) bin (h, s) n = elim (Bool-cases (o.eq p k)) [
    | inl e ↦ rw e (push_here p k a b bins (laws.eq_sound p k e) h)
    | inr e ↦
        let t = found_later p k b bins bin e n in
        rw e (
          ap (λ l. map (λ a. (k, a)) b ++ l) (contents-push p a bins bin s t)
          ∙ sym (insert_item-past o laws p a k b (contents bins) (find-Above k p bins bin h t)))
  ]

  -- So does an item pushed to a new bin.
  pub contents-push_new :
      (p : D) (a : A) (bins : List (D × List A))
      → Sorted o bins
      → find o p bins ≡ none
      → contents (update_bin o (λ b. a ∷ b) p (insert_bin o p bins))
        ≡ insert_item o p a (contents bins)
  contents-push_new p a bins s n =
      contents-push p a (insert_bin o p bins) [] (insert_bin-Sorted p bins n s)
        (insert_bin-find p bins n)
      ∙ ap (insert_item o p a) (insert_bin-contents p bins)
