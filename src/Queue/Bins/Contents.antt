-- ===== src/Queue/Bins/Contents.antt =====
-- The bins as one list of items in the order of their priorities, the last item of a bin first.
use navigation_learning.Prelude.{
  ◌≡◌, refl, true, Option, none, some, List, [], ◌∷◌, ◌++◌, map, if◌then◌else◌,
}
use navigation_learning.Queue.Order.{Order, OrderLaws, lt_asym}
use navigation_learning.Queue.Bins.{first_filled}

module _ {D A : Type 0} where
  abbrev pub contents : List (D × List A) → List (D × A)
  contents [] = []
  contents ((k, bin) ∷ bins) = map (λ a. (k, a)) bin ++ contents bins

  abbrev pub head_key : List (D × A) → Option D
  head_key [] = none
  head_key ((k, a) ∷ l) = some k

  pub first_filled-head_key :
      (bins : List (D × List A)) → first_filled bins ≡ head_key (contents bins)
  first_filled-head_key [] = refl
  first_filled-head_key ((k, []) ∷ bins) = first_filled-head_key bins
  first_filled-head_key ((k, a ∷ bin) ∷ bins) = refl

module _ {D A : Type 0} (o : Order D) where
  -- Before the first item whose priority is not less.
  unfoldable pub insert_item : D → A → List (D × A) → List (D × A)
  insert_item p a [] = (p, a) ∷ []
  insert_item p a ((k, b) ∷ l) =
      let rest = insert_item p a l in if o.lt k p then (k, b) ∷ rest else (p, a) ∷ (k, b) ∷ l

  abbrev pub Above : D → List (D × List A) → Type 0
  Above p [] = Unit
  Above p ((k, bin) ∷ bins) = (o.lt p k ≡ true) × Above p bins

  abbrev pub Sorted : List (D × List A) → Type 0
  Sorted [] = Unit
  Sorted ((k, bin) ∷ bins) = Above k bins × Sorted bins

module _ {D A : Type 0} (o : Order D) (laws : OrderLaws o) where
  pub Above-trans :
      (p k : D) (bins : List (D × List A)) → o.lt p k ≡ true → Above o k bins → Above o p bins
  Above-trans p k [] h s = tt
  Above-trans p k ((k', bin) ∷ bins) h (s, t) = (laws.lt_trans p k k' h s, Above-trans p k bins h t)

  pub insert_item-front :
      (p : D) (a : A) (bins : List (D × List A))
      → Above o p bins
      → insert_item o p a (contents bins) ≡ (p, a) ∷ contents bins
  unfolding insert_item
  insert_item-front p a [] s = refl
  insert_item-front p a ((k, []) ∷ bins) (h, s) = insert_item-front p a bins s
  insert_item-front p a ((k, b ∷ bin) ∷ bins) (h, s) = rw (lt_asym o laws p k h) refl

  pub insert_item-past :
      (p : D) (a : A) (k : D) (bin : List A) (l : List (D × A))
      → o.lt k p ≡ true
      → insert_item o p a (map (λ b. (k, b)) bin ++ l)
        ≡ map (λ b. (k, b)) bin ++ insert_item o p a l
  unfolding insert_item
  insert_item-past p a k [] l h = refl
  insert_item-past p a k (b ∷ bin) l h = rw (h, insert_item-past p a k bin l h) refl

  pub insert_item-here :
      (p : D) (a : A) (bin : List A) (bins : List (D × List A))
      → Above o p bins
      → insert_item o p a (contents ((p, bin) ∷ bins)) ≡ (p, a) ∷ contents ((p, bin) ∷ bins)
  unfolding insert_item
  insert_item-here p a [] bins s = insert_item-front p a bins s
  insert_item-here p a (b ∷ bin) bins s = rw (laws.lt_irrefl p) refl
