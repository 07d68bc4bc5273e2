-- ===== src/Queue/Cells/Growth.antt =====
-- What a step adds to the items of the queue: cells with one source.
use navigation_learning.Prelude.{ℕ, ◌≡◌, sym, inl, inr, List, [], ◌∷◌, Bool-cases}
use mathlib.Core.Path.{subst}
use navigation_learning.Queue.Bins.Contents.{insert_item}
use navigation_learning.Queue.Cells.{CellData, Distances}

abbrev pub All {ℓ} : {A : Type ℓ} → (A → Type 0) → List A → Type 0
All P [] = Unit
All P (a ∷ l) = P a × All P l

module _ {D : Type 0} (d : Distances D) where
  -- The second list is the first one with cells inserted that have this source.
  pub data Grew (src_x src_y : ℕ) (l : List (D × CellData D)) : List (D × CellData D) → Type 0 where
    same : Grew src_x src_y l l
    inserted :
        (k : D) (c : CellData D) (m n : List (D × CellData D))
        → c.src_x ≡ src_x
        → c.src_y ≡ src_y
        → n ≡ insert_item d.order k c m
        → Grew src_x src_y l m
        → Grew src_x src_y l n

  pub All-insert_item :
      (P : D × CellData D → Type 0) (p : D) (c : CellData D) (l : List (D × CellData D))
      → P (p, c)
      → All P l
      → All P (insert_item d.order p c l)
  unfolding insert_item
  All-insert_item P p c [] a s = (a, tt)
  All-insert_item P p c ((k, b) ∷ l) a (x, s) = elim (Bool-cases (d.order.lt k p)) [
    | inl e ↦ rw e (x, All-insert_item P p c l a s)
    | inr e ↦ rw e (a, (x, s))
  ]

  All-inserted :
      (P : D × CellData D → Type 0) (p : D) (c : CellData D) (l : List (D × CellData D))
      → All P (insert_item d.order p c l)
      → All P l
  unfolding insert_item
  All-inserted P p c [] s = tt
  All-inserted P p c ((k, b) ∷ l) s = elim (Bool-cases (d.order.lt k p)) [
    | inl e ↦
        let t : P (k, b) × All P (insert_item d.order p c l) = rw e at s in
        (t.0, All-inserted P p c l (t.1))
    | inr e ↦ let t : P (p, c) × (P (k, b) × All P l) = rw e at s in t.1
  ]

  -- What holds of all items after the step holds of all before it.
  pub Grew-All :
      {src_x src_y : ℕ} (P : D × CellData D → Type 0) {l n : List (D × CellData D)}
      → Grew src_x src_y l n
      → All P n
      → All P l
  Grew-All P same s = s
  Grew-All P (inserted k c m n ex ey e g) s =
      Grew-All P g (All-inserted P k c m (subst (All P) e s))

  -- The sources after the step are those from before, and the one of the step.
  pub Grew-sources :
      {src_x src_y : ℕ} (Source : ℕ → ℕ → Type 0) {l n : List (D × CellData D)}
      → Grew src_x src_y l n
      → Source src_x src_y
      → All (λ (p : D × CellData D). Source (p.1.src_x) (p.1.src_y)) l
      → All (λ (p : D × CellData D). Source (p.1.src_x) (p.1.src_y)) n
  Grew-sources Source same a s = s
  Grew-sources Source (inserted k c m n ex ey e g) a s =
      subst (All (λ (p : D × CellData D). Source (p.1.src_x) (p.1.src_y))) (sym e)
        (All-insert_item _ k c m (rw (ex, ey) a) (Grew-sources Source g a s))

  pub Grew-trans :
      {src_x src_y : ℕ} {l m n : List (D × CellData D)}
      → Grew src_x src_y l m
      → Grew src_x src_y m n
      → Grew src_x src_y l n
  Grew-trans g same = g
  Grew-trans g (inserted k c m n ex ey e f) = inserted k c m n ex ey e (Grew-trans g f)
