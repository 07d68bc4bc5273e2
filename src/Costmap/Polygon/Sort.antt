-- ===== src/Costmap/Polygon/Sort.antt =====
-- The sort of the outline in `Costmap2D::convexFillCells`
-- (navigation2/nav2_costmap_2d/src/costmap_2d.cpp): its fuel and its result.
use navigation_learning.Prelude.{
  ℕ, zero, suc, ◌+◌, ◌*◌, ◌≤◌, ◌<◌, ◌≡◌, refl, inl, inr, some, List, [], ◌∷◌, arith, ltb,
  if◌then◌else◌, ltb→lt, Bool-cases, length,
}
use mathlib.Core.List.{reverse_aux, cons≢nil, Perm}
use mathlib.Core.List.Perm
use navigation_learning.Costmap.Polygon.{back, sort_round, sort_loop, sort_cells}

-- Each cell is at most as far to the right as the next one.
abbrev pub AtMost : ℕ × ℕ → List (ℕ × ℕ) → Type 0
AtMost p [] = Unit
AtMost p (a ∷ cells) = p.0 ≤ a.0

abbrev pub AscendingX : List (ℕ × ℕ) → Type 0
AscendingX [] = Unit
AscendingX (a ∷ cells) = AtMost a cells × AscendingX cells

-- The same of the cells before the index, the last one first, and of the cell at the index.
abbrev AtLeast : ℕ × ℕ → List (ℕ × ℕ) → Type 0
AtLeast a [] = Unit
AtLeast a (p ∷ before) = p.0 ≤ a.0

abbrev DescendingX : List (ℕ × ℕ) → Type 0
DescendingX [] = Unit
DescendingX (a ∷ before) = AtLeast a before × DescendingX before

abbrev Ready : List (ℕ × ℕ) → List (ℕ × ℕ) → Type 0
Ready before [] = before ≡ []
Ready before (a ∷ after) = AtLeast a before × DescendingX before

-- The cells of a list to the left of a cell, and the pairs of cells in the wrong order.
abbrev left_of : ℕ × ℕ → List (ℕ × ℕ) → ℕ
left_of a [] = 0
left_of a (b ∷ cells) = (if ltb b.0 a.0 then 1 else 0) + left_of a cells

abbrev inversions : List (ℕ × ℕ) → ℕ
inversions [] = 0
inversions (a ∷ cells) = left_of a cells + inversions cells

left_of_le : (a : ℕ × ℕ) (cells : List (ℕ × ℕ)) → left_of a cells ≤ length cells
left_of_le a [] = omega arith
left_of_le a (b ∷ cells) = ground (arith, left_of_le a cells)

square : (s i n : ℕ) → s ≤ n → 2 * i + n ≤ n * n → 2 * (s + i) + suc n ≤ suc n * suc n
square s i n h k = grind arith

inversions_le :
    (cells : List (ℕ × ℕ)) → 2 * inversions cells + length cells ≤ length cells * length cells
inversions_le [] = omega arith
inversions_le (a ∷ cells) =
    square (left_of a cells) (inversions cells) (length cells) (left_of_le a cells)
      (inversions_le cells)

swapped_lower :
    (before l r : List (ℕ × ℕ))
    → inversions l + 1 ≡ inversions r
    → ((p : ℕ × ℕ) → left_of p l ≡ left_of p r)
    → inversions (reverse_aux before l) + 1 ≡ inversions (reverse_aux before r)
swapped_lower [] l r e h = e
swapped_lower (p ∷ before) l r e h =
    swapped_lower before (p ∷ l) (p ∷ r) (omega (arith, h p)) (λ q. omega (arith, h q))

swap_lower :
    (before after : List (ℕ × ℕ)) (a b : ℕ × ℕ)
    → b.0 < a.0
    → inversions (reverse_aux before (b ∷ a ∷ after)) + 1
      ≡ inversions (reverse_aux before (a ∷ b ∷ after))
swap_lower before after a b h =
    swapped_lower before (b ∷ a ∷ after) (a ∷ b ∷ after) (ground arith) (λ p. ground arith)

Perm-reverse_aux :
    (before : List (ℕ × ℕ)) {l r : List (ℕ × ℕ)}
    → Perm l r
    → Perm (reverse_aux before l) (reverse_aux before r)
Perm-reverse_aux [] h = h
Perm-reverse_aux (p ∷ before) h = Perm-reverse_aux before (Perm.cons p h)

AscendingX-reverse_aux :
    (before : List (ℕ × ℕ)) (a : ℕ × ℕ) (after : List (ℕ × ℕ))
    → AtLeast a before
    → DescendingX before
    → AscendingX (a ∷ after)
    → AscendingX (reverse_aux before (a ∷ after))
AscendingX-reverse_aux [] a after h k s = s
AscendingX-reverse_aux (p ∷ before) a after h k s =
    AscendingX-reverse_aux before p (a ∷ after) k.0 k.1 (h, s)

-- What is asked of the loop at a position.
record Sorts (n : ℕ) (before after : List (ℕ × ℕ)) : Type 0 where
  pub out : List (ℕ × ℕ)
  pub returns : sort_loop n before after ≡ some out
  pub ascending : AscendingX out
  pub same : Perm out (reverse_aux before after)

abbrev measure : List (ℕ × ℕ) → List (ℕ × ℕ) → ℕ
measure before after = 2 * inversions (reverse_aux before after) + length after

-- A swap and the step back.
back-Ready :
    (before after : List (ℕ × ℕ)) (a b : ℕ × ℕ)
    → AtLeast a before
    → DescendingX before
    → Ready (back before (b ∷ a ∷ after)).before (back before (b ∷ a ∷ after)).after
back-Ready [] after a b h k = (tt, tt)
back-Ready (p ∷ before) after a b h k = k

reverse_aux-back :
    (before after : List (ℕ × ℕ))
    → reverse_aux (back before after).before (back before after).after ≡ reverse_aux before after
reverse_aux-back [] after = refl
reverse_aux-back (p ∷ before) after = refl

length-back : (before after : List (ℕ × ℕ)) → length (back before after).after ≤ suc (length after)
length-back [] after = omega arith
length-back (p ∷ before) after = omega arith

back_lower :
    (before after : List (ℕ × ℕ)) (a b : ℕ × ℕ)
    → b.0 < a.0
    → measure (back before (b ∷ a ∷ after)).before (back before (b ∷ a ∷ after)).after
      < measure before (a ∷ b ∷ after)
back_lower before after a b h =
    rw (reverse_aux-back before (b ∷ a ∷ after))
      (omega (arith, swap_lower before after a b h, length-back before (b ∷ a ∷ after)))

same_back :
    (before after out : List (ℕ × ℕ)) (a b : ℕ × ℕ)
    → Perm out
        (reverse_aux (back before (b ∷ a ∷ after)).before (back before (b ∷ a ∷ after)).after)
    → Perm out (reverse_aux before (a ∷ b ∷ after))
same_back before after out a b p =
    Perm.trans (rw reverse_aux-back at p) (Perm-reverse_aux before (Perm.swap a b after))

sorts :
    (n : ℕ) (before after : List (ℕ × ℕ))
    → Ready before after
    → measure before after < n
    → Sorts n before after
unfolding sort_round sort_loop
sorts zero before after r h = elim h [ ]
sorts (suc n) [] [] r h = record { out = []; returns = refl; ascending = tt; same = Perm.rfl }
sorts (suc n) (p ∷ before) [] r h = absurd (cons≢nil r)
sorts (suc n) before (a ∷ []) r h = record {
  out = reverse_aux before (a ∷ []);
  returns = refl;
  ascending = AscendingX-reverse_aux before a [] r.0 r.1 (tt, tt);
  same = Perm.rfl;
}
sorts (suc n) before (a ∷ b ∷ after) r h = elim (Bool-cases (ltb b.0 a.0)) [
  | inl e ↦
      let lower = ltb→lt b.0 a.0 e in
      let c = back before (b ∷ a ∷ after) in
      let rest =
        sorts n c.before c.after (back-Ready before after a b r.0 r.1)
          (omega (arith, back_lower before after a b lower)) in
      record {
        out = rest.out;
        returns = rw e rest.returns;
        ascending = rest.ascending;
        same = same_back before after rest.out a b rest.same;
      }
  | inr e ↦
      let rest = sorts n (a ∷ before) (b ∷ after) (ground arith, r) (omega arith) in
      record {
        out = rest.out;
        returns = rw e rest.returns;
        ascending = rest.ascending;
        same = rest.same;
      }
]

-- The sort ends within its fuel, its result has the same cells, and they ascend in x.
pub sort_cells-AscendingX :
    (cells : List (ℕ × ℕ))
    → (out : List (ℕ × ℕ)) × (sort_cells cells ≡ some out) × AscendingX out × Perm out cells
unfolding sort_cells
sort_cells-AscendingX cells =
    let s =
      sorts (suc (length cells * length cells)) [] cells (starts cells)
        (omega (arith, inversions_le cells)) in
    (s.out, s.returns, s.ascending, s.same)
  where
    starts : (cells : List (ℕ × ℕ)) → Ready [] cells
    starts [] = refl
    starts (a ∷ cells) = (tt, tt)
