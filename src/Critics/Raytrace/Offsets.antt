-- ===== src/Critics/Raytrace/Offsets.antt =====
-- One round of the walk on offsets against one step of the iterator.
use navigation_learning.Prelude.{
  ℕ, zero, suc, ◌+◌, ◌-◌, ◌*◌, ◌<◌, ◌≡◌, refl, sym, ap, ◌∙◌, ◌⊎◌, inl, inr, Bool, true, false, not,
  List, [], ◌∷◌, map, arith, u32, ltb, leb, ltb→lt, leb→le, Bool-cases,
}
use navigation_learning.Prelude.Int.{ℤ, pos, negsuc, ◌+ℤ◌, leb_ℤ}
use navigation_learning.Costmap.Doubles.{to_u32}
use navigation_learning.Costmap.Grid.{index_in}
use navigation_learning.Costmap.Raytrace.{bresenham}
use navigation_learning.Critics.LineIterator.{LineIterator, direction, step}
use navigation_learning.Critics.LineIterator.Path.{
  toward, toward_next, placed, whole, part, placed_carries, placed_stays,
}

-- The cells of an iterator whose members are unlimited, and the array index of a cell as `getIndex` computes it.
abbrev pub cells : ℕ → LineIterator → List (ℤ × ℤ)
cells zero it = []
cells (suc n) it = (it.x, it.y) ∷ cells n (step it)

abbrev pub index_of : ℕ → ℤ × ℤ → ℕ
index_of w (x, y) = index_in w (to_u32 x) (to_u32 y)

to_u32_next : (z : ℤ) → to_u32 (z +ℤ pos 1) ≡ u32 (to_u32 z + 1)
unfolding ◌+ℤ◌
to_u32_next z = ground arith

to_u32_last : (z : ℤ) → to_u32 (z +ℤ negsuc 0) ≡ u32 (to_u32 z + 4294967295)
unfolding ◌+ℤ◌
to_u32_last z = ground arith

step_x :
    (w : ℕ) (x y a b : ℤ)
    → u32 (index_of w (x, y) + to_u32 (direction a b)) ≡ index_of w (x +ℤ direction a b, y)
step_x w x y a b = ground (arith, to_u32_next x, to_u32_last x)

-- Products of a wrapped row.
row_next : (w t : ℕ) → t < 4294967296 → u32 (u32 (t + 1) * w) ≡ u32 (t * w + w)
row_next w t h = elim (Bool-cases (ltb (t + 1) 4294967296)) [
  | inl below ↦
      let same : u32 (t + 1) ≡ t + 1 = omega (arith, ltb→lt _ _ below) in
      rw same (ap u32 (grind arith))
  | inr wraps ↦ let top : t ≡ 4294967295 = ground arith in rw top (omega arith)
]

row_last :
    (w t : ℕ) → t < 4294967296 → u32 (u32 (t + 4294967295) * w) ≡ u32 (t * w + 4294967295 * w)
row_last w zero h = omega arith
row_last w (suc t) h =
    let same : u32 (suc t + 4294967295) ≡ t = omega (arith, h) in
    let split : suc t * w ≡ t * w + w = grind arith in rw same (omega (arith, split))

to_u32-lt : (z : ℤ) → to_u32 z < 4294967296
to_u32-lt z = ground arith

step_y :
    (w : ℕ) (x y a b : ℤ)
    → u32 (index_of w (x, y) + u32 (to_u32 (direction a b) * w))
      ≡ index_of w (x, y +ℤ direction a b)
step_y w x y a b = elim (Bool-cases (leb_ℤ a b)) [
  | inl up ↦ rw (up, to_u32_next y) (omega (arith, row_next w (to_u32 y) (to_u32-lt y)))
  | inr down ↦ rw (down, to_u32_last y) (omega (arith, row_last w (to_u32 y) (to_u32-lt y)))
]

-- One round of the loop that carries, and one that does not.
bresenham_carries :
    (n da db e a b o : ℕ)
    → leb da (e + db) ≡ true
    → bresenham (suc n) da db e a b o
      ≡ o ∷ bresenham n da db (e + db - da) a b (u32 (u32 (o + a) + b))
unfolding bresenham
bresenham_carries n da db e a b o c = rw c refl

bresenham_stays :
    (n da db e a b o : ℕ)
    → leb da (e + db) ≡ false
    → bresenham (suc n) da db e a b o ≡ o ∷ bresenham n da db (e + db) a b (u32 (o + a))
unfolding bresenham
bresenham_stays n da db e a b o c = rw c refl

module _ (w : ℕ) (x0 y0 x1 y1 : ℤ) where
  -- The offsets of one step along each axis of a flat line, and of a steep one.
  abbrev pub along : Bool → ℕ
  along true = u32 (to_u32 (direction y0 y1) * w)
  along false = to_u32 (direction x0 x1)

  abbrev pub cell : Bool → ℕ → ℕ → ℕ
  cell steep k s =
      index_of w ((placed x0 y0 x1 y1 steep k s 0).x, (placed x0 y0 x1 y1 steep k s 0).y)

  cell_major : (steep : Bool) (k s : ℕ) → u32 (cell steep k s + along steep) ≡ cell steep (suc k) s
  cell_major true k s =
      step_y w (toward x0 x1 s) (toward y0 y1 k) y0 y1
      ∙ ap (λ t. index_of w (toward x0 x1 s, t)) (toward_next y0 y1 k)
  cell_major false k s =
      step_x w (toward x0 x1 k) (toward y0 y1 s) x0 x1
      ∙ ap (λ t. index_of w (t, toward y0 y1 s)) (toward_next x0 x1 k)

  cell_minor :
      (steep : Bool) (k s : ℕ) → u32 (cell steep k s + along (not steep)) ≡ cell steep k (suc s)
  cell_minor true k s =
      step_x w (toward x0 x1 s) (toward y0 y1 k) x0 x1
      ∙ ap (λ t. index_of w (t, toward y0 y1 k)) (toward_next x0 x1 s)
  cell_minor false k s =
      step_y w (toward x0 x1 k) (toward y0 y1 s) y0 y1
      ∙ ap (λ t. index_of w (toward x0 x1 k, t)) (toward_next y0 y1 s)

  -- The minor offset is right, or it is never used.
  abbrev pub Fits : Bool → ℕ → ℕ → Type 0
  Fits steep e b =
      (b ≡ along (not steep)) ⊎ ((part x0 y0 x1 y1 steep ≡ 0) × (e < whole x0 y0 x1 y1 steep))

  minor_offset :
      (steep : Bool) (k s e b : ℕ)
      → Fits steep e b
      → leb (whole x0 y0 x1 y1 steep) (e + part x0 y0 x1 y1 steep) ≡ true
      → u32 (cell steep k s + b) ≡ cell steep k (suc s)
  minor_offset steep k s e b (inl h) up =
      ap (λ t. u32 (cell steep k s + t)) h ∙ cell_minor steep k s
  minor_offset steep k s e b (inr h) up = absurd (omega (arith, h, leb→le _ _ up))

  room_next :
      (steep : Bool) (e b : ℕ)
      → Fits steep e b
      → leb (whole x0 y0 x1 y1 steep) (e + part x0 y0 x1 y1 steep) ≡ false
      → Fits steep (e + part x0 y0 x1 y1 steep) b
  room_next steep e b (inl h) stay = inl h
  room_next steep e b (inr h) stay = inr (h.0, omega (arith, h))

  room_carry :
      (steep : Bool) (e b : ℕ)
      → Fits steep e b
      → leb (whole x0 y0 x1 y1 steep) (e + part x0 y0 x1 y1 steep) ≡ true
      → Fits steep (e + part x0 y0 x1 y1 steep - whole x0 y0 x1 y1 steep) b
  room_carry steep e b (inl h) up = inl h
  room_carry steep e b (inr h) up = absurd (omega (arith, h, leb→le _ _ up))

  -- The two walks run side by side.
  pub walk_lem :
      (n : ℕ) (steep : Bool) (k s e b : ℕ)
      → Fits steep e b
      → bresenham n
          (whole x0 y0 x1 y1 steep)
          (part x0 y0 x1 y1 steep)
          e
          (along steep)
          b
          (cell steep k s)
        ≡ map (index_of w) (cells (suc n) (placed x0 y0 x1 y1 steep k s e))
  unfolding bresenham
  walk_lem zero steep k s e b h = refl
  walk_lem (suc n) steep k s e b h =
      let da = whole x0 y0 x1 y1 steep in
      let db = part x0 y0 x1 y1 steep in
      elim (Bool-cases (leb da (e + db))) [
        | inl up ↦
            bresenham_carries n da db e (along steep) b (cell steep k s) up
            ∙ ap (λ l. cell steep k s ∷ l)
                (ap (bresenham n da db (e + db - da) (along steep) b) (
                    ap (λ t. u32 (t + b)) (cell_major steep k s)
                    ∙ minor_offset steep (suc k) s e b h up)
                  ∙ walk_lem n steep (suc k) (suc s) (e + db - da) b (room_carry steep e b h up)
                  ∙ ap (λ it. map (index_of w) (cells (suc n) it))
                      (sym (placed_carries x0 y0 x1 y1 steep k s e up)))
        | inr stay ↦
            bresenham_stays n da db e (along steep) b (cell steep k s) stay
            ∙ ap (λ l. cell steep k s ∷ l)
                (ap (bresenham n da db (e + db) (along steep) b) (cell_major steep k s)
                  ∙ walk_lem n steep (suc k) s (e + db) b (room_next steep e b h stay)
                  ∙ ap (λ it. map (index_of w) (cells (suc n) it))
                      (sym (placed_stays x0 y0 x1 y1 steep k s e stay)))
      ]
