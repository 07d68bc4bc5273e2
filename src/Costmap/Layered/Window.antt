-- ===== src/Costmap/Layered/Window.antt =====
-- The window that `LayeredCostmap::updateMap` computes, and the sizes of the map.
use navigation_learning.Prelude.{
  ℕ, ◌+◌, ◌≤◌, ◌<◌, ◌≡◌, sym, ap, inl, inr, false, Option, none, some, arith, Bool-cases,
}
use mathlib.Core.Path.{subst}
use mathlib.Core.Option.{some-ne-none, some_inj}
use navigation_learning.Prelude.Int.{ℤ, pos, negsuc, pos_part, neg_part, ltb_ℤ, +ℤ_parts}
use navigation_learning.Costmap.Doubles.{Doubles, to_u32, to_i32}
use navigation_learning.Costmap.Grid.{Costmap, world_to_map_enforce_bounds, ◌>>=◌}
use navigation_learning.Costmap.Extent.{Box}
use navigation_learning.Costmap.Layered.{upper_end, side, window}

-- A pair of bounds in order, the second at most the size.
abbrev pub InSize : ℕ × ℕ → ℕ → Type 0
InSize b size = (b.0 ≤ b.1) × (b.1 ≤ size)

clip :
    (low : ℕ) (high : ℤ) (size : ℕ)
    → ltb_ℤ high (pos low) ≡ false
    → pos_part high + neg_part (to_i32 size) ≤ pos_part (to_i32 size) + neg_part high
    → size < 4294967296
    → InSize (low, to_u32 high) size
clip low (pos n) size h k b = ground arith
clip low (negsuc n) size h k b = ground arith

ends :
    (xn : ℤ) (size : ℕ)
    → pos_part (upper_end xn size) + neg_part (to_i32 size)
      ≤ pos_part (to_i32 size) + neg_part (upper_end xn size)
unfolding upper_end
ends xn size = ground (arith, +ℤ_parts xn (pos 1))

pub side-InSize :
    (x0 xn : ℤ) (size : ℕ) (b : ℕ × ℕ)
    → size < 4294967296
    → side x0 xn size ≡ some b
    → InSize b size
unfolding side
side-InSize x0 xn size b h e = elim (Bool-cases (ltb_ℤ (upper_end xn size) (pos (pos_part x0)))) [
  | inl c ↦ absurd (some-ne-none _ (sym (rw c at e)))
  | inr c ↦
      subst (λ p. InSize p size) (some_inj.0 (rw c at e))
        (clip (pos_part x0) (upper_end xn size) size c (ends xn size) h)
]

pub window-InSize :
    {D : Type 0} (d : Doubles D) (c : Costmap D) (b : Box D) (xs ys : ℕ × ℕ)
    → c.size_x < 4294967296
    → c.size_y < 4294967296
    → window d c b ≡ some (xs, ys)
    → InSize xs c.size_x × InSize ys c.size_y
unfolding window
window-InSize d c b xs ys hx hy e =
    both (side low.0 high.0 c.size_x) (side low.1 high.1 c.size_y)
      (λ b. side-InSize _ _ c.size_x b hx) (λ b. side-InSize _ _ c.size_y b hy) e
  where
    low : ℤ × ℤ
    low = world_to_map_enforce_bounds d c b.min_x b.min_y

    high : ℤ × ℤ
    high = world_to_map_enforce_bounds d c b.max_x b.max_y

    joined : Option (ℕ × ℕ) → Option (ℕ × ℕ) → Option ((ℕ × ℕ) × (ℕ × ℕ))
    joined o p = o >>= λ a. p >>= λ b. some (a, b)

    both :
        (o p : Option (ℕ × ℕ))
        → ((b : ℕ × ℕ) → o ≡ some b → InSize b c.size_x)
        → ((b : ℕ × ℕ) → p ≡ some b → InSize b c.size_y)
        → joined o p ≡ some (xs, ys)
        → InSize xs c.size_x × InSize ys c.size_y
    both none p f g e = absurd (some-ne-none _ (sym e))
    both (some a) none f g e = absurd (some-ne-none _ (sym e))
    both (some a) (some b) f g e =
        let pair : (a, b) ≡ (xs, ys) = some_inj.0 e in
        (f xs (ap some (ap (λ p. p.0) pair)), g ys (ap some (ap (λ p. p.1) pair)))
