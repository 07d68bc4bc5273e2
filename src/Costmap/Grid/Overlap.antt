-- ===== src/Costmap/Grid/Overlap.antt =====
-- One dimension of the overlap that `updateOrigin` computes: the map is moved by `z` cells.
use navigation_learning.Prelude.{
  ℕ, suc, ◌+◌, ◌-◌, ◌≤◌, ◌<◌, min, ◌≡◌, ◌⊎◌, Bool, true, ◌&&◌, arith, ltb, leb, if◌then◌else◌,
}
use navigation_learning.Prelude.Int.{ℤ, pos, negsuc, pos_part, ◌+ℤ◌, ◌-ℤ◌, ltb_ℤ, leb_ℤ}
use navigation_learning.Costmap.Doubles.{to_u32, to_i32}

-- `std::min(std::max(z, 0), size)` on int.
unfoldable pub clamp : ℤ → ℤ → ℤ
clamp z size = let m = if ltb_ℤ z (pos 0) then pos 0 else z in if ltb_ℤ size m then size else m

-- `lower_left`, `cell_size` and `start` of one dimension.
unfoldable pub lower : ℤ → ℕ → ℤ
unfolding clamp
lower z size = clamp z (to_i32 size)

unfoldable pub cell_size : ℤ → ℕ → ℕ
unfolding clamp lower
cell_size z size = to_u32 (clamp (z +ℤ to_i32 size) (to_i32 size) -ℤ lower z size)

unfoldable pub start : ℤ → ℕ → ℤ
unfolding lower
start z size = lower z size -ℤ z

-- A coordinate of the map.
abbrev pub on_map : ℤ → ℕ → Bool
on_map z n = leb_ℤ (pos 0) z && ltb_ℤ z (pos n)

-- The moved cell and `z + size` stay in the range of int.
abbrev pub InRange : ℤ → ℕ → Type 0
InRange (pos k) n = k + n < 2147483648
InRange (negsuc k) n = (k < 2147483648) × (n < 2147483648)

pub record Overlaps (z : ℤ) (n : ℕ) : Type 0 where
  pub fits_source : to_u32 (lower z n) + cell_size z n ≤ n
  pub fits_dest : (cell_size z n ≡ 0) ⊎ (to_u32 (start z n) + cell_size z n ≤ n)
  pub covers :
      (x : ℕ)
      → x < n
      → (leb (to_u32 (start z n)) x && ltb x (to_u32 (start z n) + cell_size z n))
        ≡ on_map (pos x +ℤ z) n
  pub source :
      (x : ℕ)
      → x < n
      → on_map (pos x +ℤ z) n ≡ true
      → to_u32 (lower z n) + (x - to_u32 (start z n)) ≡ pos_part (pos x +ℤ z)

-- A move to the right: the cells from `k` on are kept.
module _ (k n : ℕ) (h : k + n < 2147483648) where
  lower_pos : to_u32 (lower (pos k) n) ≡ min k n
  unfolding lower
  lower_pos = ground arith

  cell_size_pos : cell_size (pos k) n ≡ n - k
  unfolding cell_size ◌+ℤ◌ ◌-ℤ◌
  cell_size_pos = ground arith

  start_pos : k ≤ n → to_u32 (start (pos k) n) ≡ 0
  unfolding start ◌-ℤ◌
  start_pos l = ground arith

  pub pos-Overlaps : Overlaps (pos k) n
  unfolding ◌+ℤ◌
  pos-Overlaps = record {
    fits_source = omega (arith, lower_pos, cell_size_pos);
    fits_dest = ground (arith, cell_size_pos, start_pos);
    covers = λ x p. ground (arith, cell_size_pos, start_pos);
    source = λ x p q. ground (arith, lower_pos, start_pos);
  }

-- A move to the left by `k + 1`.
module _ (k n : ℕ) (h : (k < 2147483648) × (n < 2147483648)) where
  lower_negsuc : to_u32 (lower (negsuc k) n) ≡ 0
  unfolding lower
  lower_negsuc = ground arith

  cell_size_negsuc : cell_size (negsuc k) n ≡ n - suc k
  unfolding cell_size ◌+ℤ◌ ◌-ℤ◌
  cell_size_negsuc = ground arith

  start_negsuc : to_u32 (start (negsuc k) n) ≡ suc k
  unfolding start ◌-ℤ◌ lower
  start_negsuc = ground arith

  pub negsuc-Overlaps : Overlaps (negsuc k) n
  unfolding ◌+ℤ◌
  negsuc-Overlaps = record {
    fits_source = omega (arith, lower_negsuc, cell_size_negsuc);
    fits_dest = ground (arith, cell_size_negsuc, start_negsuc);
    covers = λ x p. ground (arith, cell_size_negsuc, start_negsuc);
    source = λ x p q. ground (arith, lower_negsuc, start_negsuc);
  }

pub overlaps : (z : ℤ) (n : ℕ) → InRange z n → Overlaps z n
overlaps (pos k) n h = pos-Overlaps k n h
overlaps (negsuc k) n h = negsuc-Overlaps k n h
