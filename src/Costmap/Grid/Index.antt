-- ===== src/Costmap/Grid/Index.antt =====
-- Cells and array indices: the two conversions are inverse on the map, and a written cost is read
-- back at its cell alone.
use navigation_learning.Prelude.{
  ℕ, zero, suc, ◌+◌, ◌*◌, ◌/◌, ◌≤◌, ◌<◌, ◌≡◌, refl, ap, ◌∙◌, ◌&&◌, some, List, [], ◌∷◌, arith, u8,
  ◌==◌, if◌then◌else◌, lt→ltb, length, get_elem?, set, length-set,
}
use native.Mathlib.Nat.{div-add-mod'}
use navigation_learning.Costmap.Buffer.{at, at-set}
use navigation_learning.Costmap.Grid.{
  Costmap, index_in, get_index, index_to_cells, get_cost, set_cost,
}

-- A map that is allocated and small enough for unsigned indices; one row more must fit too, since
-- loops over rows step past the end of the map.
pub record IsValid {D : Type 0} (c : Costmap D) : Type 0 where
  pub size : length c.cells ≡ c.size_x * c.size_y
  pub bounded : c.size_x * c.size_y + c.size_x < 4294967296

pub index-lt : (w h x y : ℕ) → x < w → y < h → y * w + x < w * h
index-lt w h x y p q = grind arith

pub index-lt-index : (w x y x' y' : ℕ) → x < w → y < y' → y * w + x < y' * w + x'
index-lt-index w x y x' y' p q = grind arith

pub index_inj : (w x y x' y' : ℕ) → x < w → x' < w → y * w + x ≡ y' * w + x' → (x ≡ x') × (y ≡ y')
index_inj w x y x' y' p q e =
    ground (arith, index-lt-index w x y x' y' p, index-lt-index w x' y' x y q)

pub index_in_lem :
    (w h x y : ℕ) → w * h + w < 4294967296 → x < w → y ≤ h → index_in w x y ≡ y * w + x
index_in_lem w h x y b p q = let le : y * w ≤ w * h = grind arith in omega (arith, le)

index-div : (w x y : ℕ) → x < w → (y * w + x) / w ≡ y
index-div w x y p = grind arith

-- The cost of the cell (x, y) of a map of width `w`.
abbrev pub cost_at : ℕ → List ℕ → ℕ → ℕ → ℕ
cost_at w cells x y = at cells (y * w + x)

pub get_elem?-at : (xs : List ℕ) (i : ℕ) → i < length xs → get_elem? xs i ≡ some (at xs i)
get_elem?-at [] i h = absurd (omega arith)
get_elem?-at (x ∷ xs) zero h = refl
get_elem?-at (x ∷ xs) (suc i) h = get_elem?-at xs i (omega arith)

module _ {D : Type 0} (c : Costmap D) (valid : IsValid c) where
  -- On a valid map `indexToCells` undoes `getIndex` at each cell of the map, and `getIndex` undoes
  -- `indexToCells` at each index of the array.
  pub index_roundtrip :
      ((x y : ℕ) → x < c.size_x → y < c.size_y → index_to_cells c (get_index c x y) ≡ (x, y))
      × ((i : ℕ)
          → i < c.size_x * c.size_y
          → get_index c (index_to_cells c i).0 (index_to_cells c i).1 ≡ i)
  unfolding get_index index_to_cells
  index_roundtrip = (λ x y p q. to_cells x y p q, λ i h. from_cells i h)
    where
      to_cells :
          (x y : ℕ) → x < c.size_x → y < c.size_y → index_to_cells c (get_index c x y) ≡ (x, y)
      to_cells x y p q =
          let e = index_in_lem c.size_x c.size_y x y valid.bounded p (omega arith) in
          let l = index-lt c.size_x c.size_y x y p q in
          rw (e, index-div c.size_x x y p) (ap (λ t. (t, y)) (omega (arith, l, valid.bounded)))

      from_cells :
          (i : ℕ)
          → i < c.size_x * c.size_y
          → get_index c (index_to_cells c i).0 (index_to_cells c i).1 ≡ i
      from_cells i h = let b = valid.bounded in let m = div-add-mod' i c.size_x in omega arith

  -- On a valid map, for a cell of the map: `setCost` does not fault, the map stays valid, and
  -- `getCost` reads the written byte at that cell and the former cost at every other cell.
  pub get_cost-set_cost :
      (x y v : ℕ)
      → x < c.size_x
      → y < c.size_y
      → (c' : Costmap D) × (set_cost c x y v ≡ some c')
        × IsValid c'
        × ((x' y' : ℕ)
            → x' < c.size_x
            → y' < c.size_y
            → get_cost c' x' y' ≡ (if x == x' && y == y' then some (u8 v) else get_cost c x' y'))
  unfolding set_cost get_cost
  get_cost-set_cost x y v p q = (
    record c { cells = written },
    rw (lt→ltb _ _ inside) refl,
    record { size = length-set c.cells _ (u8 v) ∙ valid.size; bounded = valid.bounded },
    λ x' y' p' q'. reads x' y' p' q',
  )
    where
      written : List ℕ
      written = set c.cells (index_in c.size_x x y) (u8 v)

      here : index_in c.size_x x y ≡ y * c.size_x + x
      here = index_in_lem c.size_x c.size_y x y valid.bounded p (omega arith)

      inside : index_in c.size_x x y < length c.cells
      inside = omega (arith, here, valid.size, index-lt c.size_x c.size_y x y p q)

      reads :
          (x' y' : ℕ)
          → x' < c.size_x
          → y' < c.size_y
          → get_elem? written (index_in c.size_x x' y') ≡ (
              if x == x' && y == y'
              then some (u8 v)
              else get_elem? c.cells (index_in c.size_x x' y'))
      reads x' y' p' q' =
          let there = index_in_lem c.size_x c.size_y x' y' valid.bounded p' (omega arith) in
          let inside' : index_in c.size_x x' y' < length c.cells =
            omega (arith, there, valid.size, index-lt c.size_x c.size_y x' y' p' q') in
          ground (
            arith,
            get_elem?-at written (index_in c.size_x x' y')
                (omega (arith, inside', length-set c.cells (index_in c.size_x x y) (u8 v))),
            get_elem?-at c.cells (index_in c.size_x x' y') inside',
            at-set c.cells (index_in c.size_x x y) (index_in c.size_x x' y') (u8 v) inside,
            index_inj c.size_x x y x' y' p p',
            here,
            there,
          )
