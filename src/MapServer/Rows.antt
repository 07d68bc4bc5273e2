-- ===== src/MapServer/Rows.antt =====
-- The rows of a map that is saved and loaded again.
use navigation_learning.Prelude.{
  ℕ, zero, suc, ◌+◌, ◌*◌, ◌≤◌, ◌≡◌, refl, sym, ap, ◌∙◌, Bool, some, List, [], ◌∷◌, ◌++◌, map, arith,
  lt→ltb, length, set, length-append, length-set, take, drop, take-append-drop, length-take,
  length-drop, length-map,
}
use navigation_learning.Prelude.Int.{ℤ}
use mathlib.Core.List.{append_assoc}
use native.Mathlib.Nat.{add-zero}
use navigation_learning.MapServer.Slices.{
  take_add, drop-append_take, map-append, drop_next, take-set, drop-set,
}
use navigation_learning.MapServer.{
  MapMode, Pixel, LoadParameters, save_cell, save_row, save_rows, load_cell, load_row, load_rows,
}

-- What the loops make of a map, for a saver with its thresholds and a loader with its parameters.
module _ (quantize : ℕ → ℕ) (occupied free : ℤ) (mode : MapMode) (l : LoadParameters)
    (matte : Bool) where
  abbrev pub reload : ℤ → ℤ
  reload c = load_cell l l.mode matte (save_cell quantize occupied free mode c)

  abbrev saved : List ℤ → List Pixel
  saved values = map (save_cell quantize occupied free mode) values

  save_row_lem :
      (values : List ℤ) (n i : ℕ)
      → i + n ≤ length values
      → save_row quantize occupied free mode values i n ≡ some (saved (take n (drop i values)))
  save_row_lem values zero i h = refl
  save_row_lem values (suc n) i h =
      let e = drop_next i values (omega arith) in
      rw (e.1, save_row_lem values n (i + 1) (omega arith), e.2) refl

  abbrev loaded : List Pixel → List ℤ
  loaded row = map (load_cell l l.mode matte) row

  load_row_lem :
      (row : List Pixel) (i : ℕ) (values : List ℤ)
      → i + length row ≤ length values
      → load_row l matte row i values
        ≡ some (take i values ++ (loaded row ++ drop (i + length row) values))
  load_row_lem [] i values h = rw (add-zero i, take-append-drop i values) refl
  load_row_lem (p ∷ row) i values h =
      let v = load_cell l l.mode matte p in
      let rest = load_row_lem row (i + 1) (set values i v) (omega (arith, length-set values i v)) in
      let next : i + 1 + length row ≡ i + suc (length row) = omega arith in
      rw (lt→ltb i (length values) (omega arith), ← next)
        (rw (take-set i values v (omega arith), drop-set i (length row) values v, append_assoc) at
          rest)

  loaded-saved : (values : List ℤ) → loaded (saved values) ≡ map reload values
  loaded-saved [] = refl
  loaded-saved (c ∷ values) = ap (λ t. reload c ∷ t) (loaded-saved values)

  -- The map after a row was loaded.
  abbrev with_row : ℕ → ℕ → List ℤ → List ℤ → List ℤ
  with_row i width values out =
      take i out ++ (loaded (saved (take width (drop i values))) ++ drop (i + width) out)

  length-saved :
      (values : List ℤ) (i width : ℕ)
      → i + width ≤ length values
      → length (saved (take width (drop i values))) ≡ width
  length-saved values i width h = omega (
    arith,
    length-map (take width (drop i values)) (save_cell quantize occupied free mode),
    length-take width (drop i values),
    length-drop i values,
  )

  length-with_row :
      (values out : List ℤ) (i width : ℕ)
      → i ≤ length out
      → i ≤ length (with_row i width values out)
  length-with_row values out i width h = omega (
    arith,
    length-append (take i out)
        (loaded (saved (take width (drop i values))) ++ drop (i + width) out),
    length-take i out,
  )

  map-with_row :
      (values out : List ℤ) (i width : ℕ)
      → i ≤ length out
      → map reload (take i values) ++ drop i (with_row i width values out)
        ≡ map reload (take (i + width) values) ++ drop (i + width) out
  map-with_row values out i width h =
      rw
        (
          drop-append_take i out
              (loaded (saved (take width (drop i values))) ++ drop (i + width) out) h,
          take_add i width values,
          map-append reload (take i values) (take width (drop i values)),
          loaded-saved (take width (drop i values)),
        )
        (sym (
          append_assoc (map reload (take i values)) (map reload (take width (drop i values)))
            (drop (i + width) out)))

  load_row-saved :
      (values out : List ℤ) (i width : ℕ)
      → i + width ≤ length values
      → i + width ≤ length out
      → load_row l matte (saved (take width (drop i values))) i out
        ≡ some (with_row i width values out)
  load_row-saved values out i width h k =
      let row = saved (take width (drop i values)) in
      let long = length-saved values i width h in
      load_row_lem row i out (omega (arith, long))
      ∙ ap (λ n. some (take i out ++ (loaded row ++ drop (i + n) out))) long

  -- The image of the lowest rows of a map.
  abbrev pub rows_of : List ℤ → ℕ → ℕ → List (List Pixel)
  rows_of values width zero = []
  rows_of values width (suc rows) =
      saved (take width (drop (width * rows) values)) ∷ rows_of values width rows

  length-rows_of : (values : List ℤ) (width rows : ℕ) → length (rows_of values width rows) ≡ rows
  length-rows_of values width zero = refl
  length-rows_of values width (suc rows) = ap suc (length-rows_of values width rows)

  pub save_rows-rows_of :
      (values : List ℤ) (width rows : ℕ)
      → width * rows ≤ length values
      → save_rows quantize occupied free mode values width rows ≡ some (rows_of values width rows)
  save_rows-rows_of values width zero h = refl
  save_rows-rows_of values width (suc rows) h =
      rw
        (
          save_row_lem values width (width * rows) (omega arith),
          save_rows-rows_of values width rows (omega arith),
        )
        refl

  pub load_rows-rows_of :
      (values : List ℤ) (width rows : ℕ) (out : List ℤ)
      → width * rows ≤ length values
      → width * rows ≤ length out
      → load_rows l matte width (rows_of values width rows) out
        ≡ some (map reload (take (width * rows) values) ++ drop (width * rows) out)
  load_rows-rows_of values width zero out h k =
      let none_left : width * 0 ≡ 0 = omega arith in rw none_left refl
  load_rows-rows_of values width (suc rows) out h k =
      let i = width * rows in
      let last : width * suc rows ≡ i + width = omega arith in
      rw
        (
          length-rows_of values width rows,
          load_row-saved values out i width (omega arith) (omega arith),
          load_rows-rows_of values width rows (with_row i width values out) (omega arith)
              (length-with_row values out i width (omega arith)),
          last,
        )
        (ap some (map-with_row values out i width (omega arith)))
