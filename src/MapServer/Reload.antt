-- ===== src/MapServer/Reload.antt =====
-- Whole maps that are saved and loaded again, with the parameters saved with them.
use navigation_learning.Prelude.{
  ℕ, ◌*◌, ◌≡◌, refl, Bool, true, false, some, List, map, arith, length, replicate, length-replicate,
}
use navigation_learning.Prelude.Int.{ℤ, pos, pos_part}
use mathlib.Core.List.{append-nil}
use navigation_learning.MapServer.Slices.{take_all, drop_all}
use navigation_learning.MapServer.{
  MapMode, trinary, scale, raw, LoadParameters, ◌>>=◌, save_cell, save_map, load_cell, load_map,
}
use navigation_learning.MapServer.Rows.{rows_of, save_rows-rows_of, load_rows-rows_of}

-- The parameters that `save_map` writes.
abbrev pub parameters : MapMode → ℤ → ℤ → LoadParameters
parameters mode occupied free = record {
  mode = mode;
  negate = false;
  occupied_thresh = pos_part occupied;
  free_thresh = pos_part free;
}

abbrev pub is_matte : MapMode → Bool
is_matte trinary = false
is_matte scale = true
is_matte raw = false

-- A cell that is saved and loaded again.
abbrev pub reloaded : (ℕ → ℕ) → ℤ → ℤ → MapMode → ℤ → ℤ
reloaded quantize occupied free mode c =
    load_cell (parameters mode occupied free) mode (is_matte mode)
      (save_cell quantize occupied free mode c)

save_map_lem :
    (quantize : ℕ → ℕ) (occupied free : ℤ) (mode : MapMode) (values : List ℤ) (width height : ℕ)
    → length values ≡ width * height
    → save_map quantize occupied free mode values width height
      ≡ some (
        record {
          width = width;
          height = height;
          matte = is_matte mode;
          rows =
              rows_of quantize occupied free mode
                (parameters mode occupied free)
                (is_matte mode)
                values
                width
                height;
        },
        parameters mode occupied free,
      )
unfolding save_map
save_map_lem quantize occupied free trinary values width height e =
    rw
      (save_rows-rows_of quantize occupied free trinary (parameters trinary occupied free)
        (is_matte trinary) values width height (omega arith))
      refl
save_map_lem quantize occupied free scale values width height e =
    rw
      (save_rows-rows_of quantize occupied free scale (parameters scale occupied free)
        (is_matte scale) values width height (omega arith))
      refl
save_map_lem quantize occupied free raw values width height e =
    rw
      (save_rows-rows_of quantize occupied free raw (parameters raw occupied free) (is_matte raw)
        values width height (omega arith))
      refl

pub load_map-save_map :
    (quantize : ℕ → ℕ) (occupied free : ℤ) (mode : MapMode) (values : List ℤ) (width height : ℕ)
    → length values ≡ width * height
    → (save_map quantize occupied free mode values width height >>= λ r. load_map r.1 r.0)
      ≡ some (map (reloaded quantize occupied free mode) values)
unfolding load_map
load_map-save_map quantize occupied free mode values width height e =
    rw
      (
        save_map_lem quantize occupied free mode values width height e,
        load_rows-rows_of quantize occupied free mode (parameters mode occupied free)
            (is_matte mode) values width height (replicate (width * height) (pos 0)) (omega arith)
            (omega (arith, length-replicate (width * height) (pos 0))),
      )
      (rw
        (
          take_all (width * height) values (omega arith),
          drop_all (width * height) (replicate (width * height) (pos 0))
              (omega (arith, length-replicate (width * height) (pos 0))),
          append-nil (map (reloaded quantize occupied free mode) values),
        )
        refl)
