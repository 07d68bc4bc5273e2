-- ===== src/MapServer.antt =====
-- navigation2/nav2_map_server: maps as images. `MapSaver::try_write_map_to_file` (src/map_saver.cpp)
-- writes an occupancy grid as an image, `OccGridLoader::loadMapFromFile` (src/occ_grid_loader.cpp)
-- reads one. The image library is not here: a pixel has its channels in 255ths, as in a file of depth
-- 8, and `quantize` gives the level that a shade in hundredths is stored as. Thresholds are hundredths,
-- and comparisons of doubles are done on exact fractions.
pub mod Configure
mod Slices
pub mod Rows
pub mod Reload
pub mod RoundTrip
mod Tests
use package.navigation_learning.Prelude.{
  ℕ, zero, suc, ◌+◌, ◌-◌, ◌*◌, ◌/◌, ◌%◌, ◌<◌, ap, Bool, true, false, not, ◌||◌, Option, none, some,
  List, [], ◌∷◌, map, ltb, leb, ◌==◌, if◌then◌else◌, tests, length, get_elem?, set, replicate,
}
use package.navigation_learning.Prelude.Int.{ℤ, pos, negsuc, pos_part, ltb_ℤ, leb_ℤ}

pub data MapMode : Type 0 where
  trinary : MapMode
  scale : MapMode
  raw : MapMode

-- Fully opaque pixels have opacity 0, as in the image library.
pub record Pixel : Type 0 where
  pub red : ℕ
  pub green : ℕ
  pub blue : ℕ
  pub opacity : ℕ

-- `matte` says whether the image has an opacity channel.
pub record Image : Type 0 where
  pub width : ℕ
  pub height : ℕ
  pub matte : Bool
  pub rows : List (List Pixel)

pub record LoadParameters : Type 0 where
  pub mode : MapMode
  pub negate : Bool
  pub occupied_thresh : ℕ
  pub free_thresh : ℕ

infixl 5 ◌>>=◌
abbrev pub ◌>>=◌ {ℓ κ} : {A : Type ℓ} {B : Type κ} → Option A → (A → Option B) → Option B
none >>= f = none
some a >>= f = f a

abbrev pub gray : ℕ → Pixel
gray level = record { red = level; green = level; blue = level; opacity = 0 }

abbrev pub is_unknown : ℤ → Bool
is_unknown c = ltb_ℤ c (pos 0) || ltb_ℤ (pos 100) c

-- The pixel of a cell; `occupied` and `free` are the thresholds of the saver.
module _ (quantize : ℕ → ℕ) (occupied free : ℤ) where
  unfoldable pub save_cell : MapMode → ℤ → Pixel
  save_cell trinary c =
      if is_unknown c
      then gray 205
      else if leb_ℤ c free
      then gray 254
      else if leb_ℤ occupied c
      then gray 0
      else gray 205
  save_cell scale c =
      if is_unknown c
      then record { red = quantize 50; green = quantize 50; blue = quantize 50; opacity = 255 }
      else gray (quantize (100 - pos_part c))
  save_cell raw c = if is_unknown c then gray 255 else gray (pos_part c)

  -- The inner loop: `n` cells from an index on.
  abbrev pub save_row : MapMode → List ℤ → ℕ → ℕ → Option (List Pixel)
  save_row mode values index zero = some []
  save_row mode values index (suc n) = get_elem? values index >>= λ c.
      save_row mode values (index + 1) n >>= λ row. some (save_cell mode c ∷ row)

  -- The outer loop. With `suc rows` rows left, `height - y - 1` is `rows`.
  abbrev pub save_rows : MapMode → List ℤ → ℕ → ℕ → Option (List (List Pixel))
  save_rows mode values width zero = some []
  save_rows mode values width (suc rows) = save_row mode values (width * rows) width >>= λ row.
      save_rows mode values width rows >>= λ image. some (row ∷ image)

  -- `try_write_map_to_file`: the image and the parameters of its YAML file.
  unfoldable pub save_map : MapMode → List ℤ → ℕ → ℕ → Option (Image × LoadParameters)
  save_map mode values width height = save_rows mode values width height >>= λ rows. some (
    record { width = width; height = height; matte = is_scale mode; rows = rows },
    record {
      mode = mode;
      negate = false;
      occupied_thresh = pos_part occupied;
      free_thresh = pos_part free;
    },
  )
    where
      is_scale : MapMode → Bool
      is_scale trinary = false
      is_scale scale = true
      is_scale raw = false

-- `std::rint` of a fraction: the nearest integer, to even in the middle.
unfoldable pub rint : ℕ → ℕ → ℕ
rint n d =
    let q = n / d in
    let r = n % d in if ltb (2 * r) d then q else if ltb d (2 * r) then q + 1 else q + q % 2

-- `std::round` of a fraction: the nearest integer, away from zero in the middle.
unfoldable pub round_shade : ℕ → ℕ → ℕ
round_shade n d = (2 * n + d) / (2 * d)

-- How occupied a pixel is: the fraction `num / den`, from the channels' sum.
abbrev pub occ_num : Bool → ℕ → ℕ → ℕ
occ_num negate sum den = if negate then sum else den - sum

abbrev pub channel_sum : Pixel → ℕ
channel_sum p = p.red + p.green + p.blue

-- The tests `occupied_thresh < occ` and `occ < free_thresh` of the loader.
abbrev pub threshold : LoadParameters → ℕ → ℕ → ℤ → ℤ
threshold l num den between =
    if ltb (l.occupied_thresh * den) (100 * num)
    then pos 100
    else if ltb (100 * num) (l.free_thresh * den)
    then pos 0
    else between

unfoldable pub load_cell : LoadParameters → MapMode → Bool → Pixel → ℤ
load_cell l trinary matte p =
    let sum = if matte then channel_sum p + (255 - p.opacity) else channel_sum p in
    let den = if matte then 255 * 4 else 255 * 3 in
    threshold l (occ_num l.negate sum den) den (negsuc 0)
load_cell l scale matte p =
    let num = occ_num l.negate (channel_sum p) (255 * 3) in
    if p.opacity == 0
    then threshold l num (255 * 3) (
        pos (
          rint ((100 * num - l.free_thresh * (255 * 3)) * 100)
            ((l.occupied_thresh - l.free_thresh) * (255 * 3))))
    else negsuc 0
load_cell l raw matte p =
    let level = round_shade (channel_sum p) 3 in if leb level 100 then pos level else negsuc 0

module _ (l : LoadParameters) (matte : Bool) where
  -- A write outside the map is a fault.
  abbrev pub load_row : List Pixel → ℕ → List ℤ → Option (List ℤ)
  load_row [] index values = some values
  load_row (p ∷ row) index values =
      let rest = load_row row (index + 1) (set values index (load_cell l l.mode matte p)) in
      if ltb index (length values) then rest else none

  -- With `suc rows` rows left, `height - y - 1` is the number of rows after this one.
  abbrev pub load_rows : ℕ → List (List Pixel) → List ℤ → Option (List ℤ)
  load_rows width [] values = some values
  load_rows width (row ∷ rows) values =
      load_row row (width * length rows) values >>= λ values'. load_rows width rows values'

-- The cells of the message that `loadMapFromFile` makes.
unfoldable pub load_map : LoadParameters → Image → Option (List ℤ)
load_map l image =
    load_rows l image.matte image.width image.rows (replicate (image.width * image.height) (pos 0))
