-- ===== src/MapServer/Tests.antt =====
-- Maps of a few cells, with the saver's default thresholds and with others.
use navigation_learning.Prelude.{
  ℕ, ◌+◌, ◌*◌, ◌/◌, ◌≡◌, refl, inr, true, ◌&&◌, none, some, List, [], ◌∷◌, leb, if◌then◌else◌,
}
use navigation_learning.Prelude.Int.{ℤ, pos, negsuc}
use navigation_learning.MapServer.{
  trinary, scale, raw, ◌>>=◌, save_cell, save_map, rint, load_cell, load_map,
}
use navigation_learning.MapServer.Configure.{
  MapSaver, map_mode_to_string, map_mode_from_string, pgm, new,
}
use navigation_learning.MapServer.Configure.Checks.{Checked, new-Checked}

-- Hundredths to 255ths.
abbrev nearest : ℕ → ℕ
nearest h = (2 * 255 * h + 100) / 200

abbrev cells : List ℤ
cells = pos 0 ∷ pos 100 ∷ negsuc 0 ∷ pos 40 ∷ []

-- With the default thresholds 65 and 25 the unknown cell comes back as a free one.
unknown_becomes_free :
    (save_map nearest (pos 65) (pos 25) trinary cells 2 2 >>= λ r. load_map r.1 r.0)
    ≡ some (pos 0 ∷ pos 100 ∷ pos 0 ∷ pos 0 ∷ [])
unfolding save_map load_map save_cell load_cell
unknown_becomes_free = refl

scale_kept :
    (save_map nearest (pos 65) (pos 25) scale cells 2 2 >>= λ r. load_map r.1 r.0)
    ≡ some (pos 0 ∷ pos 100 ∷ negsuc 0 ∷ pos 38 ∷ [])
unfolding save_map load_map save_cell load_cell rint
scale_kept = refl

abbrev lower_case : ℕ → ℕ
lower_case c = if leb 65 c && leb c 90 then c + 32 else c

-- "RAW"
capitals : map_mode_from_string lower_case (82 ∷ 65 ∷ 87 ∷ []) ≡ some raw
unfolding map_mode_from_string map_mode_to_string
capitals = refl

abbrev saver : MapSaver
saver = record {
  mapname = 109 ∷ [];
  threshold_occupied = pos 65;
  threshold_free = pos 25;
  map_mode = trinary;
  image_format = pgm;
}

made : new lower_case (λ f. true) (109 ∷ []) (pos 65) (pos 25) [] none ≡ inr saver
unfolding new map_mode_from_string map_mode_to_string
made = refl

new-Checked_example :
    Checked lower_case
      (λ f. true)
      (109 ∷ [])
      (pos 65)
      (pos 25)
      []
      (new lower_case (λ f. true) (109 ∷ []) (pos 65) (pos 25) [] none)
new-Checked_example = new-Checked lower_case (λ f. true) (109 ∷ []) (pos 65) (pos 25) [] none
