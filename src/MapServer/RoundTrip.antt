-- ===== src/MapServer/RoundTrip.antt =====
-- What a map is after it was saved and loaded again.
use navigation_learning.Prelude.{ℕ, leb, if◌then◌else◌}
use navigation_learning.Prelude.Int.{ℤ, pos, negsuc, leb_ℤ}
use navigation_learning.MapServer.{is_unknown}

-- A cell outside 0 to 100 is unknown, -1.
abbrev pub known_or_unknown : ℤ → ℤ
known_or_unknown c = if is_unknown c then negsuc 0 else c

-- What the saver and the loader make of a cell with the thresholds of the saver.
abbrev pub classified : ℕ → ℕ → ℤ → ℤ
classified occupied free c =
    let between = if leb 20 free then pos 0 else negsuc 0 in
    if is_unknown c
    then between
    else if leb_ℤ c (pos free)
    then pos 0
    else if leb_ℤ (pos occupied) c
    then pos 100
    else between
