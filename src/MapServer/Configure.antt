-- ===== src/MapServer/Configure.antt =====
-- The names of the modes (navigation2/nav2_map_server/src/map_mode.cpp) and the constructor of
-- `MapSaver` (src/map_saver.cpp), which checks its parameters. Strings are lists of character codes;
-- `tolower` of the C library and the image library's `is_writable`, false where it throws, are
-- arguments. Warnings are left out.
pub mod Checks
use navigation_learning.Prelude.{
  ℕ, ◌≤◌, ◌<◌, ◌≡◌, refl, ◌⊎◌, inl, inr, Bool, true, false, ◌&&◌, Option, none, some, List, [], ◌∷◌,
  map, arith, leb, ◌==◌, if◌then◌else◌,
}
use navigation_learning.Prelude.Int.{ℤ, pos, negsuc, pos_part, ltb_ℤ, leb_ℤ}
use navigation_learning.MapServer.{MapMode, trinary, scale, raw}

abbrev pub equals : List ℕ → List ℕ → Bool
equals [] [] = true
equals [] (d ∷ t) = false
equals (c ∷ s) [] = false
equals (c ∷ s) (d ∷ t) = c == d && equals s t

unfoldable pub map_mode_to_string : MapMode → List ℕ
map_mode_to_string trinary = 116 ∷ 114 ∷ 105 ∷ 110 ∷ 97 ∷ 114 ∷ 121 ∷ []
map_mode_to_string scale = 115 ∷ 99 ∷ 97 ∷ 108 ∷ 101 ∷ []
map_mode_to_string raw = 114 ∷ 97 ∷ 119 ∷ []

abbrev pub png : List ℕ
png = 112 ∷ 110 ∷ 103 ∷ []

abbrev pub pgm : List ℕ
pgm = 112 ∷ 103 ∷ 109 ∷ []

-- Why the constructor throws.
pub data SaverError : Type 0 where
  name_not_provided : SaverError
  occupied_above_100 : SaverError
  free_below_0 : SaverError
  free_not_smaller : SaverError

pub record MapSaver : Type 0 where
  pub mapname : List ℕ
  pub threshold_occupied : ℤ
  pub threshold_free : ℤ
  pub map_mode : MapMode
  pub image_format : List ℕ

module _ (tolower : ℕ → ℕ) where
  -- None where the function throws.
  unfoldable pub map_mode_from_string : List ℕ → Option MapMode
  map_mode_from_string name =
      let lower = map tolower name in
      if equals lower (map_mode_to_string scale)
      then some scale
      else if equals lower (map_mode_to_string raw)
      then some raw
      else if equals lower (map_mode_to_string trinary)
      then some trinary
      else none

  abbrev pub mode_or_trinary : List ℕ → MapMode
  mode_or_trinary name = elim (map_mode_from_string name) [ none ↦ trinary | some mode ↦ mode ]

  abbrev pub default_format : MapMode → List ℕ
  default_format trinary = pgm
  default_format scale = png
  default_format raw = pgm

  -- The format parameter, none where it is not set.
  abbrev pub usable_format : (List ℕ → Bool) → MapMode → Option (List ℕ) → List ℕ
  usable_format is_writable mode format =
      let lower = map tolower (elim format [ none ↦ default_format mode | some f ↦ f ]) in
      if is_writable lower then lower else png

  unfoldable pub new :
      (List ℕ → Bool) → List ℕ → ℤ → ℤ → List ℕ → Option (List ℕ) → SaverError ⊎ MapSaver
  new is_writable mapname occupied free mode_str format =
      if equals mapname []
      then inl name_not_provided
      else if ltb_ℤ (pos 100) occupied
      then inl occupied_above_100
      else if ltb_ℤ free (pos 0)
      then inl free_below_0
      else if leb_ℤ occupied free
      then inl free_not_smaller
      else inr (record {
        mapname = mapname;
        threshold_occupied = occupied;
        threshold_free = free;
        map_mode = mode_or_trinary mode_str;
        image_format = usable_format is_writable (mode_or_trinary mode_str) format;
      })

  -- If `tolower` keeps the lower-case letters, the name of a mode is read back as the mode.
  pub map_mode_from_string-map_mode_to_string :
      ((c : ℕ) → 97 ≤ c → c ≤ 122 → tolower c ≡ c)
      → (mode : MapMode) → map_mode_from_string (map_mode_to_string mode) ≡ some mode
  unfolding map_mode_from_string map_mode_to_string
  map_mode_from_string-map_mode_to_string h trinary =
      rw
        (
          letter 116 refl,
          letter 114 refl,
          letter 105 refl,
          letter 110 refl,
          letter 97 refl,
          letter 121 refl,
        )
        refl
    where
      letter : (c : ℕ) → (leb 97 c && leb c 122) ≡ true → tolower c ≡ c
      letter c e = h c (ground arith) (ground arith)
  map_mode_from_string-map_mode_to_string h scale =
      rw (letter 115 refl, letter 99 refl, letter 97 refl, letter 108 refl, letter 101 refl) refl
    where
      letter : (c : ℕ) → (leb 97 c && leb c 122) ≡ true → tolower c ≡ c
      letter c e = h c (ground arith) (ground arith)
  map_mode_from_string-map_mode_to_string h raw =
      rw (letter 114 refl, letter 97 refl, letter 119 refl) refl
    where
      letter : (c : ℕ) → (leb 97 c && leb c 122) ≡ true → tolower c ≡ c
      letter c e = h c (ground arith) (ground arith)
