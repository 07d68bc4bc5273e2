-- ===== src/MapServer/Configure/Checks.antt =====
-- The constructor of `MapSaver` against a description of what it accepts and of what it makes.
use navigation_learning.Prelude.{
  ℕ, ◌≤◌, ◌<◌, ◌≡◌, refl, sym, ap, ◌∙◌, ◌≢◌, ◌⊎◌, inl, inr, Bool, true, false, Option, List, [],
  ◌∷◌, map, arith, ◌==◌, if◌then◌else◌, Bool-cases,
}
use navigation_learning.Prelude.Int.{ℤ, pos, negsuc, ltb_ℤ, leb_ℤ}
use mathlib.Core.Bool.{false≢true, and-eq-true_iff}
use navigation_learning.MapServer.{MapMode, trinary, scale, raw}
use navigation_learning.MapServer.Configure.{
  MapSaver, SaverError, name_not_provided, occupied_above_100, free_below_0, free_not_smaller,
  equals, map_mode_to_string, map_mode_from_string, mode_or_trinary, usable_format, png, new,
}

equals_self : (s : List ℕ) → equals s s ≡ true
equals_self [] = refl
equals_self (c ∷ s) = rw (same c, equals_self s) refl
  where
    same : (c : ℕ) → (c == c) ≡ true
    same c = ground arith

equals-true : (s t : List ℕ) → equals s t ≡ true → s ≡ t
equals-true [] [] e = refl
equals-true [] (d ∷ t) e = absurd (ground arith)
equals-true (c ∷ s) [] e = absurd (ground arith)
equals-true (c ∷ s) (d ∷ t) e =
    let (first, rest) = (and-eq-true_iff (c == d) (equals s t)).0 e in
    let same : c ≡ d = ground arith in ap (λ x. x ∷ s) same ∙ ap (λ l. d ∷ l) (equals-true s t rest)

equals-false : (s t : List ℕ) → equals s t ≡ false → s ≢ t
equals-false s t e same = false≢true (sym e ∙ ap (equals s) (sym same) ∙ equals_self s)

-- A name, and thresholds in order: from 0 to 100, the one of free cells below the one of occupied
-- cells.
pub record Acceptable (mapname : List ℕ) (occupied free : ℤ) : Type 0 where
  pub named : mapname ≢ []
  pub above : ℕ
  pub below : ℕ
  pub occupied_at : occupied ≡ pos above
  pub free_at : free ≡ pos below
  pub in_order : below < above
  pub at_most : above ≤ 100

too_high :
    (occupied : ℤ) (above : ℕ)
    → ltb_ℤ (pos 100) occupied ≡ true
    → occupied ≡ pos above
    → above ≤ 100
    → ⊥
too_high occupied above e f h = ground arith

too_low : (free : ℤ) (below : ℕ) → ltb_ℤ free (pos 0) ≡ true → free ≡ pos below → ⊥
too_low free below e f = ground arith

not_smaller :
    (occupied free : ℤ) (above below : ℕ)
    → leb_ℤ occupied free ≡ true
    → occupied ≡ pos above
    → free ≡ pos below
    → below < above
    → ⊥
not_smaller occupied free above below e f g h = ground arith

accepted :
    (mapname : List ℕ) (occupied free : ℤ)
    → equals mapname [] ≡ false
    → ltb_ℤ (pos 100) occupied ≡ false
    → ltb_ℤ free (pos 0) ≡ false
    → leb_ℤ occupied free ≡ false
    → Acceptable mapname occupied free
accepted mapname (pos n) (pos m) e o f l = record {
  named = equals-false mapname [] e;
  above = n;
  below = m;
  occupied_at = refl;
  free_at = refl;
  in_order = ground arith;
  at_most = ground arith;
}
accepted mapname (pos n) (negsuc m) e o f l = absurd (ground arith)
accepted mapname (negsuc n) (pos m) e o f l = absurd (ground arith)
accepted mapname (negsuc n) (negsuc m) e o f l = absurd (ground arith)

module _ (tolower : ℕ → ℕ) where
  -- The mode has this name in lower case, or the name is none of a mode and the mode is trinary.
  abbrev pub Named : List ℕ → MapMode → Type 0
  Named name mode =
      (map tolower name ≡ map_mode_to_string mode)
      ⊎ ((mode ≡ trinary) × ((m : MapMode) → map tolower name ≢ map_mode_to_string m))

  mode_or_trinary-Named : (name : List ℕ) → Named name (mode_or_trinary tolower name)
  unfolding map_mode_from_string
  mode_or_trinary-Named name =
      let lower = map tolower name in
      elim (Bool-cases (equals lower (map_mode_to_string scale))) [
        | inl e ↦ rw (mode_or_trinary, map_mode_from_string, e) (inl (equals-true lower _ e))
        | inr e ↦ elim (Bool-cases (equals lower (map_mode_to_string raw))) [
          | inl f ↦ rw (mode_or_trinary, map_mode_from_string, e, f) (inl (equals-true lower _ f))
          | inr f ↦ elim (Bool-cases (equals lower (map_mode_to_string trinary))) [
            | inl g ↦
                rw (mode_or_trinary, map_mode_from_string, e, f, g) (inl (equals-true lower _ g))
            | inr g ↦
                rw (mode_or_trinary, map_mode_from_string, e, f, g)
                  (inr (
                    refl,
                    none_of (equals-false lower _ g) (equals-false lower _ e)
                        (equals-false lower _ f),
                  ))
          ]
        ]
      ]
    where
      none_of :
          map tolower name ≢ map_mode_to_string trinary
          → map tolower name ≢ map_mode_to_string scale
          → map tolower name ≢ map_mode_to_string raw
          → (m : MapMode) → map tolower name ≢ map_mode_to_string m
      none_of t s r trinary = t
      none_of t s r scale = s
      none_of t s r raw = r

  -- A saver with the parameters that were given, and a format that can be written, or png.
  pub record Made (is_writable : List ℕ → Bool) (mapname : List ℕ) (occupied free : ℤ)
      (mode_str : List ℕ) (o : SaverError ⊎ MapSaver) : Type 0 where
    pub out : MapSaver
    pub returns : o ≡ inr out
    pub named : out.mapname ≡ mapname
    pub occupied_kept : out.threshold_occupied ≡ occupied
    pub free_kept : out.threshold_free ≡ free
    pub mode : Named mode_str out.map_mode
    pub format : (is_writable out.image_format ≡ true) ⊎ (out.image_format ≡ png)

  abbrev pub Checked : (List ℕ → Bool) → List ℕ → ℤ → ℤ → List ℕ → SaverError ⊎ MapSaver → Type 0
  Checked is_writable mapname occupied free mode_str o =
      (Acceptable mapname occupied free × Made is_writable mapname occupied free mode_str o)
      ⊎ ((Acceptable mapname occupied free → ⊥) × (e : SaverError) × (o ≡ inl e))

  usable_format-writable :
      (is_writable : List ℕ → Bool) (mode : MapMode) (format : Option (List ℕ))
      → (is_writable (usable_format tolower is_writable mode format) ≡ true)
        ⊎ (usable_format tolower is_writable mode format ≡ png)
  usable_format-writable is_writable mode format = writable (map tolower _)
    where
      writable :
          (f : List ℕ)
          → (is_writable (if is_writable f then f else png) ≡ true)
            ⊎ ((if is_writable f then f else png) ≡ png)
      writable f = elim (Bool-cases (is_writable f)) [
        | inl e ↦ inl (rw (e, e) refl)
        | inr e ↦ inr (rw e refl)
      ]

  -- The constructor accepts a name that is not empty and thresholds from 0 to 100, the one of free
  -- cells below the one of occupied cells, and throws for all others. The saver has the name and the
  -- thresholds; its mode is the one that has the given name in lower case, or trinary for a name that
  -- no mode has; its format is one that the image library can write, or png.
  pub new-Checked :
      (is_writable : List ℕ → Bool) (mapname : List ℕ) (occupied free : ℤ) (mode_str : List ℕ)
      (format : Option (List ℕ))
      → Checked is_writable mapname occupied free mode_str
          (new tolower is_writable mapname occupied free mode_str format)
  unfolding new
  new-Checked is_writable mapname occupied free mode_str format =
      elim (Bool-cases (equals mapname [])) [
        | inl e ↦ inr (λ a. a.named (equals-true mapname [] e), name_not_provided, rw (new, e) refl)
        | inr e ↦ elim (Bool-cases (ltb_ℤ (pos 100) occupied)) [
          | inl o ↦ inr (
            λ a. too_high occupied a.above o a.occupied_at a.at_most,
            occupied_above_100,
            rw (new, e, o) refl,
          )
          | inr o ↦ elim (Bool-cases (ltb_ℤ free (pos 0))) [
            | inl f ↦
                inr (λ a. too_low free a.below f a.free_at, free_below_0, rw (new, e, o, f) refl)
            | inr f ↦ elim (Bool-cases (leb_ℤ occupied free)) [
              | inl l ↦ inr (
                λ a. not_smaller occupied free a.above a.below l a.occupied_at a.free_at a.in_order,
                free_not_smaller,
                rw (new, e, o, f, l) refl,
              )
              | inr l ↦ inl (
                accepted mapname occupied free e o f l,
                record {
                  out = _;
                  returns = rw (new, e, o, f, l) refl;
                  named = refl;
                  occupied_kept = refl;
                  free_kept = refl;
                  mode = mode_or_trinary-Named mode_str;
                  format =
                      usable_format-writable is_writable (mode_or_trinary tolower mode_str) format;
                },
              )
            ]
          ]
        ]
      ]
