-- ===== src/Costmap/Footprint/Tests.antt =====
-- Footprints whose numbers are the digits 0 and 1.
use navigation_learning.Prelude.{
  ℕ, suc, ◌<◌, ◌≡◌, refl, sym, ap, inl, inr, Bool, true, false, ◌||◌, Option, none, some, List, [],
  ◌∷◌, ◌++◌, arith, ◌==◌, if◌then◌else◌, Bool-cases, length,
}
use mathlib.Core.Path.{subst}
use mathlib.Core.Option.{some-ne-none, some_inj}
use navigation_learning.Costmap.Footprint.{
  depth_greater_than_2, number_at_other_depth, unterminated, parse_loop, parse_vvf,
  make_footprint_from_string,
}
use navigation_learning.Costmap.Footprint.Total.{Shortens}
use navigation_learning.Costmap.Footprint.Print.{
  Prints, print_vvf, as_lists, make_footprint_from_string-print_vvf,
}

abbrev read : List ℕ → Option (Bool × List ℕ)
read [] = none
read (c ∷ rest) =
    if c == 48 then some (false, rest) else if c == 49 then some (true, rest) else none

abbrev show : Bool → List ℕ
show false = 48 ∷ []
show true = 49 ∷ []

read-Shortens : Shortens read
read-Shortens [] v rest e = absurd (some-ne-none (v, rest) (sym e))
read-Shortens (c ∷ input) v rest e = elim (Bool-cases (c == 48)) [
  | inl z ↦ shorter false (rw z at e)
  | inr z ↦ elim (Bool-cases (c == 49)) [
    | inl o ↦ shorter true (rw (z, o) at e)
    | inr o ↦ absurd (some-ne-none (v, rest) (sym (rw (z, o) at e)))
  ]
]
  where
    shorter :
        (b : Bool)
        → ◌≡◌ {A = Option (Bool × List ℕ)} (some (b, input)) (some (v, rest))
        → length rest < suc (length input)
    shorter b q =
        let same : input ≡ rest = ap (λ p. p.1) (some_inj.0 q) in
        subst (λ l. length l < suc (length input)) same (omega arith)

digits : Prints read show
digits = record { shortens = read-Shortens; starts = starts; reads = reads }
  where
    starts :
        (v : Bool)
        → (c : ℕ) × (rest : List ℕ) × (show v ≡ c ∷ rest)
          × ((c == 91 || c == 93 || c == 44 || c == 32 || c == 9) ≡ false)
    starts false = (48, [], refl, refl)
    starts true = (49, [], refl, refl)

    reads :
        (v : Bool) (c : ℕ) (rest : List ℕ)
        → (c == 44 || c == 93) ≡ true
        → read (show v ++ (c ∷ rest)) ≡ some (v, c ∷ rest)
    reads false c rest h = refl
    reads true c rest h = refl

abbrev triangle : List (Bool × Bool)
triangle = (false, false) ∷ (true, false) ∷ (true, true) ∷ []

-- [[[
too_deep : parse_vvf read (91 ∷ 91 ∷ 91 ∷ []) ≡ some ([], some depth_greater_than_2)
unfolding parse_vvf parse_loop
too_deep = refl

-- [1
shallow_number : parse_vvf read (91 ∷ 49 ∷ []) ≡ some ([], some (number_at_other_depth 49))
unfolding parse_vvf parse_loop
shallow_number = refl

-- [[1
cut_off : parse_vvf read (91 ∷ 91 ∷ 49 ∷ []) ≡ some ([], some unterminated)
unfolding parse_vvf parse_loop
cut_off = refl

-- Of [[0,0],[1,0],[1]] the first two points are added, although the result is false.
bad_point :
    make_footprint_from_string read
      (91 ∷ 91 ∷ 48 ∷ 44 ∷ 48 ∷ 93 ∷ 44 ∷ 91 ∷ 49 ∷ 44 ∷ 48 ∷ 93 ∷ 44 ∷ 91 ∷ 49 ∷ 93 ∷ 93 ∷ [])
      []
    ≡ some ((false, false) ∷ (true, false) ∷ [], false)
unfolding make_footprint_from_string parse_vvf parse_loop
bad_point = refl

make_footprint_from_string-print_vvf_example :
    make_footprint_from_string read (print_vvf show (as_lists triangle)) [] ≡ some (triangle, true)
make_footprint_from_string-print_vvf_example =
    make_footprint_from_string-print_vvf read show digits triangle [] (omega arith)
