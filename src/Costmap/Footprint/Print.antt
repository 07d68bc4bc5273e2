-- ===== src/Costmap/Footprint/Print.antt =====
-- Footprints printed in the syntax of `parseVVF`, for `makeFootprintFromString` of
-- navigation2/nav2_costmap_2d/src/footprint.cpp.
use navigation_learning.Prelude.{
  ℕ, suc, ◌≤◌, ◌≡◌, refl, ap, ◌∙◌, Bool, true, false, ◌||◌, Option, none, some, List, [], ◌∷◌, ◌++◌,
  map, arith, ltb, ◌==◌, length, length-map,
}
use mathlib.Core.Path.{subst}
use mathlib.Core.List.{append-nil, append_assoc}
use navigation_learning.Costmap.Footprint.{
  VvfError, again, after_read, parse_round, parse_loop, parse_vvf, add_points,
  make_footprint_from_string, open_bracket, close_bracket, comma, space, tab,
}
use navigation_learning.Costmap.Footprint.Total.{Shortens, Ends, parse_vvf-Ends}

abbrev pub is_special : ℕ → Bool
is_special c = c == open_bracket || c == close_bracket || c == comma || c == space || c == tab

abbrev pub ends_number : ℕ → Bool
ends_number c = c == comma || c == close_bracket

-- `show` prints a number so that `read` reads it back up to a comma or a closing bracket; it begins
-- with none of the special characters. What `read` takes, it takes from the stream.
pub record Prints {V : Type 0} (read : List ℕ → Option (V × List ℕ)) (show : V → List ℕ)
    : Type 0 where
  pub shortens : Shortens read
  pub starts : (v : V) → (c : ℕ) × (rest : List ℕ) × (show v ≡ c ∷ rest) × (is_special c ≡ false)
  pub reads :
      (v : V) (c : ℕ) (rest : List ℕ)
      → ends_number c ≡ true
      → read (show v ++ (c ∷ rest)) ≡ some (v, c ∷ rest)

module _ {V : Type 0} (show : V → List ℕ) where
  -- The numbers of a point, its closing bracket, and what follows.
  abbrev pub print_numbers : List V → List ℕ → List ℕ
  print_numbers [] rest = close_bracket ∷ rest
  print_numbers (v ∷ []) rest = show v ++ (close_bracket ∷ rest)
  print_numbers (v ∷ w ∷ vs) rest = show v ++ (comma ∷ space ∷ print_numbers (w ∷ vs) rest)

  abbrev pub print_points : List (List V) → List ℕ
  print_points [] = close_bracket ∷ []
  print_points (p ∷ []) = open_bracket ∷ print_numbers p (close_bracket ∷ [])
  print_points (p ∷ q ∷ vvf) =
      open_bracket ∷ print_numbers p (comma ∷ space ∷ print_points (q ∷ vvf))

  abbrev pub print_vvf : List (List V) → List ℕ
  print_vvf vvf = open_bracket ∷ print_points vvf

-- The points as the parser gives them.
abbrev pub as_lists : {V : Type 0} → List (V × V) → List (List V)
as_lists points = map (λ p. p.0 ∷ p.1 ∷ []) points

add_points_lem :
    {V : Type 0} (points footprint : List (V × V))
    → add_points (as_lists points) footprint ≡ (footprint ++ points, true)
add_points_lem [] footprint = rw (append-nil footprint) refl
add_points_lem (p ∷ points) footprint =
    rw (add_points_lem points (footprint ++ (p ∷ [])), append_assoc footprint (p ∷ []) points) refl

module _ {V : Type 0} (read : List ℕ → Option (V × List ℕ)) where
  goes_on :
      (c : ℕ) (input : List ℕ) (depth : ℕ) (current : List V) (result : List (List V))
      (input' : List ℕ) (depth' : ℕ) (current' : List V) (result' : List (List V))
      (r : List (List V) × Option VvfError)
      → parse_round read c input depth current result ≡ again input' depth' current' result'
      → Ends read input' depth' current' result' r
      → Ends read (c ∷ input) depth current result r
  unfolding parse_loop
  goes_on c input depth current result input' depth' current' result' r e (n, h) =
      (suc n, rw (parse_loop, e) h)

  module _ (show : V → List ℕ) (prints : Prints read show) where
    number_read :
        (v : V) (c : ℕ) (rest : List ℕ) (current : List V) (result : List (List V))
        (r : List (List V) × Option VvfError)
        → ends_number c ≡ true
        → Ends read (c ∷ rest) 2 (current ++ (v ∷ [])) result r
        → Ends read (show v ++ (c ∷ rest)) 2 current result r
    number_read v c rest current result r h next =
        let s = prints.starts v in
        let reads = rw s.2 at (prints.reads v c rest h) in
        rw s.2 (
          goes_on s.0 (s.1 ++ (c ∷ rest)) 2 current result (c ∷ rest) 2 (current ++ (v ∷ [])) result
            r
            (first s.0 (s.1 ++ (c ∷ rest)) (read (s.0 ∷ (s.1 ++ (c ∷ rest)))) s.3 refl
              ∙ rw reads refl)
            next)
      where
        first :
            (d : ℕ) (input : List ℕ) (o : Option (V × List ℕ))
            → is_special d ≡ false
            → read (d ∷ input) ≡ o
            → parse_round read d input 2 current result ≡ after_read 2 current result o
        first d input o e q = ground (arith, ap (after_read 2 current result) q)

    numbers_read :
        (vs : List V) (rest : List ℕ) (current : List V) (result : List (List V))
        (r : List (List V) × Option VvfError)
        → Ends read rest 1 (current ++ vs) (result ++ ((current ++ vs) ∷ [])) r
        → Ends read (print_numbers show vs rest) 2 current result r
    numbers_read [] rest current result r next =
        goes_on close_bracket rest 2 current result rest 1 current (result ++ (current ∷ [])) r refl
          (rw append-nil at next)
    numbers_read (v ∷ []) rest current result r next =
        number_read v close_bracket rest current result r refl (
          goes_on close_bracket rest 2 (current ++ (v ∷ [])) result rest 1 (current ++ (v ∷ []))
            (result ++ ((current ++ (v ∷ [])) ∷ [])) r refl next)
    numbers_read (v ∷ w ∷ vs) rest current result r next =
        let more = print_numbers show (w ∷ vs) rest in
        let current' = current ++ (v ∷ []) in
        number_read v comma (space ∷ more) current result r refl (
          goes_on comma (space ∷ more) 2 current' result (space ∷ more) 2 current' result r refl (
            goes_on space more 2 current' result more 2 current' result r refl (
              numbers_read (w ∷ vs) rest current' result r
                (rw (append_assoc current (v ∷ []) (w ∷ vs)) next))))

    last_bracket :
        (current : List V) (result : List (List V))
        → Ends read (close_bracket ∷ []) 1 current result (result, none)
    unfolding parse_loop
    last_bracket current result = (2, refl)

    points_read :
        (vvf : List (List V)) (current : List V) (result : List (List V))
        → Ends read (print_points show vvf) 1 current result (result ++ vvf, none)
    points_read [] current result = rw (append-nil result) (last_bracket current result)
    points_read (p ∷ []) current result =
        goes_on open_bracket (print_numbers show p (close_bracket ∷ [])) 1 current result
          (print_numbers show p (close_bracket ∷ [])) 2 [] result (result ++ (p ∷ []), none) refl
          (numbers_read p (close_bracket ∷ []) [] result (result ++ (p ∷ []), none)
            (last_bracket p (result ++ (p ∷ []))))
    points_read (p ∷ q ∷ vvf) current result =
        let rest = print_points show (q ∷ vvf) in
        let numbers = print_numbers show p (comma ∷ space ∷ rest) in
        let result' = result ++ (p ∷ []) in
        let r : List (List V) × Option VvfError = (result ++ (p ∷ q ∷ vvf), none) in
        goes_on open_bracket numbers 1 current result numbers 2 [] result r refl (
          numbers_read p (comma ∷ space ∷ rest) [] result r (
            goes_on comma (space ∷ rest) 1 p result' (space ∷ rest) 1 p result' r refl (
              goes_on space rest 1 p result' rest 1 p result' r refl (
                subst (λ t. Ends read rest 1 p result' (t, none))
                  (append_assoc result (p ∷ []) (q ∷ vvf))
                  (points_read (q ∷ vvf) p (result ++ (p ∷ [])))))))

    parse_vvf-print_vvf :
        (vvf : List (List V)) → parse_vvf read (print_vvf show vvf) ≡ some (vvf, none)
    parse_vvf-print_vvf vvf =
        parse_vvf-Ends read prints.shortens (print_vvf show vvf) (vvf, none)
          (goes_on open_bracket (print_points show vvf) 0 [] [] (print_points show vvf) 1 [] []
            (vvf, none) refl (points_read vvf [] []))

    -- The string of a footprint of at least three points, with numbers that are printed so that they
    -- are read back, is parsed, and its points are added to the footprint that was passed, in order.
    pub make_footprint_from_string-print_vvf :
        (points footprint : List (V × V))
        → 3 ≤ length points
        → make_footprint_from_string read (print_vvf show (as_lists points)) footprint
          ≡ some (footprint ++ points, true)
    unfolding make_footprint_from_string
    make_footprint_from_string-print_vvf points footprint h =
        rw
          (
            parse_vvf-print_vvf (as_lists points),
            enough (length (as_lists points))
                (omega (arith, length-map points (λ (p : V × V). p.0 ∷ p.1 ∷ []))),
            add_points_lem points footprint,
          )
          refl
      where
        enough : (n : ℕ) → 3 ≤ n → ltb n 3 ≡ false
        enough n k = ground arith
