-- ===== src/Costmap/Footprint.antt =====
-- Robot footprints of navigation2/nav2_costmap_2d: `parseVVF` (src/array_parser.cpp) and
-- `makeFootprintFromString` (src/footprint.cpp). A string is a list of character codes. `read` is the
-- stream's `>>` into a float: the number and what is left, or none where it fails.
pub mod Total
pub mod Print
mod Tests
use package.navigation_learning.Prelude.{
  ℕ, zero, suc, ◌+◌, ◌-◌, ◌/◌, min, ap, Bool, true, false, not, ◌||◌, Option, none, some, List, [],
  ◌∷◌, ◌++◌, map, ltb, leb, ◌==◌, if◌then◌else◌, length, take,
}

-- The message in `error_return`, none for an empty one.
pub data VvfError : Type 0 where
  depth_greater_than_2 : VvfError
  more_close_than_open : VvfError
  number_at_other_depth : ℕ → VvfError
  unterminated : VvfError

abbrev pub open_bracket : ℕ
open_bracket = 91

abbrev pub close_bracket : ℕ
close_bracket = 93

abbrev pub comma : ℕ
comma = 44

abbrev pub space : ℕ
space = 32

abbrev pub tab : ℕ
tab = 9

infixl 5 ◌>>=◌
abbrev pub ◌>>=◌ {ℓ κ} : {A : Type ℓ} {B : Type κ} → Option A → (A → Option B) → Option B
none >>= f = none
some a >>= f = f a

-- A return, or the state that the loop goes on with.
pub data Round (V : Type 0) : Type 0 where
  ended : List (List V) × Option VvfError → Round V
  again : List ℕ → ℕ → List V → List (List V) → Round V

module _ {V : Type 0} where
  -- What follows the loop.
  abbrev pub finish : ℕ → List (List V) → List (List V) × Option VvfError
  finish depth result = (result, if depth == 0 then none else some unterminated)

  -- The points are added to the footprint that was passed, up to the first that is not a pair.
  abbrev pub add_points : List (List V) → List (V × V) → List (V × V) × Bool
  add_points [] footprint = (footprint, true)
  add_points ((x ∷ y ∷ []) ∷ vvf) footprint = add_points vvf (footprint ++ ((x, y) ∷ []))
  add_points ([] ∷ vvf) footprint = (footprint, false)
  add_points ((x ∷ []) ∷ vvf) footprint = (footprint, false)
  add_points ((x ∷ y ∷ z ∷ point) ∷ vvf) footprint = (footprint, false)

  -- `input_ss >> value`, and the push if it did not fail.
  abbrev pub after_read : ℕ → List V → List (List V) → Option (V × List ℕ) → Round V
  after_read depth current result none = ended (finish depth result)
  after_read depth current result (some (v, input)) = again input depth (current ++ (v ∷ [])) result

module _ {V : Type 0} (read : List ℕ → Option (V × List ℕ)) where
  abbrev pub number_round : ℕ → List ℕ → ℕ → List V → List (List V) → Round V
  number_round c input depth current result =
      if not (depth == 2)
      then ended (result, some (number_at_other_depth c))
      else after_read depth current result (read (c ∷ input))

  -- A round of the loop at a character.
  abbrev pub parse_round : ℕ → List ℕ → ℕ → List V → List (List V) → Round V
  parse_round c input depth current result =
      if c == open_bracket
      then if leb 2 depth
        then ended (result, some depth_greater_than_2)
        else again input (depth + 1) [] result
      else if c == close_bracket
      then if depth == 0
        then ended (result, some more_close_than_open)
        else again input (depth - 1) current
            (if depth == 2 then result ++ (current ∷ []) else result)
      else if c == comma || c == space || c == tab
      then again input depth current result
      else number_round c input depth current result

  -- The loop, with the characters left in the stream; none when the fuel runs out.
  unfoldable pub parse_loop :
      ℕ → List ℕ → ℕ → List V → List (List V) → Option (List (List V) × Option VvfError)
  parse_loop zero input depth current result = none
  parse_loop (suc n) [] depth current result = some (finish depth result)
  parse_loop (suc n) (c ∷ input) depth current result =
      elim (parse_round c input depth current result) [
        | ended r ↦ some r
        | again input' depth' current' result' ↦ parse_loop n input' depth' current' result'
      ]

  -- The fuel is one round more than there are characters.
  unfoldable pub parse_vvf : List ℕ → Option (List (List V) × Option VvfError)
  parse_vvf input = parse_loop (suc (length input)) input 0 [] []

  unfoldable pub make_footprint_from_string : List ℕ → List (V × V) → Option (List (V × V) × Bool)
  make_footprint_from_string input footprint = parse_vvf input >>= λ r. elim r.1 [
    | some error ↦ some (footprint, false)
    | none ↦ if ltb (length r.0) 3 then some (footprint, false) else some (add_points r.0 footprint)
  ]
