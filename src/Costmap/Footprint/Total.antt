-- ===== src/Costmap/Footprint/Total.antt =====
-- The rounds of `parseVVF` (navigation2/nav2_costmap_2d/src/array_parser.cpp) and their fuel.
use navigation_learning.Prelude.{
  ℕ, zero, suc, ◌+◌, ◌<◌, ◌≡◌, refl, sym, ◌∙◌, Bool, true, false, not, ◌||◌, Option, none, some,
  List, [], ◌∷◌, arith, leb, ◌==◌, if◌then◌else◌, length,
}
use mathlib.Core.Option.{some-ne-none}
use native.Mathlib.Nat.{suc-add}
use navigation_learning.Costmap.Footprint.{
  VvfError, Round, ended, again, after_read, parse_round, parse_loop, parse_vvf, open_bracket,
  close_bracket, comma, space, tab,
}

-- A number that is read takes at least a character of the stream.
abbrev pub Shortens : {V : Type 0} → (List ℕ → Option (V × List ℕ)) → Type 0
Shortens {V} read =
    (input : List ℕ) (v : V) (rest : List ℕ)
    → read input ≡ some (v, rest)
    → length rest < length input

module _ {V : Type 0} (read : List ℕ → Option (V × List ℕ)) where
  abbrev Shorter : ℕ → Round V → Type 0
  Shorter n (ended r) = Unit
  Shorter n (again input depth current result) = length input < n

  Shorter-if :
      (n : ℕ) (b : Bool) (x y : Round V)
      → Shorter n x
      → Shorter n y
      → Shorter n (if b then x else y)
  Shorter-if n true x y h k = h
  Shorter-if n false x y h k = k

  module _ (shortens : Shortens read) where
    parse_round-Shorter :
        (c : ℕ) (input : List ℕ) (depth : ℕ) (current : List V) (result : List (List V))
        → Shorter (suc (length input)) (parse_round read c input depth current result)
    parse_round-Shorter c input depth current result =
        Shorter-if n (c == open_bracket) _ _ (Shorter-if n (leb 2 depth) _ _ tt (omega arith)) (
          Shorter-if n (c == close_bracket) _ _ (Shorter-if n (depth == 0) _ _ tt (omega arith)) (
            Shorter-if n (c == comma || c == space || c == tab) _ _ (omega arith) (
              Shorter-if n (not (depth == 2)) _ _ tt
                (number (read (c ∷ input)) (λ v rest. shortens (c ∷ input) v rest)))))
      where
        n : ℕ
        n = suc (length input)

        number :
            (o : Option (V × List ℕ))
            → ((v : V) (rest : List ℕ) → o ≡ some (v, rest) → length rest < suc (length input))
            → Shorter (suc (length input)) (after_read depth current result o)
        number none h = tt
        number (some (v, rest)) h = h v rest refl

    -- Enough fuel gives a result.
    parse_loop-total :
        (n : ℕ) (input : List ℕ) (depth : ℕ) (current : List V) (result : List (List V))
        → length input < n
        → (r : List (List V) × Option VvfError) × (parse_loop read n input depth current result
            ≡ some r)
    unfolding parse_loop
    parse_loop-total zero input depth current result h = elim h [ ]
    parse_loop-total (suc n) [] depth current result h = (_, refl)
    parse_loop-total (suc n) (c ∷ input) depth current result h =
        step (parse_round read c input depth current result)
          (parse_round-Shorter c input depth current result)
          (λ input' depth' current' result' s.
            parse_loop-total n input' depth' current' result' (omega arith))
      where
        step :
            (x : Round V)
            → Shorter (suc (length input)) x
            → ((input' : List ℕ) (depth' : ℕ) (current' : List V) (result' : List (List V))
                → length input' < suc (length input)
                → (r : List (List V) × Option VvfError) × (parse_loop read n input' depth' current'
                      result'
                    ≡ some r))
            → (r : List (List V) × Option VvfError) × ((elim x [
              | ended r ↦ some r
              | again input' depth' current' result' ↦
                  parse_loop read n input' depth' current' result'
            ])
                ≡ some r)
        step (ended r) s rec = (r, refl)
        step (again input' depth' current' result') s rec = rec input' depth' current' result' s

  -- More fuel gives the same result.
  parse_loop-more :
      (n m : ℕ) (input : List ℕ) (depth : ℕ) (current : List V) (result : List (List V))
      (r : List (List V) × Option VvfError)
      → parse_loop read n input depth current result ≡ some r
      → parse_loop read (n + m) input depth current result ≡ some r
  unfolding parse_loop
  parse_loop-more zero m input depth current result r e = absurd (some-ne-none r (sym e))
  parse_loop-more (suc n) m [] depth current result r e = rw (suc-add n m) e
  parse_loop-more (suc n) m (c ∷ input) depth current result r e = rw (suc-add n m) (
      step (parse_round read c input depth current result)
        (λ input' depth' current' result'. parse_loop-more n m input' depth' current' result' r) e)
    where
      step :
          (x : Round V)
          → ((input' : List ℕ) (depth' : ℕ) (current' : List V) (result' : List (List V))
              → parse_loop read n input' depth' current' result' ≡ some r
              → parse_loop read (n + m) input' depth' current' result' ≡ some r)
          → (elim x [
            | ended r ↦ some r
            | again input' depth' current' result' ↦
                parse_loop read n input' depth' current' result'
          ])
            ≡ some r
          → (elim x [
            | ended r ↦ some r
            | again input' depth' current' result' ↦
                parse_loop read (n + m) input' depth' current' result'
          ])
            ≡ some r
      step (ended r') rec h = h
      step (again input' depth' current' result') rec h = rec input' depth' current' result' h

  -- With some fuel the loop gives the result.
  abbrev pub Ends : List ℕ → ℕ → List V → List (List V) → List (List V) × Option VvfError → Type 0
  Ends input depth current result r =
      (n : ℕ) × (parse_loop read n input depth current result ≡ some r)

  pub parse_vvf-Ends :
      Shortens read
      → (input : List ℕ) (r : List (List V) × Option VvfError) → Ends input 0 [] [] r
      → parse_vvf read input ≡ some r
  unfolding parse_vvf
  parse_vvf-Ends shortens input r (n, e) =
      let t = parse_loop-total shortens (suc (length input)) input 0 [] [] (omega arith) in
      let more = parse_loop-more (suc (length input)) n input 0 [] [] t.0 t.1 in
      let more' = parse_loop-more n (suc (length input)) input 0 [] [] r e in
      let swap : n + suc (length input) ≡ suc (length input) + n = omega arith in
      t.1 ∙ (sym more ∙ rw swap at more')
