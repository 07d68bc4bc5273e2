-- ===== src/Costmap/Buffer.antt =====
-- Arrays of bytes as lists, with the memory functions that costmaps use. An access outside the
-- array is a fault, `none`.
use navigation_learning.Prelude.{
  ℕ, zero, suc, ◌+◌, ◌-◌, ◌≤◌, ◌<◌, ◌≡◌, refl, ◌∙◌, Bool, ◌&&◌, Option, none, some, List, [], ◌∷◌,
  arith, ltb, leb, ◌==◌, if◌then◌else◌, lt→ltb, length, set, length-set, get_or,
}

abbrev pub at : List ℕ → ℕ → ℕ
at xs i = get_or xs i 0

-- `memset(p + i, v, n)`.
unfoldable pub memset : List ℕ → ℕ → ℕ → ℕ → Option (List ℕ)
memset xs i v zero = some xs
memset xs i v (suc n) =
    let rest = memset (set xs i v) (i + 1) v n in if ltb i (length xs) then rest else none

-- `memcpy(dest + j, src + i, n)` for two arrays that do not overlap.
unfoldable pub memcpy : List ℕ → ℕ → List ℕ → ℕ → ℕ → Option (List ℕ)
memcpy dest j src i zero = some dest
memcpy dest j src i (suc n) =
    let rest = memcpy (set dest j (at src i)) (j + 1) src (i + 1) n in
    if ltb i (length src) && ltb j (length dest) then rest else none

pub at-set :
    (xs : List ℕ) (i j v : ℕ) → i < length xs → at (set xs i v) j ≡ (if i == j then v else at xs j)
at-set [] i j v h = absurd (omega arith)
at-set (x ∷ xs) zero zero v h = refl
at-set (x ∷ xs) zero (suc j) v h = ground arith
at-set (x ∷ xs) (suc i) zero v h = ground arith
at-set (x ∷ xs) (suc i) (suc j) v h = ground (arith, at-set xs i j v)

unfoldable pub within : ℕ → ℕ → ℕ → Bool
within i n j = leb i j && ltb j (i + n)

pub record Filled (xs : List ℕ) (i v n : ℕ) (o : Option (List ℕ)) : Type 0 where
  pub out : List ℕ
  pub returns : o ≡ some out
  pub size : length out ≡ length xs
  pub cells : (j : ℕ) → at out j ≡ (if within i n j then v else at xs j)

pub memset-Filled :
    (xs : List ℕ) (i v n : ℕ) → i + n ≤ length xs → Filled xs i v n (memset xs i v n)
unfolding memset within
memset-Filled xs i v zero h = record {
  out = xs;
  returns = refl;
  size = refl;
  cells = λ j. ground arith;
}
memset-Filled xs i v (suc n) h =
    let rest = memset-Filled (set xs i v) (i + 1) v n (omega (arith, length-set xs i v)) in
    record {
      out = rest.out;
      returns = rw (lt→ltb i (length xs) (omega arith)) rest.returns;
      size = rest.size ∙ length-set xs i v;
      cells = λ j. ground (arith, rest.cells j, at-set xs i j v);
    }

pub record Copied (dest : List ℕ) (j : ℕ) (src : List ℕ) (i n : ℕ) (o : Option (List ℕ))
    : Type 0 where
  pub out : List ℕ
  pub returns : o ≡ some out
  pub size : length out ≡ length dest
  pub cells : (k : ℕ) → at out k ≡ (if within j n k then at src (i + (k - j)) else at dest k)

pub memcpy-Copied :
    (dest : List ℕ) (j : ℕ) (src : List ℕ) (i n : ℕ)
    → i + n ≤ length src
    → j + n ≤ length dest
    → Copied dest j src i n (memcpy dest j src i n)
unfolding memcpy within
memcpy-Copied dest j src i zero h k = record {
  out = dest;
  returns = refl;
  size = refl;
  cells = λ j. ground arith;
}
memcpy-Copied dest j src i (suc n) h k =
    let dest' = set dest j (at src i) in
    let rest =
      memcpy-Copied dest' (j + 1) src (i + 1) n (omega arith)
        (omega (arith, length-set dest j (at src i))) in
    record {
      out = rest.out;
      returns =
          rw (lt→ltb i (length src) (omega arith), lt→ltb j (length dest) (omega arith))
            rest.returns;
      size = rest.size ∙ length-set dest j (at src i);
      cells = λ c. rest.cells c ∙ moved c (at-set dest j c (at src i) (omega arith));
    }
  where
    shift : (c : ℕ) → j < c → i + 1 + (c - (j + 1)) ≡ i + (c - j)
    shift c l = omega arith

    first : (c : ℕ) → j ≡ c → i + (c - j) ≡ i
    first c e = omega arith

    moved :
        (c : ℕ)
        → at (set dest j (at src i)) c ≡ (if j == c then at src i else at dest c)
        → (if within (j + 1) n c
            then at src (i + 1 + (c - (j + 1)))
            else at (set dest j (at src i)) c)
          ≡ (if within j (suc n) c then at src (i + (c - j)) else at dest c)
    moved c e = ground (arith, shift c, first c)
