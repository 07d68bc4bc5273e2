-- ===== src/MapServer/Slices.antt =====
-- The parts of a list before and after an index, for the rows of an image.
use navigation_learning.Prelude.{
  ℕ, zero, suc, ◌+◌, ◌≤◌, ◌<◌, ◌≡◌, refl, sym, ap, ◌∙◌, some, List, [], ◌∷◌, ◌++◌, map, arith,
  length, get_elem?, set, take, drop,
}
use native.Mathlib.Nat.{zero-add, suc-add}

module _ {A : Type 0} where
  take_nil : (n : ℕ) → take {A = A} n [] ≡ []
  take_nil zero = refl
  take_nil (suc n) = refl

  pub take_add : (m n : ℕ) (xs : List A) → take (m + n) xs ≡ take m xs ++ take n (drop m xs)
  take_add zero n xs = rw (zero-add n) refl
  take_add (suc m) n [] = take_nil (suc m + n) ∙ sym (take_nil n)
  take_add (suc m) n (x ∷ xs) = rw (suc-add m n) (ap (λ l. x ∷ l) (take_add m n xs))

  pub drop-append_take : (m : ℕ) (xs ys : List A) → m ≤ length xs → drop m (take m xs ++ ys) ≡ ys
  drop-append_take zero xs ys h = refl
  drop-append_take (suc m) [] ys h = absurd (omega arith)
  drop-append_take (suc m) (x ∷ xs) ys h = drop-append_take m xs ys (omega arith)

  pub take-append_take :
      (m : ℕ) (xs ys : List A) → m ≤ length xs → take m (take m xs ++ ys) ≡ take m xs
  take-append_take zero xs ys h = refl
  take-append_take (suc m) [] ys h = absurd (omega arith)
  take-append_take (suc m) (x ∷ xs) ys h = ap (λ l. x ∷ l) (take-append_take m xs ys (omega arith))

  pub map-append :
      {B : Type 0} (f : A → B) (xs ys : List A) → map f (xs ++ ys) ≡ map f xs ++ map f ys
  map-append f [] ys = refl
  map-append f (x ∷ xs) ys = ap (λ l. f x ∷ l) (map-append f xs ys)

  -- The first element after some that are dropped.
  pub drop_next :
      (i : ℕ) (xs : List A)
      → i < length xs
      → (x : A) × (get_elem? xs i ≡ some x) × (drop i xs ≡ x ∷ drop (i + 1) xs)
  drop_next i [] h = absurd (omega arith)
  drop_next zero (x ∷ xs) h = (x, refl, refl)
  drop_next (suc i) (x ∷ xs) h =
      let e = drop_next i xs (omega arith) in (e.0, e.1, rw (suc-add i 1) e.2)

  pub take-set :
      (i : ℕ) (xs : List A) (v : A)
      → i < length xs
      → take (i + 1) (set xs i v) ≡ take i xs ++ (v ∷ [])
  take-set i [] v h = absurd (omega arith)
  take-set zero (x ∷ xs) v h = refl
  take-set (suc i) (x ∷ xs) v h = rw (suc-add i 1) (ap (λ l. x ∷ l) (take-set i xs v (omega arith)))

  pub drop-set :
      (i n : ℕ) (xs : List A) (v : A) → drop (i + 1 + n) (set xs i v) ≡ drop (i + 1 + n) xs
  drop-set i n [] v = refl
  drop-set zero n (x ∷ xs) v = rw (suc-add 0 n) refl
  drop-set (suc i) n (x ∷ xs) v = rw (suc-add i 1, suc-add (i + 1) n) (drop-set i n xs v)

  pub take_all : (n : ℕ) (xs : List A) → length xs ≤ n → take n xs ≡ xs
  take_all n [] h = take_nil n
  take_all zero (x ∷ xs) h = absurd (omega arith)
  take_all (suc n) (x ∷ xs) h = ap (λ l. x ∷ l) (take_all n xs (omega arith))

  pub drop_all : (n : ℕ) (xs : List A) → length xs ≤ n → drop n xs ≡ []
  drop_all zero [] h = refl
  drop_all (suc n) [] h = refl
  drop_all zero (x ∷ xs) h = absurd (omega arith)
  drop_all (suc n) (x ∷ xs) h = drop_all n xs (omega arith)
