-- ===== src/Critics/LineIterator/Rounding.antt =====
-- The arithmetic of the numerator: a division rounded to the nearest whole number, one step at a time.
use navigation_learning.Prelude.{
  ℕ, suc, ◌+◌, ◌-◌, ◌*◌, ◌/◌, ◌≤◌, ◌<◌, max, ◌≡◌, ap, inl, inr, true, false, arith, ltb, leb,
  leb→le, ltb→lt, Bool-cases,
}

-- The numerator holds the remainder of the rounded division of k * add by den.
pub record Rounded (den add k s n : ℕ) : Type 0 where
  pub split : n + den * s ≡ den / 2 + k * add
  pub small : n < max den 1
  pub slow : s ≤ k

pub carried :
    (den add k s n : ℕ)
    → add ≤ den
    → k < den
    → leb den (n + add) ≡ true
    → Rounded den add k s n
    → Rounded den add (suc k) (suc s) (n + add - den)
carried den add k s n le lt up r = record {
  split = grind (arith, leb→le den (n + add) up, r.split);
  small = omega (arith, leb→le den (n + add) up, r.small);
  slow = omega (arith, r.slow);
}

pub kept :
    (den add k s n : ℕ)
    → leb den (n + add) ≡ false
    → Rounded den add k s n
    → Rounded den add (suc k) s (n + add)
kept den add k s n stay r = record {
  split = grind (arith, r.split);
  small = omega (arith, below stay);
  slow = omega (arith, r.slow);
}
  where
    below : leb den (n + add) ≡ false → n + add < den
    below h = ground arith

times_le : (c a b : ℕ) → a ≤ b → c * a ≤ c * b
times_le c a b h = grind arith

-- A rounded division is exact at the end and no greater than its dividend's factor before.
pub rounded_le : (den add k s n : ℕ) → k ≤ den → Rounded den add k s n → s ≤ add
rounded_le den add k s n le r = elim (Bool-cases (leb s add)) [
  | inl h ↦ leb→le s add h
  | inr h ↦ absurd (
      omega (
        arith,
        r.split,
        r.small,
        times_le den (add + 1) s (above h),
        scale,
        share,
        r.slow,
        above h,
      ))
]
  where
    above : leb s add ≡ false → add + 1 ≤ s
    above h = ground arith

    scale : den * (add + 1) ≡ den * add + den
    scale = grind arith

    share : k * add ≤ den * add
    share = grind (arith, le)

pub rounded_end : (den add k s n : ℕ) → k ≡ den → add ≤ den → Rounded den add k s n → s ≡ add
rounded_end den add k s n e le r = elim (Bool-cases (leb add s)) [
  | inl h ↦ omega (arith, leb→le add s h, rounded_le den add k s n (omega (arith, e)) r)
  | inr h ↦ absurd (
      omega (
        arith,
        r.split,
        r.small,
        times_le den (s + 1) add (above h),
        scale,
        le,
        above h,
        ap (λ t. t * add) e,
      ))
]
  where
    above : leb add s ≡ false → s + 1 ≤ add
    above h = ground arith

    scale : den * (s + 1) ≡ den * s + den
    scale = grind arith

pub rounded_near :
    (den add k s n : ℕ)
    → k ≤ den
    → Rounded den add k s n
    → (2 * (den * s) ≤ 2 * (add * k) + den) × (2 * (add * k) ≤ 2 * (den * s) + den)
rounded_near den add k s n le r = elim (Bool-cases (ltb 0 den)) [
  | inl h ↦ (omega (arith, r.split, swap), omega (arith, r.split, r.small, swap, ltb→lt 0 den h))
  | inr h ↦ (omega (arith, r.split, swap), zero_lem (none_left h) le)
]
  where
    swap : add * k ≡ k * add
    swap = grind arith

    none_left : ltb 0 den ≡ false → den ≡ 0
    none_left h = ground arith

    zero_lem : den ≡ 0 → k ≤ den → 2 * (add * k) ≤ 2 * (den * s) + den
    zero_lem e h = grind (arith, e, h)
