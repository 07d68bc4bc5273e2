-- ===== src/Critics/Obstacle/Scores.antt =====
-- What a legal score says of the cells under a line.
use mathlib.Core.Path.{subst}
use mathlib.Core.Option.{none-ne-some}
use navigation_learning.Prelude.{
  ℕ, zero, suc, ◌+◌, ◌≤◌, ◌<◌, max, ◌≡◌, refl, sym, ap, ◌∙◌, ◌≢◌, inl, inr, Bool, true, false,
  Option, none, some, if◌then◌else◌, arith, leb→le, Bool-cases,
}
use navigation_learning.Prelude.Int.{ℤ, ◌-ℤ◌, abs_ℤ}
use navigation_learning.Costmap.Doubles.{Doubles, to_u32}
use navigation_learning.Costmap.Grid.{Costmap, get_cost}
use navigation_learning.Critics.LineIterator.{
  LineIterator, new, line_of, is_valid, step, advance, advances,
}
use navigation_learning.Critics.Obstacle.{
  Score, legal, off_grid, hits_obstacle, hits_unknown, fault, no_fuel, ◌then_score◌, point_cost,
  line_loop, line_cost, score_point, pixels,
}

advance-step : (it next : LineIterator) → advance it ≡ some next → step it ≡ next
unfolding advance
advance-step it next e = from_some _ e
  where
    from_some : (b : Bool) → (if b then some (step it) else none) ≡ some next → step it ≡ next
    from_some true e = ap (λ o. elim o [ none ↦ step it | some n ↦ n ]) e
    from_some false e = absurd (none-ne-some next e)

advance-counters :
    (it next : LineIterator)
    → advance it ≡ some next
    → (next.curpixel ≡ suc it.curpixel) × (next.numpixels ≡ it.numpixels)
advance-counters it next e =
    subst (λ n. (n.curpixel ≡ suc it.curpixel) × (n.numpixels ≡ it.numpixels))
      (advance-step it next e) (counters_lem it)
  where
    counters_lem :
        (it : LineIterator)
        → ((step it).curpixel ≡ suc it.curpixel) × ((step it).numpixels ≡ it.numpixels)
    counters_lem it = ground arith

advances-advance :
    (k : ℕ) (it : LineIterator) → advances k (advance it) ≡ advances (suc k) (some it)
unfolding advances
advances-advance zero it = refl
advances-advance (suc k) it =
    ap (λ o. elim o [ none ↦ none | some next ↦ advance next ]) (advances-advance k it)

new-line_of :
    (x0 y0 x1 y1 : ℤ) (it : LineIterator) → new x0 y0 x1 y1 ≡ some it → line_of x0 y0 x1 y1 ≡ it
unfolding new
new-line_of x0 y0 x1 y1 it e = from_some _ e
  where
    from_some :
        (b : Bool)
        → (if b then some (line_of x0 y0 x1 y1) else none) ≡ some it
        → line_of x0 y0 x1 y1 ≡ it
    from_some true e = ap (λ o. elim o [ none ↦ line_of x0 y0 x1 y1 | some n ↦ n ]) e
    from_some false e = absurd (none-ne-some it e)

new-counters :
    (x0 y0 x1 y1 : ℤ) (it : LineIterator)
    → new x0 y0 x1 y1 ≡ some it
    → (it.curpixel ≡ 0) × (it.numpixels ≡ max (abs_ℤ (x1 -ℤ x0)) (abs_ℤ (y1 -ℤ y0)))
new-counters x0 y0 x1 y1 it e =
    subst (λ n. (n.curpixel ≡ 0) × (n.numpixels ≡ max (abs_ℤ (x1 -ℤ x0)) (abs_ℤ (y1 -ℤ y0))))
      (new-line_of x0 y0 x1 y1 it e) (ground arith)

-- A legal cost is that of a cell which was read and is neither lethal nor unknown.
score_point-legal :
    (o : Option ℕ) (p : ℕ) → score_point o ≡ legal p → (o ≡ some p) × (p ≢ 254) × (p ≢ 255)
score_point-legal none p e = absurd (ground arith)
score_point-legal (some cost) p e = ground arith

point_score-fuel : (o : Option ℕ) → score_point o ≢ no_fuel
point_score-fuel o = ground arith

module _ {D : Type 0} (d : Doubles D) (c : Costmap D) where
  -- The iterator stands on a cell of the map's array, with a cost that is neither lethal (254) nor
  -- unknown (255) and at most `m`.
  pub record Covered (m : ℕ) (o : Option LineIterator) : Type 0 where
    pub it : LineIterator
    pub returns : o ≡ some it
    pub cost : ℕ
    pub read : get_cost c (to_u32 it.x) (to_u32 it.y) ≡ some cost
    pub not_lethal : cost ≢ 254
    pub not_unknown : cost ≢ 255
    pub bound : cost ≤ m

  point_cost-legal :
      (x y : ℤ) (p : ℕ)
      → point_cost d c x y ≡ legal p
      → (get_cost c (to_u32 x) (to_u32 y) ≡ some p) × (p ≢ 254) × (p ≢ 255)
  unfolding point_cost
  point_cost-legal x y p e = score_point-legal (get_cost c (to_u32 x) (to_u32 y)) p e

  loop_on :
      (n : ℕ) (it : LineIterator) (cost : ℕ)
      → is_valid it ≡ true
      → line_loop d (suc n) c (some it) cost
        ≡ (point_cost d c it.x it.y then_score λ p. line_loop d n c (advance it) (max cost p))
  unfolding line_loop
  loop_on n it cost v = rw (v, line_loop) refl

  loop_off :
      (n : ℕ) (it : LineIterator) (cost : ℕ)
      → is_valid it ≡ false
      → line_loop d (suc n) c (some it) cost ≡ legal cost
  unfolding line_loop
  loop_off n it cost v = rw (v, line_loop) refl

  -- A score that goes on to a legal one was legal.
  legal_lem :
      (s : Score) (f : ℕ → Score) (m : ℕ)
      → (s then_score f) ≡ legal m
      → (p : ℕ) × (s ≡ legal p) × (f p ≡ legal m)
  legal_lem (legal p) f m e = (p, refl, e)
  legal_lem off_grid f m e = absurd (ground arith)
  legal_lem hits_obstacle f m e = absurd (ground arith)
  legal_lem hits_unknown f m e = absurd (ground arith)
  legal_lem fault f m e = absurd (ground arith)
  legal_lem no_fuel f m e = absurd (ground arith)

  faulty : (n cost m : ℕ) → line_loop d n c none cost ≡ legal m → ⊥
  unfolding line_loop
  faulty n cost m e = ground arith

  starved : (it : LineIterator) (cost m : ℕ) → line_loop d 0 c (some it) cost ≡ legal m → ⊥
  unfolding line_loop
  starved it cost m e = ground arith

  -- A round of a loop that ends with a legal score.
  legal_round :
      (n : ℕ) (it : LineIterator) (cost m : ℕ)
      → is_valid it ≡ true
      → line_loop d (suc n) c (some it) cost ≡ legal m
      → (p : ℕ) × (point_cost d c it.x it.y ≡ legal p)
        × (line_loop d n c (advance it) (max cost p) ≡ legal m)
  legal_round n it cost m v e =
      legal_lem (point_cost d c it.x it.y) _ m (sym (loop_on n it cost v) ∙ e)

  loop_bound :
      (n : ℕ) (o : Option LineIterator) (cost m : ℕ) → line_loop d n c o cost ≡ legal m → cost ≤ m
  loop_bound n none cost m e = absurd (faulty n cost m e)
  loop_bound zero (some it) cost m e = absurd (starved it cost m e)
  loop_bound (suc n) (some it) cost m e = elim (Bool-cases (is_valid it)) [
    | inl v ↦
        let r = legal_round n it cost m v e in
        omega (arith, loop_bound n (advance it) (max cost (r.0)) m (r.2))
    | inr v ↦ same (sym (loop_off n it cost v) ∙ e)
  ]
    where
      same : legal cost ≡ legal m → cost ≤ m
      same e = ground arith

  line_loop-Covered :
      (n k : ℕ) (it : LineIterator) (cost m : ℕ)
      → line_loop d n c (some it) cost ≡ legal m
      → it.curpixel + k ≤ it.numpixels
      → Covered m (advances k (some it))
  line_loop-Covered zero k it cost m e h = absurd (starved it cost m e)
  line_loop-Covered (suc n) zero it cost m e h =
      let r = legal_round n it cost m (ground (arith, h)) e in
      let point = point_cost-legal it.x it.y (r.0) (r.1) in
      record {
        it = it;
        returns = unfold advances in refl;
        cost = r.0;
        read = point.0;
        not_lethal = point.1;
        not_unknown = point.2;
        bound = omega (arith, loop_bound n (advance it) (max cost (r.0)) m (r.2));
      }
  line_loop-Covered (suc n) (suc k) it cost m e h =
      let r = legal_round n it cost m (ground (arith, h)) e in
      subst (Covered m) (advances-advance k it) (
        next (max cost (r.0)) (advance it) refl (r.2) (λ after q f.
          line_loop-Covered n k after (max cost (r.0)) m f
            (omega (arith, h, advance-counters it after q))))
    where
      next :
          (worst : ℕ) (o : Option LineIterator)
          → advance it ≡ o
          → line_loop d n c (advance it) worst ≡ legal m
          → ((after : LineIterator)
              → advance it ≡ some after
              → line_loop d n c (some after) worst ≡ legal m
              → Covered m (advances k (some after)))
          → Covered m (advances k (advance it))
      next worst none q f again =
          absurd (faulty n worst m (ap (λ t. line_loop d n c t worst) (sym q) ∙ f))
      next worst (some after) q f again =
          subst (λ t. Covered m (advances k t)) (sym q)
            (again after q (ap (λ t. line_loop d n c t worst) (sym q) ∙ f))

  -- If a line has a legal cost, then the line iterator goes from one end to the other without an
  -- overflow of an `int`, and the cost of every cell that it visits is read inside the map's array, is
  -- neither 254 (lethal) nor 255 (unknown), and is no more than that of the line.
  pub line_cost-Covered :
      (x0 x1 y0 y1 : ℤ) (m : ℕ) (k : ℕ)
      → line_cost d c x0 x1 y0 y1 ≡ legal m
      → k ≤ max (abs_ℤ (x1 -ℤ x0)) (abs_ℤ (y1 -ℤ y0))
      → Covered m (advances k (new x0 y0 x1 y1))
  unfolding line_cost
  line_cost-Covered x0 x1 y0 y1 m k e h = whole (new x0 y0 x1 y1) refl e
    where
      whole :
          (o : Option LineIterator)
          → new x0 y0 x1 y1 ≡ o
          → line_loop d (pixels d o + 2) c o 0 ≡ legal m
          → Covered m (advances k o)
      whole none q f = absurd (faulty 2 0 m f)
      whole (some it) q f =
          line_loop-Covered (it.numpixels + 2) k it 0 m f
            (omega (arith, h, new-counters x0 y0 x1 y1 it q))

  enough_lem :
      (s : Score) (f : ℕ → Score)
      → s ≢ no_fuel
      → ((p : ℕ) → f p ≢ no_fuel)
      → (s then_score f) ≢ no_fuel
  enough_lem (legal p) f a b = b p
  enough_lem off_grid f a b = a
  enough_lem hits_obstacle f a b = a
  enough_lem hits_unknown f a b = a
  enough_lem fault f a b = a
  enough_lem no_fuel f a b = a

  point_cost-fuel : (x y : ℤ) → point_cost d c x y ≢ no_fuel
  unfolding point_cost
  point_cost-fuel x y = point_score-fuel (get_cost c (to_u32 x) (to_u32 y))

  faulty-fuel : (n cost : ℕ) → line_loop d n c none cost ≢ no_fuel
  unfolding line_loop
  faulty-fuel n cost e = ground arith

  line_loop-fuel :
      (n : ℕ) (it : LineIterator) (cost : ℕ)
      → it.numpixels + 1 < n + it.curpixel
      → 0 < n
      → line_loop d n c (some it) cost ≢ no_fuel
  line_loop-fuel zero it cost h p = absurd (omega (arith, p))
  line_loop-fuel (suc n) it cost h p = elim (Bool-cases (is_valid it)) [
    | inl v ↦ rw (loop_on n it cost v) (
        enough_lem (point_cost d c it.x it.y) _ (point_cost-fuel it.x it.y) (λ q.
          next (advance it) refl (max cost q) (λ after r worst.
            let counters = advance-counters it after r in
            let on = leb→le it.curpixel it.numpixels v in
            line_loop-fuel n after worst (omega (arith, h, counters)) (omega (arith, h, on)))))
    | inr v ↦ rw (loop_off n it cost v) (λ e. absurd (ground arith))
  ]
    where
      next :
          (o : Option LineIterator)
          → advance it ≡ o
          → (worst : ℕ)
          → ((after : LineIterator)
              → advance it ≡ some after
              → (worst : ℕ) → line_loop d n c (some after) worst ≢ no_fuel)
          → line_loop d n c (advance it) worst ≢ no_fuel
      next none q worst again = rw q (faulty-fuel n worst)
      next (some after) q worst again = rw q (again after q worst)

  -- The loop over a line always ends with a score, an exception or a fault before its fuel, two
  -- rounds more than the steps of the line, is used up.
  pub line_cost-fuel : (x0 x1 y0 y1 : ℤ) → line_cost d c x0 x1 y0 y1 ≢ no_fuel
  unfolding line_cost
  line_cost-fuel x0 x1 y0 y1 = whole (new x0 y0 x1 y1) refl
    where
      whole :
          (o : Option LineIterator)
          → new x0 y0 x1 y1 ≡ o
          → line_loop d (pixels d o + 2) c o 0 ≢ no_fuel
      whole none q = faulty-fuel 2 0
      whole (some it) q =
          let counters = new-counters x0 y0 x1 y1 it q in
          line_loop-fuel (it.numpixels + 2) it 0 (omega (arith, counters)) (omega arith)
