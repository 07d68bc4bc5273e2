-- ===== src/Critics/Oscillation/Trend.antt =====
-- One trend: the flags against the history of commands.
use navigation_learning.Prelude.{◌≡◌, true, false, arith}
use navigation_learning.Critics.Oscillation.{
  Scalars, sign_positive, sign_negative, CommandTrend, update, is_oscillating,
}

-- What the source relies on: a number is not on both sides of zero.
pub record SignLaws {D : Type 0} (d : Scalars D) : Type 0 where
  pub one_side : (v : D) → d.lt v d.zero_D ≡ true → d.lt d.zero_D v ≡ false

-- The flags agree with the sign.
abbrev pub IsConsistent : CommandTrend → Type 0
IsConsistent t =
    (t.positive_only ≡ true → t.sign ≡ sign_positive)
    × (t.negative_only ≡ true → t.sign ≡ sign_negative)

module _ {D : Type 0} (d : Scalars D) (laws : SignLaws d) where
  -- A command that the trend does not call oscillating keeps the flags consistent.
  pub update-IsConsistent :
      (t : CommandTrend) (v : D)
      → IsConsistent t
      → is_oscillating d t v ≡ false
      → IsConsistent ((update d t v).0)
  unfolding update is_oscillating
  update-IsConsistent t v c free = ground (arith, laws.one_side v)

  -- The same velocity is not oscillating after it.
  pub update-repeat :
      (t : CommandTrend) (v : D)
      → IsConsistent t
      → is_oscillating d t v ≡ false
      → is_oscillating d ((update d t v).0) v ≡ false
  unfolding update is_oscillating
  update-repeat t v c free = ground (arith, laws.one_side v)

  -- The flag is set exactly when the sign flips, and then the old direction is closed.
  pub update-flips :
      (t : CommandTrend) (v w : D)
      → (update d t v).1 ≡ true
      → d.lt v d.zero_D ≡ d.lt d.zero_D w
      → d.lt d.zero_D v ≡ d.lt w d.zero_D
      → is_oscillating d ((update d t v).0) w ≡ true
  unfolding update is_oscillating
  update-flips t v w flag e1 e2 = ground (arith, laws.one_side v, laws.one_side w)
