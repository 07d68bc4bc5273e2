-- ===== src/Critics/LineIterator/Tests.antt =====
-- Tests and examples of the line iterator.
use navigation_learning.Prelude.{◌≡◌, refl, none, arith}
use navigation_learning.Prelude.Int.{pos, negsuc, ◌+ℤ◌, ◌-ℤ◌}
use navigation_learning.Critics.LineIterator.{new, advance, advances}
use navigation_learning.Critics.LineIterator.Range.{Reached, advances-OnLine}

-- The first step of this line overflows the numerator.
overflow-test : advances 1 (new (pos 0) (pos 0) (pos 2147483647) (pos 2147483647)) ≡ none
unfolding new advance advances ◌+ℤ◌ ◌-ℤ◌
overflow-test = refl

advances-OnLine_example :
    Reached
      (pos 1)
      (pos 2)
      (negsuc 2)
      (pos 4)
      3
      (advances 3 (new (pos 1) (pos 2) (negsuc 2) (pos 4)))
unfolding ◌+ℤ◌ ◌-ℤ◌
advances-OnLine_example =
    advances-OnLine (pos 1) (pos 2) (negsuc 2) (pos 4) 3
      (record {
        x0_fits = omega arith;
        y0_fits = omega arith;
        x1_fits = omega arith;
        y1_fits = omega arith;
        distances = omega arith;
      })
      (omega arith)
