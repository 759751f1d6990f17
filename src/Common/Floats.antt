-- ===== src/Common/Floats.antt =====
-- Go's float64, as far as the program uses it. The type and its operations are the parameter
-- `Float64`; what a proof relies on is named in `IsRounded`.
use Prim.Native.Nat.{ℕ, ◌*◌, ◌^◌, ◌≤◌, ◌<◌}
use mathlib.Core.Path.{◌≡◌}
use mathlib.Core.Bool.{Bool, true, not}

-- `le` and `lt` are Go's `<=` and `<`; `ratio n d` is `float64(n) / float64(d)`. A literal such as
-- 0.9 is the float64 nearest to 9/10, which is what the division 9/10 rounds to.
pub record Float64 : Type 1 where
  pub F : Type 0
  pub le : F → F → Bool
  pub lt : F → F → Bool
  pub ratio : ℕ → ℕ → F

-- The integers that float64 holds exactly.
abbrev pub exact_bound : ℕ
exact_bound = 2 ^ 53

-- IEEE 754 of division and comparison. Both operands of a quotient are held exactly; the division
-- rounds to the nearest float64, which is monotone, so a quotient that is no smaller reaches every
-- bound that the smaller one reaches. And of two numbers, neither of which is NaN, one is below the
-- other exactly if that one is not at most it; NaN is not at most itself.
pub record IsRounded (fl : Float64) : Type 1 where
  pub reach_mono :
      (x : fl.F) (a b c d : ℕ)
      → 0 < b
      → 0 < d
      → a ≤ exact_bound
      → b ≤ exact_bound
      → c ≤ exact_bound
      → d ≤ exact_bound
      → a * d ≤ c * b
      → fl.le x (fl.ratio a b) ≡ true
      → fl.le x (fl.ratio c d) ≡ true
  pub lt_not_le :
      (x : fl.F) (a b : ℕ)
      → fl.le x x ≡ true
      → 0 < b
      → a ≤ exact_bound
      → b ≤ exact_bound
      → fl.lt (fl.ratio a b) x ≡ not (fl.le x (fl.ratio a b))
