-- ===== src/Tests/Floats.antt =====
-- Two kinds of fractions as the float64 of the tests, one that is exact and one that rounds.
use native.Mathlib.Nat.{
  le-div_iff_mul-le, le_of_mul-le-mul_right, mul-le-mul_right, mul_right_comm, le_trans,
}
use open_mal_lab.Common.{
  ℕ, ◌*◌, ◌/◌, ◌^◌, ◌≤◌, ◌<◌, ◌≡◌, arith, Bool, true, false, not, Option, none, some, ltb, ◌==◌,
  if◌then◌else◌, leb, leb→le, le→leb,
}
use open_mal_lab.Common.Floats.{Float64, IsRounded}

abbrev at_most : ℕ × ℕ → ℕ × ℕ → Bool
at_most (a, b) (c, d) = leb (a * d) (c * b)

abbrev pub fractions : Float64
fractions = record { F = ℕ × ℕ; le = at_most; lt = λ x y. not (at_most y x); ratio = λ n d. (n, d) }

-- A float64 of 53 fractional bits: NaN, which is `none`, and quotients that are cut to these bits.
abbrev cut : ℕ → ℕ → Option ℕ
cut n d = if d == 0 then none else some (n * 2 ^ 53 / d)

abbrev cut_le : Option ℕ → Option ℕ → Bool
cut_le (some v) (some w) = leb v w
cut_le _ _ = false

abbrev cut_lt : Option ℕ → Option ℕ → Bool
cut_lt (some v) (some w) = ltb v w
cut_lt _ _ = false

abbrev pub cut_fractions : Float64
cut_fractions = record { F = Option ℕ; le = cut_le; lt = cut_lt; ratio = cut }

cut_positive : (n d : ℕ) → 0 < d → cut n d ≡ some (n * 2 ^ 53 / d)
cut_positive n d h = ground arith

reach : (v k a b c d : ℕ) → 0 < b → 0 < d → a * d ≤ c * b → v ≤ a * k / b → v ≤ c * k / d
reach v k a b c d hb hd h l = (le-div_iff_mul-le hd).1 (
    le_of_mul-le-mul_right
      (rw (mul_right_comm v d b, mul_right_comm c k b)
        (le_trans (mul-le-mul_right d ((le-div_iff_mul-le hb).0 l))
          (rw (mul_right_comm a k d) (mul-le-mul_right k h))))
      hb)

pub cut_fractions-IsRounded : IsRounded cut_fractions
cut_fractions-IsRounded = record {
  reach_mono = λ x a b c d hb hd _ _ _ _ k l. by_bound x a b c d hb hd k l;
  lt_not_le = λ x a b real hb _ _. by_number x a b hb real;
}
  where
    by_bound :
        (x : Option ℕ) (a b c d : ℕ)
        → 0 < b
        → 0 < d
        → a * d ≤ c * b
        → cut_le x (cut a b) ≡ true
        → cut_le x (cut c d) ≡ true
    by_bound none a b c d hb hd k l = cc
    by_bound (some v) a b c d hb hd k l =
        rw (cut_positive c d hd) (
          le→leb _ _
            (reach v (2 ^ 53) a b c d hb hd k (leb→le _ _ (rw (cut_positive a b hb) at l))))

    by_number :
        (x : Option ℕ) (a b : ℕ)
        → 0 < b
        → cut_le x x ≡ true
        → cut_lt (cut a b) x ≡ not (cut_le x (cut a b))
    by_number none a b hb real = cc
    by_number (some v) a b hb real = rw (cut_positive a b hb) (ground arith)
