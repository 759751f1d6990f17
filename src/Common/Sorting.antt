-- ===== src/Common/Sorting.antt =====
-- Sorting by a test, as Go's sort.Slice and sort.Strings.
use open_mal_lab.Common.Lists.{length, in_cons}
use Prim.Native.Nat.{◌+◌}
use mathlib.Core.Path.{◌≡◌, refl}
use mathlib.Core.Logic.{◌↔◌, ◌⊎◌, inl, inr}
use mathlib.Core.Bool.{Bool, true, false, ◌&&◌, ◌||◌}
use mathlib.Core.List.{List, [], ◌∷◌}
use mathlib.Core.List.{Memᴰ}
use open_mal_lab.Common.Tests.{ltb, ◌==◌, if◌then◌else◌, Bool-cases, Str}
use native.Mathlib.Omega.{arith}

-- Go's `<` on strings.
unfoldable pub str_lt : Str → Str → Bool
str_lt s [] = false
str_lt [] (b ∷ t) = true
str_lt (a ∷ s) (b ∷ t) = let rest = str_lt s t in ltb a b || a == b && rest

-- sort.Slice by a test; the keys that the source sorts by are distinct.
module _ {A : Type 0} (less : A → A → Bool) where
  unfoldable pub place : A → List A → List A
  place x [] = x ∷ []
  place x (y ∷ ys) = if less x y then x ∷ y ∷ ys else y ∷ place x ys

  unfoldable pub sorted : List A → List A
  unfolding place
  sorted [] = []
  sorted (x ∷ xs) = place x (sorted xs)

  pub in_place : (a x : A) (l : List A) → Memᴰ a (place x l) ↔ ((a ≡ x) ⊎ Memᴰ a l)
  unfolding place
  in_place a x [] = in_cons
  in_place a x (y ∷ l) = elim (Bool-cases (less x y)) [
    | inl e ↦ rw e in_cons
    | inr e ↦ rw e (
        ground (
          arith,
          in_place a x l,
          in_cons {a = a} {x = y} {l = place x l},
          in_cons {a = a} {x = y} {l = l},
        ))
  ]

  pub in_sorted : (a : A) (l : List A) → Memᴰ a (sorted l) ↔ Memᴰ a l
  unfolding sorted
  in_sorted a [] = (λ m. m, λ m. m)
  in_sorted a (x ∷ l) =
      ground (arith, in_place a x (sorted l), in_sorted a l, in_cons {a = a} {x = x} {l = l})

pub length-place :
    {A : Type 0} (less : A → A → Bool) (x : A) (l : List A) → length (place less x l) ≡ length l + 1
unfolding place
length-place less x [] = omega arith
length-place less x (y ∷ l) = ground (arith, length-place less x l)

pub length-sorted :
    {A : Type 0} (less : A → A → Bool) (l : List A) → length (sorted less l) ≡ length l
unfolding sorted
length-sorted less [] = refl
length-sorted less (x ∷ l) =
    omega (arith, length-place less x (sorted less l), length-sorted less l)
