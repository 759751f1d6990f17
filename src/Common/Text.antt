-- ===== src/Common/Text.antt =====
-- Go strings as lists of bytes: literals, equality, and the runes that `range` reads.
use Prim.Native.Char.{code}
use Prim.Native.String.{String}
use mathlib.Core.Path.{◌≡◌, refl}
use mathlib.Core.Logic.{◌↔◌}
use mathlib.Core.Bool.{Bool, true, false, ◌&&◌}
use mathlib.Core.List.{[], ◌∷◌}
use native.Mathlib.Decide.{ℕ_discrete}
use native.Mathlib.Omega.{arith}
use open_mal_lab.Common.Tests.{◌==◌, Str}

-- The bytes of an ASCII literal.
unfoldable pub lit : String → Str
lit String.[] = []
lit (String.◌∷◌ c s) = code c ∷ lit s

unfoldable pub str_eq : Str → Str → Bool
str_eq [] [] = true
str_eq [] (b ∷ t) = false
str_eq (a ∷ s) [] = false
str_eq (a ∷ s) (b ∷ t) = a == b && str_eq s t

str_eq→ : (s t : Str) → str_eq s t ≡ true → s ≡ t
unfolding str_eq
str_eq→ [] [] h = refl
str_eq→ [] (b ∷ t) h = cc
str_eq→ (a ∷ s) [] h = cc
str_eq→ (a ∷ s) (b ∷ t) h = ground (arith, str_eq→ s t)

pub str_eq_refl : (s : Str) → str_eq s s ≡ true
unfolding str_eq
str_eq_refl [] = refl
str_eq_refl (a ∷ s) = ground (arith, str_eq_refl s)

pub str_eq_iff : (s t : Str) → (str_eq s t ≡ true) ↔ (s ≡ t)
str_eq_iff s t = (str_eq→ s t, λ e. rw e (str_eq_refl t))

-- s == "literal"
abbrev pub is_lit : Str → String → Bool
is_lit s l = str_eq s (lit l)

pub Str-discrete : Discrete Str
Str-discrete = hlevel ℕ_discrete
