-- ===== src/Common/Utf8.antt =====
-- Go's UTF-8: the runes that `range` reads from a string, with U+FFFD for each byte that starts no
-- valid sequence, and the encoding of a rune.
use Prim.Native.Nat.{ℕ, zero, suc, ◌+◌, ◌-◌, ◌*◌, ◌/◌, ◌%◌}
use mathlib.Core.Bool.{Bool, true, false, not, ◌&&◌, ◌||◌}
use mathlib.Core.List.{List, [], ◌∷◌, ◌++◌}
use open_mal_lab.Common.Tests.{◌==◌, ltb, leb, Str, if◌then◌else◌}
use open_mal_lab.Common.Lists.{any}

abbrev pub within : ℕ → ℕ → ℕ → Bool
within lo hi b = leb lo b && leb b hi

-- A continuation byte.
abbrev pub is_cont : ℕ → Bool
is_cont b = within 0x80 0xBF b

-- utf8.RuneStart
abbrev pub rune_start : ℕ → Bool
rune_start b = not (is_cont b)

-- utf8.RuneError, read with width 1
abbrev pub bad : ℕ × ℕ
bad = (0xFFFD, 1)

decode_two : ℕ → Str → ℕ × ℕ
decode_two a [] = bad
decode_two a (b ∷ s) = if is_cont b then ((a - 0xC0) * 64 + (b - 0x80), 2) else bad

-- The range of the second byte of a sequence of three bytes that begins with `a`.
second_of_three : ℕ → ℕ → Bool
second_of_three a b =
    if a == 0xE0 then within 0xA0 0xBF b else if a == 0xED then within 0x80 0x9F b else is_cont b

decode_three : ℕ → Str → ℕ × ℕ
unfolding second_of_three
decode_three a [] = bad
decode_three a (b ∷ []) = bad
decode_three a (b ∷ c ∷ s) =
    if second_of_three a b && is_cont c
    then ((a - 0xE0) * 4096 + (b - 0x80) * 64 + (c - 0x80), 3)
    else bad

second_of_four : ℕ → ℕ → Bool
second_of_four a b =
    if a == 0xF0 then within 0x90 0xBF b else if a == 0xF4 then within 0x80 0x8F b else is_cont b

decode_four : ℕ → Str → ℕ × ℕ
unfolding second_of_four
decode_four a [] = bad
decode_four a (b ∷ []) = bad
decode_four a (b ∷ c ∷ []) = bad
decode_four a (b ∷ c ∷ d ∷ s) =
    if second_of_four a b && is_cont c && is_cont d
    then ((a - 0xF0) * 262144 + (b - 0x80) * 4096 + (c - 0x80) * 64 + (d - 0x80), 4)
    else bad

-- utf8.DecodeRuneInString of `a ∷ s`: the rune and its width.
unfoldable pub decode_rune : ℕ → Str → ℕ × ℕ
unfolding decode_two decode_three decode_four
decode_rune a s =
    if ltb a 0x80
    then (a, 1)
    else if within 0xC2 0xDF a
    then decode_two a s
    else if within 0xE0 0xEF a
    then decode_three a s
    else if within 0xF0 0xF4 a
    then decode_four a s
    else bad

-- `for _, r := range s`; `skip` counts the bytes of the last rune that are still to be passed.
unfoldable pub runes_from : ℕ → Str → List ℕ
unfolding decode_rune
runes_from skip [] = []
runes_from (suc skip) (a ∷ s) = runes_from skip s
runes_from zero (a ∷ s) = let (r, width) = decode_rune a s in r ∷ runes_from (width - 1) s

unfoldable pub runes : Str → List ℕ
unfolding runes_from
runes = runes_from 0

-- utf8.AppendRune, for a rune that is no surrogate
unfoldable pub encode_rune : ℕ → Str
encode_rune r =
    if ltb r 0x80
    then r ∷ []
    else if ltb r 0x800
    then (0xC0 + r / 64) ∷ (0x80 + r % 64) ∷ []
    else if ltb r 0x10000
    then (0xE0 + r / 4096) ∷ (0x80 + r / 64 % 64) ∷ (0x80 + r % 64) ∷ []
    else (0xF0 + r / 262144) ∷ (0x80 + r / 4096 % 64) ∷ (0x80 + r / 64 % 64) ∷ (0x80 + r % 64) ∷ []

unfoldable pub encode : List ℕ → Str
unfolding encode_rune
encode [] = []
encode (r ∷ rs) = encode_rune r ++ encode rs

-- utf8.ValidString: no byte is read as U+FFFD with width 1.
unfoldable pub valid_from : ℕ → Str → Bool
unfolding decode_rune
valid_from skip [] = true
valid_from (suc skip) (a ∷ s) = valid_from skip s
valid_from zero (a ∷ s) =
    let (r, width) = decode_rune a s in
    let rest = valid_from (width - 1) s in if r == 0xFFFD && width == 1 then false else rest

unfoldable pub valid_string : Str → Bool
unfolding valid_from
valid_string = valid_from 0

-- A control rune: below a space, DEL, or the range after it.
abbrev pub is_control : ℕ → Bool
is_control r = ltb r 0x20 || r == 0x7F || within 0x80 0x9F r

-- hasControl of internal/knowledge/registry.go, hasControlChars of internal/aiplane/contract.go
unfoldable pub has_control : Str → Bool
unfolding runes
has_control s = any is_control (runes s)
