-- ===== src/Orchestrator/Crumb/Laws.antt =====
-- services/mal-orchestrator/workflow.go: the bytes of a breadcrumb, its length, and where its
-- cut falls.
use mathlib.Core.List.{reverse, reverse-append, reverse-reverse, reverse-cons}
use open_mal_lab.Common.{
  ℕ, zero, suc, ◌+◌, ◌-◌, ◌≤◌, ◌≡◌, ◌≢◌, refl, ap, ◌⊎◌, inl, inr, true, false, Str, List, [], ◌∷◌,
  ◌++◌, map, arith, leb, length, take, All, All-append, All-reverse, All-take, length-append,
  length-reverse, length-take-le, append_assoc, lit, Bool-cases,
}
use open_mal_lab.Common.Utf8.{
  bad, runes, encode, encode_rune, rune_start, is_cont, decode_rune, valid_from, valid_string,
}
use open_mal_lab.Orchestrator.Crumb.{
  mask, map_runes, trim_back, clamp_bytes, crumb, max_crumb_segment, max_crumb_path,
}

-- A byte that is no C0 control and not DEL.
abbrev pub IsPrintable : ℕ → Type 0
IsPrintable b = (32 ≤ b) × (b ≢ 127)

encode_mask : (r : ℕ) → All IsPrintable (encode_rune (mask r))
unfolding encode_rune
encode_mask r = ground arith

map_runes_mask : (rs : List ℕ) → All IsPrintable (encode (map mask rs))
unfolding encode
map_runes_mask [] = tt
map_runes_mask (r ∷ rs) =
    All-append IsPrintable (encode_rune (mask r)) _ (encode_mask r) (map_runes_mask rs)

trim_back-IsPrintable : (s : Str) → All IsPrintable s → All IsPrintable (trim_back s)
unfolding trim_back
trim_back-IsPrintable [] h = tt
trim_back-IsPrintable (b ∷ s) h = ground (arith, trim_back-IsPrintable s h.1)

clamp_bytes-IsPrintable : (s : Str) (n : ℕ) → All IsPrintable s → All IsPrintable (clamp_bytes s n)
unfolding clamp_bytes lit
clamp_bytes-IsPrintable s n h = elim (Bool-cases (leb (length s) n)) [
  | inl e ↦ rw e h
  | inr e ↦ rw e (
      All-append IsPrintable (reverse (trim_back (reverse (take n s)))) _
        (All-reverse IsPrintable _
          (trim_back-IsPrintable _ (All-reverse IsPrintable _ (All-take IsPrintable n s h))))
        (omega arith))
]

length-trim_back : (s : Str) → length (trim_back s) ≤ length s
unfolding trim_back
length-trim_back [] = omega arith
length-trim_back (b ∷ s) = ground (arith, length-trim_back s)

length-clamp_bytes : (s : Str) (n : ℕ) → length (clamp_bytes s n) ≤ n + 1
unfolding clamp_bytes lit
length-clamp_bytes s n = elim (Bool-cases (leb (length s) n)) [
  | inl e ↦ rw e (ground arith)
  | inr e ↦ rw e (
      omega (
        arith,
        length-append {0} (reverse (trim_back (reverse (take n s)))) (126 ∷ []),
        length-reverse {0} (trim_back (reverse (take n s))),
        length-trim_back (reverse (take n s)),
        length-reverse {0} (take n s),
        length-take-le {0} n s,
      ))
]

-- Below a printable parent, whatever bytes a hostile archive uses for a child's name, the
-- breadcrumb holds no control character below 0x20 and no DEL, and has at most 1025 bytes.
pub crumb_safe :
    (parent name : Str)
    → All IsPrintable parent
    → All IsPrintable (crumb parent name) × (length (crumb parent name) ≤ max_crumb_path + 1)
unfolding crumb map_runes lit
crumb_safe [] name h = (
  clamp_bytes-IsPrintable _ max_crumb_segment (map_runes_mask (runes name)),
  omega (arith, length-clamp_bytes (encode (map mask (runes name))) max_crumb_segment),
)
crumb_safe (b ∷ parent) name h =
    let segment = clamp_bytes (encode (map mask (runes name))) max_crumb_segment in
    let printable =
      All-append IsPrintable ((b ∷ parent) ++ b'!' ∷ []) segment
        (All-append IsPrintable (b ∷ parent) (b'!' ∷ []) h (omega arith))
        (clamp_bytes-IsPrintable _ max_crumb_segment (map_runes_mask (runes name))) in
    (
      clamp_bytes-IsPrintable ((b ∷ parent) ++ b'!' ∷ [] ++ segment) max_crumb_path printable,
      length-clamp_bytes ((b ∷ parent) ++ b'!' ∷ [] ++ segment) max_crumb_path,
    )

-- A sequence that is cut before a lead byte is read to its end there, or not at all.
decode-width :
    (a l : ℕ) (p : Str)
    → 0xC0 ≤ l
    → (decode_rune a (p ++ l ∷ 126 ∷ []) ≡ bad)
      ⊎ ((decode_rune a (p ++ l ∷ 126 ∷ [])).1 - 1 ≤ length p)
unfolding decode_rune
decode-width a l [] h = ground arith
decode-width a l (b ∷ []) h = ground arith
decode-width a l (b ∷ c ∷ []) h = ground arith
decode-width a l (b ∷ c ∷ d ∷ p) h = ground arith

not_valid : (k l : ℕ) (p : Str) → 0xC0 ≤ l → k ≤ length p → valid_from k (p ++ l ∷ 126 ∷ []) ≡ false
unfolding valid_from
not_valid (suc k) l [] h n = absurd (omega arith)
not_valid zero l [] h n = unfold decode_rune in ground arith
not_valid (suc k) l (a ∷ p) h n = not_valid k l p h (omega arith)
not_valid zero l (a ∷ p) h n = elim (decode-width a l p h) [
  | inl e ↦ rw e
  | inr w ↦ ground (arith, not_valid ((decode_rune a (p ++ l ∷ 126 ∷ [])).1 - 1) l p h w)
]

take-length : (p rest : Str) → take (length p) (p ++ rest) ≡ p
take-length [] [] = refl
take-length [] (b ∷ rest) = refl
take-length (a ∷ p) rest = ap (λ s. a ∷ s) (take-length p rest)

starts : (l : ℕ) → 0xC0 ≤ l → rune_start l ≡ true
starts l h = ground arith

-- The loop drops the continuation bytes at the end and keeps the byte before them.
trim_back-append :
    (conts q : Str) (l : ℕ)
    → All (λ c. is_cont c ≡ true) conts
    → rune_start l ≡ true
    → trim_back (conts ++ l ∷ q) ≡ l ∷ q
unfolding trim_back
trim_back-append [] q l h k = rw k
trim_back-append (c ∷ conts) q l h k = ground (arith, trim_back-append conts q l h.1 k)

clamp_bytes_cut :
    (p conts s : Str) (l n : ℕ)
    → 0xC0 ≤ l
    → All (λ c. is_cont c ≡ true) conts
    → leb (length s) n ≡ false
    → take n s ≡ p ++ l ∷ conts
    → clamp_bytes s n ≡ p ++ l ∷ b'~' ∷ []
unfolding clamp_bytes lit
clamp_bytes_cut p conts s l n h c over fits = rw (
  over,
  fits,
  reverse-append,
  reverse-cons,
  append_assoc,
  trim_back-append (reverse conts) (reverse p) l (All-reverse _ conts c) (starts l h),
  reverse-cons,
  reverse-reverse,
  append_assoc,
)

-- `clampBytes` is meant to cut on a rune boundary. Whenever the bytes that fit end with a byte of
-- 0xC0 or above and any number of continuation bytes, a sequence that is complete or not, the loop
-- drops the continuation bytes and keeps the byte that begins the sequence alone before the marker:
-- the result is not valid UTF-8.
pub clamp_bytes_cuts_rune :
    (p conts rest : Str) (l n : ℕ)
    → 0xC0 ≤ l
    → All (λ c. is_cont c ≡ true) conts
    → rest ≢ []
    → length (p ++ l ∷ conts) ≡ n
    → (clamp_bytes ((p ++ l ∷ conts) ++ rest) n ≡ p ++ l ∷ b'~' ∷ [])
      × (valid_string (clamp_bytes ((p ++ l ∷ conts) ++ rest) n) ≡ false)
unfolding valid_string
clamp_bytes_cuts_rune p conts [] l n h c k e = absurd (k refl)
clamp_bytes_cuts_rune p conts (b ∷ rest) l n h c k e =
    (cut, rw cut (not_valid 0 l p h (omega arith)))
  where
    over : leb (length ((p ++ l ∷ conts) ++ b ∷ rest)) n ≡ false
    over = ground (arith, length-append {0} (p ++ l ∷ conts) (b ∷ rest))

    cut : clamp_bytes ((p ++ l ∷ conts) ++ b ∷ rest) n ≡ p ++ l ∷ b'~' ∷ []
    cut =
        clamp_bytes_cut p conts ((p ++ l ∷ conts) ++ b ∷ rest) l n h c over
          (rw (← e) (take-length (p ++ l ∷ conts) (b ∷ rest)))
