-- ===== src/Pipeline/Score/Sorting.antt =====
-- internal/pipeline/types.go: `sortDesc` against insertion from the front.
use mathlib.Core.List.{reverse, reverse-cons}
use open_mal_lab.Common.{
  ℕ, ◌≤◌, ◌≡◌, refl, sym, ap, ◌∙◌, true, List, [], ◌∷◌, ◌++◌, arith, ltb, if◌then◌else◌, All,
  All-append, Bool-cases, inl, inr,
}
use open_mal_lab.Pipeline.Score.{sink, sort_loop, sort_desc}

-- Insertion into a descending list, from its front.
unfoldable pub put : ℕ → List ℕ → List ℕ
put x [] = x ∷ []
put x (p ∷ ps) = if ltb p x then x ∷ p ∷ ps else p ∷ put x ps

unfoldable pub isort : List ℕ → List ℕ
unfolding put
isort [] = []
isort (x ∷ xs) = put x (isort xs)

-- Each element is at most the first of an ascending list, and so on.
abbrev IsAsc : List ℕ → Type 0
IsAsc [] = Unit
IsAsc (x ∷ xs) = All (λ y. x ≤ y) xs × IsAsc xs

abbrev pub IsDesc : List ℕ → Type 0
IsDesc [] = Unit
IsDesc (x ∷ xs) = All (λ y. y ≤ x) xs × IsDesc xs

All-sink : (x y : ℕ) (l : List ℕ) → y ≤ x → All (λ z. y ≤ z) l → All (λ z. y ≤ z) (sink x l)
unfolding sink
All-sink x y [] h a = (h, tt)
All-sink x y (p ∷ ps) h a = ground (arith, All-sink x y ps)

All-le_trans : (x y : ℕ) (l : List ℕ) → x ≤ y → All (λ z. y ≤ z) l → All (λ z. x ≤ z) l
All-le_trans x y [] h a = tt
All-le_trans x y (p ∷ ps) h a = (omega arith, All-le_trans x y ps h a.1)

sink-IsAsc : (x : ℕ) (l : List ℕ) → IsAsc l → IsAsc (sink x l)
unfolding sink
sink-IsAsc x [] h = (tt, tt)
sink-IsAsc x (p ∷ ps) h = elim (Bool-cases (ltb p x)) [
  | inl e ↦ rw e (All-sink x p ps (ground arith) h.0, sink-IsAsc x ps h.1)
  | inr e ↦ rw e ((ground arith, All-le_trans x p ps (ground arith) h.0), h)
]

put-append_last : (x p : ℕ) (l : List ℕ) → ltb p x ≡ true → put x (l ++ p ∷ []) ≡ put x l ++ p ∷ []
unfolding put
put-append_last x p [] h = rw h
put-append_last x p (q ∷ l) h = ground (arith, put-append_last x p l h)

put_last : (x : ℕ) (l : List ℕ) → All (λ y. x ≤ y) l → put x l ≡ l ++ x ∷ []
unfolding put
put_last x [] h = refl
put_last x (p ∷ l) h = ground (arith, put_last x l h.1)

All-reverse : (x : ℕ) (l : List ℕ) → All (λ y. x ≤ y) l → All (λ y. x ≤ y) (reverse l)
All-reverse x [] h = tt
All-reverse x (p ∷ l) h =
    rw reverse-cons (All-append (λ y. x ≤ y) (reverse l) (p ∷ []) (All-reverse x l h.1) (h.0, tt))

-- One round of the program's insertion sort.
reverse-sink : (x : ℕ) (l : List ℕ) → IsAsc l → reverse (sink x l) ≡ put x (reverse l)
unfolding sink
reverse-sink x [] h = unfold put in refl
reverse-sink x (p ∷ ps) h = elim (Bool-cases (ltb p x)) [
  | inl e ↦
      rw (e, reverse-cons, reverse-cons, put-append_last x p (reverse ps) e, reverse-sink x ps h.1)
  | inr e ↦
      rw (e, reverse-cons)
        (sym (
          put_last x (reverse (p ∷ ps))
            (All-reverse x (p ∷ ps) (ground arith, All-le_trans x p ps (ground arith) h.0))))
]

pub put_comm : (x y : ℕ) (l : List ℕ) → put x (put y l) ≡ put y (put x l)
unfolding put
put_comm x y [] = ground arith
put_comm x y (p ∷ l) = ground (arith, put_comm x y l)

fold_put : List ℕ → List ℕ → List ℕ
fold_put l [] = l
fold_put l (x ∷ xs) = fold_put (put x l) xs

fold_put-put : (x : ℕ) (l xs : List ℕ) → fold_put (put x l) xs ≡ put x (fold_put l xs)
unfolding fold_put
fold_put-put x l [] = refl
fold_put-put x l (y ∷ xs) = rw (put_comm y x l) (fold_put-put x (put y l) xs)

fold_put-eq-isort : (xs : List ℕ) → fold_put [] xs ≡ isort xs
unfolding fold_put isort
fold_put-eq-isort [] = refl
fold_put-eq-isort (x ∷ xs) = fold_put-put x [] xs ∙ ap (put x) (fold_put-eq-isort xs)

reverse-sort_loop :
    (sorted xs : List ℕ)
    → IsAsc sorted
    → reverse (sort_loop sorted xs) ≡ fold_put (reverse sorted) xs
unfolding sort_loop fold_put
reverse-sort_loop sorted [] h = refl
reverse-sort_loop sorted (x ∷ xs) h =
    reverse-sort_loop (sink x sorted) xs (sink-IsAsc x sorted h)
    ∙ ap (λ l. fold_put l xs) (reverse-sink x sorted h)

-- The in-place sort of the program is insertion sort.
pub sort_desc-eq-isort : (xs : List ℕ) → sort_desc xs ≡ isort xs
unfolding sort_desc
sort_desc-eq-isort xs = reverse-sort_loop [] xs tt ∙ fold_put-eq-isort xs

All-put : (x y : ℕ) (l : List ℕ) → x ≤ y → All (λ z. z ≤ y) l → All (λ z. z ≤ y) (put x l)
unfolding put
All-put x y [] h a = (h, tt)
All-put x y (p ∷ ps) h a = ground (arith, All-put x y ps)

All-ge_trans : (x y : ℕ) (l : List ℕ) → y ≤ x → All (λ z. z ≤ y) l → All (λ z. z ≤ x) l
All-ge_trans x y [] h a = tt
All-ge_trans x y (p ∷ ps) h a = (omega arith, All-ge_trans x y ps h a.1)

put-IsDesc : (x : ℕ) (l : List ℕ) → IsDesc l → IsDesc (put x l)
unfolding put
put-IsDesc x [] h = (tt, tt)
put-IsDesc x (p ∷ ps) h = elim (Bool-cases (ltb p x)) [
  | inl e ↦ rw e ((ground arith, All-ge_trans x p ps (ground arith) h.0), h)
  | inr e ↦ rw e (All-put x p ps (ground arith) h.0, put-IsDesc x ps h.1)
]

pub isort-IsDesc : (xs : List ℕ) → IsDesc (isort xs)
unfolding isort
isort-IsDesc [] = tt
isort-IsDesc (x ∷ xs) = put-IsDesc x (isort xs) (isort-IsDesc xs)
