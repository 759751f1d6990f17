-- ===== src/Knowledge/Similarity/Nearest/Ranked.antt =====
-- internal/knowledge/similarity.go: which entries are the neighbors of a signature.
use mathlib.Core.List.{Memᴰ}
use mathlib.Core.List.Memᴰ
use open_mal_lab.Common.{
  ℕ, ◌≤◌, ◌<◌, ◌≡◌, refl, sym, ◌↔◌, inl, inr, Bool, true, false, not, ◌||◌, Str, List, [], ◌∷◌,
  arith, ltb, if◌then◌else◌, length, take, Bool-cases, in_cons, take_all, length-take-le, lt→ltb,
}
use open_mal_lab.Common.Floats.{Float64}
use open_mal_lab.Common.Sorting.{sorted, in_sorted}
use open_mal_lab.Knowledge.Similarity.{Signature, SimEntry, SimIndex, is_empty, similarity}
use open_mal_lab.Knowledge.Similarity.Nearest.{
  Neighbor, neighbor_of, ranks_before, clamp_bound, cut_at, reaches, matching, nearest,
}

module _ (fl : Float64) (sig : Signature) where
  -- The neighbor is that of an entry whose score reaches the bound.
  abbrev pub IsNear : fl.F → List (Str × SimEntry) → Neighbor → Type 0
  IsNear b es n =
      (p : Str × SimEntry) × Memᴰ p es
      × (reaches fl b (similarity sig p.1.sig) ≡ true)
      × (n ≡ neighbor_of (similarity sig p.1.sig) p.1)

  IsNear-tail :
      (b : fl.F) (q : Str × SimEntry) (es : List (Str × SimEntry)) (n : Neighbor)
      → IsNear b es n
      → IsNear b (q ∷ es) n
  IsNear-tail b q es n (p, m, r, e) = (p, Memᴰ.tail m, r, e)

  matching-IsNear :
      (b : fl.F) (n : Neighbor) (es : List (Str × SimEntry))
      → Memᴰ n (matching fl b sig es)
      → IsNear b es n
  unfolding matching
  matching-IsNear b n [] m = absurd (Memᴰ.not-nil m)
  matching-IsNear b n (q ∷ es) m = elim (Bool-cases (reaches fl b (similarity sig q.1.sig))) [
    | inl near ↦ elim (in_cons.0 (rw near at m)) [
      | inl e ↦ (q, Memᴰ.head refl, near, e)
      | inr t ↦ IsNear-tail b q es n (matching-IsNear b n es t)
    ]
    | inr far ↦ IsNear-tail b q es n (matching-IsNear b n es (rw far at m))
  ]

  in_matching :
      (b : fl.F) (n : Neighbor) (es : List (Str × SimEntry))
      → IsNear b es n
      → Memᴰ n (matching fl b sig es)
  unfolding matching
  in_matching b n [] (p, m, r, e) = absurd (Memᴰ.not-nil m)
  in_matching b n (q ∷ es) (p, m, r, e) = elim (in_cons.0 m) [
    | inl same ↦ rw (sym same, r) (Memᴰ.head e)
    | inr t ↦ by_score (reaches fl b (similarity sig q.1.sig)) (in_matching b n es (p, t, r, e))
  ]
    where
      by_score :
          (c : Bool)
          → Memᴰ n (matching fl b sig es)
          → Memᴰ n (
              if c
              then neighbor_of (similarity sig q.1.sig) q.1 ∷ matching fl b sig es
              else matching fl b sig es)
      by_score true k = Memᴰ.tail k
      by_score false k = k

cut_at_lem :
    (limit : ℕ) (out : List Neighbor)
    → 0 < limit
    → (cut_at limit out ≡ take limit out) × (length (cut_at limit out) ≤ limit)
unfolding cut_at
cut_at_lem limit out h = elim (Bool-cases (ltb limit (length out))) [
  | inl long ↦ rw (lt→ltb 0 limit h, long) (refl, length-take-le limit out)
  | inr short ↦
      let fits : length out ≤ limit = ground arith in
      rw (lt→ltb 0 limit h, short) (sym (take_all limit out fits), fits)
]

guarded_lem :
    (stop : Bool) (out : List Neighbor)
    → ((n : Neighbor) → Memᴰ n (if stop then [] else cut_at 0 out) ↔ ((stop ≡ false) × Memᴰ n out))
      × ((limit : ℕ)
          → 0 < limit
          → ((if stop then [] else cut_at limit out)
              ≡ take limit (if stop then [] else cut_at 0 out))
            × (length (if stop then [] else cut_at limit out) ≤ limit))
unfolding cut_at
guarded_lem true out = (
  λ n. (λ m. absurd (Memᴰ.not-nil m), λ h. absurd (ground (arith, h.0))),
  λ limit h. (sym (take_all limit [] (omega arith)), omega arith),
)
guarded_lem false out = (λ n. (λ m. (refl, m), λ h. h.1), λ limit h. cut_at_lem limit out h)

-- A query without a limit returns a neighbor exactly if the signature is not empty, the bound is not NaN, and the neighbor is that of an entry of the index
-- whose score reaches the clamped bound. A query with a limit returns the first neighbors of that one, at most as many as the limit.
pub nearest_iff :
    (fl : Float64) (x : SimIndex) (sig : Signature) (b : fl.F)
    → ((n : Neighbor)
        → Memᴰ n (nearest fl x sig b 0) ↔ (
            (is_empty sig ≡ false)
            × (fl.le b b ≡ true)
            × IsNear fl sig (clamp_bound fl b) x.entries n))
      × ((limit : ℕ)
          → 0 < limit
          → (nearest fl x sig b limit ≡ take limit (nearest fl x sig b 0))
            × (length (nearest fl x sig b limit) ≤ limit))
unfolding nearest
nearest_iff fl x sig b =
    let found = matching fl (clamp_bound fl b) sig x.entries in
    let both = guarded_lem (is_empty sig || not (fl.le b b)) (sorted ranks_before found) in
    (
      λ n. (
        λ m.
            let h = (both.0 n).0 m in
            (
              ground (arith, h.0),
              ground (arith, h.0),
              matching-IsNear fl sig (clamp_bound fl b) n x.entries
                  ((in_sorted ranks_before n found).0 h.1),
            ),
        λ h. (both.0 n).1 (
          rw (h.0, h.1) refl,
          (in_sorted ranks_before n found).1
              (in_matching fl sig (clamp_bound fl b) n x.entries h.2),
        ),
      ),
      both.1,
    )
