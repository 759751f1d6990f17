-- ===== src/Knowledge/Similarity/Nearest.antt =====
-- internal/knowledge/similarity.go: the query of the index. A score is kept as its number of equal
-- lanes, of which the source's score is the exact quotient by 64; the bound is a float64.
pub mod Ranked
use open_mal_lab.Common.{
  ℕ, Bool, true, false, not, ◌&&◌, ◌||◌, Str, List, [], ◌∷◌, ◌==◌, ltb, if◌then◌else◌, length, take,
}
use open_mal_lab.Common.Floats.{Float64}
use open_mal_lab.Common.Sorting.{str_lt, sorted}
use open_mal_lab.Knowledge.Store.{Trust, is_curated}
use open_mal_lab.Knowledge.Similarity.{
  Signature, SimEntry, SimIndex, is_empty, similarity, sig_lanes,
}

pub record Neighbor : Type 0 where
  pub id : Str
  pub trust : Trust
  pub sim : ℕ
  pub label : Str
  pub source : Str

unfoldable pub neighbor_of : ℕ → SimEntry → Neighbor
neighbor_of s e = record { id = e.id; trust = e.trust; sim = s; label = e.label; source = e.source }

-- The order of the answer: the larger score, then the curated entry, then the smaller id.
unfoldable pub ranks_before : Neighbor → Neighbor → Bool
unfolding str_lt
ranks_before a b =
    if not (a.sim == b.sim)
    then ltb b.sim a.sim
    else if is_curated a.trust && not (is_curated b.trust)
    then true
    else if not (is_curated a.trust) && is_curated b.trust
    then false
    else str_lt a.id b.id

-- The first `limit` neighbors; `limit` 0 is no limit.
unfoldable pub cut_at : ℕ → List Neighbor → List Neighbor
cut_at limit out = if ltb 0 limit && ltb limit (length out) then take limit out else out

module _ (fl : Float64) where
  -- A bound below 0 or above 1 is taken as 0 or 1.
  unfoldable pub clamp_bound : fl.F → fl.F
  clamp_bound b =
      let low = if fl.lt b (fl.ratio 0 1) then fl.ratio 0 1 else b in
      if fl.lt (fl.ratio 1 1) low then fl.ratio 1 1 else low

  abbrev pub reaches : fl.F → ℕ → Bool
  reaches b s = fl.le b (fl.ratio s sig_lanes)

  -- The loop over the entries.
  unfoldable pub matching : fl.F → Signature → List (Str × SimEntry) → List Neighbor
  unfolding neighbor_of
  matching b sig [] = []
  matching b sig ((id, e) ∷ es) =
      let rest = matching b sig es in
      if reaches b (similarity sig e.sig) then neighbor_of (similarity sig e.sig) e ∷ rest else rest

  -- A bound that is not at most itself is NaN.
  unfoldable pub nearest : SimIndex → Signature → fl.F → ℕ → List Neighbor
  unfolding matching sorted clamp_bound cut_at
  nearest x sig b limit =
      let out = sorted ranks_before (matching (clamp_bound b) sig x.entries) in
      if is_empty sig || not (fl.le b b) then [] else cut_at limit out
