-- ===== src/Knowledge/Registry/Fuzzy.antt =====
-- internal/knowledge/registry.go: the keys that resemble a key.
pub mod Leads
pub mod Curated
use open_mal_lab.Common.{
  ℕ, ◌+◌, not, ◌&&◌, Str, List, [], ◌∷◌, none, some, ltb, leb, if◌then◌else◌, str_eq,
}
use open_mal_lab.Common.Floats.{Float64}
use open_mal_lab.Knowledge.Platform.{Platform}
use open_mal_lab.Knowledge.Keys.{normalize_key}
use open_mal_lab.Knowledge.Similarity.{Signature, SimIndex, signature_of, n_grams, is_empty}
use open_mal_lab.Knowledge.Similarity.Nearest.{Neighbor, nearest}
use open_mal_lab.Knowledge.Registry.{Registry, sim_ngram}

pub record FuzzyHit : Type 0 where
  pub kind : Str
  pub key : Str
  pub sim : ℕ

-- The loop over the neighbors, with `n` hits behind it.
unfoldable pub fuzzy_hits : Str → Str → ℕ → ℕ → List Neighbor → List FuzzyHit
fuzzy_hits kind norm limit n [] = []
fuzzy_hits kind norm limit n (x ∷ xs) =
    let hit : FuzzyHit = record { kind = kind; key = x.label; sim = x.sim } in
    let found = str_eq x.source kind && not (str_eq x.label norm) in
    let rest = fuzzy_hits kind norm limit (if found then n + 1 else n) xs in
    if not found then rest else if ltb 0 limit && leb limit (n + 1) then hit ∷ [] else hit ∷ rest

module _ (fl : Float64) where
  unfoldable pub fuzzy_keys_of : SimIndex → Str → Str → Signature → fl.F → ℕ → List FuzzyHit
  unfolding fuzzy_hits
  fuzzy_keys_of x kind norm sig b limit =
      if is_empty sig then [] else fuzzy_hits kind norm limit 0 (nearest fl x sig b 0)

  unfoldable pub fuzzy_keys : Platform → Registry → Str → Str → fl.F → ℕ → List FuzzyHit
  unfolding fuzzy_keys_of
  fuzzy_keys go r kind key b limit = elim r.sim [
    | none ↦ []
    | some x ↦
        let norm = normalize_key go kind key in
        fuzzy_keys_of x kind norm (signature_of go (n_grams norm sim_ngram)) b limit
  ]
