-- ===== src/Tests/Knowledge.antt =====
-- The theorems on the knowledge registry, at a registry of one fact.
use mathlib.Core.List.{Memᴰ}
use open_mal_lab.Common.{
  ℕ, ◌≤◌, ◌<◌, ◌↔◌, false, take, length, All, ◌≡◌, refl, ◌⊎◌, true, List, [], ◌∷◌, none, some, lit,
  str_eq,
}
use open_mal_lab.Common.Assoc.{lookup}
use open_mal_lab.Common.Utf8.{has_control}
use open_mal_lab.Knowledge.Platform.{hex, short_sum}
use open_mal_lab.Knowledge.Keys.{known_kind, normalize_key, valid_key, valid_format, fact_id}
use open_mal_lab.Knowledge.Store.{curated, get}
use open_mal_lab.Knowledge.Registry.{
  Registry, new_registry_with_sim, verify_citation, ok_for_verdict,
}
use open_mal_lab.Knowledge.Registry.Poisoning.{
  Write, curation, ingestion, replay, apply, HasCuration, HoldsCurated, ingest-get_curated,
  curated-needs_curation,
}
use open_mal_lab.Knowledge.Registry.Citations.{IsGrounded, ok_for_verdict_iff}
use open_mal_lab.Knowledge.Similarity.{
  Signature, is_empty, new_sim_index_with_cap, SimIndex, add_observed,
}
use open_mal_lab.Knowledge.Similarity.Guard.{IsGuarded, add_observed-IsGuarded}
use open_mal_lab.Knowledge.Similarity.Nearest.{Neighbor, nearest, clamp_bound}
use open_mal_lab.Knowledge.Similarity.Nearest.Ranked.{IsNear, nearest_iff}
use open_mal_lab.Knowledge.Registry.Fuzzy.{fuzzy_keys}
use open_mal_lab.Knowledge.Registry.Fuzzy.Curated.{fuzzy_keys-HoldsCurated}
use open_mal_lab.Tests.Floats.{fractions}
use open_mal_lab.Tests.Samples.{platform, fact, registry}

held : get registry.store fact.id ≡ some fact
unfolding get lookup str_eq fact_id short_sum hex lit
held = refl

abbrev flood : List Write
flood = ingestion (lit "family") (lit "emotet") (lit "benign") (lit "vt") ∷ []

still_curated : HoldsCurated fact.id (replay platform registry flood).store
unfolding replay apply
still_curated = (
  fact,
  ingest-get_curated platform registry (lit "family") (lit "emotet") (lit "benign") (lit "vt")
      fact.id fact held refl,
  refl,
)

curated-needs_curation_example :
    HoldsCurated fact.id registry.store ⊎ HasCuration platform fact.id flood
curated-needs_curation_example =
    curated-needs_curation platform flood registry fact.id still_curated

pub cited :
    ok_for_verdict (verify_citation platform registry fact.id (lit "family") (lit "emotet")) ≡ true
unfolding ok_for_verdict verify_citation normalize_key known_kind valid_key valid_format fact_id
    short_sum hex get lookup str_eq lit has_control
cited = refl

ok_for_verdict_iff_example : IsGrounded platform registry fact.id (lit "family") (lit "emotet")
ok_for_verdict_iff_example =
    (ok_for_verdict_iff platform registry fact.id (lit "family") (lit "emotet")).0 cited

abbrev empty : Registry
empty = record { store = record { facts = []; max = 10 }; sim = none }

abbrev index : SimIndex
index = record {
  entries =
      (
        lit "ks_1",
        record {
          id = lit "ks_1";
          sig = record { min = 5 ∷ []; card = 1 };
          trust = curated;
          label = lit "emotet";
          source = lit "family";
        },
      )
      ∷ [];
  max = 10;
}

abbrev signature : Signature
signature = record { min = 7 ∷ []; card = 1 }

add_observed-IsGuarded_example :
    IsGuarded index (add_observed platform index signature (lit "x") (lit "y")).1
add_observed-IsGuarded_example = add_observed-IsGuarded platform index signature (lit "x") (lit "y")

nearest_iff_example :
    ((n : Neighbor)
      → Memᴰ n (nearest fractions index signature (1, 2) 0) ↔ (
          (is_empty signature ≡ false)
          × (fractions.le (1, 2) (1, 2) ≡ true)
          × IsNear fractions signature (clamp_bound fractions (1, 2)) index.entries n))
    × ((limit : ℕ)
        → 0 < limit
        → (nearest fractions index signature (1, 2) limit
            ≡ take limit (nearest fractions index signature (1, 2) 0))
          × (length (nearest fractions index signature (1, 2) limit) ≤ limit))
nearest_iff_example = nearest_iff fractions index signature (1, 2)

abbrev writes : List Write
writes = curation (lit "family") (lit "emotet") [] [] [] ∷ flood

abbrev indexed : Registry
indexed = new_registry_with_sim registry.store (new_sim_index_with_cap 10)

fuzzy_keys-HoldsCurated_example :
    All
      (λ h.
        HoldsCurated (fact_id platform (lit "family") h.key) (replay platform indexed writes).store)
      (fuzzy_keys fractions platform
        (replay platform indexed writes)
        (lit "family")
        (lit "emotets")
        (1, 2)
        2)
fuzzy_keys-HoldsCurated_example =
    fuzzy_keys-HoldsCurated fractions platform registry.store 10 writes (lit "family")
      (lit "emotets") (1, 2) 2
