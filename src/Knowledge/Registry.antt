-- ===== src/Knowledge/Registry.antt =====
-- internal/knowledge/registry.go: the exact-key registry over the store.
pub mod Poisoning
pub mod Citations
pub mod Fuzzy
use open_mal_lab.Common.{
  ℕ, zero, suc, ◌+◌, Bool, true, false, not, ◌&&◌, ◌||◌, Str, List, [], ◌∷◌, Option, none, some,
  ltb, leb, if◌then◌else◌, length, str_eq, any, ◌==◌,
}
use open_mal_lab.Common.Utf8.{has_control}
use open_mal_lab.Common.Result.{Result, ok, err, ◌>>=◌, ◌>>◌, guard}
use open_mal_lab.Knowledge.Platform.{Platform}
use open_mal_lab.Knowledge.Keys.{known_kind, normalize_key, valid_key, fact_id}
use open_mal_lab.Knowledge.Similarity.{
  SimIndex, max_label_len, max_source_len, signature_of, n_grams, is_empty, add,
}
use open_mal_lab.Knowledge.Store.{
  Trust, ingest, curated, is_curated, Fact, MemStore, StoreError, get, merge,
}

abbrev pub max_attrs : ℕ
max_attrs = 32

abbrev pub max_attr_len : ℕ
max_attr_len = 1024

abbrev pub sim_ngram : ℕ
sim_ngram = 2

-- `sim` is nil for an exact-only registry.
pub record Registry : Type 0 where
  pub store : MemStore
  pub sim : Option SimIndex

unfoldable pub new_registry_with_sim : MemStore → SimIndex → Registry
new_registry_with_sim store sim = record { store = store; sim = some sim }

pub data PutError : Type 0 where
  unknown_kind malformed_key long_label long_source many_attrs bad_attr store_full : PutError

unfoldable pub bad_attribute : Str × Str → Bool
bad_attribute (k, v) =
    ltb max_attr_len (length k) || ltb max_attr_len (length v) || has_control k || has_control v

-- The tests that `put` makes before it touches the store.
unfoldable pub check_put : Str → Str → Str → List (Str × Str) → Str → Result PutError (Unit {0})
unfolding bad_attribute
check_put kind norm label attrs source = do
  guard (known_kind kind) unknown_kind
  guard (valid_key kind norm) malformed_key
  guard (leb (length label) max_label_len) long_label
  guard (leb (length source) max_source_len) long_source
  guard (leb (length attrs) max_attrs) many_attrs
  guard (not (any bad_attribute attrs)) bad_attr

-- The closure that `put` hands to `Merge`: ingest never wins over a curated fact.
unfoldable pub decide : Trust → Fact → Option Fact → Bool × Fact
decide trust incoming none = (true, incoming)
decide trust incoming (some existing) =
    if is_curated existing.trust && not (is_curated trust)
    then (false, existing)
    else (true, incoming)

-- A curated key is mirrored into the fuzzy index, if its signature is not empty.
unfoldable pub mirror : Platform → Trust → Str → Str → Option SimIndex → Option SimIndex
mirror go trust kind norm none = none
mirror go trust kind norm (some x) =
    let sig = signature_of go (n_grams norm sim_ngram) in
    if is_curated trust && not (is_empty sig)
    then some (add go x sig curated norm kind).1
    else some x

unfoldable pub after_merge :
    Platform
    → Trust
    → Str
    → Str
    → Option SimIndex
    → Result StoreError Fact × MemStore
    → Result PutError Fact × Registry
unfolding mirror
after_merge go trust kind norm sim (ok f, m) =
    (ok f, record { store = m; sim = mirror go trust kind norm sim })
after_merge go trust kind norm sim (err e, m) = (err store_full, record { store = m; sim = sim })

unfoldable pub put :
    Platform
    → Registry
    → Str
    → Str
    → Str
    → List (Str × Str)
    → Str
    → Trust
    → Result PutError Fact × Registry
put go r kind key label attrs source trust =
    let norm = normalize_key go kind key in
    let incoming : Fact = record {
      id = fact_id go kind norm;
      kind = kind;
      key = norm;
      label = go.trim_space label;
      attrs = attrs;
      trust = trust;
      source = source;
    } in
    elim (check_put kind norm label attrs source) [
      | err e ↦ (err e, r)
      | ok _ ↦
          after_merge go trust kind norm r.sim (merge r.store incoming.id (decide trust incoming))
    ]

unfoldable pub curate :
    Platform → Registry → Str → Str → Str → List (Str × Str) → Str → Result PutError Fact × Registry
curate go r kind key label attrs source = put go r kind key label attrs source curated

unfoldable pub ingest_fact :
    Platform → Registry → Str → Str → Str → Str → Result PutError Fact × Registry
ingest_fact go r kind key label source = put go r kind key label [] source ingest

-- func (r *Registry) Lookup
unfoldable pub lookup_fact : Platform → Registry → Str → Str → Option Fact
lookup_fact go r kind key =
    let norm = normalize_key go kind key in
    if known_kind kind && valid_key kind norm then get r.store (fact_id go kind norm) else none

-- The zero `Citation{}` is `none`; a verified one carries its fact.
abbrev bound : Str → Str → Option Fact → Option Fact
bound kind norm none = none
bound kind norm (some f) = if str_eq f.kind kind && str_eq f.key norm then some f else none

unfoldable pub verify_citation : Platform → Registry → Str → Str → Str → Option Fact
verify_citation go r cited_id kind key =
    let norm = normalize_key go kind key in
    if length cited_id == 0 || not (known_kind kind)
    then none
    else if not (valid_key kind norm)
    then none
    else if not (str_eq (fact_id go kind norm) cited_id)
    then none
    else bound kind norm (get r.store cited_id)

-- func (c Citation) OKForVerdict
unfoldable pub ok_for_verdict : Option Fact → Bool
ok_for_verdict none = false
ok_for_verdict (some f) = is_curated f.trust

-- func (r *Registry) Seed, over the facts' kinds, keys, labels, attributes and sources
unfoldable pub seed :
    Platform → Registry → List Fact → ℕ → (ℕ × Result PutError (Unit {0})) × Registry
seed go r [] n = ((n, ok tt), r)
seed go r (f ∷ fs) n =
    let (res, r') = curate go r f.kind f.key f.label f.attrs f.source in
    elim res [ ok _ ↦ seed go r' fs (n + 1) | err e ↦ ((n, err e), r') ]
