-- ===== src/Knowledge/Registry/Poisoning.antt =====
-- internal/knowledge/registry.go: curated facts under sequences of writes.
use open_mal_lab.Common.{
  ◌≡◌, refl, sym, ◌∙◌, ◌⊎◌, inl, inr, Str, List, [], ◌∷◌, some, arith, str_eq_iff,
}
use open_mal_lab.Common.Assoc.{lookup-insert}
use open_mal_lab.Common.Result.{Result, ok, err}
use open_mal_lab.Knowledge.Platform.{Platform}
use open_mal_lab.Knowledge.Keys.{normalize_key, fact_id}
use open_mal_lab.Knowledge.Store.{
  Trust, ingest, curated, Fact, MemStore, StoreError, get, commit, merge,
}
use open_mal_lab.Knowledge.Registry.{
  Registry, PutError, check_put, decide, after_merge, put, curate, ingest_fact,
}

-- A property of the store that the merge gives, or that holds already, holds after `put`.
put-store :
    (P : MemStore → Type 0) (go : Platform) (r : Registry) (kind key label : Str)
    (attrs : List (Str × Str)) (source : Str) (trust : Trust)
    → P r.store
    → ((f : Fact)
        → f.id ≡ fact_id go kind (normalize_key go kind key)
        → f.trust ≡ trust
        → P (merge r.store f.id (decide trust f)).1)
    → P (put go r kind key label attrs source trust).1.store
unfolding put
put-store P go r kind key label attrs source trust h k =
    by_check (check_put kind (normalize_key go kind key) label attrs source) _ refl refl
  where
    by_merge :
        (t : Result StoreError Fact × MemStore)
        → P t.1
        → P (after_merge go trust kind (normalize_key go kind key) r.sim t).1.store
    by_merge (ok f, m) p = unfold after_merge in p
    by_merge (err e, m) p = unfold after_merge in p

    by_check :
        (c : Result PutError (Unit {0})) (f : Fact)
        → f.id ≡ fact_id go kind (normalize_key go kind key)
        → f.trust ≡ trust
        → P
            (elim c as (λ _. Result PutError Fact × Registry) [
              | err e ↦ (err e, r)
              | ok _ ↦
                  after_merge go trust kind
                    (normalize_key go kind key)
                    r.sim
                    (merge r.store f.id (decide trust f))
            ]).1.store
    by_check (err e) f i t = h
    by_check (ok u) f i t = by_merge _ (k f i t)

merge-ingest_keeps :
    (m : MemStore) (f : Fact) (id : Str) (g : Fact)
    → f.trust ≡ ingest
    → get m id ≡ some g
    → g.trust ≡ curated
    → get (merge m f.id (decide ingest f)).1 id ≡ some g
unfolding merge get decide commit
merge-ingest_keeps m f id g t e c =
    ground (arith, lookup-insert f.id id f m.facts, str_eq_iff f.id id)

-- An ingest, whatever its kind, key, label and source, leaves every curated fact as it is.
pub ingest-get_curated :
    (go : Platform) (r : Registry) (kind key label source id : Str) (g : Fact)
    → get r.store id ≡ some g
    → g.trust ≡ curated
    → get (ingest_fact go r kind key label source).1.store id ≡ some g
unfolding ingest_fact
ingest-get_curated go r kind key label source id g e c =
    put-store (λ m. get m id ≡ some g) go r kind key label [] source ingest e
      (λ f i t. merge-ingest_keeps r.store f id g t e c)

-- One write to the registry.
pub data Write : Type 0 where
  curation : Str → Str → Str → List (Str × Str) → Str → Write
  ingestion : Str → Str → Str → Str → Write

unfoldable pub apply : Platform → Registry → Write → Registry
apply go r (curation kind key label attrs source) = (curate go r kind key label attrs source).1
apply go r (ingestion kind key label source) = (ingest_fact go r kind key label source).1

unfoldable pub replay : Platform → Registry → List Write → Registry
unfolding apply
replay go r [] = r
replay go r (w ∷ ws) = replay go (apply go r w) ws

-- The write is a curation of the fact `id`.
abbrev pub Curates : Platform → Str → Write → Type 0
Curates go id (curation kind key _ _ _) = fact_id go kind (normalize_key go kind key) ≡ id
Curates go id (ingestion _ _ _ _) = ⊥

abbrev pub HasCuration : Platform → Str → List Write → Type 0
HasCuration go id [] = ⊥
HasCuration go id (w ∷ ws) = Curates go id w ⊎ HasCuration go id ws

-- The store holds a curated fact under `id`.
abbrev pub HoldsCurated : Str → MemStore → Type 0
HoldsCurated id m = (f : Fact) × (get m id ≡ some f) × (f.trust ≡ curated)

merge-curate :
    (m : MemStore) (f : Fact) (id : Str)
    → f.trust ≡ curated
    → HoldsCurated id (merge m f.id (decide curated f)).1
    → (f.id ≡ id) ⊎ HoldsCurated id m
unfolding merge get decide commit
merge-curate m f id t (g, e, c) =
    ground (arith, lookup-insert f.id id f m.facts, str_eq_iff f.id id)

merge-ingest :
    (m : MemStore) (f : Fact) (id : Str)
    → f.trust ≡ ingest
    → HoldsCurated id (merge m f.id (decide ingest f)).1
    → HoldsCurated id m
unfolding merge get decide commit
merge-ingest m f id t (g, e, c) =
    ground (arith, lookup-insert f.id id f m.facts, str_eq_iff f.id id)

apply-curated :
    (go : Platform) (r : Registry) (w : Write) (id : Str)
    → HoldsCurated id (apply go r w).store
    → HoldsCurated id r.store ⊎ Curates go id w
unfolding apply curate ingest_fact
apply-curated go r (curation kind key label attrs source) id =
    put-store
      (λ m.
        HoldsCurated id m
        → HoldsCurated id r.store ⊎ (fact_id go kind (normalize_key go kind key) ≡ id))
      go r kind key label attrs source curated (λ h. inl h)
      (λ f i t h. elim (merge-curate r.store f id t h) [ inl e ↦ inr (sym i ∙ e) | inr k ↦ inl k ])
apply-curated go r (ingestion kind key label source) id =
    put-store (λ m. HoldsCurated id m → HoldsCurated id r.store ⊎ ⊥) go r kind key label [] source
      ingest (λ h. inl h) (λ f i t h. inl (merge-ingest r.store f id t h))

-- After any writes, a fact is curated only if it was curated before them or one of them is a
-- curation of its kind and key: no ingest, and no sequence of ingests, makes a fact curated.
pub curated-needs_curation :
    (go : Platform) (ws : List Write) (r : Registry) (id : Str)
    → HoldsCurated id (replay go r ws).store
    → HoldsCurated id r.store ⊎ HasCuration go id ws
unfolding replay
curated-needs_curation go [] r id h = inl h
curated-needs_curation go (w ∷ ws) r id h =
    elim (curated-needs_curation go ws (apply go r w) id h) [
      | inl k ↦ elim (apply-curated go r w id k) [ inl old ↦ inl old | inr made ↦ inr (inl made) ]
      | inr later ↦ inr (inr later)
    ]
