-- ===== src/Knowledge/Registry/Fuzzy/Curated.antt =====
-- internal/knowledge/registry.go: the index of a registry follows its curated facts.
use open_mal_lab.Common.{
  ◌≡◌, refl, not, ◌&&◌, ◌||◌, Str, List, [], ◌∷◌, Option, none, some, arith, ℕ, All-in, ltb, leb,
  length, All, All-map, str_eq, str_eq_iff, Bool-cases, inl, inr,
}
use open_mal_lab.Common.Assoc.{lookup, lookup-insert, All-insert}
use open_mal_lab.Common.Floats.{Float64}
use open_mal_lab.Common.Utf8.{has_control}
use open_mal_lab.Common.Result.{Result, ok, err}
use open_mal_lab.Knowledge.Platform.{Platform}
use open_mal_lab.Knowledge.Keys.{normalize_key, fact_id}
use open_mal_lab.Knowledge.Store.{
  Trust, ingest, curated, is_curated, Fact, MemStore, StoreError, get, commit, merge,
}
use open_mal_lab.Knowledge.Similarity.{
  Signature, SimEntry, SimIndex, new_sim_index_with_cap, max_label_len, max_source_len,
  signature_id, add_entry, add, is_empty, signature_of, n_grams,
}
use open_mal_lab.Knowledge.Registry.{
  Registry, new_registry_with_sim, PutError, check_put, decide, mirror, after_merge, put, curate,
  ingest_fact, sim_ngram,
}
use open_mal_lab.Knowledge.Registry.Fuzzy.{fuzzy_keys}
use open_mal_lab.Knowledge.Registry.Fuzzy.Leads.{fuzzy_keys-IsLead}
use open_mal_lab.Knowledge.Registry.Poisoning.{
  HoldsCurated, Write, curation, ingestion, apply, replay,
}

merge-keeps_curated :
    (m : MemStore) (f : Fact) (t : Trust) (id : Str)
    → f.trust ≡ t
    → HoldsCurated id m
    → HoldsCurated id (merge m f.id (decide t f)).1
unfolding merge get decide commit
merge-keeps_curated m f curated id t h = elim (Bool-cases (str_eq f.id id)) [
  | inl same ↦ (f, ground (arith, lookup-insert f.id id f m.facts, str_eq_iff f.id id), t)
  | inr other ↦ (h.0, ground (arith, h.1, lookup-insert f.id id f m.facts, str_eq_iff f.id id), h.2)
]
merge-keeps_curated m f ingest id t (g, e, c) =
    (g, ground (arith, lookup-insert f.id id f m.facts, str_eq_iff f.id id), c)

merge-makes_curated :
    (m : MemStore) (f : Fact)
    → f.trust ≡ curated
    → HoldsCurated f.id (merge m f.id (decide curated f)).1
unfolding merge get decide commit
merge-makes_curated m f t =
    (f, ground (arith, lookup-insert f.id f.id f m.facts, str_eq_iff f.id f.id), t)

-- Every entry of the index is filed under the kind and key of a curated fact of the store.
abbrev pub Follows : Platform → MemStore → Option SimIndex → Type 0
Follows go m none = Unit
Follows go m (some x) = All (λ p. HoldsCurated (fact_id go p.1.source p.1.label) m) x.entries

Follows-merge :
    (go : Platform) (m n : MemStore) (o : Option SimIndex)
    → ((id : Str) → HoldsCurated id m → HoldsCurated id n)
    → Follows go m o
    → Follows go n o
Follows-merge go m n none f h = tt
Follows-merge go m n (some x) f h = All-map (λ p k. f _ k) x.entries h

entry-Follows :
    (go : Platform) (m : MemStore) (x : SimIndex) (e : SimEntry) (o : Option SimEntry)
    → HoldsCurated (fact_id go e.source e.label) m
    → Follows go m (some x)
    → Follows go m (some (add_entry x e o).1)
unfolding add_entry
entry-Follows go m x e none c h =
    elim (Bool-cases (not (is_curated e.trust) && leb x.max (length x.entries))) [
      | inl full ↦ rw full h
      | inr fits ↦
          rw fits (
            All-insert (λ p. HoldsCurated (fact_id go p.1.source p.1.label) m) e.id e x.entries c h)
    ]
entry-Follows go m x e (some existing) c h =
    elim (Bool-cases (is_curated existing.trust && not (is_curated e.trust))) [
      | inl kept ↦ rw kept h
      | inr new ↦
          rw new (
            All-insert (λ p. HoldsCurated (fact_id go p.1.source p.1.label) m) e.id e x.entries c h)
    ]

add-Follows :
    (go : Platform) (m : MemStore) (x : SimIndex) (sig : Signature) (label source : Str)
    → HoldsCurated (fact_id go source label) m
    → Follows go m (some x)
    → Follows go m (some (add go x sig curated label source).1)
unfolding add
add-Follows go m x sig label source c h =
    elim (Bool-cases (
      is_empty sig
      || ltb max_label_len (length label)
      || ltb max_source_len (length source)
      || has_control label
      || has_control source)) [
        | inl refused ↦ rw refused h
        | inr kept ↦ rw kept (
            entry-Follows go m x
              (record {
                id = signature_id go sig;
                sig = sig;
                trust = curated;
                label = label;
                source = source;
              })
              (lookup (signature_id go sig) x.entries) c h)
      ]

mirror-Follows :
    (go : Platform) (m : MemStore) (t : Trust) (kind norm : Str) (o : Option SimIndex)
    → (t ≡ curated → HoldsCurated (fact_id go kind norm) m)
    → Follows go m o
    → Follows go m (mirror go t kind norm o)
unfolding mirror
mirror-Follows go m t kind norm none c h = tt
mirror-Follows go m ingest kind norm (some x) c h = h
mirror-Follows go m curated kind norm (some x) c h =
    elim (Bool-cases (is_empty (signature_of go (n_grams norm sim_ngram)))) [
      | inl empty ↦ rw empty h
      | inr full ↦
          rw full
            (add-Follows go m x (signature_of go (n_grams norm sim_ngram)) norm kind (c refl) h)
    ]

-- Every entry of the registry's index has its curated fact.
abbrev pub IsFollowing : Platform → Registry → Type 0
IsFollowing go r = Follows go r.store r.sim

after_merge-Follows :
    (go : Platform) (m : MemStore) (t : Trust) (kind norm : Str) (o : Option SimIndex)
    (res : Result StoreError Fact)
    → (t ≡ curated → HoldsCurated (fact_id go kind norm) m)
    → Follows go m o
    → IsFollowing go (after_merge go t kind norm o (res, m)).1
unfolding after_merge
after_merge-Follows go m t kind norm o (ok f) c h = mirror-Follows go m t kind norm o c h
after_merge-Follows go m t kind norm o (err e) c h = h

put-IsFollowing :
    (go : Platform) (r : Registry) (kind key label : Str) (attrs : List (Str × Str)) (source : Str)
    (trust : Trust)
    → IsFollowing go r
    → IsFollowing go (put go r kind key label attrs source trust).1
unfolding put
put-IsFollowing go r kind key label attrs source trust h =
    by_check (check_put kind (normalize_key go kind key) label attrs source)
  where
    incoming : Fact
    incoming = record {
      id = fact_id go kind (normalize_key go kind key);
      kind = kind;
      key = normalize_key go kind key;
      label = go.trim_space label;
      attrs = attrs;
      trust = trust;
      source = source;
    }

    made :
        (t : Trust)
        → trust ≡ t
        → t ≡ curated
        → HoldsCurated
            (fact_id go kind (normalize_key go kind key))
            (merge r.store incoming.id (decide t incoming)).1
    made curated e c = merge-makes_curated r.store incoming e
    made ingest e c = absurd (ground (arith, c))

    by_check :
        (c : Result PutError (Unit {0}))
        → IsFollowing go
            (elim c as (λ _. Result PutError Fact × Registry) [
              | err e ↦ (err e, r)
              | ok _ ↦
                  after_merge go trust kind
                    (normalize_key go kind key)
                    r.sim
                    (merge r.store incoming.id (decide trust incoming))
            ]).1
    by_check (err e) = h
    by_check (ok u) =
        after_merge-Follows go _ trust kind (normalize_key go kind key) r.sim
          (merge r.store incoming.id (decide trust incoming)).0 (made trust refl)
          (Follows-merge go r.store _ r.sim
            (λ id k. merge-keeps_curated r.store incoming trust id refl k) h)

replay-IsFollowing :
    (go : Platform) (ws : List Write) (r : Registry)
    → IsFollowing go r
    → IsFollowing go (replay go r ws)
unfolding replay apply curate ingest_fact
replay-IsFollowing go [] r h = h
replay-IsFollowing go (curation kind key label attrs source ∷ ws) r h =
    replay-IsFollowing go ws _ (put-IsFollowing go r kind key label attrs source curated h)
replay-IsFollowing go (ingestion kind key label source ∷ ws) r h =
    replay-IsFollowing go ws _ (put-IsFollowing go r kind key label [] source ingest h)

-- In a registry that starts with any store and an empty index, after any writes, the key of every hit is that of a curated fact of the queried kind: no ingest
-- makes a key appear among the resembling ones.
pub fuzzy_keys-HoldsCurated :
    (fl : Float64) (go : Platform) (m : MemStore) (max : ℕ) (ws : List Write) (kind key : Str)
    (b : fl.F) (limit : ℕ)
    → All
        (λ h.
          HoldsCurated
            (fact_id go kind h.key)
            (replay go (new_registry_with_sim m (new_sim_index_with_cap max)) ws).store)
        (fuzzy_keys fl go
          (replay go (new_registry_with_sim m (new_sim_index_with_cap max)) ws)
          kind
          key
          b
          limit)
unfolding new_registry_with_sim new_sim_index_with_cap
fuzzy_keys-HoldsCurated fl go m max ws kind key b limit = by_index r.sim refl
  where
    r : Registry
    r = replay go (new_registry_with_sim m (new_sim_index_with_cap max)) ws

    by_index :
        (o : Option SimIndex)
        → r.sim ≡ o
        → All
            (λ h. HoldsCurated (fact_id go kind h.key) r.store)
            (fuzzy_keys fl go r kind key b limit)
    by_index none e = rw ((fuzzy_keys-IsLead fl go r kind key b limit).1 e) tt
    by_index (some x) e =
        All-map
          (λ h lead.
            let (p, member, source, label, _) = lead.entry in
            rw (source, label) at
              (All-in (λ q. HoldsCurated (fact_id go q.1.source q.1.label) r.store) x.entries p
                (rw e at following) member))
          (fuzzy_keys fl go r kind key b limit) ((fuzzy_keys-IsLead fl go r kind key b limit).0 x e)
      where
        following : Follows go r.store r.sim
        following =
            replay-IsFollowing go ws (new_registry_with_sim m (new_sim_index_with_cap max)) tt
