-- ===== src/Knowledge/Registry/Citations.antt =====
-- internal/knowledge/registry.go: the citation check, and what it asks of the store.
use open_mal_lab.Common.{
  ◌≡◌, refl, ◌∙◌, ◌↔◌, true, false, Str, List, Option, none, some, arith, ◌==◌, ◌≢◌, lit, length,
  str_eq_iff, str_eq_refl,
}
use open_mal_lab.Common.Assoc.{insert, lookup-insert}
use open_mal_lab.Common.Result.{Result, ok, err}
use open_mal_lab.Knowledge.Platform.{Platform}
use open_mal_lab.Knowledge.Keys.{known_kind, valid_key, normalize_key, fact_id}
use open_mal_lab.Knowledge.Store.{curated, Fact, MemStore, get, commit, merge}
use open_mal_lab.Knowledge.Similarity.{SimIndex}
use open_mal_lab.Knowledge.Registry.{
  Registry, PutError, store_full, check_put, decide, after_merge, put, curate, verify_citation,
  ok_for_verdict,
}

-- The cited id is that of the claimed kind and key, and the store holds a curated fact under it
-- that is about that kind and key.
pub record IsGrounded (go : Platform) (r : Registry) (cited_id kind key : Str) : Type 0 where
  pub fact : Fact
  pub known : known_kind kind ≡ true
  pub valid : valid_key kind (normalize_key go kind key) ≡ true
  pub bound_id : fact_id go kind (normalize_key go kind key) ≡ cited_id
  pub stored : get r.store cited_id ≡ some fact
  pub about_kind : fact.kind ≡ kind
  pub about_key : fact.key ≡ normalize_key go kind key
  pub trusted : fact.trust ≡ curated

not_empty : (go : Platform) (kind key : Str) → length (fact_id go kind key) == 0 ≡ false
unfolding fact_id lit
not_empty go kind key = ground arith

-- Where the store's answer is `o`, the tests of `verify_citation` are those of `IsGrounded`.
tests_passed :
    (go : Platform) (r : Registry) (cited_id kind key : Str) (o : Option Fact)
    → get r.store cited_id ≡ o
    → ok_for_verdict (verify_citation go r cited_id kind key) ≡ true
    → IsGrounded go r cited_id kind key
unfolding ok_for_verdict verify_citation
tests_passed go r cited_id kind key none e h = ground arith
tests_passed go r cited_id kind key (some f) e h =
    let norm = normalize_key go kind key in
    record {
      fact = f;
      known = ground arith;
      valid = ground arith;
      bound_id = ground (arith, str_eq_iff (fact_id go kind norm) cited_id);
      stored = e;
      about_kind = ground (arith, str_eq_iff f.kind kind);
      about_key = ground (arith, str_eq_iff f.key norm);
      trusted = ground arith;
    }

-- A citation may back a verdict exactly when its id is that of the claimed kind and key, in their
-- normalized form and of a known kind and valid format, and the store holds a curated fact under
-- that id which is about that kind and key.
pub ok_for_verdict_iff :
    (go : Platform) (r : Registry) (cited_id kind key : Str)
    → (ok_for_verdict (verify_citation go r cited_id kind key) ≡ true)
      ↔ IsGrounded go r cited_id kind key
unfolding ok_for_verdict verify_citation
ok_for_verdict_iff go r cited_id kind key = (
  tests_passed go r cited_id kind key (get r.store cited_id) refl,
  λ g.
      let norm = normalize_key go kind key in
      let nonempty : length cited_id == 0 ≡ false = rw g.bound_id at (not_empty go kind norm) in
      rw (
        nonempty,
        g.known,
        g.valid,
        (str_eq_iff (fact_id go kind norm) cited_id).1 g.bound_id,
        g.stored,
        (str_eq_iff g.fact.kind kind).1 g.about_kind,
        (str_eq_iff g.fact.key norm).1 g.about_key,
        g.trusted,
      ),
)

merge-curate :
    (m : MemStore) (f : Fact)
    → f.trust ≡ curated
    → merge m f.id (decide curated f) ≡ (ok f, record m { facts = insert f.id f m.facts })
unfolding merge get decide commit
merge-curate m f t = ground arith

check_put-ne_full :
    (kind norm label : Str) (attrs : List (Str × Str)) (source : Str)
    → check_put kind norm label attrs source ≢ err store_full
unfolding check_put
check_put-ne_full kind norm label attrs source h = ground arith

check_put-key :
    (kind norm label : Str) (attrs : List (Str × Str)) (source : Str) {u : Unit {0}}
    → check_put kind norm label attrs source ≡ ok u
    → (known_kind kind ≡ true) × (valid_key kind norm ≡ true)
unfolding check_put
check_put-key kind norm label attrs source h = ground arith

insert_self :
    (f : Fact) (m : MemStore) → get (record m { facts = insert f.id f m.facts }) f.id ≡ some f
unfolding get
insert_self f m = rw (lookup-insert f.id f.id f m.facts, str_eq_refl f.id)

-- A curation never fails because the store is full, and when it is accepted, a citation of its kind
-- and key by the id of the returned fact is verified at once and may back a verdict.
curate-verify :
    (go : Platform) (r : Registry) (kind key label : Str) (attrs : List (Str × Str)) (source : Str)
    → ((curate go r kind key label attrs source).0 ≢ err store_full)
      × ((f : Fact)
          → (curate go r kind key label attrs source).0 ≡ ok f
          → ok_for_verdict
              (verify_citation go (curate go r kind key label attrs source).1 f.id kind key)
            ≡ true)
unfolding curate put
curate-verify go r kind key label attrs source =
    by_check (check_put kind norm label attrs source) refl
  where
    norm : Str
    norm = normalize_key go kind key

    incoming : Fact
    incoming = record {
      id = fact_id go kind norm;
      kind = kind;
      key = norm;
      label = go.trim_space label;
      attrs = attrs;
      trust = curated;
      source = source;
    }

    Holds : Result PutError Fact × Registry → Type 0
    Holds t =
        (t.0 ≢ err store_full)
        × ((f : Fact) → t.0 ≡ ok f → ok_for_verdict (verify_citation go t.1 f.id kind key) ≡ true)

    stored : MemStore
    stored = record r.store { facts = insert incoming.id incoming r.store.facts }

    verified :
        (u : Unit {0}) (sim : Option SimIndex) (f : Fact)
        → check_put kind norm label attrs source ≡ ok u
        → incoming ≡ f
        → ok_for_verdict (verify_citation go (record { store = stored; sim = sim }) f.id kind key)
          ≡ true
    verified u sim f q e =
        let checked = check_put-key kind norm label attrs source q in
        rw (← e) (
          (ok_for_verdict_iff go (record { store = stored; sim = sim }) incoming.id kind key).1
            (record {
              fact = incoming;
              known = checked.0;
              valid = checked.1;
              bound_id = refl;
              stored = insert_self incoming r.store;
              about_kind = refl;
              about_key = refl;
              trusted = refl;
            }))

    by_check :
        (c : Result PutError (Unit {0}))
        → check_put kind norm label attrs source ≡ c
        → Holds (put go r kind key label attrs source curated)
    by_check (err e) q =
        rw (q, put)
          ((λ h. check_put-ne_full kind norm label attrs source (q ∙ (cc))), (λ f h. absurd (cc)))
    by_check (ok u) q =
        rw (q, put, merge-curate r.store incoming refl)
          (unfold after_merge in ((λ h. cc), (λ f h. verified u _ f q (cc))))
