-- ===== src/Knowledge/Registry/Fuzzy/Leads.antt =====
-- internal/knowledge/registry.go: what the registry gives as a resembling key.
use mathlib.Core.List.{Memᴰ}
use open_mal_lab.Common.{
  ℕ, ◌+◌, ◌≤◌, ◌<◌, ◌≡◌, ◌≢◌, refl, sym, ap, ◌∙◌, true, not, ◌&&◌, Str, List, [], ◌∷◌, Option, none,
  some, arith, All, All-of_in, ltb, leb, length, str_eq, str_eq_iff, Bool-cases, inl, inr,
}
use open_mal_lab.Common.Floats.{Float64}
use open_mal_lab.Knowledge.Platform.{Platform}
use open_mal_lab.Knowledge.Keys.{normalize_key}
use open_mal_lab.Knowledge.Similarity.{
  Signature, SimEntry, SimIndex, signature_of, n_grams, is_empty, similarity,
}
use open_mal_lab.Knowledge.Similarity.Nearest.{Neighbor, neighbor_of, clamp_bound, nearest}
use open_mal_lab.Knowledge.Similarity.Nearest.Ranked.{IsNear, nearest_iff}
use open_mal_lab.Knowledge.Registry.{Registry, sim_ngram}
use open_mal_lab.Knowledge.Registry.Fuzzy.{FuzzyHit, fuzzy_hits, fuzzy_keys_of, fuzzy_keys}

-- The hit is the label of an entry that is filed under the kind, is not the queried key, and has a
-- score that reaches the bound.
pub record IsLead (fl : Float64) (x : SimIndex) (kind norm : Str) (sig : Signature) (b : fl.F)
    (h : FuzzyHit) : Type 0 where
  pub same_kind : h.kind ≡ kind
  pub other_key : h.key ≢ norm
  pub near : fl.le (clamp_bound fl b) (fl.ratio h.sim 64) ≡ true
  pub entry :
      (p : Str × SimEntry) × Memᴰ p x.entries
      × (p.1.source ≡ kind)
      × (p.1.label ≡ h.key)
      × (similarity sig p.1.sig ≡ h.sim)

module _ (fl : Float64) (x : SimIndex) (kind norm : Str) (sig : Signature) (b : fl.F) where
  hit-IsLead :
      (n : Neighbor)
      → IsNear fl sig (clamp_bound fl b) x.entries n
      → n.source ≡ kind
      → n.label ≢ norm
      → IsLead fl x kind norm sig b (record { kind = kind; key = n.label; sim = n.sim })
  unfolding neighbor_of
  hit-IsLead n (p, m, r, e) s l = record {
    same_kind = refl;
    other_key = l;
    near = rw (ap (λ (o : Neighbor). o.sim) e) r;
    entry = (
      p,
      m,
      sym (ap (λ (o : Neighbor). o.source) e) ∙ s,
      sym (ap (λ (o : Neighbor). o.label) e),
      sym (ap (λ (o : Neighbor). o.sim) e),
    );
  }

  hits-IsLead :
      (limit n : ℕ) (ns : List Neighbor)
      → All (IsNear fl sig (clamp_bound fl b) x.entries) ns
      → All (IsLead fl x kind norm sig b) (fuzzy_hits kind norm limit n ns)
  unfolding fuzzy_hits
  hits-IsLead limit n [] h = tt
  hits-IsLead limit n (y ∷ ys) h =
      elim (Bool-cases (str_eq y.source kind && not (str_eq y.label norm))) [
        | inl found ↦
            let lead =
              hit-IsLead y h.0 (ground (arith, str_eq_iff y.source kind))
                (λ e. ground (arith, str_eq_iff y.label norm)) in
            elim (Bool-cases (ltb 0 limit && leb limit (n + 1))) [
              | inl full ↦ rw (found, full) (lead, tt)
              | inr more ↦ rw (found, more) (lead, hits-IsLead limit (n + 1) ys h.1)
            ]
        | inr skip ↦ rw skip (hits-IsLead limit n ys h.1)
      ]

length-fuzzy_hits :
    (kind norm : Str) (limit n : ℕ) (ns : List Neighbor)
    → n < limit
    → length (fuzzy_hits kind norm limit n ns) + n ≤ limit
unfolding fuzzy_hits
length-fuzzy_hits kind norm limit n [] h = omega arith
length-fuzzy_hits kind norm limit n (y ∷ ys) h =
    elim (Bool-cases (str_eq y.source kind && not (str_eq y.label norm))) [
      | inl found ↦ elim (Bool-cases (ltb 0 limit && leb limit (n + 1))) [
        | inl full ↦ rw (found, full) (omega arith)
        | inr more ↦
            rw (found, more)
              (omega (arith, length-fuzzy_hits kind norm limit (n + 1) ys (ground arith)))
      ]
      | inr skip ↦ rw skip (length-fuzzy_hits kind norm limit n ys h)
    ]

-- A hit is of the queried kind, never the queried key itself, with a score that reaches the clamped bound, and its key and score are those of an entry of the
-- index that is filed under the kind. A query with a limit gives at most as many hits; without an index there are none.
pub fuzzy_keys-IsLead :
    (fl : Float64) (go : Platform) (r : Registry) (kind key : Str) (b : fl.F) (limit : ℕ)
    → ((x : SimIndex)
        → r.sim ≡ some x
        → All
            (IsLead fl x kind
              (normalize_key go kind key)
              (signature_of go (n_grams (normalize_key go kind key) sim_ngram))
              b)
            (fuzzy_keys fl go r kind key b limit))
      × (r.sim ≡ none → fuzzy_keys fl go r kind key b limit ≡ [])
      × (0 < limit → length (fuzzy_keys fl go r kind key b limit) ≤ limit)
unfolding fuzzy_keys
fuzzy_keys-IsLead fl go r kind key b limit =
    (λ x e. rw e (leads x), λ e. rw e refl, λ h. by_index r.sim h)
  where
    norm : Str
    norm = normalize_key go kind key

    sig : Signature
    sig = signature_of go (n_grams norm sim_ngram)

    leads :
        (x : SimIndex)
        → All (IsLead fl x kind norm sig b) (fuzzy_keys_of fl x kind norm sig b limit)
    leads x = elim (Bool-cases (is_empty sig)) [
      | inl z ↦ unfold fuzzy_keys_of in rw z tt
      | inr z ↦
          unfold fuzzy_keys_of in
          rw z (
            hits-IsLead fl x kind norm sig b limit 0 (nearest fl x sig b 0) (
              All-of_in (IsNear fl sig (clamp_bound fl b) x.entries) (nearest fl x sig b 0)
                (λ n m. (((nearest_iff fl x sig b).0 n).0 m).2)))
    ]

    by_index :
        (o : Option SimIndex)
        → 0 < limit
        → length (elim o as (λ _. List FuzzyHit) [
          | none ↦ []
          | some x ↦ fuzzy_keys_of fl x kind norm sig b limit
        ])
          ≤ limit
    by_index none h = omega arith
    by_index (some x) h = elim (Bool-cases (is_empty sig)) [
      | inl z ↦ unfold fuzzy_keys_of in rw z (omega arith)
      | inr z ↦
          unfold fuzzy_keys_of in
          rw z (omega (arith, length-fuzzy_hits kind norm limit 0 (nearest fl x sig b 0) h))
    ]
