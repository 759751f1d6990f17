-- ===== src/Knowledge/Graph/Walk/Rounds.antt =====
-- internal/knowledge/graph.go: the invariant of the walk, over one edge of the loop.
use mathlib.Core.List.{Memᴰ}
use mathlib.Core.List.Memᴰ
use mathlib.Core.Path.{subst}
use open_mal_lab.Common.Assoc.{All-insert}
use open_mal_lab.Common.{
  in_cons, ℕ, ◌+◌, ◌≤◌, ◌<◌, ◌≡◌, ◌⊎◌, ◌∙◌, inl, inr, true, false, Str, List, [], ◌∷◌, none, some,
  arith, length, str_eq, str_eq_iff, str_eq_refl, All-append, All-map, length-append, Bool-cases,
  if◌then◌else◌,
}
use open_mal_lab.Common.Assoc.{insert, length-insert}
use open_mal_lab.Knowledge.GraphStore.{Edge}
use open_mal_lab.Knowledge.Graph.Walk.{Query, follows, Item, Search, scan_edge}
use open_mal_lab.Knowledge.Graph.Walk.Steps.{seen, beyond, arrive, scan_edge-rule, IsUp-snoc}
use open_mal_lab.Knowledge.Graph.Walk.Invariant.{
  step, depth_at, Relaxed, Waits, Inv, Good, Inv-Ended, depth_unique, fresh_of, fresh-lookup,
  depth_at-arrive,
}

module _ (out : Str → List Edge) (q : Query) (start : Str) where
  Inv-skip :
      (c : ℕ) (cur : Item) (e : Edge) (es : List Edge) (s : Search)
      → Inv out q start c cur (e ∷ es) s
      → (follows q e ≡ false) ⊎ (seen s e.to ≡ true)
      → Inv out q start c cur es s
  Inv-skip c cur e es s h k = record {
    known = h.known;
    sound = h.sound;
    fits = h.fits;
    listed = h.listed;
    work = h.work;
    waits = h.waits;
    up = h.up;
    later = h.later;
    current = h.current;
    remain = h.remain.1;
    closed = λ t id n e' at mem fo. elim (h.closed t id n e' at mem fo) [
      | inl queued ↦ inl queued
      | inr (inr r) ↦ inr (inr r)
      | inr (inl (i, m)) ↦ elim (in_cons.0 m) [
        | inr rest ↦ inr (inl (i, rest))
        | inl same ↦ inr (inr (relaxed id n e' (by_skip fo same) at i same))
      ]
    ];
  }
    where
      by_skip : {e' : Edge} → follows q e' ≡ true → e' ≡ e → seen s e.to ≡ true
      by_skip fo same = elim k [ inl off ↦ cc | inr v ↦ v ]

      relaxed :
          (id : Str) (n : ℕ) (e' : Edge)
          → seen s e.to ≡ true
          → depth_at start s id ≡ some n
          → id ≡ cur.id
          → e' ≡ e
          → Relaxed out q start s n e'
      relaxed id n e' v at i same =
          let (m, there) = (h.known e.to).0 v in
          (
            m,
            rw same there,
            omega (
              arith,
              (h.sound e.to m there).2,
              depth_unique out q start s cur.id (subst (λ x. depth_at start s x ≡ some n) i at)
                  h.current,
            ),
          )

  Inv-beyond :
      (c : ℕ) (cur : Item) (e : Edge) (es : List Edge) (s : Search)
      → Inv out q start c cur (e ∷ es) s
      → Inv out q start c cur es (beyond s)
  Inv-beyond c cur e es s h = record {
    known = h.known;
    sound = h.sound;
    fits = h.fits;
    listed = h.listed;
    work = h.work;
    waits = h.waits;
    up = h.up;
    later = h.later;
    current = h.current;
    remain = h.remain.1;
    closed = λ t. cc;
  }

  Inv-arrive :
      (c : ℕ) (cur : Item) (e : Edge) (es : List Edge) (s : Search)
      → Inv out q start c cur (e ∷ es) s
      → follows q e ≡ true
      → seen s e.to ≡ false
      → cur.depth + 1 ≤ q.max_depth
      → length s.depth_of < q.max_nodes
      → Inv out q start c cur es (arrive cur e s)
  Inv-arrive c cur e es s h f v d n = record {
    known = λ id. (known-new id, known-old id);
    sound = λ id m k. elim (old id m k) [
      | inl (i, j) ↦
          rw (← i, j) (step e (h.sound cur.id cur.depth h.current).0 h.remain.0 f, d, omega arith)
      | inr p ↦ h.sound id m p
    ];
    fits = omega (arith, grows);
    listed =
        All-insert _ e.to (cur.depth + 1) s.depth_of (there, omega arith)
          (All-map (λ p w. (kept p.0 p.1 w.0, w.1)) s.depth_of h.listed);
    work = omega (arith, grows, h.work, length-append s.queue (next ∷ []));
    waits =
        All-append (Waits out q start (arrive cur e s)) s.queue (next ∷ [])
          (All-map (λ i w. kept i.id i.depth w) s.queue h.waits) (there, tt);
    up = IsUp-snoc s.queue next (All-map (λ i w. (h.sound i.id i.depth w).2) s.queue h.waits) h.up;
    later = All-append (λ i. cur.depth ≤ i.depth) s.queue (next ∷ []) h.later (omega arith, tt);
    current = kept cur.id cur.depth h.current;
    remain = h.remain.1;
    closed = λ t id m e' k mem fo. elim (old id m k) [
      | inl (i, j) ↦ inl (Memᴰ.append_right s.queue (Memᴰ.head (rw (← i, j))))
      | inr k0 ↦ elim (h.closed t id m e' k0 mem fo) [
        | inl queued ↦ inl (Memᴰ.append_left (next ∷ []) queued)
        | inr (inr (m', r, le)) ↦ inr (inr (m', kept e'.to m' r, le))
        | inr (inl (i, m')) ↦ elim (in_cons.0 m') [
          | inl same ↦ inr (
              inr (
                cur.depth + 1,
                rw same there,
                omega (
                  arith,
                  depth_unique out q start s cur.id (subst (λ x. depth_at start s x ≡ some m) i k0)
                      h.current,
                ),
              ))
          | inr rest ↦ inr (inl (i, rest))
        ]
      ]
    ];
  }
    where
      next : Item
      next = record { id = e.to; depth = cur.depth + 1 }

      fresh : depth_at start s e.to ≡ none
      fresh = fresh_of out q start s e.to (λ m k. cc ((h.known e.to).1 (m, k)))

      at :
          (id : Str)
          → depth_at start (arrive cur e s) id
            ≡ (if str_eq e.to id then some (cur.depth + 1) else depth_at start s id)
      at id = depth_at-arrive out q start cur e s id fresh

      there : depth_at start (arrive cur e s) e.to ≡ some (cur.depth + 1)
      there = at e.to ∙ rw str_eq_refl

      kept :
          (id : Str) (m : ℕ)
          → depth_at start s id ≡ some m
          → depth_at start (arrive cur e s) id ≡ some m
      kept id m k = ground (arith, fresh, at id, str_eq_iff e.to id)

      old :
          (id : Str) (m : ℕ)
          → depth_at start (arrive cur e s) id ≡ some m
          → ((e.to ≡ id) × (m ≡ cur.depth + 1)) ⊎ (depth_at start s id ≡ some m)
      old id m k = ground (arith, at id, str_eq_iff e.to id)

      known-new :
          (id : Str)
          → seen (arrive cur e s) id ≡ true
          → (m : ℕ) × (depth_at start (arrive cur e s) id ≡ some m)
      known-new id w = elim (Bool-cases (str_eq e.to id)) [
        | inl y ↦ (cur.depth + 1, at id ∙ rw y)
        | inr other ↦
            let (m, k) = (h.known id).0 (ground (arith, str_eq_iff e.to id, str_eq_iff id e.to)) in
            (m, kept id m k)
      ]

      known-old :
          (id : Str)
          → (m : ℕ) × (depth_at start (arrive cur e s) id ≡ some m)
          → seen (arrive cur e s) id ≡ true
      known-old id (m, k) = elim (old id m k) [
        | inl (i, j) ↦ rw (← i, str_eq_refl)
        | inr p ↦ ground (arith, (h.known id).1 (m, p))
      ]

      grows : length (insert e.to (cur.depth + 1) s.depth_of) ≡ length s.depth_of + 1
      grows =
          rw (length-insert e.to (cur.depth + 1) s.depth_of, fresh-lookup out q start s e.to fresh)

  -- One edge of the loop.
  pub scan_edge-Good :
      (c : ℕ) (cur : Item) (e : Edge) (es : List Edge) (s : Search)
      → Inv out q start c cur (e ∷ es) s
      → Good out q start c cur es (scan_edge q cur e s)
  scan_edge-Good c cur e es s h =
      scan_edge-rule q cur e s (Good out q start c cur es) (Inv-skip c cur e es s h)
        (Inv-Ended out q start c cur (e ∷ es) s h) (λ d. Inv-beyond c cur e es s h)
        (Inv-arrive c cur e es s h)
