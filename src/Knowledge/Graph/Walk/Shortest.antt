-- ===== src/Knowledge/Graph/Walk/Shortest.antt =====
-- internal/knowledge/graph.go: the depths that the walk gives.
use mathlib.Core.List.{Memᴰ}
use mathlib.Core.List.Memᴰ
use mathlib.Core.Path.{subst}
use mathlib.Core.Option.{some-injective}
use open_mal_lab.Common.Sorting.{in_sorted, sorted}
use open_mal_lab.Common.{
  in_cons, All-of_in, ℕ, zero, suc, ◌≤◌, ◌≡◌, ◌≢◌, refl, ap, sym, ◌∙◌, inl, inr, Bool, true, false,
  Str, List, [], ◌∷◌, Option, some, arith, length, All, str_eq_iff, str_eq_refl,
}
use open_mal_lab.Common.Assoc.{lookup}
use open_mal_lab.Knowledge.GraphStore.{Edge}
use open_mal_lab.Knowledge.Graph.Walk.{
  Query, Item, Search, Flow, continues, returns, scan_edge, scan, by_id, rounds, begin, walk,
}
use open_mal_lab.Knowledge.Graph.Walk.Steps.{IsUp}
use open_mal_lab.Knowledge.Graph.Walk.Invariant.{
  Route, here, step, depth_at, Waits, Inv, Ended, Good, Inv-Ended,
}
use open_mal_lab.Knowledge.Graph.Walk.Rounds.{scan_edge-Good}

module _ (out : Str → List Edge) (q : Query) (start : Str) where
  scan-Good :
      (c : ℕ) (cur : Item) (es : List Edge) (s : Search)
      → Inv out q start c cur es s
      → Good out q start c cur [] (scan q cur es s)
  unfolding scan
  scan-Good c cur [] s h = h
  scan-Good c cur (e ∷ es) s h =
      by_flow (scan_edge q cur e s) (scan_edge-Good out q start c cur e es s h) (scan-Good c cur es)
    where
      by_flow :
          (t : Flow)
          → Good out q start c cur es t
          → ((s' : Search)
              → Inv out q start c cur es s'
              → Good out q start c cur [] (scan q cur es s'))
          → Good out q start c cur []
              (elim t [ returns d ↦ returns d | continues s' ↦ scan q cur es s' ])
      by_flow (continues s') g k = k s' g
      by_flow (returns d) g k = g

  Inv-pop :
      (c : ℕ) (cur i : Item) (rest : List Item) (s : Search)
      → s.queue ≡ i ∷ rest
      → Inv out q start (suc c) cur [] s
      → Inv out q start c i (sorted by_id (out i.id)) (record s { queue = rest })
  Inv-pop c cur i rest s e h = record {
    known = h.known;
    sound = λ id n k.
        ((h.sound id n k).0, (h.sound id n k).1, omega (arith, (h.sound id n k).2, later.0));
    fits = h.fits;
    listed = h.listed;
    work = omega (arith, h.work, ap length e);
    waits = waits.1;
    up = up.1;
    later = up.0;
    current = waits.0;
    remain = All-of_in _ _ (λ a m. (in_sorted by_id a (out i.id)).0 m);
    closed = λ t id n a k m fo. elim (h.closed t id n a k m fo) [
      | inl queued ↦ elim (in_cons.0 (subst (Memᴰ (record { id = id; depth = n })) e queued)) [
        | inl first ↦ inr (
            inl (
              ap (λ (j : Item). j.id) first,
              (in_sorted by_id a (out i.id)).1
                  (subst (λ x. Memᴰ a (out x)) (ap (λ (j : Item). j.id) first) m),
            ))
        | inr waiting ↦ inl waiting
      ]
      | inr (inl (_, nothing)) ↦ absurd (Memᴰ.not-nil nothing)
      | inr (inr r) ↦ inr (inr r)
    ];
  }
    where
      waits : All (Waits out q start s) (i ∷ rest)
      waits = subst (All (Waits out q start s)) e h.waits

      up : IsUp (i ∷ rest)
      up = subst IsUp e h.up

      later : All (λ (j : Item). cur.depth ≤ j.depth) (i ∷ rest)
      later = subst (All (λ (j : Item). cur.depth ≤ j.depth)) e h.later

  -- An answer of the walk: the depths are those of walks, and if nothing was cut off, each walk
  -- leads to a node whose depth is at most the walk's length.
  pub record Answered (a : List (Str × ℕ) × Bool) : Type 0 where
    pub ended : Ended out q start a.0
    pub complete :
        a.1 ≡ false
        → (id : Str) (n : ℕ) → Route out q start id n
        → (m : ℕ) × (lookup id ((start, 0) ∷ a.0) ≡ some m) × (m ≤ n)

  begin-Inv :
      Inv out q start (suc q.max_nodes) (record { id = start; depth = 0 }) [] (begin out start)
  unfolding lookup
  begin-Inv = record {
    known = λ id. (
      λ v. (0, ground (arith, str_eq_iff id start, str_eq_iff start id)),
      λ (n, k). ground (arith, str_eq_iff id start, str_eq_iff start id),
    );
    sound = λ id n k. (at_start id n k, ground arith, ground arith);
    fits = omega arith;
    listed = tt;
    work = omega arith;
    waits = (rw str_eq_refl, tt);
    up = (tt, tt);
    later = (omega arith, tt);
    current = rw str_eq_refl;
    remain = tt;
    closed = λ t id n e k m fo. inl (first id n k);
  }
    where
      zero_of :
          (id : Str) (n : ℕ) → depth_at start (begin out start) id ≡ some n → (start ≡ id) × (0 ≡ n)
      zero_of id n k = ground (arith, str_eq_iff start id)

      at_start :
          (id : Str) (n : ℕ) → depth_at start (begin out start) id ≡ some n → Route out q start id n
      at_start id n k = rw (← (zero_of id n k).0, ← (zero_of id n k).1) here

      first :
          (id : Str) (n : ℕ)
          → depth_at start (begin out start) id ≡ some n
          → Memᴰ {A = Item} (record { id = id; depth = n }) (begin out start).queue
      first id n k = Memᴰ.head (rw (← (zero_of id n k).0, ← (zero_of id n k).1))

  all_reached :
      (c : ℕ) (cur : Item) (s : Search)
      → s.queue ≡ []
      → s.truncated ≡ false
      → Inv out q start c cur [] s
      → (id : Str) (n : ℕ) → Route out q start id n
      → (m : ℕ) × (depth_at start s id ≡ some m) × (m ≤ n)
  all_reached c cur s e t h id n here = (0, unfold lookup in rw str_eq_refl, omega arith)
  all_reached c cur s e t h id n (step {id = j} {n = k} a p at fo) =
      let (m, known, le) = all_reached c cur s e t h j k p in
      elim (h.closed t j m a known at fo) [
        | inl queued ↦ absurd (Memᴰ.not-nil (subst (Memᴰ _) e queued))
        | inr (inl (_, nothing)) ↦ absurd (Memᴰ.not-nil nothing)
        | inr (inr (m', r, le')) ↦ (m', r, omega arith)
      ]

  rounds-Answered :
      (fuel : ℕ) (cur : Item) (s : Search) (queue : List Item)
      → s.queue ≡ queue
      → Inv out q start fuel cur [] s
      → (a : List (Str × ℕ) × Bool) × (rounds out q fuel s queue ≡ some a) × Answered a
  unfolding rounds
  rounds-Answered fuel cur s [] e h = (
    (s.depth_of, s.truncated),
    refl,
    record {
      ended = Inv-Ended out q start fuel cur [] s h;
      complete = λ t. all_reached fuel cur s e t h;
    },
  )
  rounds-Answered zero cur s (i ∷ rest) e h = absurd (omega (arith, h.work, h.fits, ap length e))
  rounds-Answered (suc fuel) cur s (i ∷ rest) e h =
      by_flow (scan q i (sorted by_id (out i.id)) (record s { queue = rest }))
        (scan-Good fuel i _ _ (Inv-pop fuel cur i rest s e h))
        (λ s'. rounds-Answered fuel i s' s'.queue refl)
    where
      by_flow :
          (t : Flow)
          → Good out q start fuel i [] t
          → ((s' : Search)
              → Inv out q start fuel i [] s'
              → (a : List (Str × ℕ) × Bool) × (rounds out q fuel s' s'.queue ≡ some a) × Answered a)
          → (a : List (Str × ℕ) × Bool) × (elim t as (λ _. Option (List (Str × ℕ) × Bool)) [
            | returns d ↦ some (d, true)
            | continues s' ↦ rounds out q fuel s' s'.queue
          ]
              ≡ some a)
            × Answered a
      by_flow (continues s') g k = k s' g
      by_flow (returns d) g k = ((d, true), refl, record { ended = g; complete = λ t. cc })

  pub walk-Answered : (a : List (Str × ℕ) × Bool) × (walk out q start ≡ some a) × Answered a
  unfolding walk
  walk-Answered = rounds-Answered (suc q.max_nodes) _ (begin out start) _ refl begin-Inv

-- The walk returns: the rounds allowed are enough, whatever the edges are, and it holds at most
-- `max_nodes` nodes.
pub walk_ends :
    (out : Str → List Edge) (q : Query) (start : Str)
    → (a : List (Str × ℕ) × Bool) × (walk out q start ≡ some a) × (length a.0 ≤ q.max_nodes)
walk_ends out q start = let (a, e, h) = walk-Answered out q start in (a, e, h.ended.fits)

pub Answered-walk :
    (out : Str → List Edge) (q : Query) (start : Str) (a : List (Str × ℕ) × Bool)
    → walk out q start ≡ some a
    → Answered out q start a
Answered-walk out q start a e =
    let (b, k, h) = walk-Answered out q start in
    subst (Answered out q start) (some-injective _ _ (sym k ∙ e)) h

pub lookup_other :
    (start id : Str) (d : List (Str × ℕ)) → id ≢ start → lookup id ((start, 0) ∷ d) ≡ lookup id d
unfolding lookup
lookup_other start id d other = ground (arith, str_eq_iff start id)

-- In an answer that is not truncated, a node other than the start has a depth exactly if a walk over
-- followed edges leads to it, and its depth is the length of a shortest one. In every answer a depth is the length of some
-- walk, and at most `max_depth`.
pub walk_shortest :
    (out : Str → List Edge) (q : Query) (start : Str) (d : List (Str × ℕ)) (truncated : Bool)
    (id : Str)
    → walk out q start ≡ some (d, truncated)
    → id ≢ start
    → ((n : ℕ) → lookup id d ≡ some n → Route out q start id n × (n ≤ q.max_depth))
      × (truncated ≡ false
          → (n : ℕ) → Route out q start id n
          → (m : ℕ) × (lookup id d ≡ some m) × (m ≤ n))
walk_shortest out q start d truncated id e other =
    let same = lookup_other start id d other in
    let h = Answered-walk out q start (d, truncated) e in
    (
      λ n k. h.ended.sound id n (same ∙ k),
      λ t n p. let (m, k, le) = h.complete t id n p in (m, sym same ∙ k, le),
    )
