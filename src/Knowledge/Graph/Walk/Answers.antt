-- ===== src/Knowledge/Graph/Walk/Answers.antt =====
-- internal/knowledge/graph.go: the answer of `Related`.
use mathlib.Core.List.{Memᴰ}
use mathlib.Core.Path.{subst}
use mathlib.Core.Option.{some-injective}
use open_mal_lab.Common.Sorting.{in_sorted, length-sorted, sorted}
use open_mal_lab.Common.{
  All-of_in, All-in, ℕ, ◌≤◌, ◌≡◌, ◌≢◌, refl, sym, ap, ◌∙◌, Bool, true, false, Str, List, some,
  arith, length, All, All-map,
}
use open_mal_lab.Knowledge.Platform.{Platform}
use open_mal_lab.Knowledge.GraphStore.{Node, MemGraph, get_node, out_edges}
use open_mal_lab.Knowledge.Graph.{node}
use open_mal_lab.Knowledge.Graph.Walk.{
  Query, nearer, Reached, collect, query_of, answer, related, TraversalResult,
}
use open_mal_lab.Knowledge.Graph.Walk.Invariant.{Route, Ended}
use open_mal_lab.Knowledge.Graph.Walk.Shortest.{Answered, walk-Answered, lookup_other}
use open_mal_lab.Knowledge.Graph.Walk.Collected.{
  in_lookup, Comes, collect-Comes, length-collect, in_collect, other_of,
}

-- What one answer of `Related` says: the node is the store's, a walk of the given depth over allowed
-- edges leads to it, and if its path is called curated, then a walk over curated allowed edges does.
abbrev pub IsBacked : MemGraph → Query → Query → Str → Reached → Type 0
IsBacked m q curated start x =
    (id : Str) × (get_node m id ≡ some x.node)
    × (id ≢ start)
    × Route (out_edges m) q start id x.depth
    × (x.depth ≤ q.max_depth)
    × (x.path_curated ≡ true
        → (n : ℕ) × Route (out_edges m) curated start id n × (n ≤ curated.max_depth))

module _ (go : Platform) (m : MemGraph) (kind key : Str) (rels : List Str)
    (max_depth max_nodes : ℕ) where
  abbrev all_edges : Query
  all_edges = query_of rels max_depth max_nodes false

  abbrev curated_edges : Query
  curated_edges = query_of rels max_depth max_nodes true

  -- `Related` returns, and the walk's answers are those it is made from.
  pub related_lem :
      (start : Node)
      → node go m kind key ≡ some start
      → (a b : List (Str × ℕ) × Bool) × Answered (out_edges m) all_edges start.id a
        × Answered (out_edges m) curated_edges start.id b
        × (related go m kind key rels max_depth max_nodes
            ≡ some (record { reached = collect m b.0 (sorted nearer a.0); truncated = a.1 }))
  unfolding related answer
  related_lem start e =
      let (a, k, h) = walk-Answered (out_edges m) all_edges start.id in
      let (b, k', h') = walk-Answered (out_edges m) curated_edges start.id in
      (a, b, h, h', rw (related, e, k, k', answer) refl)

  -- A listed depth, as what `IsBacked` asks of it.
  abbrev Backs : Str → Str × ℕ → Type 0
  Backs start p =
      (p.0 ≢ start) × Route (out_edges m) all_edges start p.0 p.1 × (p.1 ≤ all_edges.max_depth)

  listed-Backs :
      (start : Str) (d : List (Str × ℕ))
      → Ended (out_edges m) all_edges start d
      → All (Backs start) d
  listed-Backs start d h =
      All-map
        (λ p w.
          let (walked, le) = h.sound p.0 p.1 w.0 in (other_of start p.0 p.1 d w.0 w.1, walked, le))
        d h.listed

  IsBacked-Comes :
      (start : Str) (b : List (Str × ℕ) × Bool)
      → Answered (out_edges m) curated_edges start b
      → (x : Reached) → Comes m b.0 (Backs start) x
      → IsBacked m all_edges curated_edges start x
  IsBacked-Comes start b h x (id, e, (other, p, le), c) = (
    id,
    e,
    other,
    p,
    le,
    λ y.
        let (n, k) = c y in
        let (walked, near) = h.ended.sound id n (lookup_other start id b.0 other ∙ k) in
        (n, walked, near),
  )

  -- `Related` on a known node returns at most `max_nodes` nodes of the store, none of them the start;
  -- to each leads a walk of the depth it reports over allowed edges, and where it reports a curated
  -- path, a walk over allowed edges that are all curated leads to it, within the depth bound.
  pub related_sound :
      (start : Node)
      → node go m kind key ≡ some start
      → (r : TraversalResult) × (related go m kind key rels max_depth max_nodes ≡ some r)
        × (length r.reached ≤ all_edges.max_nodes)
        × All (IsBacked m all_edges curated_edges start.id) r.reached
  related_sound start e =
      let (a, b, h, h', k) = related_lem start e in
      (
        _,
        k,
        omega (
          arith,
          length-collect m b.0 (sorted nearer a.0),
          length-sorted nearer a.0,
          h.ended.fits,
        ),
        All-map (IsBacked-Comes start.id b h') _ (
            collect-Comes m b.0 (Backs start.id) (sorted nearer a.0) (
              All-of_in (Backs start.id) _ (λ p i.
                All-in (Backs start.id) a.0 p (listed-Backs start.id a.0 h.ended)
                  ((in_sorted nearer p a.0).0 i)))),
      )

  -- When the answer of `Related` on a known node is not truncated, it has each node of the store to which a
  -- walk over allowed edges leads, of any length, other than the start, and at a depth of at most that length:
  -- no bound is hit silently.
  pub related_complete :
      (start : Node) (r : TraversalResult) (id : Str) (n : ℕ) (found : Node)
      → node go m kind key ≡ some start
      → related go m kind key rels max_depth max_nodes ≡ some r
      → r.truncated ≡ false
      → id ≢ start.id
      → Route (out_edges m) all_edges start.id id n
      → get_node m id ≡ some found
      → (x : Reached) × Memᴰ x r.reached × (x.node ≡ found) × (x.depth ≤ n)
  related_complete start r id n found e k t other p g =
      let (a, b, h, h', k') = related_lem start e in
      let same = some-injective _ _ (sym k' ∙ k) in
      let (d, at, le) = h.complete (ap (λ (x : TraversalResult). x.truncated) same ∙ t) id n p in
      let (x, there, is, deep) =
        in_collect m b.0 id d found (sorted nearer a.0)
          ((in_sorted nearer (id, d) a.0).1
            (in_lookup id d a.0 (sym (lookup_other start.id id a.0 other) ∙ at)))
          g in
      (x, subst (λ (s : TraversalResult). Memᴰ x s.reached) same there, is, omega arith)
