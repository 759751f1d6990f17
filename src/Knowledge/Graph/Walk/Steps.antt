-- ===== src/Knowledge/Graph/Walk/Steps.antt =====
-- internal/knowledge/graph.go: the branches of the walk's loop, and the order of its queue.
use open_mal_lab.Common.{
  ◌+◌, ◌≤◌, ◌<◌, ◌≡◌, ◌⊎◌, inl, inr, Bool, true, false, Str, List, [], ◌∷◌, ◌++◌, arith, ltb, leb,
  length, any, str_eq, All, All-append, Bool-cases,
}
use open_mal_lab.Common.Assoc.{insert}
use open_mal_lab.Knowledge.GraphStore.{Edge}
use open_mal_lab.Knowledge.Graph.Walk.{
  max_traversal_edges, Query, follows, Item, Search, Flow, continues, returns, reach_edge,
  scan_edge,
}

abbrev pub seen : Search → Str → Bool
seen s id = any (str_eq id) s.visited

-- The search after it went over an edge beyond the horizon.
abbrev pub beyond : Search → Search
beyond s = record s { edges = s.edges + 1; truncated = true }

abbrev pub arrive : Item → Edge → Search → Search
arrive cur e s = record s {
  edges = s.edges + 1;
  visited = e.to ∷ s.visited;
  depth_of = insert e.to (cur.depth + 1) s.depth_of;
  queue = s.queue ++ record { id = e.to; depth = cur.depth + 1 } ∷ [];
}

-- The branches of the loop's body.
pub scan_edge-rule :
    (q : Query) (cur : Item) (e : Edge) (s : Search) (P : Flow → Type 0)
    → ((follows q e ≡ false) ⊎ (seen s e.to ≡ true) → P (continues s))
    → P (returns s.depth_of)
    → (q.max_depth < cur.depth + 1 → P (continues (beyond s)))
    → (follows q e ≡ true
        → seen s e.to ≡ false
        → cur.depth + 1 ≤ q.max_depth
        → length s.depth_of < q.max_nodes
        → P (continues (arrive cur e s)))
    → P (scan_edge q cur e s)
unfolding scan_edge reach_edge
scan_edge-rule q cur e s P skip stop far new = elim (Bool-cases (follows q e)) [
  | inr f ↦ rw f (skip (inl f))
  | inl f ↦ elim (Bool-cases (seen s e.to)) [
    | inl v ↦ rw (f, v) (skip (inr v))
    | inr v ↦ elim (Bool-cases (ltb max_traversal_edges (s.edges + 1))) [
      | inl b ↦ rw (f, v, b) stop
      | inr b ↦ elim (Bool-cases (ltb q.max_depth (cur.depth + 1))) [
        | inl d ↦ rw (f, v, b, d) (far (ground arith))
        | inr d ↦ elim (Bool-cases (leb q.max_nodes (length s.depth_of))) [
          | inl n ↦ rw (f, v, b, d, n) stop
          | inr n ↦ rw (f, v, b, d, n) (new f v (ground arith) (ground arith))
        ]
      ]
    ]
  ]
]

-- The depths are ascending along the queue.
abbrev pub IsUp : List Item → Type 0
IsUp [] = Unit
IsUp (i ∷ is) = All (λ (j : Item). i.depth ≤ j.depth) is × IsUp is

pub IsUp-snoc :
    (is : List Item) (j : Item)
    → All (λ (i : Item). i.depth ≤ j.depth) is
    → IsUp is
    → IsUp (is ++ j ∷ [])
IsUp-snoc [] j a h = (tt, tt)
IsUp-snoc (i ∷ is) j a h =
    (All-append (λ k. i.depth ≤ k.depth) is (j ∷ []) h.0 (a.0, tt), IsUp-snoc is j a.1 h.1)
