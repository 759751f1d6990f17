-- ===== src/Knowledge/Graph/Walk.antt =====
-- internal/knowledge/graph.go: the bounded breadth-first walk, and `Related`.
pub mod Steps
pub mod Invariant
pub mod Rounds
pub mod Shortest
pub mod Collected
pub mod Answers
use open_mal_lab.Common.Sorting.{sorted, str_lt}
use open_mal_lab.Common.{
  ℕ, zero, suc, ◌+◌, Bool, true, false, not, ◌&&◌, ◌||◌, Str, List, [], ◌∷◌, ◌++◌, Option, none,
  some, ltb, leb, ◌==◌, if◌then◌else◌, length, any, str_eq,
}
use open_mal_lab.Common.Assoc.{lookup, insert}
use open_mal_lab.Knowledge.Platform.{Platform}
use open_mal_lab.Knowledge.Store.{Trust, is_curated}
use open_mal_lab.Knowledge.GraphStore.{Node, Edge, MemGraph, get_node, out_edges}
use open_mal_lab.Knowledge.Graph.{known_rel, node}

abbrev pub max_traversal_edges : ℕ
max_traversal_edges = 100_000

abbrev default_max_depth : ℕ
default_max_depth = 4

abbrev default_max_nodes : ℕ
default_max_nodes = 500

-- Which edges a walk follows, and its bounds.
pub record Query : Type 0 where
  pub allow : List Str
  pub filtered : Bool
  pub max_depth : ℕ
  pub max_nodes : ℕ
  pub curated_only : Bool

-- The negation of the first two `continue`s of the loop.
unfoldable pub follows : Query → Edge → Bool
follows q e =
    not (q.filtered && not (any (str_eq e.rel) q.allow))
    && not (q.curated_only && not (is_curated e.trust))

pub record Item : Type 0 where
  pub id : Str
  pub depth : ℕ

pub record Search : Type 0 where
  pub depth_of : List (Str × ℕ)
  pub visited : List Str
  pub queue : List Item
  pub edges : ℕ
  pub truncated : Bool

-- The loop over the edges either goes on or returns from the function, with `truncated` set.
pub data Flow : Type 0 where
  continues : Search → Flow
  returns : List (Str × ℕ) → Flow

-- The body of the loop, after the `continue`s.
unfoldable pub reach_edge : Query → Item → Edge → Search → Flow
reach_edge q cur e s =
    let counted = record s { edges = s.edges + 1 } in
    if ltb max_traversal_edges counted.edges
    then returns s.depth_of
    else if ltb q.max_depth (cur.depth + 1)
    then continues (record counted { truncated = true })
    else if leb q.max_nodes (length s.depth_of)
    then returns s.depth_of
    else continues (record counted {
      visited = e.to ∷ s.visited;
      depth_of = insert e.to (cur.depth + 1) s.depth_of;
      queue = s.queue ++ record { id = e.to; depth = cur.depth + 1 } ∷ [];
    })

unfoldable pub scan_edge : Query → Item → Edge → Search → Flow
unfolding reach_edge
scan_edge q cur e s =
    if not (follows q e)
    then continues s
    else if any (str_eq e.to) s.visited
    then continues s
    else reach_edge q cur e s

unfoldable pub scan : Query → Item → List Edge → Search → Flow
scan q cur [] s = continues s
scan q cur (e ∷ es) s = elim (scan_edge q cur e s) [
  | returns d ↦ returns d
  | continues s' ↦ scan q cur es s'
]

abbrev pub by_id : Edge → Edge → Bool
by_id a b = str_lt a.id b.id

module _ (out : Str → List Edge) where
  -- `for len(queue) > 0`; the fuel bounds the rounds, and `none` means that it ran out.
  unfoldable pub rounds : Query → ℕ → Search → List Item → Option (List (Str × ℕ) × Bool)
  unfolding scan
  rounds q fuel s [] = some (s.depth_of, s.truncated)
  rounds q zero s (cur ∷ rest) = none
  rounds q (suc fuel) s (cur ∷ rest) =
      elim (scan q cur (sorted by_id (out cur.id)) (record s { queue = rest })) [
        | returns d ↦ some (d, true)
        | continues s' ↦ rounds q fuel s' s'.queue
      ]

  abbrev pub begin : Str → Search
  begin start = record {
    depth_of = [];
    visited = start ∷ [];
    queue = record { id = start; depth = 0 } ∷ [];
    edges = 0;
    truncated = false;
  }

  -- Each round but the first takes an item that was counted in `depth_of`.
  unfoldable pub walk : Query → Str → Option (List (Str × ℕ) × Bool)
  walk q start = rounds q (suc q.max_nodes) (begin start) (begin start).queue

pub record Reached : Type 0 where
  pub node : Node
  pub depth : ℕ
  pub path_curated : Bool

pub record TraversalResult : Type 0 where
  pub reached : List Reached
  pub truncated : Bool

-- The order of the answer: by depth, then by id.
abbrev pub nearer : Str × ℕ → Str × ℕ → Bool
nearer (a, m) (b, n) = if m == n then str_lt a b else ltb m n

abbrev pub is_some : {A : Type 0} → Option A → Bool
is_some none = false
is_some (some a) = true

-- The last loop of `Related`; an id without a node is passed over.
unfoldable pub collect : MemGraph → List (Str × ℕ) → List (Str × ℕ) → List Reached
unfolding get_node
collect m curated [] = []
collect m curated ((id, d) ∷ ids) =
    let rest = collect m curated ids in
    elim (get_node m id) [
      | none ↦ rest
      | some n ↦ record { node = n; depth = d; path_curated = is_some (lookup id curated) } ∷ rest
    ]

unfoldable pub keep_known : List Str → List Str
keep_known [] = []
keep_known (r ∷ rs) = let rest = keep_known rs in if known_rel r then r ∷ rest else rest

-- A bound that is not positive means the default; a negative one is read as 0 here.
unfoldable pub query_of : List Str → ℕ → ℕ → Bool → Query
unfolding keep_known
query_of rels max_depth max_nodes curated_only = record {
  allow = keep_known rels;
  filtered = not (length rels == 0);
  max_depth = if max_depth == 0 then default_max_depth else max_depth;
  max_nodes = if max_nodes == 0 then default_max_nodes else max_nodes;
  curated_only = curated_only;
}

unfoldable pub answer :
    MemGraph
    → Option (List (Str × ℕ) × Bool)
    → Option (List (Str × ℕ) × Bool)
    → Option TraversalResult
unfolding collect sorted
answer m (some (all_depth, truncated)) (some (curated, _)) =
    some (record { reached = collect m curated (sorted nearer all_depth); truncated = truncated })
answer m _ _ = none

unfoldable pub related : Platform → MemGraph → Str → Str → List Str → ℕ → ℕ → Option TraversalResult
unfolding walk answer out_edges
related go m kind key rels max_depth max_nodes = elim (node go m kind key) [
  | none ↦ some (record { reached = []; truncated = false })
  | some start ↦
      answer m (walk (out_edges m) (query_of rels max_depth max_nodes false) start.id)
        (walk (out_edges m) (query_of rels max_depth max_nodes true) start.id)
]
