-- ===== src/Tests/Graph.antt =====
-- The theorems on the knowledge graph, at a graph of three nodes.
use mathlib.Core.List.{Memᴰ}
use open_mal_lab.Common.Sorting.{place, sorted, str_lt}
use open_mal_lab.Common.{
  ℕ, ◌≤◌, ◌≡◌, ◌≢◌, refl, ap, Bool, true, false, Str, List, [], ◌∷◌, some, lit, str_eq, length, All,
}
use open_mal_lab.Common.Assoc.{lookup, insert}
use open_mal_lab.Common.Utf8.{has_control}
use open_mal_lab.Knowledge.Platform.{hex, short_sum}
use open_mal_lab.Knowledge.Store.{ingest, curated}
use open_mal_lab.Knowledge.GraphStore.{
  Node, Edge, MemGraph, get_node, get_edge, adjacent, edges_of, out_edges, new_mem_graph_with_cap,
  merge_node, commit_node, merge_edge, commit_edge, write_edge, add_id,
}
use open_mal_lab.Knowledge.Graph.{
  node_id, node, normalize_node_key, known_node_kind, valid_node_key, known_rel, edge_id,
  link_curated, observe, link, after_from, after_to, join_nodes, put_node, check_node, decide_node,
  decide_edge, lift_full,
}
use open_mal_lab.Knowledge.Graph.Walk.{
  Query, Reached, TraversalResult, related, query_of, keep_known, answer, collect, walk, rounds,
  scan, scan_edge, reach_edge, follows,
}
use open_mal_lab.Knowledge.Graph.Walk.Invariant.{Route, here, step}
use open_mal_lab.Knowledge.Graph.Walk.Shortest.{walk_ends, walk_shortest}
use open_mal_lab.Knowledge.Graph.Walk.Answers.{IsBacked, related_sound, related_complete}
use open_mal_lab.Knowledge.Graph.Guard.Writes.{
  GraphWrite, linking, observing, noticing, apply_write, replay_graph,
}
use open_mal_lab.Knowledge.Graph.Guard.Index.{edge_in_out_edges}
use open_mal_lab.Knowledge.Graph.Guard.Poisoning.{
  Keeps, WasLinked, observations-Keeps, curated_edge-WasLinked,
}
use open_mal_lab.Tests.Samples.{platform}

-- The id of the family `key`.
abbrev id_of : Str → Str
id_of key = node_id platform (lit "family") key

abbrev family : Str → Node
family key = record {
  id = id_of key;
  kind = lit "family";
  key = key;
  label = [];
  attrs = [];
  trust = curated;
  source = [];
}

abbrev ab : Edge
ab = record {
  id = lit "e1";
  from = id_of (lit "a");
  to = id_of (lit "b");
  rel = lit "uses";
  trust = curated;
  source = [];
}

abbrev bc : Edge
bc = record {
  id = lit "e2";
  from = id_of (lit "b");
  to = id_of (lit "c");
  rel = lit "uses";
  trust = ingest;
  source = [];
}

abbrev graph : MemGraph
graph = record {
  nodes =
      (id_of (lit "a"), family (lit "a"))
      ∷ (id_of (lit "b"), family (lit "b"))
      ∷ (id_of (lit "c"), family (lit "c"))
      ∷ [];
  edges = (lit "e1", ab) ∷ (lit "e2", bc) ∷ [];
  out_adj = (id_of (lit "a"), lit "e1" ∷ []) ∷ (id_of (lit "b"), lit "e2" ∷ []) ∷ [];
  max = 10;
}

abbrev query : Query
query = query_of [] 3 5 false

walk_ends_example :
    (a : List (Str × ℕ) × Bool) × (walk (out_edges graph) query (id_of (lit "a")) ≡ some a)
    × (length a.0 ≤ query.max_nodes)
walk_ends_example = walk_ends (out_edges graph) query (id_of (lit "a"))

abbrev depths : List (Str × ℕ)
depths = (id_of (lit "b"), 1) ∷ (id_of (lit "c"), 2) ∷ []

walked : walk (out_edges graph) query (id_of (lit "a")) ≡ some (depths, false)
unfolding walk rounds scan scan_edge reach_edge follows sorted place str_lt out_edges edges_of
    adjacent lookup insert str_eq node_id short_sum hex lit query_of get_edge
walked = refl

path : Route (out_edges graph) query (id_of (lit "a")) (id_of (lit "c")) 2
unfolding follows out_edges edges_of adjacent lookup str_eq node_id short_sum hex lit query_of
    get_edge
path = step bc (step ab here (Memᴰ.head refl) refl) (Memᴰ.head refl) refl

differ : false ≢ true
differ e = cc

other : id_of (lit "c") ≢ id_of (lit "a")
unfolding node_id short_sum hex lit str_eq
other e = differ (ap (λ (s : Str). str_eq s (id_of (lit "a"))) e)

walk_shortest_example :
    ((n : ℕ)
      → lookup (id_of (lit "c")) depths ≡ some n
      → Route (out_edges graph) query (id_of (lit "a")) (id_of (lit "c")) n × (n ≤ query.max_depth))
    × (false ≡ false
        → (n : ℕ) → Route (out_edges graph) query (id_of (lit "a")) (id_of (lit "c")) n
        → (m : ℕ) × (lookup (id_of (lit "c")) depths ≡ some m) × (m ≤ n))
walk_shortest_example =
    walk_shortest (out_edges graph) query (id_of (lit "a")) depths false (id_of (lit "c")) walked
      other

known : node platform graph (lit "family") (lit "a") ≡ some (family (lit "a"))
unfolding node known_node_kind normalize_node_key valid_node_key has_control get_node lookup str_eq
    node_id short_sum hex lit
known = refl

related_sound_example :
    (r : TraversalResult) × (related platform graph (lit "family") (lit "a") [] 3 5 ≡ some r)
    × (length r.reached ≤ query.max_nodes)
    × All (IsBacked graph query (query_of [] 3 5 true) (id_of (lit "a"))) r.reached
related_sound_example =
    related_sound platform graph (lit "family") (lit "a") [] 3 5 (family (lit "a")) known

abbrev found : TraversalResult
found = record {
  reached =
      record { node = family (lit "b"); depth = 1; path_curated = true }
      ∷ record { node = family (lit "c"); depth = 2; path_curated = false }
      ∷ [];
  truncated = false;
}

asked : related platform graph (lit "family") (lit "a") [] 3 5 ≡ some found
unfolding related node known_node_kind normalize_node_key valid_node_key has_control get_node answer
    collect keep_known walk rounds scan scan_edge reach_edge follows sorted place str_lt out_edges
    edges_of adjacent lookup insert str_eq node_id short_sum hex lit query_of get_edge
asked = refl

related_complete_example :
    (x : Reached) × Memᴰ x found.reached × (x.node ≡ family (lit "c")) × (x.depth ≤ 2)
related_complete_example =
    related_complete platform graph (lit "family") (lit "a") [] 3 5 (family (lit "a")) found
      (id_of (lit "c")) 2 (family (lit "c")) known asked refl other path
      (unfold get_node in
        unfold lookup in
        unfold str_eq in unfold node_id in unfold short_sum in unfold hex in unfold lit in refl)

-- A `Link` of two families, and then an `Observe` of the same relation.
abbrev writes : List GraphWrite
writes =
    linking (lit "family") (lit "a") (lit "uses") (lit "family") (lit "b") []
    ∷ observing (lit "family") (lit "a") (lit "uses") (lit "family") (lit "b") []
    ∷ []

abbrev linked : Edge
linked = record {
  id = edge_id platform (id_of (lit "a")) (lit "uses") (id_of (lit "b"));
  from = id_of (lit "a");
  to = id_of (lit "b");
  rel = lit "uses";
  trust = curated;
  source = [];
}

stored : get_edge (replay_graph platform (new_mem_graph_with_cap 10) writes) linked.id ≡ some linked
unfolding replay_graph apply_write link_curated observe link after_from after_to join_nodes put_node
    check_node decide_node decide_edge lift_full merge_node commit_node merge_edge commit_edge
    write_edge add_id known_rel new_mem_graph_with_cap known_node_kind normalize_node_key
    valid_node_key has_control get_node adjacent lookup insert str_eq node_id edge_id short_sum hex
    lit get_edge
stored = refl

edge_in_out_edges_example :
    (linked.id ≡ linked.id)
    × (linked.id ≡ edge_id platform linked.from linked.rel linked.to)
    × Memᴰ linked (out_edges (replay_graph platform (new_mem_graph_with_cap 10) writes) linked.from)
edge_in_out_edges_example = edge_in_out_edges platform 10 writes linked.id linked stored

curated_edge-WasLinked_example : WasLinked platform linked writes
curated_edge-WasLinked_example =
    curated_edge-WasLinked platform 10 writes linked.id linked stored refl

abbrev noticed : List GraphWrite
noticed =
    noticing (lit "family") (lit "a") (lit "benign") []
    ∷ observing (lit "family") (lit "a") (lit "uses") (lit "family") (lit "b") []
    ∷ []

observations-Keeps_example : Keeps graph (replay_graph platform graph noticed)
observations-Keeps_example = observations-Keeps platform noticed graph (refl, (refl, tt))
