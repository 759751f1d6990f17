-- ===== src/Knowledge/Graph/Guard/Poisoning.antt =====
-- internal/knowledge/graph.go: curated nodes and edges under sequences of writes.
use mathlib.Core.Path.{subst}
use open_mal_lab.Common.{
  ℕ, ◌≡◌, ◌⊎◌, inl, inr, ap, sym, ◌∙◌, Bool, true, false, Str, List, [], ◌∷◌, some, arith, All,
  str_eq_iff,
}
use open_mal_lab.Common.Assoc.{lookup, lookup-insert}
use open_mal_lab.Knowledge.Platform.{Platform}
use open_mal_lab.Knowledge.Store.{Trust, ingest, curated}
use open_mal_lab.Knowledge.GraphStore.{
  Node, Edge, MemGraph, get_node, get_edge, commit_node, merge_node, write_edge, commit_edge,
  merge_edge, new_mem_graph_with_cap,
}
use open_mal_lab.Knowledge.Graph.{
  decide_node, decide_edge, add_node, observe_node, link_curated, observe,
}
use open_mal_lab.Knowledge.Graph.Guard.Merge.{
  IsKeyed, merge_node-IsKeyed, merge_node-rule, merge_edge-rule,
}
use open_mal_lab.Knowledge.Graph.Guard.{put_node-graph, Joins, link-graph}
use open_mal_lab.Knowledge.Graph.Guard.Index.{get_edge-write}
use open_mal_lab.Knowledge.Graph.Guard.Writes.{
  GraphWrite, adding, noticing, linking, observing, trust_of, apply_write, apply_write-keeps,
  replay_graph,
}

-- Curated nodes and edges of the first graph are in the second, unchanged.
pub record Keeps (m g : MemGraph) : Type 0 where
  pub nodes :
      (id : Str) (n : Node) → get_node m id ≡ some n → n.trust ≡ curated → get_node g id ≡ some n
  pub edges :
      (id : Str) (e : Edge) → get_edge m id ≡ some e → e.trust ≡ curated → get_edge g id ≡ some e

merge_node-Keeps :
    (m g : MemGraph) (f : Node) (only : Bool)
    → f.trust ≡ ingest
    → Keeps m g
    → Keeps m (merge_node g f.id (decide_node ingest only f)).1
merge_node-Keeps m g f only t h = record {
  nodes = λ id n k c. kept id n (h.nodes id n k c) c;
  edges =
      merge_node-rule g f ingest only
        (λ x.
          (id : Str) (e : Edge)
          → get_edge m id ≡ some e
          → e.trust ≡ curated
          → get_edge x id ≡ some e)
        h.edges (unfold get_edge in h.edges);
}
  where
    kept :
        (id : Str) (n : Node)
        → get_node g id ≡ some n
        → n.trust ≡ curated
        → get_node (merge_node g f.id (decide_node ingest only f)).1 id ≡ some n
    kept id n k c =
        unfold merge_node in
        unfold get_node in
        unfold decide_node in
        unfold commit_node in ground (arith, lookup-insert f.id id f g.nodes, str_eq_iff f.id id)

merge_edge-Keeps :
    (m g : MemGraph) (e : Edge)
    → e.trust ≡ ingest
    → Keeps m g
    → Keeps m (merge_edge g e.id (decide_edge ingest e)).1
merge_edge-Keeps m g e t h = record {
  nodes =
      merge_edge-rule g e ingest
        (λ x.
          (id : Str) (n : Node)
          → get_node m id ≡ some n
          → n.trust ≡ curated
          → get_node x id ≡ some n)
        h.nodes (unfold get_node in unfold write_edge in h.nodes);
  edges = λ id x k c. kept id x (h.edges id x k c) c;
}
  where
    kept :
        (id : Str) (x : Edge)
        → get_edge g id ≡ some x
        → x.trust ≡ curated
        → get_edge (merge_edge g e.id (decide_edge ingest e)).1 id ≡ some x
    kept id x k c =
        unfold merge_edge in
        unfold get_edge in
        unfold decide_edge in
        unfold commit_edge in
        unfold write_edge in ground (arith, lookup-insert e.id id e g.edges, str_eq_iff e.id id)

abbrev pub IsObservation : GraphWrite → Type 0
IsObservation w = trust_of w ≡ ingest

pub apply-Keeps :
    (go : Platform) (m g : MemGraph) (w : GraphWrite)
    → IsObservation w
    → Keeps m g
    → Keeps m (apply_write go g w)
apply-Keeps go m g w o =
    apply_write-keeps go (Keeps m) w (λ x f only t. rw o (merge_node-Keeps m x f only (t ∙ o)))
      (λ x e t i. rw o (merge_edge-Keeps m x e (t ∙ o))) g

replay-Keeps :
    (go : Platform) (ws : List GraphWrite) (m g : MemGraph)
    → All IsObservation ws
    → Keeps m g
    → Keeps m (replay_graph go g ws)
unfolding replay_graph
replay-Keeps go [] m g o h = h
replay-Keeps go (w ∷ ws) m g o h =
    replay-Keeps go ws m (apply_write go g w) o.1 (apply-Keeps go m g w o.0 h)

-- Observations of nodes and relations, however many and with whatever arguments, leave every curated
-- node and every curated edge as it is.
pub observations-Keeps :
    (go : Platform) (ws : List GraphWrite) (m : MemGraph)
    → All IsObservation ws
    → Keeps m (replay_graph go m ws)
observations-Keeps go ws m o =
    replay-Keeps go ws m m o (record { nodes = λ id n k c. k; edges = λ id e k c. k })

-- The write is a `Link` of the nodes that the edge joins, by its relation.
abbrev pub Links : Platform → Edge → GraphWrite → Type 0
Links go e (adding _ _ _ _ _) = ⊥
Links go e (noticing _ _ _ _) = ⊥
Links go e (linking fk fkey rel tk tkey _) = Joins go fk fkey rel tk tkey e
Links go e (observing _ _ _ _ _ _) = ⊥

abbrev pub WasLinked : Platform → Edge → List GraphWrite → Type 0
WasLinked go e [] = ⊥
WasLinked go e (w ∷ ws) = Links go e w ⊎ WasLinked go e ws

pub merge_edge-curated :
    (g : MemGraph) (e x : Edge) (trust : Trust) (id : Str)
    → e.trust ≡ trust
    → get_edge (merge_edge g e.id (decide_edge trust e)).1 id ≡ some x
    → x.trust ≡ curated
    → (e ≡ x) × (trust ≡ curated) ⊎ (get_edge g id ≡ some x)
merge_edge-curated g e x trust id t =
    merge_edge-rule g e trust
      (λ y.
        get_edge y id ≡ some x
        → x.trust ≡ curated
        → (e ≡ x) × (trust ≡ curated) ⊎ (get_edge g id ≡ some x))
      (λ k c. inr k)
      (λ k c. elim (get_edge-write g e x id k) [
        | inl (_, is) ↦ inl (is, sym t ∙ ap (λ (y : Edge). y.trust) is ∙ c)
        | inr old ↦ inr old
      ])

module _ (go : Platform) (id : Str) (x : Edge) (c : x.trust ≡ curated) where
  -- The edge is in the graph only by `L`, or was in it before.
  abbrev Only : Type 0 → MemGraph → MemGraph → Type 0
  Only L m g = get_edge g id ≡ some x → L ⊎ (get_edge m id ≡ some x)

  merge_node-Only :
      (L : Type 0) (m g : MemGraph) (f : Node) (trust : Trust) (only : Bool)
      → Only L m g
      → Only L m (merge_node g f.id (decide_node trust only f)).1
  merge_node-Only L m g f trust only h =
      merge_node-rule g f trust only (Only L m) h (unfold get_edge in h)

  apply-Only :
      (m : MemGraph) (w : GraphWrite) → IsKeyed m → Only (Links go x w) m (apply_write go m w)
  unfolding apply_write add_node observe_node link_curated observe
  apply-Only m (adding kind key label attrs source) h =
      put_node-graph go m kind key label attrs source curated false (Only ⊥ m) inr
        (λ f t. merge_node-Only ⊥ m m f curated false inr)
  apply-Only m (noticing kind key label source) h =
      put_node-graph go m kind key label [] source ingest false (Only ⊥ m) inr
        (λ f t. merge_node-Only ⊥ m m f ingest false inr)
  apply-Only m (linking fk fkey rel tk tkey source) h =
      link-graph go fk fkey rel tk tkey source curated (Only (Joins go fk fkey rel tk tkey x) m)
        (λ g f t. merge_node-Only _ m g f curated true) m
        (λ g e t i j p k. elim (merge_edge-curated g e x curated id t k c) [
          | inl (is, _) ↦ inl (subst (Joins go fk fkey rel tk tkey) is (j h))
          | inr old ↦ p old
        ])
        inr
  apply-Only m (observing fk fkey rel tk tkey source) h =
      link-graph go fk fkey rel tk tkey source ingest (Only ⊥ m)
        (λ g f t. merge_node-Only ⊥ m g f ingest true) m
        (λ g e t i j p k. elim (merge_edge-curated g e x ingest id t k c) [
          | inl (_, other) ↦ cc
          | inr old ↦ p old
        ])
        inr

  apply-IsKeyed : (m : MemGraph) (w : GraphWrite) → IsKeyed m → IsKeyed (apply_write go m w)
  apply-IsKeyed m w h =
      apply_write-keeps go IsKeyed w (λ g f only t. merge_node-IsKeyed g f (trust_of w) only)
        (λ g e t i k.
          merge_edge-rule g e (trust_of w) IsKeyed k (unfold write_edge in unfold get_node in k))
        m h

  replay-Only :
      (ws : List GraphWrite) (m : MemGraph)
      → IsKeyed m
      → Only (WasLinked go x ws) m (replay_graph go m ws)
  unfolding replay_graph
  replay-Only [] m h k = inr k
  replay-Only (w ∷ ws) m h k = elim (replay-Only ws (apply_write go m w) (apply-IsKeyed m w h) k) [
    | inl later ↦ inl (inr later)
    | inr now ↦ elim (apply-Only m w h now) [ inl made ↦ inl (inl made) | inr old ↦ inr old ]
  ]

-- In a graph that any writes made from an empty one, a curated edge was linked: one of the writes is a `Link` by its relation, of the
-- two nodes that it joins. No observation makes an edge curated.
pub curated_edge-WasLinked :
    (go : Platform) (max : ℕ) (ws : List GraphWrite) (id : Str) (x : Edge)
    → get_edge (replay_graph go (new_mem_graph_with_cap max) ws) id ≡ some x
    → x.trust ≡ curated
    → WasLinked go x ws
curated_edge-WasLinked go max ws id x k c =
    elim (replay-Only go id x c ws (new_mem_graph_with_cap max)
      (unfold get_node in unfold new_mem_graph_with_cap in unfold lookup in λ id n e. cc) k) [
        | inl made ↦ made
        | inr old ↦ absurd (unfold get_edge in unfold new_mem_graph_with_cap in unfold lookup in cc)
      ]
