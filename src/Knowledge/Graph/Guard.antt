-- ===== src/Knowledge/Graph/Guard.antt =====
-- internal/knowledge/graph.go: what the writes of nodes and relations keep.
pub mod Merge
pub mod Writes
pub mod Index
pub mod Poisoning
pub mod Tiers
use open_mal_lab.Common.{
  ◌≡◌, refl, sym, ◌∙◌, Bool, true, false, Str, List, [], ◌∷◌, Option, none, some, arith, str_eq,
  str_eq_iff, ltb, length, leb, not, ◌||◌, ◌&&◌, Bool-cases, inl, inr, if◌then◌else◌,
}
use open_mal_lab.Common.Utf8.{has_control}
use open_mal_lab.Common.Assoc.{lookup, insert, lookup-insert}
use open_mal_lab.Common.Result.{Result, ok, err}
use open_mal_lab.Knowledge.Platform.{Platform}
use open_mal_lab.Knowledge.Similarity.{max_source_len}
use open_mal_lab.Knowledge.Store.{Trust, is_curated}
use open_mal_lab.Knowledge.GraphStore.{
  Node, Edge, MemGraph, GraphFull, get_node, merge_node, commit_node, get_edge, write_edge,
  commit_edge, merge_edge, max_ingest_out_degree, adjacent,
}
use open_mal_lab.Knowledge.Graph.{
  GraphError, known_rel, node_id, edge_id, normalize_node_key, check_node, decide_node, lift_full,
  put_node, decide_edge, join_nodes, after_to, after_from, link,
}
use open_mal_lab.Knowledge.Graph.Guard.Merge.{IsKeyed, merge_node-IsKeyed, merge_node-id}

lift_full-graph :
    {A : Type 0} (P : MemGraph → Type 0) (t : Result GraphFull A × MemGraph)
    → P t.1
    → P (lift_full t).1
unfolding lift_full
lift_full-graph P (ok a, g) p = p
lift_full-graph P (err e, g) p = p

lift_full-ok :
    (n : Node) (t : Result GraphFull Node × MemGraph) → (lift_full t).0 ≡ ok n → t.0 ≡ ok n
unfolding lift_full
lift_full-ok n (ok a, g) p = cc
lift_full-ok n (err e, g) p = cc

module _ (go : Platform) (m : MemGraph) (kind key label : Str) (attrs : List (Str × Str))
    (source : Str) (trust : Trust) (only : Bool) where
  -- The node that `putNode` makes, and the merge of it.
  abbrev incoming : Node
  incoming = record {
    id = node_id go kind (normalize_node_key go kind key);
    kind = kind;
    key = normalize_node_key go kind key;
    label = go.trim_space label;
    attrs = attrs;
    trust = trust;
    source = source;
  }

  -- What the merge gives, or an error that leaves the graph as it is, `putNode` gives.
  pub put_node-rule :
      (Q : Result GraphError Node × MemGraph → Type 0)
      → ((e : GraphError) → Q (err e, m))
      → Q (lift_full (merge_node m incoming.id (decide_node trust only incoming)))
      → Q (put_node go m kind key label attrs source trust only)
  unfolding put_node
  put_node-rule Q stop made = by_check (check_node kind incoming.key label attrs source)
    where
      by_check :
          (c : Result GraphError (Unit {0}))
          → Q (elim c as (λ _. Result GraphError Node × MemGraph) [
            | err e ↦ (err e, m)
            | ok _ ↦ lift_full (merge_node m incoming.id (decide_node trust only incoming))
          ])
      by_check (err e) = stop e
      by_check (ok u) = made

  pub put_node-graph :
      (P : MemGraph → Type 0)
      → P m
      → ((f : Node) → f.trust ≡ trust → P (merge_node m f.id (decide_node trust only f)).1)
      → P (put_node go m kind key label attrs source trust only).1
  put_node-graph P h k =
      put_node-rule (λ t. P t.1) (λ e. h)
        (lift_full-graph P (merge_node m incoming.id (decide_node trust only incoming))
          (k incoming refl))

  put_node-id :
      (n : Node)
      → IsKeyed m
      → (put_node go m kind key label attrs source trust only).0 ≡ ok n
      → n.id ≡ node_id go kind (normalize_node_key go kind key)
  put_node-id n h =
      put_node-rule (λ t. t.0 ≡ ok n → n.id ≡ incoming.id) (λ e k. cc)
        (λ k.
          merge_node-id m incoming n trust only h
            (lift_full-ok n (merge_node m incoming.id (decide_node trust only incoming)) k))

pub put_node-IsKeyed :
    (go : Platform) (m : MemGraph) (kind key label : Str) (attrs : List (Str × Str)) (source : Str)
    (trust : Trust) (only : Bool)
    → IsKeyed m
    → IsKeyed (put_node go m kind key label attrs source trust only).1
put_node-IsKeyed go m kind key label attrs source trust only h =
    put_node-graph go m kind key label attrs source trust only IsKeyed h
      (λ f t. merge_node-IsKeyed m f trust only h)

-- The edge joins the nodes that the arguments of `link` name.
abbrev pub Joins : Platform → Str → Str → Str → Str → Str → Edge → Type 0
Joins go from_kind from_key rel to_kind to_key e =
    (e.from ≡ node_id go from_kind (normalize_node_key go from_kind from_key))
    × (e.rel ≡ rel)
    × (e.to ≡ node_id go to_kind (normalize_node_key go to_kind to_key))

module _ (go : Platform) (from_kind from_key rel to_kind to_key source : Str) (trust : Trust)
    (P : MemGraph → Type 0)
    (on_node : (m : MemGraph) (f : Node)
      → f.trust ≡ trust
      → P m
      → P (merge_node m f.id (decide_node trust true f)).1) where
  -- A property of the graph that the merge of an edge and those of its end points keep, `link` keeps.
  pub link-graph :
      (m : MemGraph)
      → ((g : MemGraph) (e : Edge)
          → e.trust ≡ trust
          → e.id ≡ edge_id go e.from e.rel e.to
          → (IsKeyed m → Joins go from_kind from_key rel to_kind to_key e)
          → P g
          → P (merge_edge g e.id (decide_edge trust e)).1)
      → P m
      → P (link go m from_kind from_key rel to_kind to_key source trust).1
  unfolding link after_from after_to join_nodes
  link-graph m on_edge h = elim (Bool-cases (not (known_rel rel))) [
    | inl a ↦ rw a h
    | inr a ↦ elim (Bool-cases (ltb max_source_len (length source) || has_control source)) [
      | inl b ↦ rw (a, b) h
      | inr b ↦
          rw (a, b)
            (by_from (put_node go m from_kind from_key [] [] source trust true)
              (put_node-graph go m from_kind from_key [] [] source trust true P h
                (λ f t. on_node m f t h))
              (λ k. put_node-IsKeyed go m from_kind from_key [] [] source trust true k)
              (λ n k. put_node-id go m from_kind from_key [] [] source trust true n k))
    ]
  ]
    where
      by_to :
          (from : Node)
          → (IsKeyed m → from.id ≡ node_id go from_kind (normalize_node_key go from_kind from_key))
          → (t : Result GraphError Node × MemGraph) → P t.1
          → ((n : Node)
              → IsKeyed m
              → t.0 ≡ ok n
              → n.id ≡ node_id go to_kind (normalize_node_key go to_kind to_key))
          → P (after_to go from rel source trust t).1
      by_to from i (err e, g) p j = p
      by_to from i (ok to, g) p j =
          let e : Edge = record {
            id = edge_id go from.id rel to.id;
            from = from.id;
            to = to.id;
            rel = rel;
            trust = trust;
            source = source;
          } in
          lift_full-graph P (merge_edge g e.id (decide_edge trust e))
            (on_edge g e refl refl (λ k. (i k, refl, j to k refl)) p)

      by_from :
          (t : Result GraphError Node × MemGraph)
          → P t.1
          → (IsKeyed m → IsKeyed t.1)
          → ((n : Node)
              → IsKeyed m
              → t.0 ≡ ok n
              → n.id ≡ node_id go from_kind (normalize_node_key go from_kind from_key))
          → P (after_from go rel to_kind to_key source trust t).1
      by_from (err e, g) p k i = p
      by_from (ok from, g) p k i =
          by_to from (λ x. i from x refl) (put_node go g to_kind to_key [] [] source trust true)
            (put_node-graph go g to_kind to_key [] [] source trust true P p
              (λ f t. on_node g f t p))
            (λ n x. put_node-id go g to_kind to_key [] [] source trust true n (k x))
