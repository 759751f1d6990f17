-- ===== src/Knowledge/Graph/Walk/Invariant.antt =====
-- internal/knowledge/graph.go: the invariant of the walk.
use mathlib.Core.List.{Memᴰ}
use open_mal_lab.Common.{
  Option-cases, ℕ, ◌+◌, ◌≤◌, ◌≡◌, ◌≢◌, ◌⊎◌, ◌↔◌, inl, inr, true, false, Str, List, ◌∷◌, Option,
  none, some, arith, length, str_eq, str_eq_iff, All, if◌then◌else◌,
}
use open_mal_lab.Common.Assoc.{lookup, lookup-insert}
use open_mal_lab.Knowledge.GraphStore.{Edge}
use open_mal_lab.Knowledge.Graph.Walk.{Query, follows, Item, Search, Flow, continues, returns}
use open_mal_lab.Knowledge.Graph.Walk.Steps.{seen, arrive, IsUp}

-- A walk of `n` edges from `start` to a node, over edges that the query follows.
pub data Route (out : Str → List Edge) (q : Query) (start : Str) : Str → ℕ → Type 0 where
  here : Route out q start start 0
  step :
      {id : Str} {n : ℕ} (e : Edge)
      → Route out q start id n
      → Memᴰ e (out id)
      → follows q e ≡ true
      → Route out q start e.to (n + 1)

-- The depth that the walk gave to a node; the start has depth 0.
abbrev pub depth_at : Str → Search → Str → Option ℕ
depth_at start s id = lookup id ((start, 0) ∷ s.depth_of)

module _ (out : Str → List Edge) (q : Query) (start : Str) where
  abbrev pub Relaxed : Search → ℕ → Edge → Type 0
  Relaxed s n e = (m : ℕ) × (depth_at start s e.to ≡ some m) × (m ≤ n + 1)

  abbrev pub Waits : Search → Item → Type 0
  Waits s i = depth_at start s i.id ≡ some i.depth

  -- An edge out of a known node leads to a known node, or the node is queued, or the edge is one of
  -- the edges `es` of the current node `cur` that the loop has not come to.
  abbrev pub Closed : Item → List Edge → Search → Type 0
  Closed cur es s =
      (id : Str) (n : ℕ) (e : Edge)
      → depth_at start s id ≡ some n
      → Memᴰ e (out id)
      → follows q e ≡ true
      → Memᴰ {A = Item} (record { id = id; depth = n }) s.queue
        ⊎ ((id ≡ cur.id) × Memᴰ e es)
        ⊎ Relaxed s n e

  -- The state of the walk when the edges `es` of `cur` remain and `c` rounds are left.
  pub record Inv (c : ℕ) (cur : Item) (es : List Edge) (s : Search) : Type 0 where
    pub known : (id : Str) → (seen s id ≡ true) ↔ ((n : ℕ) × (depth_at start s id ≡ some n))
    pub sound :
        (id : Str) (n : ℕ)
        → depth_at start s id ≡ some n
        → Route out q start id n × (n ≤ q.max_depth) × (n ≤ cur.depth + 1)
    pub fits : length s.depth_of ≤ q.max_nodes
    pub listed : All (λ (p : Str × ℕ). (depth_at start s p.0 ≡ some p.1) × (1 ≤ p.1)) s.depth_of
    pub work : length s.queue + q.max_nodes ≤ c + length s.depth_of
    pub waits : All (Waits s) s.queue
    pub up : IsUp s.queue
    pub later : All (λ (i : Item). cur.depth ≤ i.depth) s.queue
    pub current : Waits s cur
    pub remain : All (λ (e : Edge). Memᴰ e (out cur.id)) es
    pub closed : s.truncated ≡ false → Closed cur es s

  -- What holds when the function returns in the middle of the loop.
  pub record Ended (d : List (Str × ℕ)) : Type 0 where
    pub sound :
        (id : Str) (n : ℕ)
        → lookup id ((start, 0) ∷ d) ≡ some n
        → Route out q start id n × (n ≤ q.max_depth)
    pub fits : length d ≤ q.max_nodes
    pub listed : All (λ (p : Str × ℕ). (lookup p.0 ((start, 0) ∷ d) ≡ some p.1) × (1 ≤ p.1)) d

  abbrev pub Good : ℕ → Item → List Edge → Flow → Type 0
  Good c cur es (continues s) = Inv c cur es s
  Good c cur es (returns d) = Ended d

  pub Inv-Ended :
      (c : ℕ) (cur : Item) (es : List Edge) (s : Search) → Inv c cur es s → Ended s.depth_of
  Inv-Ended c cur es s h = record {
    sound = λ id n e. ((h.sound id n e).0, (h.sound id n e).1);
    fits = h.fits;
    listed = h.listed;
  }

  pub depth_unique :
      (s : Search) (id : Str) {m n : ℕ}
      → depth_at start s id ≡ some m
      → depth_at start s id ≡ some n
      → m ≡ n
  depth_unique s id h k = cc

  pub fresh_of :
      (s : Search) (id : Str)
      → ((n : ℕ) → depth_at start s id ≢ some n)
      → depth_at start s id ≡ none
  fresh_of s id un = elim (Option-cases (depth_at start s id)) [
    | inl e ↦ e
    | inr (n, e) ↦ absurd (un n e)
  ]

  pub fresh-lookup :
      (s : Search) (id : Str) → depth_at start s id ≡ none → lookup id s.depth_of ≡ none
  unfolding lookup
  fresh-lookup s id h = ground arith

  -- A new node leaves the depths of the others.
  pub depth_at-arrive :
      (cur : Item) (e : Edge) (s : Search) (id : Str)
      → depth_at start s e.to ≡ none
      → depth_at start (arrive cur e s) id
        ≡ (if str_eq e.to id then some (cur.depth + 1) else depth_at start s id)
  unfolding lookup
  depth_at-arrive cur e s id h = ground (
    arith,
    lookup-insert e.to id (cur.depth + 1) s.depth_of,
    str_eq_iff e.to id,
    str_eq_iff start id,
    str_eq_iff start e.to,
  )
