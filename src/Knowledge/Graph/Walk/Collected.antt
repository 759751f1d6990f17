-- ===== src/Knowledge/Graph/Walk/Collected.antt =====
-- internal/knowledge/graph.go: the loop of `Related` that looks the nodes up.
use mathlib.Core.List.{Memᴰ}
use mathlib.Core.List.Memᴰ
use mathlib.Core.Option.{some-injective}
use open_mal_lab.Common.{
  in_cons, ℕ, ◌≤◌, ◌≡◌, ◌≢◌, refl, sym, ap, ◌∙◌, true, Str, List, [], ◌∷◌, Option, none, some,
  arith, length, All, str_eq, str_eq_iff, Bool-cases, inl, inr,
}
use open_mal_lab.Common.Assoc.{lookup}
use open_mal_lab.Knowledge.GraphStore.{Node, MemGraph, get_node}
use open_mal_lab.Knowledge.Graph.Walk.{Reached, is_some, collect}

pub in_lookup : (id : Str) (n : ℕ) (d : List (Str × ℕ)) → lookup id d ≡ some n → Memᴰ (id, n) d
unfolding lookup
in_lookup id n [] h = cc
in_lookup id n ((j, m) ∷ d) h = elim (Bool-cases (str_eq j id)) [
  | inl e ↦ Memᴰ.head (ground (arith, str_eq_iff j id))
  | inr e ↦ Memᴰ.tail (in_lookup id n d (rw e at h))
]

module _ (m : MemGraph) (curated : List (Str × ℕ)) where
  -- What `collect` says of a node, from its entry among the depths.
  abbrev pub Comes : (Str × ℕ → Type 0) → Reached → Type 0
  Comes P x =
      (id : Str) × (get_node m id ≡ some x.node)
      × P (id, x.depth)
      × (x.path_curated ≡ true → (n : ℕ) × (lookup id curated ≡ some n))

  pub is_some-lookup :
      (id : Str) → is_some (lookup id curated) ≡ true → (n : ℕ) × (lookup id curated ≡ some n)
  is_some-lookup id h = by_depth (lookup id curated) refl h
    where
      by_depth :
          (o : Option ℕ)
          → lookup id curated ≡ o
          → is_some o ≡ true
          → (n : ℕ) × (lookup id curated ≡ some n)
      by_depth none e h = cc
      by_depth (some n) e h = (n, e)

  pub collect-Comes :
      (P : Str × ℕ → Type 0) (ids : List (Str × ℕ))
      → All P ids
      → All (Comes P) (collect m curated ids)
  unfolding collect
  collect-Comes P [] h = tt
  collect-Comes P ((id, d) ∷ ids) h = by_node (get_node m id) refl (collect-Comes P ids h.1)
    where
      by_node :
          (o : Option Node)
          → get_node m id ≡ o
          → All (Comes P) (collect m curated ids)
          → All (Comes P) (elim o as (λ _. List Reached) [
            | none ↦ collect m curated ids
            | some n ↦
                record { node = n; depth = d; path_curated = is_some (lookup id curated) }
                ∷ collect m curated ids
          ])
      by_node none e rest = rest
      by_node (some n) e rest = ((id, e, h.0, λ c. is_some-lookup id c), rest)

  pub length-collect : (ids : List (Str × ℕ)) → length (collect m curated ids) ≤ length ids
  unfolding collect
  length-collect [] = omega arith
  length-collect ((id, d) ∷ ids) = ground (arith, length-collect ids)

  pub in_collect :
      (id : Str) (d : ℕ) (n : Node) (ids : List (Str × ℕ))
      → Memᴰ (id, d) ids
      → get_node m id ≡ some n
      → (x : Reached) × Memᴰ x (collect m curated ids) × (x.node ≡ n) × (x.depth ≡ d)
  unfolding collect
  in_collect id d n [] k e = absurd (Memᴰ.not-nil k)
  in_collect id d n ((j, c) ∷ ids) k e =
      by_node (get_node m j) refl (λ t. in_collect id d n ids t e)
    where
      by_node :
          (o : Option Node)
          → get_node m j ≡ o
          → (Memᴰ (id, d) ids
              → (x : Reached) × Memᴰ x (collect m curated ids) × (x.node ≡ n) × (x.depth ≡ d))
          → (x : Reached) × Memᴰ x (elim o as (λ _. List Reached) [
            | none ↦ collect m curated ids
            | some n ↦
                record { node = n; depth = c; path_curated = is_some (lookup j curated) }
                ∷ collect m curated ids
          ])
            × (x.node ≡ n)
            × (x.depth ≡ d)
      by_node none a rest = elim (in_cons.0 k) [
        | inl i ↦ cc (ap (λ (p : Str × ℕ). p.0) i)
        | inr t ↦ rest t
      ]
      by_node (some n') a rest = elim (in_cons.0 k) [
        | inl i ↦ (
          _,
          Memᴰ.head refl,
          some-injective _ _ (sym a ∙ ap (get_node m) (sym (ap (λ (p : Str × ℕ). p.0) i)) ∙ e),
          sym (ap (λ (p : Str × ℕ). p.1) i),
        )
        | inr t ↦ let (x, there, same, deep) = rest t in (x, Memᴰ.tail there, same, deep)
      ]

pub other_of :
    (start id : Str) (n : ℕ) (d : List (Str × ℕ))
    → lookup id ((start, 0) ∷ d) ≡ some n
    → 1 ≤ n
    → id ≢ start
unfolding lookup
other_of start id n d h le same = ground (arith, str_eq_iff start id)
