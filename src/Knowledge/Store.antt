-- ===== src/Knowledge/Store.antt =====
-- internal/knowledge/registry.go: facts, and the in-memory store with its atomic merge.
use open_mal_lab.Common.{
  ℕ, Bool, true, false, not, ◌&&◌, Str, List, [], Option, none, some, leb, if◌then◌else◌, length,
  ◌==◌,
}
use open_mal_lab.Common.Assoc.{lookup, insert}
use open_mal_lab.Common.Result.{Result, ok, err}

pub data Trust : Type 0 where
  ingest curated : Trust

abbrev pub is_curated : Trust → Bool
is_curated curated = true
is_curated ingest = false

-- The attributes are a map from strings to strings.
pub record Fact : Type 0 where
  pub id : Str
  pub kind : Str
  pub key : Str
  pub label : Str
  pub attrs : List (Str × Str)
  pub trust : Trust
  pub source : Str

pub record MemStore : Type 0 where
  pub facts : List (Str × Fact)
  pub max : ℕ

abbrev pub default_max_facts : ℕ
default_max_facts = 2_000_000

-- A `max` that is not positive means the default; a negative one is read as 0 here.
unfoldable pub new_mem_store_with_cap : ℕ → MemStore
new_mem_store_with_cap max = record {
  facts = [];
  max = if max == 0 then default_max_facts else max;
}

unfoldable pub get : MemStore → Str → Option Fact
get m id = lookup id m.facts

pub data StoreError : Type 0 where
  at_capacity : StoreError

-- What `Merge` does with the answer of `decide`: whether to write, and the fact.
unfoldable pub commit :
    MemStore → Str → Option Fact → Bool × Fact → Result StoreError Fact × MemStore
commit m id (some existing) (false, result) = (ok existing, m)
commit m id none (false, result) = (ok result, m)
commit m id (some existing) (true, result) =
    (ok result, record m { facts = insert id result m.facts })
commit m id none (true, result) =
    if not (is_curated result.trust) && leb m.max (length m.facts)
    then (err at_capacity, m)
    else (ok result, record m { facts = insert id result m.facts })

-- Values are immutable here, so the clones of the source are the values themselves.
unfoldable pub merge :
    MemStore → Str → (Option Fact → Bool × Fact) → Result StoreError Fact × MemStore
unfolding commit get
merge m id decide = commit m id (get m id) (decide (get m id))
