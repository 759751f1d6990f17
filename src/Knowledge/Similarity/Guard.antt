-- ===== src/Knowledge/Similarity/Guard.antt =====
-- internal/knowledge/similarity.go: the index under observed signatures.
use open_mal_lab.Common.{
  ◌≤◌, ◌≡◌, refl, Bool, true, false, Str, Option, none, some, arith, if◌then◌else◌, length,
  str_eq_iff,
}
use open_mal_lab.Common.Assoc.{lookup, lookup-insert, length-insert}
use open_mal_lab.Knowledge.Platform.{Platform}
use open_mal_lab.Knowledge.Store.{ingest, curated}
use open_mal_lab.Knowledge.Similarity.{
  Signature, SimEntry, SimIndex, add_entry, add, add_observed, get_entry,
}

-- The curated entries of the first index are those of the second, whose size is within the cap
-- where that of the first was.
pub record IsGuarded (x y : SimIndex) : Type 0 where
  pub kept :
      (id : Str) (e : SimEntry)
      → get_entry x id ≡ some e
      → e.trust ≡ curated
      → get_entry y id ≡ some e
  pub capped : length x.entries ≤ x.max → length y.entries ≤ y.max

add_entry-IsGuarded :
    (x : SimIndex) (e : SimEntry) (o : Option SimEntry)
    → lookup e.id x.entries ≡ o
    → e.trust ≡ ingest
    → IsGuarded x (add_entry x e o).1
unfolding add_entry get_entry
add_entry-IsGuarded x e none l t = record {
  kept = λ id f h c. ground (arith, lookup-insert e.id id e x.entries, str_eq_iff e.id id);
  capped = λ h. ground (arith, length-insert e.id e x.entries);
}
add_entry-IsGuarded x e (some existing) l t = record {
  kept = λ id f h c. ground (arith, lookup-insert e.id id e x.entries, str_eq_iff e.id id);
  capped = λ h. ground (arith, length-insert e.id e x.entries);
}

if_IsGuarded :
    (x : SimIndex) (b : Bool) (o : Option SimEntry) (r : Option SimEntry × SimIndex)
    → IsGuarded x r.1
    → IsGuarded x (if b then (o, x) else r).1
if_IsGuarded x true o r g = record { kept = λ id e h c. h; capped = λ h. h }
if_IsGuarded x false o r g = g

-- Recording an observed signature, whatever it, its label and its source are, keeps every curated
-- entry of the index as it is, and an index within its cap within its cap.
pub add_observed-IsGuarded :
    (go : Platform) (x : SimIndex) (sig : Signature) (label source : Str)
    → IsGuarded x (add_observed go x sig label source).1
unfolding add_observed add
add_observed-IsGuarded go x sig label source =
    if_IsGuarded x _ none _ (add_entry-IsGuarded x _ _ refl refl)
