-- ===== src/Knowledge/Similarity.antt =====
-- internal/knowledge/similarity.go: MinHash sketches and the index of references. A similarity is
-- the number of equal lanes: `float64(match) / 64` is exact, so its order is that of the numbers.
pub mod Guard
pub mod Nearest
use Prim.Native.Nat.{bit_xor}
use open_mal_lab.Common.{
  ℕ, zero, suc, ◌+◌, ◌-◌, ◌*◌, ◌/◌, ◌%◌, ◌^◌, Bool, not, ◌&&◌, ◌||◌, Str, List, [], ◌∷◌, ◌++◌,
  Option, none, some, ltb, leb, ◌==◌, if◌then◌else◌, length, any, take, replicate, lit, str_eq,
}
use open_mal_lab.Common.Utf8.{has_control}
use open_mal_lab.Common.Assoc.{lookup, insert}
use open_mal_lab.Knowledge.Platform.{Platform, hex, short_sum, little_endian}
use open_mal_lab.Knowledge.Store.{default_max_facts, Trust, ingest, curated, is_curated}

abbrev pub sig_lanes : ℕ
sig_lanes = 64

-- uint64 arithmetic
abbrev u64 : ℕ → ℕ
u64 n = n % 2 ^ 64

unfoldable pub mix64 : ℕ → ℕ
mix64 x0 =
    let x1 : ℕ = bit_xor x0 (x0 / 2 ^ 30) in
    let x2 : ℕ = u64 (x1 * 0xbf58476d1ce4e5b9) in
    let x3 : ℕ = bit_xor x2 (x2 / 2 ^ 27) in
    let x4 : ℕ = u64 (x3 * 0x94d049bb133111eb) in bit_xor x4 (x4 / 2 ^ 31)

-- laneSeed[i]
unfoldable pub lane_seed : ℕ → ℕ
unfolding mix64
lane_seed i = mix64 (u64 (u64 (i * 0x9e3779b97f4a7c15) + 0x123456789abcdef0))

-- baseHash: the first eight bytes of the sum
unfoldable pub base_hash : Platform → Str → ℕ
base_hash go feature = little_endian (take 8 (go.sha256 feature))

pub record Signature : Type 0 where
  pub min : List ℕ
  pub card : ℕ

unfoldable pub is_empty : Signature → Bool
is_empty s = s.card == 0

-- The eight bytes of a lane, the least significant first.
put_uint64 : ℕ → ℕ → Str
put_uint64 zero x = []
put_uint64 (suc n) x = x % 256 ∷ put_uint64 n (x / 256)

lanes_bytes : List ℕ → Str
unfolding put_uint64
lanes_bytes [] = []
lanes_bytes (m ∷ ms) = put_uint64 8 m ++ lanes_bytes ms

-- func (s Signature) ID
unfoldable pub signature_id : Platform → Signature → Str
unfolding lanes_bytes
signature_id go s = lit "ks_" ++ short_sum go (lanes_bytes s.min)

-- The loop over the lanes, for a feature with base hash `bh`.
unfoldable pub lower_lanes : ℕ → ℕ → List ℕ → List ℕ
unfolding lane_seed
lower_lanes bh i [] = []
lower_lanes bh i (m ∷ ms) =
    let h = mix64 (bit_xor bh (lane_seed i)) in
    (if ltb h m then h else m) ∷ lower_lanes bh (i + 1) ms

unfoldable pub sketch : Platform → List ℕ → List ℕ → List Str → Signature
unfolding lower_lanes base_hash
sketch go min seen [] = record { min = min; card = length seen }
sketch go min seen ([] ∷ fs) = sketch go min seen fs
sketch go min seen ((b ∷ f) ∷ fs) =
    let bh = base_hash go (b ∷ f) in
    let dup = any (λ h. h == bh) seen in
    sketch go (if dup then min else lower_lanes bh 0 min) (if dup then seen else bh ∷ seen) fs

unfoldable pub signature_of : Platform → List Str → Signature
unfolding sketch
signature_of go features = sketch go (replicate sig_lanes (2 ^ 64 - 1)) [] features

abbrev pub max_ngram_bytes : ℕ
max_ngram_bytes = 8_388_608

-- The windows of `n` bytes, as hex strings, each once.
unfoldable pub windows : ℕ → List Str → Str → List Str
unfolding hex
windows n seen [] = []
windows n seen (b ∷ s) =
    let g = hex (take n (b ∷ s)) in
    let dup = any (λ t. str_eq t g) seen in
    let rest = windows n (if dup then seen else g ∷ seen) s in
    if ltb (length (b ∷ s)) n then [] else if dup then rest else g ∷ rest

unfoldable pub n_grams : Str → ℕ → List Str
unfolding windows
n_grams bytes n =
    if n == 0 || ltb (length bytes) n then [] else windows n [] (take max_ngram_bytes bytes)

-- match
unfoldable pub matches : List ℕ → List ℕ → ℕ
matches [] bs = 0
matches (a ∷ as_) [] = 0
matches (a ∷ as_) (b ∷ bs) = (if a == b then 1 else 0) + matches as_ bs

unfoldable pub similarity : Signature → Signature → ℕ
unfolding matches is_empty
similarity a b = if is_empty a || is_empty b then 0 else matches a.min b.min

pub record SimEntry : Type 0 where
  pub id : Str
  pub sig : Signature
  pub trust : Trust
  pub label : Str
  pub source : Str

pub record SimIndex : Type 0 where
  pub entries : List (Str × SimEntry)
  pub max : ℕ

-- A `max` that is not positive means the default; a negative one is read as 0 here.
unfoldable pub new_sim_index_with_cap : ℕ → SimIndex
new_sim_index_with_cap max = record {
  entries = [];
  max = if max == 0 then default_max_facts else max;
}

abbrev pub max_label_len : ℕ
max_label_len = 1024

abbrev pub max_source_len : ℕ
max_source_len = 512

-- The read, decision and write under the lock.
unfoldable pub add_entry : SimIndex → SimEntry → Option SimEntry → Option SimEntry × SimIndex
add_entry x e (some existing) =
    if is_curated existing.trust && not (is_curated e.trust)
    then (some existing, x)
    else (some e, record x { entries = insert e.id e x.entries })
add_entry x e none =
    if not (is_curated e.trust) && leb x.max (length x.entries)
    then (none, x)
    else (some e, record x { entries = insert e.id e x.entries })

-- func (x *SimIndex) add; `none` is a rejection
unfoldable pub add :
    Platform → SimIndex → Signature → Trust → Str → Str → Option SimEntry × SimIndex
unfolding add_entry is_empty
add go x sig trust label source =
    let id = signature_id go sig in
    let e : SimEntry = record {
      id = id;
      sig = sig;
      trust = trust;
      label = label;
      source = source;
    } in
    if is_empty sig
      || ltb max_label_len (length label)
      || ltb max_source_len (length source)
      || has_control label
      || has_control source
    then (none, x)
    else add_entry x e (lookup id x.entries)

unfoldable pub add_reference :
    Platform → SimIndex → Signature → Str → Str → Option SimEntry × SimIndex
add_reference go x sig label source = add go x sig curated label source

unfoldable pub add_observed :
    Platform → SimIndex → Signature → Str → Str → Option SimEntry × SimIndex
add_observed go x sig label source = add go x sig ingest label source

-- func (x *SimIndex) Get
unfoldable pub get_entry : SimIndex → Str → Option SimEntry
get_entry x id = lookup id x.entries
