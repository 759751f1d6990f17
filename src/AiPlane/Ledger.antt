-- ===== src/AiPlane/Ledger.antt =====
-- internal/aiplane/ledger.go: the hash-chained log of AI handshakes.
pub mod Tamper
use open_mal_lab.Common.{
  ℕ, zero, suc, ◌+◌, Bool, true, false, not, Str, List, [], ◌∷◌, ◌++◌, if◌then◌else◌, length, ◌==◌,
  str_eq,
}
use open_mal_lab.Common.Result.{Result, ok, err}

pub record Handshake : Type 0 where
  pub seq : ℕ
  pub submission_id : Str
  pub provider : Str
  pub evidence_hash : Str
  pub proposal_hash : Str
  pub outcome : Str
  pub needs_human : Bool
  pub accepted : ℕ
  pub cited_fact_ids : List Str
  pub retrieval_tiers : List Str
  pub prev_hash : Str
  pub hash : Str

pub record Ledger : Type 0 where
  pub entries : List Handshake
  pub last_hash : Str

pub data LedgerError : Type 0 where
  bad_seq breaks_chain hash_mismatch : ℕ → LedgerError
  head_mismatch : LedgerError
  count_not_anchored : ℕ → ℕ → LedgerError
  head_not_anchored : Str → LedgerError

unfoldable pub new_ledger : Ledger
new_ledger = record { entries = []; last_hash = [] }

abbrev pub blank : Handshake → Handshake
blank h = record h { hash = [] }

abbrev pub check_head : Str → Result LedgerError Str → Result LedgerError (Unit {0})
check_head head (err e) = err e
check_head head (ok prev) = if str_eq prev head then ok tt else err head_mismatch

abbrev pub check_anchor :
    Ledger → ℕ → Str → Result LedgerError (Unit {0}) → Result LedgerError (Unit {0})
check_anchor l count head (err e) = err e
check_anchor l count head (ok _) =
    if not (length l.entries == count)
    then err (count_not_anchored (length l.entries) count)
    else if not (str_eq l.last_hash head)
    then err (head_not_anchored l.last_hash)
    else ok tt

-- `marshal` is encoding/json's Marshal of a handshake, which cannot fail, and `digest` the hex of
-- crypto/sha256's Sum256.
module _ (marshal : Handshake → Str) (digest : Str → Str) where
  unfoldable pub hash_handshake : Handshake → Str
  hash_handshake h = digest (marshal (blank h))

  -- The handshake with the three fields that `Append` assigns.
  unfoldable pub seal : Ledger → Handshake → Handshake
  seal l h =
      let stamped = record h { seq = length l.entries; prev_hash = l.last_hash } in
      record stamped { hash = hash_handshake stamped }

  unfoldable pub append : Ledger → Handshake → Handshake × Ledger
  append l h =
      let sealed = seal l h in
      (sealed, record { entries = l.entries ++ (sealed ∷ []); last_hash = sealed.hash })

  -- The loop of `Verify` from entry `i`, with the hash of the entry before; it ends with the hash
  -- of the last entry.
  unfoldable pub check_chain : ℕ → Str → List Handshake → Result LedgerError Str
  check_chain i prev [] = ok prev
  check_chain i prev (h ∷ hs) =
      let rest = check_chain (i + 1) h.hash hs in
      if not (h.seq == i)
      then err (bad_seq i)
      else if not (str_eq h.prev_hash prev)
      then err (breaks_chain i)
      else if not (str_eq h.hash (hash_handshake h))
      then err (hash_mismatch i)
      else rest

  unfoldable pub verify : Ledger → Result LedgerError (Unit {0})
  verify l = check_head l.last_hash (check_chain 0 [] l.entries)

  unfoldable pub verify_against : Ledger → ℕ → Str → Result LedgerError (Unit {0})
  verify_against l count head = check_anchor l count head (verify l)
