-- ===== src/Orchestrator/Extract/Vault.antt =====
-- services/mal-orchestrator/activity.go: the entries of the vault.
use mathlib.Core.Path.{subst}
use open_mal_lab.Common.{
  ℕ, ◌+◌, ◌≤◌, ◌≡◌, refl, inl, inr, Str, List, [], ◌∷◌, Option, none, some, arith, leb, leb→le,
  length, take, take_all, length-take_full, true, All, All-append, All-map, str_eq, str_eq_iff,
  Bool-cases,
}
use open_mal_lab.Common.Assoc.{lookup, insert, lookup-insert, lookup-insert_self}
use open_mal_lab.Common.Result.{Result, ok, err, >>=-eq-ok, past_guard, ok-injective}
use open_mal_lab.Knowledge.Platform.{Platform, hex}
use open_mal_lab.Broker.{Report, child_sha_matches}
use open_mal_lab.Broker as Broker
use open_mal_lab.Pipeline.Types.{SubmissionInput, Child, EngineReport}
use open_mal_lab.Orchestrator.Jail.{Docker}
use open_mal_lab.Orchestrator.Activity.{map_report, Analyzer, ActivityError, Decode}
use open_mal_lab.Orchestrator.Extract.{
  max_ingest_bytes, max_ingest_total_bytes, Staged, Stage, Vault, IngestError, not_hex, stat_child,
  not_regular, over_cap, open_child, vault_temp, copy_child, over_cap_streamed, hash_mismatch,
  or_missing, read_child, place_child, ingest_child, Ingest, keep_child, ingest_children,
  ingest_report, Host, run_extractor, extract_activity,
}

module _ (go : Platform) where
  -- Each entry stands under the hash of its bytes.
  abbrev pub IsAddressed : Vault → Type 0
  IsAddressed v = (sha bytes : Str) → lookup sha v ≡ some bytes → hex (go.sha256 bytes) ≡ sha

  -- The second vault has the entries of the first.
  abbrev pub Extends : Vault → Vault → Type 0
  Extends v w = (sha bytes : Str) → lookup sha v ≡ some bytes → lookup sha w ≡ some bytes

  -- The child's staged file is a regular file whose content, all of it, has the claimed hash and
  -- the given size, within the cap; and the vault has an entry under the hash.
  abbrev pub IsKept : Stage → Vault → Str → ℕ → Type 0
  IsKept stage v sha size =
      ((file : Staged) × (content : Str) × (stage sha ≡ some file)
        × (file.is_regular ≡ true)
        × (file.content ≡ some content)
        × (hex (go.sha256 content) ≡ sha)
        × (length content ≡ size))
      × (size ≤ max_ingest_bytes)
      × ((stored : Str) × (lookup sha v ≡ some stored))

  -- What was read for a child is all of its staged file.
  abbrev IsRead : Stage → Str → Staged × Str → Type 0
  IsRead stage claimed t =
      (stage claimed ≡ some t.0)
      × (t.0.is_regular ≡ true)
      × (t.0.content ≡ some t.1)
      × (hex (go.sha256 t.1) ≡ claimed)
      × (length t.1 ≤ max_ingest_bytes)

  or_missing-ok :
      {A : Type 0} (e : IngestError) (o : Option A) (a : A) → or_missing e o ≡ ok a → o ≡ some a
  unfolding or_missing
  or_missing-ok e none a h = cc
  or_missing-ok e (some b) a h = cc

  read_child-IsRead :
      (stage : Stage) (claimed : Str) (t : Staged × Str)
      → read_child go stage claimed ≡ ok t
      → IsRead stage claimed t
  unfolding read_child
  read_child-IsRead stage claimed t h =
      let (_, h1) = past_guard (child_sha_matches claimed) not_hex _ h in
      let (info, found, h2) = >>=-eq-ok (or_missing stat_child (stage claimed)) _ h1 in
      let (regular, h3) = past_guard info.is_regular not_regular _ h2 in
      let (_, h4) = past_guard (leb info.lstat_size max_ingest_bytes) over_cap _ h3 in
      let (bytes, opened, h5) = >>=-eq-ok (or_missing open_child info.content) _ h4 in
      let (_, h6) = past_guard info.temp_made vault_temp _ h5 in
      let (_, h7) = past_guard info.copied copy_child _ h6 in
      let (fits, h8) =
        past_guard (leb (length (take (max_ingest_bytes + 1) bytes)) max_ingest_bytes)
          over_cap_streamed _ h7 in
      let (same, h9) =
        past_guard (str_eq (hex (go.sha256 (take (max_ingest_bytes + 1) bytes))) claimed)
          hash_mismatch _ h8 in
      let short : length bytes ≤ max_ingest_bytes =
        length-take_full max_ingest_bytes bytes (leb→le _ _ fits) in
      let whole : take (max_ingest_bytes + 1) bytes ≡ bytes =
        take_all (max_ingest_bytes + 1) bytes (omega (arith, short)) in
      subst (IsRead stage claimed)
        (ok-injective (ok (info, take (max_ingest_bytes + 1) bytes)) refl h9)
        (rw whole (
          or_missing-ok stat_child _ _ found,
          regular,
          or_missing-ok open_child _ _ opened,
          rw whole at ((str_eq_iff _ claimed).0 same),
          short,
        ))

  -- What the ingest of one child does to the vault, and what it says of the child.
  abbrev Ingests : Stage → Vault → Str → Result IngestError ℕ × Vault → Type 0
  Ingests stage v claimed r =
      (IsAddressed v → IsAddressed r.1)
      × Extends v r.1
      × ((size : ℕ) → r.0 ≡ ok size → IsKept stage r.1 claimed size)

  place_child-Ingests :
      (stage : Stage) (v : Vault) (claimed : Str) (t : Staged × Str)
      → IsRead stage claimed t
      → Ingests stage v claimed (place_child v claimed t (lookup claimed v))
  unfolding place_child
  place_child-Ingests stage v claimed (info, bytes) (found, regular, opened, h, fits) =
      by_old (lookup claimed v) refl
    where
      kept :
          (w : Vault) (stored : Str) (size : ℕ)
          → length bytes ≡ size
          → lookup claimed w ≡ some stored
          → IsKept stage w claimed size
      kept w stored size n k =
          ((info, bytes, found, regular, opened, h, n), omega (arith, n, fits), (stored, k))

      by_old :
          (o : Option Str)
          → lookup claimed v ≡ o
          → Ingests stage v claimed (place_child v claimed (info, bytes) o)
      by_old (some old) e = (
        λ a. a,
        λ sha b k. k,
        λ size k. kept v old size (ok-injective (ok (length bytes)) refl k) e,
      )
      by_old none e = elim (Bool-cases info.renamed) [
        | inr failed ↦ rw failed (λ a. a, λ sha b k. k, λ size k. cc)
        | inl moved ↦ rw moved (
          λ a sha b k.
              ground (arith, a sha b, lookup-insert claimed sha bytes v, str_eq_iff claimed sha),
          λ sha b k. ground (arith, lookup-insert claimed sha bytes v, str_eq_iff claimed sha),
          λ size k.
              kept (insert claimed bytes v) bytes size (ok-injective (ok (length bytes)) refl k)
                (lookup-insert_self claimed bytes v),
        )
      ]

  ingest_child-Ingests :
      (stage : Stage) (v : Vault) (claimed : Str)
      → Ingests stage v claimed (ingest_child go stage v claimed)
  unfolding ingest_child
  ingest_child-Ingests stage v claimed = by_read (read_child go stage claimed) refl
    where
      by_read :
          (r : Result IngestError (Staged × Str))
          → read_child go stage claimed ≡ r
          → Ingests stage v claimed (elim r as (λ _. Result IngestError ℕ × Vault) [
            | err e ↦ (err e, v)
            | ok t ↦ place_child v claimed t (lookup claimed v)
          ])
      by_read (err e) k = (λ a. a, λ sha b k. k, λ size k. cc)
      by_read (ok t) k = place_child-Ingests stage v claimed t (read_child-IsRead stage claimed t k)

  -- The loop's state: its vault is the first one with verified entries, each child in it is kept, and the sizes are within the budget
  -- and one child.
  record IsSound (stage : Stage) (v : Vault) (st : Ingest) : Type 0 where
    addressed : IsAddressed v → IsAddressed st.vault
    extends : Extends v st.vault
    kept : All (λ (c : Child). IsKept stage st.vault c.sha256 c.size) st.verified
    within : st.total ≤ max_ingest_total_bytes + max_ingest_bytes

  keep_child-IsSound :
      (stage : Stage) (v : Vault) (st : Ingest) (c : Broker.Child)
      → IsSound stage v st
      → st.total ≤ max_ingest_total_bytes
      → IsSound stage v (keep_child st c (ingest_child go stage st.vault c.sha256))
  unfolding keep_child
  keep_child-IsSound stage v st c h room =
      by_result (ingest_child go stage st.vault c.sha256)
        (ingest_child-Ingests stage st.vault c.sha256)
    where
      grown :
          (w : Vault)
          → Extends st.vault w
          → All (λ (d : Child). IsKept stage w d.sha256 d.size) st.verified
      grown w x = All-map (λ d k. (k.0, k.1, (k.2.0, x d.sha256 k.2.0 k.2.1))) st.verified h.kept

      by_result :
          (r : Result IngestError ℕ × Vault)
          → Ingests stage st.vault c.sha256 r
          → IsSound stage v (keep_child st c r)
      by_result (err e, w) (a, x, k) = record {
        addressed = λ i. a (h.addressed i);
        extends = λ sha b l. x sha b (h.extends sha b l);
        kept = grown w x;
        within = h.within;
      }
      by_result (ok size, w) (a, x, k) = record {
        addressed = λ i. a (h.addressed i);
        extends = λ sha b l. x sha b (h.extends sha b l);
        kept = All-append _ st.verified _ (grown w x) (k size refl, tt);
        within = omega (arith, room, (k size refl).1);
      }

  ingest_children-IsSound :
      (stage : Stage) (v : Vault) (cs : List Broker.Child) (st : Ingest)
      → IsSound stage v st
      → IsSound stage v (ingest_children go stage st cs)
  unfolding ingest_children
  ingest_children-IsSound stage v [] st h = h
  ingest_children-IsSound stage v (c ∷ cs) st h =
      elim (Bool-cases (leb max_ingest_total_bytes st.total)) [
        | inl full ↦ rw full (record {
          addressed = h.addressed;
          extends = h.extends;
          kept = h.kept;
          within = h.within;
        })
        | inr room ↦ rw room (
            ingest_children-IsSound stage v cs _ (keep_child-IsSound stage v st c h (ground arith)))
      ]

-- Whatever a worker staged, and whether or not its extraction succeeds, the vault keeps its entries
-- as they are, and entries that all stand under the hash of their bytes still do. Each child that
-- the report lists is a regular file of the staging directory, the whole of whose content hashes to
-- the name that the report gives it and has the size that it gives, within the cap; and the vault
-- has an entry under that name. What one extraction ingests is at most its budget and one child.
pub extract-IsKept :
    (go : Platform) (docker : Docker) (decode : Decode) (a : Analyzer) (host : Host) (stage : Stage)
    (v : Vault) (input : SubmissionInput)
    → Extends go v (extract_activity go docker decode a host stage v input).1
      × (IsAddressed go v
          → IsAddressed go (extract_activity go docker decode a host stage v input).1)
      × ((rep : EngineReport)
          → (extract_activity go docker decode a host stage v input).0 ≡ ok rep
          → All
              (λ (c : Child).
                IsKept go stage
                  (extract_activity go docker decode a host stage v input).1
                  c.sha256
                  c.size)
              rep.children
            × (rep.ingested_bytes ≤ max_ingest_total_bytes + max_ingest_bytes))
unfolding extract_activity ingest_report
extract-IsKept go docker decode a host stage v input =
    by_run (run_extractor docker decode a host input)
  where
    by_run :
        (r : Result ActivityError Report)
        → let t = elim r as (λ _. Result ActivityError EngineReport × Vault) [
          | err e ↦ (err e, v)
          | ok br ↦ (ok (ingest_report go stage v br).0, (ingest_report go stage v br).1)
        ] in
          Extends go v t.1
          × (IsAddressed go v → IsAddressed go t.1)
          × ((rep : EngineReport)
              → t.0 ≡ ok rep
              → All (λ (c : Child). IsKept go stage t.1 c.sha256 c.size) rep.children
                × (rep.ingested_bytes ≤ max_ingest_total_bytes + max_ingest_bytes))
    by_run (err e) = (λ sha b k. k, λ h. h, λ rep k. cc)
    by_run (ok br) =
        let st : Ingest = record { rep = map_report br; verified = []; total = 0; vault = v } in
        let h = ingest_children-IsSound go stage v br.children st (record {
          addressed = λ i. i;
          extends = λ sha b k. k;
          kept = tt;
          within = omega arith;
        }) in
        (
          h.extends,
          h.addressed,
          λ rep k.
              subst
                (λ (x : EngineReport).
                  All
                    (λ (c : Child). IsKept go stage (ingest_report go stage v br).1 c.sha256 c.size)
                    x.children
                  × (x.ingested_bytes ≤ max_ingest_total_bytes + max_ingest_bytes))
                (ok-injective (ok (ingest_report go stage v br).0) refl k) (h.kept, h.within),
        )
