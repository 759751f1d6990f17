-- ===== src/Orchestrator/Extract/Accounted.antt =====
-- services/mal-orchestrator/activity.go: the report of an extraction.
use open_mal_lab.Common.{
  ℕ, ◌+◌, ◌≡◌, refl, sym, ap, ◌∙◌, ◌⊎◌, inl, inr, true, Str, List, [], ◌∷◌, ◌++◌, append-nil,
  append_assoc, arith, leb, Bool-cases,
}
use open_mal_lab.Common.Result.{Result, ok, err}
use open_mal_lab.Knowledge.Platform.{Platform}
use open_mal_lab.Broker.{Report}
use open_mal_lab.Broker as Broker
use open_mal_lab.Pipeline.Verdict.{suspicious, at_least, join}
use open_mal_lab.Pipeline.Types.{Finding, Child, EngineReport}
use open_mal_lab.Orchestrator.Activity.{map_report}
use open_mal_lab.Orchestrator.Extract.{
  max_ingest_total_bytes, Stage, Vault, IngestError, ingest_child, flag, ingest_cap,
  ingest_rejected, Ingest, keep_child, ingest_children, ingest_report,
}

-- The report was flagged: it is incomplete, and its verdict is at least SUSPICIOUS.
abbrev pub IsFlagged : EngineReport → Type 0
IsFlagged rep = (rep.incomplete ≡ true) × (at_least rep.verdict suspicious ≡ true)

flag-IsFlagged : (f : Finding) (rep : EngineReport) → IsFlagged (flag f rep)
unfolding join
flag-IsFlagged f rep = (refl, ground arith)

-- What a child is called: its hash and its name.
abbrev pub labels : List Child → List (Str × Str)
labels [] = []
labels (c ∷ cs) = (c.sha256, c.name) ∷ labels cs

abbrev pub claimed_labels : List Broker.Child → List (Str × Str)
claimed_labels [] = []
claimed_labels (c ∷ cs) = (c.sha256, c.name) ∷ claimed_labels cs

abbrev pub total_size : List Child → ℕ
total_size [] = 0
total_size (c ∷ cs) = c.size + total_size cs

labels-append : (xs ys : List Child) → labels (xs ++ ys) ≡ labels xs ++ labels ys
labels-append [] ys = refl
labels-append (x ∷ xs) ys = ap (λ l. (x.sha256, x.name) ∷ l) (labels-append xs ys)

total_size-append : (xs ys : List Child) → total_size (xs ++ ys) ≡ total_size xs + total_size ys
total_size-append [] ys = omega arith
total_size-append (x ∷ xs) ys = omega (arith, total_size-append xs ys)

-- The children in the report are those called `names`, in this order, and the report is otherwise
-- as it was; or it was flagged.
abbrev Accounts : List (Str × Str) → EngineReport → Ingest → Type 0
Accounts names rep st = ((labels st.verified ≡ names) × (st.rep ≡ rep)) ⊎ IsFlagged st.rep

-- A flag stays.
ingest_children-IsFlagged :
    (go : Platform) (stage : Stage) (cs : List Broker.Child) (st : Ingest)
    → IsFlagged st.rep
    → IsFlagged (ingest_children go stage st cs).rep
unfolding ingest_children keep_child
ingest_children-IsFlagged go stage [] st h = h
ingest_children-IsFlagged go stage (c ∷ cs) st h =
    elim (Bool-cases (leb max_ingest_total_bytes st.total)) [
      | inl full ↦ rw full (flag-IsFlagged ingest_cap st.rep)
      | inr room ↦ rw room (
          ingest_children-IsFlagged go stage cs _
            (by_result (ingest_child go stage st.vault c.sha256)))
    ]
  where
    by_result : (r : Result IngestError ℕ × Vault) → IsFlagged (keep_child st c r).rep
    by_result (err e, w) = flag-IsFlagged ingest_rejected st.rep
    by_result (ok size, w) = h

ingest_children-Accounts :
    (go : Platform) (stage : Stage) (cs : List Broker.Child) (st : Ingest)
    → Accounts (labels st.verified ++ claimed_labels cs) st.rep (ingest_children go stage st cs)
unfolding ingest_children keep_child
ingest_children-Accounts go stage [] st = inl (sym (append-nil (labels st.verified)), refl)
ingest_children-Accounts go stage (c ∷ cs) st =
    elim (Bool-cases (leb max_ingest_total_bytes st.total)) [
      | inl full ↦ rw full (inr (flag-IsFlagged ingest_cap st.rep))
      | inr room ↦ rw room (
          by_result (ingest_child go stage st.vault c.sha256)
            (λ s. ingest_children-Accounts go stage cs s)
            (λ s. ingest_children-IsFlagged go stage cs s))
    ]
  where
    by_result :
        (r : Result IngestError ℕ × Vault)
        → ((s : Ingest)
            → Accounts
                (labels s.verified ++ claimed_labels cs)
                s.rep
                (ingest_children go stage s cs))
        → ((s : Ingest) → IsFlagged s.rep → IsFlagged (ingest_children go stage s cs).rep)
        → Accounts
            (labels st.verified ++ claimed_labels (c ∷ cs))
            st.rep
            (ingest_children go stage (keep_child st c r) cs)
    by_result (err e, w) rest flagged =
        inr (flagged (keep_child st c (err e, w)) (flag-IsFlagged ingest_rejected st.rep))
    by_result (ok size, w) rest flagged = elim (rest (keep_child st c (ok size, w))) [
      | inl (names, same) ↦ inl (
        names
            ∙ ap (λ l. l ++ claimed_labels cs)
                (labels-append st.verified
                  (record { sha256 = c.sha256; size = size; name = c.name } ∷ []))
            ∙ append_assoc (labels st.verified) ((c.sha256, c.name) ∷ []) (claimed_labels cs),
        same,
      )
      | inr f ↦ inr f
    ]

-- The count of bytes is that of the children that were kept.
abbrev IsCounted : Ingest → Type 0
IsCounted st = st.total ≡ total_size st.verified

ingest_children-IsCounted :
    (go : Platform) (stage : Stage) (cs : List Broker.Child) (st : Ingest)
    → IsCounted st
    → IsCounted (ingest_children go stage st cs)
unfolding ingest_children keep_child
ingest_children-IsCounted go stage [] st h = h
ingest_children-IsCounted go stage (c ∷ cs) st h =
    elim (Bool-cases (leb max_ingest_total_bytes st.total)) [
      | inl full ↦ rw full h
      | inr room ↦ rw room (
          ingest_children-IsCounted go stage cs _
            (by_result (ingest_child go stage st.vault c.sha256)))
    ]
  where
    by_result : (r : Result IngestError ℕ × Vault) → IsCounted (keep_child st c r)
    by_result (err e, w) = h
    by_result (ok size, w) = omega (
      arith,
      h,
      total_size-append st.verified (record { sha256 = c.sha256; size = size; name = c.name } ∷ []),
    )

-- The report of an extraction has the children of the broker's report, each with the hash and the
-- name that it has there and in the same order, and is the mapped report but for these and for the
-- count of bytes; or it is incomplete and at least SUSPICIOUS: no child is dropped without that.
-- In both cases the count of bytes is the sum of the sizes of its children.
pub ingest_report_lem :
    (go : Platform) (stage : Stage) (v : Vault) (br : Report)
    → (((labels (ingest_report go stage v br).0.children ≡ claimed_labels br.children)
          × ((ingest_report go stage v br).0 ≡ record (map_report br) {
            children = (ingest_report go stage v br).0.children;
            ingested_bytes = (ingest_report go stage v br).0.ingested_bytes;
          }))
        ⊎ IsFlagged (ingest_report go stage v br).0)
      × ((ingest_report go stage v br).0.ingested_bytes
          ≡ total_size (ingest_report go stage v br).0.children)
unfolding ingest_report
ingest_report_lem go stage v br =
    let st : Ingest = record { rep = map_report br; verified = []; total = 0; vault = v } in
    (
      elim (ingest_children-Accounts go stage br.children st) [
        | inl (names, same) ↦ inl (
          names,
          ap
              (λ (x : EngineReport). record x {
                children = (ingest_report go stage v br).0.children;
                ingested_bytes = (ingest_report go stage v br).0.ingested_bytes;
              })
              same,
        )
        | inr f ↦ inr f
      ],
      ingest_children-IsCounted go stage br.children st refl,
    )
