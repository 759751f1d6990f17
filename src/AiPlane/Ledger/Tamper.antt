-- ===== src/AiPlane/Ledger/Tamper.antt =====
-- internal/aiplane/ledger.go: the chain under appends, and two chains with one anchor.
use native.Mathlib.Decide.{ℕ_discrete}
use open_mal_lab.Common.{
  ℕ, ◌+◌, ◌≡◌, ◌≢◌, refl, sym, ap, ◌∙◌, ◌⊎◌, inl, inr, Str, List, [], ◌∷◌, ◌++◌, arith, length,
  str_eq, str_eq_iff, str_eq_refl, Str-discrete,
}
use open_mal_lab.Common.Result.{Result, ok, err}
use open_mal_lab.AiPlane.Ledger.{
  Handshake, Ledger, LedgerError, new_ledger, blank, hash_handshake, seal, append, check_chain,
  check_head, verify, check_anchor, verify_against,
}

Handshake-discrete : Discrete Handshake
Handshake-discrete = hlevel (ℕ_discrete, Str-discrete)

abbrev rehash : Str → Handshake → Handshake
rehash s h = record h { hash = s }

unblank : (x y : Handshake) → blank x ≡ blank y → x.hash ≡ y.hash → x ≡ y
unblank x y e h = ap (rehash x.hash) e ∙ ap (λ s. rehash s y) h

module _ (marshal : Handshake → Str) (digest : Str → Str) where
  -- Two handshakes get one hash because their JSON is one, or because the digest of two byte strings
  -- is one.
  abbrev pub SharesHash : Handshake → Handshake → Type 0
  SharesHash x y =
      (marshal (blank x) ≡ marshal (blank y))
      ⊎ ((marshal (blank x) ≢ marshal (blank y))
          × (digest (marshal (blank x)) ≡ digest (marshal (blank y))))

  -- The two lists part at one position: behind it they are the same, and the entries that stand
  -- there differ in more than the `hash` field although they get one hash.
  pub record Clash (xs ys : List Handshake) : Type 0 where
    pub before_left : List Handshake
    pub before_right : List Handshake
    pub left : Handshake
    pub right : Handshake
    pub after : List Handshake
    pub of_left : xs ≡ before_left ++ left ∷ after
    pub of_right : ys ≡ before_right ++ right ∷ after
    pub same_position : length before_left ≡ length before_right
    pub differ : blank left ≢ blank right
    pub shares_hash : SharesHash left right

  Clash-cons : (x y : Handshake) (xs ys : List Handshake) → Clash xs ys → Clash (x ∷ xs) (y ∷ ys)
  Clash-cons x y xs ys c = record {
    before_left = x ∷ c.before_left;
    before_right = y ∷ c.before_right;
    left = c.left;
    right = c.right;
    after = c.after;
    of_left = ap (λ l. x ∷ l) c.of_left;
    of_right = ap (λ l. y ∷ l) c.of_right;
    same_position = omega (arith, c.same_position);
    differ = c.differ;
    shares_hash = c.shares_hash;
  }

  shares :
      (x y : Handshake)
      → hash_handshake marshal digest x ≡ hash_handshake marshal digest y
      → SharesHash x y
  unfolding hash_handshake
  shares x y e = elim (Str-discrete (marshal (blank x)) (marshal (blank y))) [
    | yes same ↦ inl same
    | no other ↦ inr (other, e)
  ]

  check_chain-cons :
      (i : ℕ) (prev : Str) (h : Handshake) (hs : List Handshake) {e : Str}
      → check_chain marshal digest i prev (h ∷ hs) ≡ ok e
      → (h.seq ≡ i)
        × (h.prev_hash ≡ prev)
        × (h.hash ≡ hash_handshake marshal digest h)
        × (check_chain marshal digest (i + 1) h.hash hs ≡ ok e)
  unfolding check_chain
  check_chain-cons i prev h hs e =
      ground
        (arith, str_eq_iff h.prev_hash prev, str_eq_iff h.hash (hash_handshake marshal digest h))

  check_chain-snoc :
      (i : ℕ) (prev : Str) (hs : List Handshake) (h : Handshake) {e : Str}
      → check_chain marshal digest i prev hs ≡ ok e
      → h.seq ≡ i + length hs
      → h.prev_hash ≡ e
      → h.hash ≡ hash_handshake marshal digest h
      → check_chain marshal digest i prev (hs ++ (h ∷ [])) ≡ ok h.hash
  unfolding check_chain
  check_chain-snoc i prev [] h c s p q = ground (arith, str_eq_refl prev, str_eq_refl h.hash)
  check_chain-snoc i prev (x ∷ hs) h c s p q =
      let first = check_chain-cons i prev x hs c in
      let rest = check_chain-snoc (i + 1) x.hash hs h first.3 (omega arith) p q in ground (arith)

  verify-chain :
      (l : Ledger)
      → verify marshal digest l ≡ ok tt
      → check_chain marshal digest 0 [] l.entries ≡ ok l.last_hash
  unfolding verify
  verify-chain l h = by_result (check_chain marshal digest 0 [] l.entries) refl h
    where
      by_result :
          (r : Result LedgerError Str)
          → check_chain marshal digest 0 [] l.entries ≡ r
          → check_head l.last_hash r ≡ ok tt
          → check_chain marshal digest 0 [] l.entries ≡ ok l.last_hash
      by_result (ok prev) e h = ground (arith, str_eq_iff prev l.last_hash)
      by_result (err x) e h = cc

  empty_chain : (i : ℕ) (p : Str) {e : Str} → check_chain marshal digest i p [] ≡ ok e → p ≡ e
  unfolding check_chain
  empty_chain i p h = cc

  same_chain :
      (i : ℕ) (p q : Str) (xs ys : List Handshake) {e : Str}
      → check_chain marshal digest i p xs ≡ ok e
      → check_chain marshal digest i q ys ≡ ok e
      → length xs ≡ length ys
      → ((xs ≡ ys) × (p ≡ q)) ⊎ Clash xs ys
  same_chain i p q [] [] a b n = inl (refl, empty_chain i p a ∙ sym (empty_chain i q b))
  same_chain i p q [] (y ∷ ys) a b n = cc
  same_chain i p q (x ∷ xs) [] a b n = cc
  same_chain i p q (x ∷ xs) (y ∷ ys) a b n =
      let cx = check_chain-cons i p x xs a in
      let cy = check_chain-cons i q y ys b in
      elim (same_chain (i + 1) x.hash y.hash xs ys cx.3 cy.3 (omega arith)) [
        | inr c ↦ inr (Clash-cons x y xs ys c)
        | inl same ↦ elim (Handshake-discrete (blank x) (blank y)) [
          | yes e ↦ inl (
            rw same.0 (ap (λ z. z ∷ ys) (unblank x y e same.1)),
            sym cx.1 ∙ ap (λ z. z.prev_hash) e ∙ cy.1,
          )
          | no d ↦ inr (record {
            before_left = [];
            before_right = [];
            left = x;
            right = y;
            after = ys;
            of_left = ap (λ l. x ∷ l) same.0;
            of_right = refl;
            same_position = refl;
            differ = d;
            shares_hash = shares x y (sym cx.2 ∙ same.1 ∙ cy.2);
          })
        ]
      ]

  -- Appending to a ledger that verifies gives one that verifies, one entry longer, with the earlier
  -- entries unchanged in front of the sealed handshake and its hash as the head.
  pub append-verify :
      (l : Ledger) (h : Handshake)
      → verify marshal digest l ≡ ok tt
      → (verify marshal digest (append marshal digest l h).1 ≡ ok tt)
        × ((append marshal digest l h).1.entries
            ≡ l.entries ++ ((append marshal digest l h).0 ∷ []))
        × ((append marshal digest l h).1.last_hash
            ≡ hash_handshake marshal digest (append marshal digest l h).0)
  unfolding append seal hash_handshake
  append-verify l h v = (
    unfold verify in
        rw
          (check_chain-snoc 0 [] l.entries (seal marshal digest l h) (verify-chain l v)
            (omega arith) refl refl)
          (ground (arith, str_eq_refl (seal marshal digest l h).hash)),
    refl,
    refl,
  )

  unfoldable pub append_all : Ledger → List Handshake → Ledger
  append_all l [] = l
  append_all l (h ∷ hs) = append_all (append marshal digest l h).1 hs

  -- A ledger filled by appends alone verifies.
  pub append_all-verify :
      (hs : List Handshake) → verify marshal digest (append_all new_ledger hs) ≡ ok tt
  unfolding append_all str_eq
  append_all-verify hs = from new_ledger hs (unfold new_ledger verify check_chain in refl)
    where
      from :
          (l : Ledger) (hs : List Handshake)
          → verify marshal digest l ≡ ok tt
          → verify marshal digest (append_all l hs) ≡ ok tt
      from l [] v = v
      from l (h ∷ hs) v = from (append marshal digest l h).1 hs (append-verify l h v).0

  -- Two ledgers that both verify against the same anchored count and head hash have the same
  -- entries, or they part at one position, with the same entries behind it, where they hold two
  -- handshakes with one hash: either the two have the same JSON, or the digest of their different
  -- JSON is one. So a ledger of another length never passes, and in one that was rewritten, JSON or
  -- the digest confuses the last entry that differs with the one in its place.
  pub anchored_entries :
      (l m : Ledger) (count : ℕ) (head : Str)
      → verify_against marshal digest l count head ≡ ok tt
      → verify_against marshal digest m count head ≡ ok tt
      → (l.entries ≡ m.entries) ⊎ Clash l.entries m.entries
  unfolding verify_against
  anchored_entries l m count head a b =
      let la = anchored l a in
      let mb = anchored m b in
      elim (same_chain 0 [] [] l.entries m.entries (rw la.2 at (verify-chain l la.0))
        (rw mb.2 at (verify-chain m mb.0)) (la.1 ∙ sym mb.1)) [
          | inl same ↦ inl same.0
          | inr c ↦ inr c
        ]
    where
      anchored :
          (k : Ledger)
          → check_anchor k count head (verify marshal digest k) ≡ ok tt
          → (verify marshal digest k ≡ ok tt) × (length k.entries ≡ count) × (k.last_hash ≡ head)
      anchored k h = by_result (verify marshal digest k) refl h
        where
          by_result :
              (r : Result LedgerError (Unit {0}))
              → verify marshal digest k ≡ r
              → check_anchor k count head r ≡ ok tt
              → (verify marshal digest k ≡ ok tt)
                × (length k.entries ≡ count)
                × (k.last_hash ≡ head)
          by_result (ok u) e h = (e, ground arith, ground (arith, str_eq_iff k.last_hash head))
          by_result (err x) e h = cc
